-- ===== src/Paxos/Unseen.antt =====
-- What becomes of a slot that a P3 commits before its P2a has arrived.
use pigpaxos.Prelude.{
  ℕ, zero, suc, ◌+◌, ◌-◌, ◌≤◌, ◌<◌, ◌≡◌, refl, ap, ◌∙◌, sym, List, [], ◌∷◌, none, some, true, ◌==◌,
  leb, arith, Bool-cases, Option-cases, inl, inr, contains,
}
use pigpaxos.Prelude.Assoc.{lookup, insert, lookup-insert}
use pigpaxos.Db.{Database}
use pigpaxos.Db
use pigpaxos.Pig.Msg.{P2a, P3}
use pigpaxos.Pig.State.{Entry, no_command}
use pigpaxos.Pig.Commit.{commit_at}
use pigpaxos.Pig.Running.{commands, commands-insert}
use pigpaxos.Paxos.State.{Paxos}
use pigpaxos.Paxos.Exec.{execute_entry, exec_loop, exec}
use pigpaxos.Paxos.Accept.{accept_p2a, vote_p2a}
use pigpaxos.Paxos.Commit.{commit_slots, handle_p3, handle_p2a}
use pigpaxos.Paxos.Running.{Ran, exec_loop-Ran, exec_loop_first, commands-same, commands-kept}

-- what `HandleP3` puts at a slot whose P2a has not arrived
abbrev unseen_entry : Entry
unseen_entry = record {
  ballot = 0;
  command = no_command;
  commit = true;
  request = none;
  quorum = none;
  timestamp = 0;
}

commit_at-unseen : (ballot : ℕ) → commit_at ballot (some unseen_entry) ≡ unseen_entry
commit_at-unseen ballot = elim (Bool-cases (0 == ballot)) [
  | inl same ↦ rw (same, commit_at) refl
  | inr other ↦ rw (other, commit_at) refl
]

marked_again :
    (ballot : ℕ) (slots : List ℕ) (p : Paxos) (s : ℕ)
    → lookup s p.log ≡ some unseen_entry
    → lookup s (commit_slots ballot slots p).log ≡ some unseen_entry
unfolding commit_slots
marked_again ballot [] p s h = h
marked_again ballot (t ∷ slots) p s h =
    let kept : lookup s (insert t (commit_at ballot (lookup t p.log)) p.log) ≡ some unseen_entry =
      elim (Bool-cases (t == s)) [
        | inl same ↦
            let here : lookup t p.log ≡ some unseen_entry = ground (arith, h) in
            rw here
              (rw (commit_at-unseen ballot) (ground (arith, lookup-insert t s unseen_entry p.log)))
        | inr other ↦ ground (arith, h, lookup-insert t s (commit_at ballot (lookup t p.log)) p.log)
      ] in
    marked_again ballot slots _ s kept

marked_once :
    (ballot : ℕ) (slots : List ℕ) (p : Paxos) (s : ℕ)
    → lookup s p.log ≡ none
    → contains slots s ≡ true
    → lookup s (commit_slots ballot slots p).log ≡ some unseen_entry
unfolding commit_slots
marked_once ballot [] p s h k = absurd (ground arith)
marked_once ballot (t ∷ slots) p s h k = elim (Bool-cases (t == s)) [
  | inl same ↦
      let here : lookup t p.log ≡ none = ground (arith, h) in
      let put : lookup s (insert t (commit_at ballot (lookup t p.log)) p.log) ≡ some unseen_entry =
        rw here (ground (arith, lookup-insert t s unseen_entry p.log)) in
      marked_again ballot slots _ s put
  | inr other ↦
      marked_once ballot slots _ s
        (ground (arith, h, lookup-insert t s (commit_at ballot (lookup t p.log)) p.log))
        (ground (arith, k))
]

-- `y` is `x` but for its log, its slot counter and what it has sent.
record Marked (x y : Paxos) : Type 0 where
  execute : y.execute ≡ x.execute
  ballot : y.ballot ≡ x.ballot
  db : y.db ≡ x.db

commit_slots-Marked :
    (ballot : ℕ) (slots : List ℕ) (p : Paxos) → Marked p (commit_slots ballot slots p)
unfolding commit_slots
commit_slots-Marked ballot [] p = record { execute = refl; ballot = refl; db = refl }
commit_slots-Marked ballot (s ∷ slots) p =
    let m = commit_slots-Marked ballot slots _ in
    record { execute = m.execute; ballot = m.ballot; db = m.db }

ballot-exec_loop : (fuel : ℕ) (x : Paxos) → (exec_loop fuel x).ballot ≡ x.ballot
unfolding exec_loop execute_entry
ballot-exec_loop zero x = refl
ballot-exec_loop (suc fuel) x = elim (Option-cases (lookup x.execute x.log)) [
  | inl nothing ↦ rw (nothing, exec_loop) refl
  | inr (e, has) ↦ elim (Bool-cases e.commit) [
    | inr open_yet ↦ rw (has, exec_loop) (rw open_yet refl)
    | inl done ↦ rw (has, exec_loop) (rw done (ballot-exec_loop fuel _))
  ]
]

ballot-execute_entry : (x : Paxos) → (execute_entry unseen_entry x).ballot ≡ x.ballot
unfolding execute_entry
ballot-execute_entry x = refl

-- The entry that a late P2a leaves at such a slot.
abbrev pub late_entry : P2a → Entry
late_entry a = record unseen_entry { ballot = a.ballot; command = a.command }

accept-late :
    (a : P2a) (z : Paxos)
    → lookup a.slot z.log ≡ some unseen_entry
    → z.ballot ≤ a.ballot
    → a.p3msg.slots ≡ []
    → ((handle_p2a a z).execute ≡ z.execute)
      × ((handle_p2a a z).db ≡ z.db)
      × ((handle_p2a a z).log ≡ insert a.slot (late_entry a) z.log)
unfolding handle_p2a vote_p2a accept_p2a
accept-late a z at new alone =
    let test : leb z.ballot a.ballot ≡ true = ground arith in
    rw alone (rw test (refl, refl, rw at refl))

-- The slot at the execution point of `x` is passed and never ran, though its command is in the log.
pub record Skipped (x : Paxos) (a : P2a) (y : Paxos) : Type 0 where
  pub passed : x.execute < y.execute
  pub logged : lookup x.execute y.log ≡ some (late_entry a)
  pub result : y.db ≡ (Db.run x.db (commands y.log (x.execute + 1) (y.execute - (x.execute + 1)))).1

-- After the P3: the slot is passed, and the database has run the slots behind it only.
record RanEmpty (x y : Paxos) : Type 0 where
  passed : x.execute < y.execute
  unseen : lookup x.execute y.log ≡ some unseen_entry
  ballot : y.ballot ≡ x.ballot
  result : y.db ≡ (Db.run x.db (commands y.log (x.execute + 1) (y.execute - (x.execute + 1)))).1

Ran-RanEmpty :
    (x z : Paxos)
    → lookup x.execute x.log ≡ some unseen_entry
    → Ran (execute_entry unseen_entry x) z
    → z.ballot ≡ x.ballot
    → RanEmpty x z
unfolding execute_entry Db.execute Db.put
Ran-RanEmpty x z here ran b =
    let y = execute_entry unseen_entry x in
    record {
      passed = omega (arith, ran.onward);
      unseen =
          ground (arith, ran.kept x.execute, lookup-insert x.execute x.execute unseen_entry x.log);
      ballot = b;
      result =
          ran.result
          ∙ ap (λ cs. (Db.run x.db cs).1)
              (sym (
                commands-same y.log z.log (x.execute + 1) (z.execute - (x.execute + 1))
                  (λ t. commands-kept y z ran t)));
    }

Marked-RanEmpty : (p x y : Paxos) → Marked p x → RanEmpty x y → RanEmpty p y
Marked-RanEmpty p x y k r = record {
  passed = omega (arith, k.execute, r.passed);
  unseen = ap (λ s. lookup s y.log) (sym k.execute) ∙ r.unseen;
  ballot = r.ballot ∙ k.ballot;
  result = r.result ∙ rw (k.execute, k.db) refl;
}

handle_p3-RanEmpty :
    (p : Paxos) (m : P3)
    → lookup p.execute p.log ≡ none
    → contains m.slots p.execute ≡ true
    → RanEmpty p (handle_p3 m p)
unfolding handle_p3 exec
handle_p3-RanEmpty p m unseen named =
    let x = commit_slots m.ballot m.slots p in
    let k = commit_slots-Marked m.ballot m.slots p in
    let here : lookup x.execute x.log ≡ some unseen_entry =
      rw k.execute (marked_once m.ballot m.slots p p.execute unseen named) in
    let fuel = x.next_slot - x.execute in
    let first = exec_loop_first fuel x unseen_entry here refl in
    let y = exec_loop fuel (execute_entry unseen_entry x) in
    let r : RanEmpty x y =
      Ran-RanEmpty x y here (exec_loop-Ran fuel (execute_entry unseen_entry x))
        (ballot-exec_loop fuel (execute_entry unseen_entry x) ∙ ballot-execute_entry x) in
    rw first (Marked-RanEmpty p x y k r)

-- When a P3 names, among any slots, the one at the execution point and no P2a for it has arrived,
-- and then a P2a for the slot arrives, with a ballot that the node accepts and no P3 slots of its
-- own, the log of a Multi-Paxos node holds the command of that P2a at the slot as committed and the
-- execution point is past the slot, but the command has not run: the database is the one before the
-- P3 with the commands of the slots behind it only.
pub late_command_never_runs :
    (p : Paxos) (m : P3) (a : P2a)
    → lookup p.execute p.log ≡ none
    → contains m.slots p.execute ≡ true
    → a.slot ≡ p.execute
    → p.ballot ≤ a.ballot
    → a.p3msg.slots ≡ []
    → Skipped p a (handle_p2a a (handle_p3 m p))
late_command_never_runs p m a unseen named slot low alone =
    let z = handle_p3 m p in
    let r = handle_p3-RanEmpty p m unseen named in
    let (execute, db, log) = accept-late a z (rw slot r.unseen) (omega (arith, r.ballot)) alone in
    let rounds = z.execute - (p.execute + 1) in
    record {
      passed = rw execute r.passed;
      logged =
          rw (log, slot) (ground (arith, lookup-insert p.execute p.execute (late_entry a) z.log));
      result =
          db
          ∙ r.result
          ∙ rw (execute, log, slot)
              (rw
                (commands-insert p.execute (late_entry a) z.log (p.execute + 1) rounds
                  (omega arith))
                refl);
    }
