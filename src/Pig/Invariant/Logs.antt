-- ===== src/Pig/Invariant/Logs.antt =====
-- Well-formed logs, and the operations of the handlers on them.
use pigpaxos.Prelude.{
  ℕ, zero, suc, ◌+◌, ◌-◌, ◌≤◌, ◌<◌, ◌≡◌, refl, max, List, [], ◌∷◌, Option, none, some, Bool, true,
  false, not, ◌&&◌, ◌==◌, ltb, arith, Bool-cases, Option-cases, inl, inr, if◌then◌else◌, sym, ◌∙◌,
  some_inj,
}
use pigpaxos.Prelude.Assoc.{lookup, insert, erase, lookup-insert, lookup-erase}
use pigpaxos.Quorum.{Quorum, new_quorum, ack}
use pigpaxos.Quorum.Valid.{IsValid, new_quorum-IsValid, ack-IsValid}
use pigpaxos.Pig.Msg.{CommandBallot}
use pigpaxos.Pig.State.{Entry, PigPaxos}
use pigpaxos.Pig.Exec.{exec}
use pigpaxos.Pig.Prepare.{Slots, merge, update}
use pigpaxos.Pig.Accept.{repropose, repropose_at, repropose_log}
use pigpaxos.Pig.Running.{exec-Ran}

-- An entry at a slot below `n`; an uncommitted one has a ballot up to `b`, and its voters are
-- counted once each.
pub record EntryValid (n b s : ℕ) (e : Entry) : Type 0 where
  pub below : s < n
  pub ballot : e.commit ≡ false → e.ballot ≤ b
  pub votes : (q : Quorum) → e.quorum ≡ some q → IsValid q

abbrev pub LogValid : ℕ → ℕ → List (ℕ × Entry) → Type 0
LogValid n b log = (s : ℕ) (e : Entry) → lookup s log ≡ some e → EntryValid n b s e

pub LogValid-mono :
    (n n' b b' : ℕ) (log : List (ℕ × Entry))
    → n ≤ n'
    → b ≤ b'
    → LogValid n b log
    → LogValid n' b' log
LogValid-mono n n' b b' log hn hb v s e at =
    let w = v s e at in
    record {
      below = omega (arith, w.below);
      ballot = λ h. omega (arith, w.ballot h);
      votes = w.votes;
    }

pub LogValid-insert :
    (n b s : ℕ) (e : Entry) (log : List (ℕ × Entry))
    → EntryValid n b s e
    → LogValid n b log
    → LogValid n b (insert s e log)
LogValid-insert n b s e log w v t f at = elim (Bool-cases (s == t)) [
  | inl same ↦
      let there : some e ≡ some f = ground (arith, lookup-insert s t e log, at) in
      let slot : s ≡ t = ground arith in rw (← slot, ← some_inj there) w
  | inr other ↦ v t f (ground (arith, lookup-insert s t e log, at))
]

pub LogValid-erase :
    (n b s : ℕ) (log : List (ℕ × Entry)) → LogValid n b log → LogValid n b (erase s log)
LogValid-erase n b s log v t f at = v t f (ground (arith, lookup-erase s t log, at))

pub LogValid-if :
    (n b : ℕ) (t : Bool) (x y : List (ℕ × Entry))
    → LogValid n b x
    → LogValid n b y
    → LogValid n b (if t then x else y)
LogValid-if n b true x y v w = v
LogValid-if n b false x y v w = w

pub own_vote-IsValid : (self : ℕ) (q : Quorum) → some (ack new_quorum self) ≡ some q → IsValid q
own_vote-IsValid self q h = rw (some_inj h) at (ack-IsValid new_quorum self new_quorum-IsValid)

-- The ballots of a promise are up to the promise's own.
abbrev pub ReportsBelow : ℕ → List (ℕ × CommandBallot) → Type 0
ReportsBelow b [] = Unit {0}
ReportsBelow b ((s, cb) ∷ rest) = (cb.ballot ≤ b) × ReportsBelow b rest

merge-EntryValid :
    (n b s : ℕ) (cb : CommandBallot) (o : Option Entry)
    → cb.ballot ≤ b
    → s < n
    → ((e : Entry) → o ≡ some e → EntryValid n b s e)
    → EntryValid n b s (merge cb o)
merge-EntryValid n b s cb none h k v = record { below = k; ballot = λ _. h; votes = λ q e. cc }
merge-EntryValid n b s cb (some e) h k v =
    let w = v e refl in
    elim (Bool-cases (not e.commit && ltb e.ballot cb.ballot)) [
      | inl newer ↦ rw newer (record { below = k; ballot = λ _. h; votes = w.votes })
      | inr older ↦ rw older w
    ]

pub update-LogValid :
    (scb : List (ℕ × CommandBallot)) (b : ℕ) (x : Slots)
    → ReportsBelow b scb
    → LogValid x.next_slot b x.log
    → LogValid (update scb x).next_slot b (update scb x).log
      × (x.next_slot ≤ (update scb x).next_slot)
unfolding update
update-LogValid [] b x h v = (v, omega arith)
update-LogValid ((s, cb) ∷ rest) b x h v =
    let n = max x.next_slot (s + 1) in
    let wide = LogValid-mono x.next_slot n b b x.log (omega arith) (omega arith) v in
    let (w, up) = update-LogValid rest b _ h.1 (
      LogValid-insert n b s _ x.log
        (merge-EntryValid n b s cb (lookup s x.log) h.0 (omega arith) (λ e at. wide s e at))
        wide) in
    (w, omega (arith, up))

repropose_at-LogValid :
    (self n b s : ℕ) (log : List (ℕ × Entry))
    → LogValid n b log
    → LogValid n b (repropose_at self b s log)
unfolding repropose_at
repropose_at-LogValid self n b s log v = elim (Option-cases (lookup s log)) [
  | inl nothing ↦ rw (nothing, repropose_at) v
  | inr (e, has) ↦
      rw (has, repropose_at)
        (LogValid-if n b e.commit log (insert s (repropose self b e) log) v (
          LogValid-insert n b s (repropose self b e) log
            (record {
              below = (v s e has).below;
              ballot = λ _. omega arith;
              votes = λ q h. own_vote-IsValid self q h;
            })
            v))
]

pub repropose_log-LogValid :
    (self n b : ℕ) (log : List (ℕ × Entry)) (s rounds : ℕ)
    → LogValid n b log
    → LogValid n b (repropose_log self b log s rounds)
unfolding repropose_log
repropose_log-LogValid self n b log s zero v = v
repropose_log-LogValid self n b log s (suc rounds) v =
    repropose_log-LogValid self n b (repropose_at self b s log) (s + 1) rounds
      (repropose_at-LogValid self n b s log v)

-- An entry behind `exec` is one before it, but for an answered request.
pub lookup-exec :
    (p : PigPaxos) (s : ℕ) (e : Entry)
    → lookup s (exec p).log ≡ some e
    → (f : Entry) × (lookup s p.log ≡ some f)
      × (e.ballot ≡ f.ballot)
      × (e.command ≡ f.command)
      × (e.commit ≡ f.commit)
      × (e.quorum ≡ f.quorum)
lookup-exec p s e at = elim (Option-cases (lookup s p.log)) [
  | inl nothing ↦ absurd (ground (arith, (exec-Ran p).kept s, at, nothing))
  | inr (f, has) ↦ (
    f,
    has,
    ground (arith, (exec-Ran p).kept s, at, has),
    ground (arith, (exec-Ran p).kept s, at, has),
    ground (arith, (exec-Ran p).kept s, at, has),
    ground (arith, (exec-Ran p).kept s, at, has),
  )
]

pub exec-LogValid : (p : PigPaxos) (n b : ℕ) → LogValid n b p.log → LogValid n b (exec p).log
exec-LogValid p n b v s e at =
    let (f, has, ballot, command, commit, quorum) = lookup-exec p s e at in
    let w = v s f has in
    record {
      below = w.below;
      ballot = λ h. omega (arith, ballot, w.ballot (sym commit ∙ h));
      votes = λ q h. w.votes q (sym quorum ∙ h);
    }

-- `exec` does not run past the slot counter.
pub execute-exec :
    (p : PigPaxos) (b : ℕ)
    → LogValid p.next_slot b p.log
    → p.execute ≤ p.next_slot
    → (exec p).execute ≤ p.next_slot
execute-exec p b v h = elim (Bool-cases (ltb p.execute (exec p).execute)) [
  | inl moved ↦
      let (e, has, _, _) =
        (exec-Ran p).ready ((exec p).execute - 1) (ground arith) (ground arith) in
      ground (arith, (v ((exec p).execute - 1) e has).below)
  | inr still ↦ ground (arith, (exec-Ran p).onward)
]
