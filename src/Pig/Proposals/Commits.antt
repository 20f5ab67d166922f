-- ===== src/Pig/Proposals/Commits.antt =====
-- Commits, the execution loop, recovery and cleanup propose nothing.
use pigpaxos.Prelude.{
  ℕ, zero, suc, ◌+◌, ◌-◌, ◌≡◌, refl, sym, ◌∙◌, max, List, [], ◌∷◌, ◌++◌, Option, none, some, Bool,
  true, false, not, ◌&&◌, ◌||◌, ◌==◌, ltb, arith, inl, inr, Bool-cases, Option-cases, if_elim,
  if◌then◌else◌,
}
use pigpaxos.Prelude.Assoc.{lookup, insert}
use pigpaxos.Ballot.{owner}
use pigpaxos.Config.{Config}
use pigpaxos.Db
use pigpaxos.Db.{Value}
use pigpaxos.Pig.Msg.{Request, Reply}
use pigpaxos.Pig.State.{Entry, forward, reply, PigPaxos, recover_from}
use pigpaxos.Pig.Exec.{Executor, answer, execute_entry, ask_recovery, exec_loop, exec, is_unknown}
use pigpaxos.Pig.Commit.{commit_at, commit_sends, commit_notes, commit_slots}
use pigpaxos.Pig.Proposals.{proposals, proposals-append_silent}
use pigpaxos.Pig.Proposals.Quiet.{
  Keeps, Keeps-insert_done, Keeps-replace, Quiet, Quiet-refl, Quiet-trans, steady,
}
use pigpaxos.Pig.Invariant.Logs.{lookup-exec}
use pigpaxos.Pig.Frame.{exec-SameRole, next_slot-exec}

silent_sends : (self b s : ℕ) (o : Option Entry) → proposals (commit_sends self b s o) ≡ []
silent_sends self b s none = refl
silent_sends self b s (some e) = elim (Bool-cases (e.ballot == b)) [
  | inl same ↦ rw same refl
  | inr other ↦ rw other (silent_request e.request)
]
  where
    silent_request :
        (o : Option Request)
        → proposals
            (elim o [ none ↦ [] | some r ↦ forward (owner b) r ∷ recover_from self b s ∷ [] ])
          ≡ []
    silent_request none = refl
    silent_request (some r) = refl

silent_reply :
    (o : Option Request) (a : Request → Reply)
    → proposals (elim o [ none ↦ [] | some r ↦ reply r (a r) ∷ [] ]) ≡ []
silent_reply none a = refl
silent_reply (some r) a = refl

silent_notes : (c : Config) (b : Bool) (s : ℕ) (e : Entry) → proposals (commit_notes c b s e) ≡ []
silent_notes c b s e = elim (Bool-cases c.use_retro_log) [
  | inl logs ↦ rw logs (last b)
  | inr no_log ↦ rw no_log (last b)
]
  where
    last :
        (b : Bool)
        → proposals (
            if b
            then elim e.request [
              | none ↦ []
              | some r ↦
                  reply r (record { command = r.command; value = none; timestamp = r.timestamp })
                  ∷ []
            ]
            else [])
          ≡ []
    last true =
        silent_reply e.request
          (λ r. record { command = r.command; value = none; timestamp = r.timestamp })
    last false = refl

commit_at-Keeps :
    (b s : ℕ) (log : List (ℕ × Entry)) → Keeps log (insert s (commit_at b (lookup s log)) log)
commit_at-Keeps b s log = elim (Option-cases (lookup s log)) [
  | inl nothing ↦ rw nothing (Keeps-insert_done s (commit_at b none) log refl)
  | inr (e, has) ↦ rw has (elim (Bool-cases (e.ballot == b)) [
    | inl same ↦ rw same (Keeps-insert_done s (record e { commit = true }) log refl)
    | inr other ↦ rw other (Keeps-replace s e (record e { request = none }) log has refl (λ h. h))
  ])
]

pub commit_slots-Quiet :
    (c : Config) (b : ℕ) (slots : List ℕ) (p : PigPaxos) → Quiet p (commit_slots c b slots p)
unfolding commit_slots
commit_slots-Quiet c b [] p = Quiet-refl p
commit_slots-Quiet c b (s ∷ slots) p =
    let e = commit_at b (lookup s p.log) in
    let one : Quiet p (record p {
      next_slot = max p.next_slot (s + 1);
      log = insert s e p.log;
      out =
          p.out ++ commit_sends p.id b s (lookup s p.log) ++ commit_notes c p.reply_when_commit s e;
    }) =
      record {
        id = refl;
        silent =
            proposals-append_silent (p.out ++ commit_sends p.id b s (lookup s p.log)) _
              (silent_notes c p.reply_when_commit s e)
            ∙ proposals-append_silent p.out _ (silent_sends p.id b s (lookup s p.log));
        moved = steady (record {
          ballot = refl;
          active = refl;
          slots = omega arith;
          log = commit_at-Keeps b s p.log;
        });
      } in
    Quiet-trans one (commit_slots-Quiet c b slots _)

silent_answer : (e : Entry) (v : Value) → proposals (answer e v) ≡ []
silent_answer e v =
    silent_reply e.request (λ r. record { command = e.command; value = v; timestamp = 0 })

silent_execute : (e : Entry) (x : Executor) → proposals (execute_entry e x).out ≡ proposals x.out
unfolding execute_entry
silent_execute e x = proposals-append_silent x.out _ (silent_answer e (Db.execute x.db e.command).0)

silent_ask :
    (self b n : ℕ) (e : Entry) (x : Executor)
    → proposals (ask_recovery self b n e x).out ≡ proposals x.out
unfolding ask_recovery
silent_ask self b n e x =
    if_elim (λ (y : Executor). proposals y.out ≡ proposals x.out)
      (ltb (x.execute + 11) n && is_unknown e) _ _ (λ asks. proposals-append_silent x.out _ refl)
      (λ quiet. refl)

silent_loop :
    (self b n fuel : ℕ) (x : Executor) → proposals (exec_loop self b n fuel x).out ≡ proposals x.out
unfolding exec_loop
silent_loop self b n zero x = refl
silent_loop self b n (suc fuel) x = elim (Option-cases (lookup x.execute x.log)) [
  | inl nothing ↦ rw (nothing, exec_loop) refl
  | inr (e, has) ↦ elim (Bool-cases (not e.commit || is_unknown e)) [
    | inl stop ↦ rw (has, exec_loop) (rw stop (silent_ask self b n e x))
    | inr go ↦
        rw (has, exec_loop)
          (rw go (
            silent_loop self b n fuel (execute_entry e (ask_recovery self b n e x))
            ∙ silent_execute e (ask_recovery self b n e x)
            ∙ silent_ask self b n e x))
  ]
]

exec_silent : (p : PigPaxos) → proposals (exec p).out ≡ proposals p.out
unfolding exec
exec_silent p =
    silent_loop p.id p.ballot p.next_slot (p.next_slot - p.execute + 1)
      (record { log = p.log; execute = p.execute; db = p.db; out = p.out })

exec-Keeps : (p : PigPaxos) → Keeps p.log (exec p).log
exec-Keeps p s f at h =
    let (e, has, _, command, commit, _) = lookup-exec p s f at in (e, has, sym commit ∙ h, command)

pub exec-Quiet : (p : PigPaxos) → Quiet p (exec p)
exec-Quiet p =
    let same = exec-SameRole p in
    record {
      id = same.id;
      silent = exec_silent p;
      moved = steady (record {
        ballot = same.ballot;
        active = same.active;
        slots = omega (arith, next_slot-exec p);
        log = exec-Keeps p;
      });
    }
