-- ===== src/Pig/Lasting.antt =====
-- A committed slot keeps its command.
pub mod Promises
pub mod Commits
pub mod Calls
use pigpaxos.Prelude.{
  ℕ, zero, suc, ◌+◌, ◌-◌, ◌^◌, ◌≤◌, ◌<◌, ◌≡◌, ◌≢◌, refl, ap, sym, ◌∙◌, max, List, [], ◌∷◌, ◌++◌,
  Option, none, some, Bool, true, false, not, ◌&&◌, ◌||◌, ◌==◌, ltb, leb, arith, inl, inr, ◌⊎◌,
  Bool-cases, Option-cases, some_inj, if_elim, if◌then◌else◌, length,
}
use pigpaxos.Prelude.Assoc.{lookup, insert, lookup-insert}
use pigpaxos.Ballot.{owner}
use pigpaxos.Config.{Config}
use pigpaxos.Db.{Command}
use pigpaxos.Quorum.{Quorum, ack, majority}
use pigpaxos.Quorum.Valid.{ack_all}
use pigpaxos.Pig.Msg.{CommandBallot, Request, P1a, P1b, P2a, P3, P3RecoverRequest, P3RecoverReply}
use pigpaxos.Pig.State.{Entry, PigPaxos, forward_requests}
use pigpaxos.Pig.Exec.{exec}
use pigpaxos.Pig.Prepare.{start_p1a, retry_p1a, adopt, handle_p1a, Slots, merge, update}
use pigpaxos.Pig.Accept.{
  handle_request, start_p2a, repropose, repropose_at, repropose_log, propose_all, lead,
  count_promise, merge_promise, handle_p1b, accept_entry, accept_p2a, vote_p2a, step_down,
  after_commit, commit_entry, handle_p2b, retry_p2a,
}
use pigpaxos.Pig.Commit.{
  commit_at, commit_slots, handle_p3, handle_p2a, answer_recovery, handle_recover_request,
  recovered_log, handle_recover_reply,
}
use pigpaxos.Pig.Maintain.{retry, retry_slot, check_timeout, update_executed}
use pigpaxos.Pig.Step.{
  Event, request, prepare, promise, accept, accepted, committed, recover_request, recover_reply,
  timeout, executed, cleanup, handle,
}
use pigpaxos.Pig.Votes.{Votes, ignored, recorded, chosen, handle_p2b-outcome, after_commit-outcome}
use pigpaxos.Pig.Invariant.Calls.{IsValid}
use pigpaxos.Pig.Proposals.Promise.{next_slot-update}
use pigpaxos.Pig.Running.{exec-Ran}

-- The log has committed the command `c` at the slot `s` under the ballot `b`.
abbrev pub Chosen : ℕ → ℕ → Command → List (ℕ × Entry) → Type 0
Chosen s b c log =
    (e : Entry) × (lookup s log ≡ some e) × (e.commit ≡ true) × (e.ballot ≡ b) × (e.command ≡ c)

-- The slot, the ballot of a command that has arrived, and the command.
module _ (s b : ℕ) (c : Command) where
  -- An entry put at the slot keeps what is chosen there.
  abbrev pub Renews : Entry → Entry → Type 0
  Renews e f =
      e.commit ≡ true
      → e.ballot ≢ 0
      → (f.commit ≡ true) × (f.ballot ≡ e.ballot) × (f.command ≡ e.command)

  pub Chosen-insert :
      (t : ℕ) (f : Entry) (log : List (ℕ × Entry))
      → b ≢ 0
      → ((e : Entry) → t ≡ s → lookup t log ≡ some e → Renews e f)
      → Chosen s b c log
      → Chosen s b c (insert t f log)
  Chosen-insert t f log nz keep (e, at, done, ballot, command) = elim (Bool-cases (t == s)) [
    | inl here ↦
        let slot : t ≡ s = ground arith in
        let (done', ballot', command') =
          keep e slot (ap (λ (k : ℕ). lookup k log) slot ∙ at) done (λ z. nz (sym ballot ∙ z)) in
        (f, ground (arith, lookup-insert t s f log), done', ballot' ∙ ballot, command' ∙ command)
    | inr there ↦ (e, ground (arith, lookup-insert t s f log, at), done, ballot, command)
  ]

  pub merge-Renews :
      (cb : CommandBallot) (o : Option Entry) (e : Entry) → o ≡ some e → Renews e (merge cb o)
  merge-Renews cb none e h = cc
  merge-Renews cb (some d) e h = λ done nz.
      let same : d ≡ e = some_inj h in
      ground (
        arith,
        ap (λ (x : Entry). x.commit) same,
        ap (λ (x : Entry). x.ballot) same,
        ap (λ (x : Entry). x.command) same,
      )
