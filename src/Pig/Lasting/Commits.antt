-- ===== src/Pig/Lasting/Commits.antt =====
-- What votes, commits and recovery do to a committed slot.
use pigpaxos.Prelude.{
  ℕ, ◌≡◌, ◌≢◌, ap, sym, ◌∙◌, List, [], ◌∷◌, Option, none, some, true, false, ltb, leb, arith, inl,
  inr, Option-cases, some_inj, if_elim, length,
}
use pigpaxos.Prelude.Assoc.{lookup}
use pigpaxos.Config.{Config}
use pigpaxos.Db.{Command}
use pigpaxos.Quorum.Valid.{ack_all}
use pigpaxos.Pig.Msg.{P2a, P3, P3RecoverRequest, P3RecoverReply}
use pigpaxos.Pig.State.{Entry, PigPaxos}
use pigpaxos.Pig.Exec.{exec}
use pigpaxos.Pig.Accept.{accept_entry, accept_p2a, vote_p2a, commit_entry, handle_p2b}
use pigpaxos.Pig.Commit.{
  commit_at, commit_slots, handle_p3, handle_p2a, answer_recovery, handle_recover_request,
  recovered_log, handle_recover_reply,
}
use pigpaxos.Pig.Votes.{Votes, ignored, recorded, chosen, handle_p2b-outcome, after_commit-outcome}
use pigpaxos.Pig.Lasting.{Chosen, Chosen-insert, Renews}
use pigpaxos.Pig.Running.{exec-Ran}
use pigpaxos.Pig.Invariant.Logs.{lookup-exec}
use pigpaxos.Pig.Proposals.Handlers.{log-step_down}

module _ (s b : ℕ) (c : Command) (nz : b ≢ 0) where
  pub exec-Chosen : (p : PigPaxos) → Chosen s b c p.log → Chosen s b c (exec p).log
  exec-Chosen p (e, at, done, ballot, command) = elim (Option-cases (lookup s (exec p).log)) [
    | inl nothing ↦ absurd (ground (arith, (exec-Ran p).kept s, at, nothing))
    | inr (f, has) ↦
        let (e', at', ballot', command', done', _) = lookup-exec p s f has in
        let same : e' ≡ e = some_inj (sym at' ∙ at) in
        (
          f,
          has,
          done' ∙ ap (λ (x : Entry). x.commit) same ∙ done,
          ballot' ∙ ap (λ (x : Entry). x.ballot) same ∙ ballot,
          command' ∙ ap (λ (x : Entry). x.command) same ∙ command,
        )
  ]

  accept-Renews :
      (m : P2a) (o : Option Entry) (e : Entry) → o ≡ some e → Renews s b c e (accept_entry m o)
  accept-Renews m none e h = cc
  accept-Renews m (some d) e h = λ done known.
      let same : d ≡ e = some_inj h in
      ground (
        arith,
        ap (λ (x : Entry). x.commit) same,
        ap (λ (x : Entry). x.ballot) same,
        ap (λ (x : Entry). x.command) same,
      )

  vote_p2a-Chosen :
      (m : P2a) (to : ℕ) (p : PigPaxos) → Chosen s b c p.log → Chosen s b c (vote_p2a m to p).log
  unfolding vote_p2a accept_p2a
  vote_p2a-Chosen m to p k =
      if_elim (λ (q : PigPaxos). Chosen s b c q.log) (leb p.ballot m.ballot) _ _
        (λ current.
          Chosen-insert s b c m.slot (accept_entry m (lookup m.slot p.log)) p.log nz
            (λ e here at. accept-Renews m (lookup m.slot p.log) e at) k)
        (λ stale. k)

  commit-Renews :
      (a : ℕ) (o : Option Entry) (e : Entry) → o ≡ some e → Renews s b c e (commit_at a o)
  commit-Renews a none e h = cc
  commit-Renews a (some d) e h = λ done known.
      let same : d ≡ e = some_inj h in
      ground (
        arith,
        ap (λ (x : Entry). x.commit) same,
        ap (λ (x : Entry). x.ballot) same,
        ap (λ (x : Entry). x.command) same,
      )

  commit_slots-Chosen :
      (g : Config) (a : ℕ) (slots : List ℕ) (p : PigPaxos)
      → Chosen s b c p.log
      → Chosen s b c (commit_slots g a slots p).log
  unfolding commit_slots
  commit_slots-Chosen g a [] p k = k
  commit_slots-Chosen g a (t ∷ slots) p k = commit_slots-Chosen g a slots _ (
      Chosen-insert s b c t (commit_at a (lookup t p.log)) p.log nz
        (λ e here at. commit-Renews a (lookup t p.log) e at) k)

  pub handle_p3-Chosen :
      (g : Config) (m : P3) (p : PigPaxos) → Chosen s b c p.log → Chosen s b c (handle_p3 g m p).log
  unfolding handle_p3
  handle_p3-Chosen g m p k = exec-Chosen _ (commit_slots-Chosen g m.ballot m.slots p k)

  pub handle_p2a-Chosen :
      (g : Config) (m : P2a) (to : ℕ) (p : PigPaxos)
      → Chosen s b c p.log
      → Chosen s b c (handle_p2a g m to p).log
  unfolding handle_p2a
  handle_p2a-Chosen g m to p k =
      let voted = vote_p2a-Chosen m to p k in
      if_elim (λ (q : PigPaxos). Chosen s b c q.log) (ltb 0 (length m.p3msg.slots)) _ _
        (λ more. handle_p3-Chosen g m.p3msg _ voted) (λ done. voted)

  pub handle_recover_request-Chosen :
      (m : P3RecoverRequest) (p : PigPaxos)
      → Chosen s b c p.log
      → Chosen s b c (handle_recover_request m p).log
  unfolding handle_recover_request answer_recovery
  handle_recover_request-Chosen m p k = exec-Chosen _ (answered (lookup m.slot p.log))
    where
      answered : (o : Option Entry) → Chosen s b c (answer_recovery m o p).log
      answered none = k
      answered (some e) =
          if_elim (λ (q : PigPaxos). Chosen s b c q.log) e.commit _ _ (λ yes_. k) (λ no_. k)

  -- The reply is for another slot.
  pub handle_recover_reply-Chosen :
      (m : P3RecoverReply) (p : PigPaxos)
      → m.slot ≢ s
      → Chosen s b c p.log
      → Chosen s b c (handle_recover_reply m p).log
  unfolding handle_recover_reply recovered_log
  handle_recover_reply-Chosen m p other k = exec-Chosen _ (recovered (lookup m.slot p.log))
    where
      recovered : (o : Option Entry) → Chosen s b c (recovered_log m o p.log)
      recovered none = k
      recovered (some e) =
          Chosen-insert s b c m.slot _ p.log nz (λ d here at. absurd (other here)) k

  -- An entry that is not committed may be replaced.
  open_slot :
      (t : ℕ) (e f : Entry) (log : List (ℕ × Entry))
      → lookup t log ≡ some e
      → e.commit ≡ false
      → (d : Entry) → t ≡ s
      → lookup t log ≡ some d
      → Renews s b c d f
  open_slot t e f log at open_yet d here at' done known =
      let same = some_inj (sym at ∙ at') in
      cc (sym open_yet ∙ ap (λ (x : Entry). x.commit) same ∙ done)

  -- The votes are for a slot that is not committed.
  Votes-Chosen :
      {g : Config} {slot a : ℕ} {ids : List ℕ} {e : Entry} {p q : PigPaxos}
      → lookup slot p.log ≡ some e
      → e.commit ≡ false
      → Votes g slot a ids e p q
      → Chosen s b c p.log
      → Chosen s b c q.log
  unfolding commit_entry
  Votes-Chosen at open_yet (ignored _ same) k = rw same k
  Votes-Chosen {slot = slot} {ids} {e} {p} at open_yet (recorded old _ _ _ same) k = rw same (
      Chosen-insert s b c slot (record e { quorum = some (ack_all old ids) }) p.log nz
        (open_slot slot e (record e { quorum = some (ack_all old ids) }) p.log at open_yet) k)
  Votes-Chosen {slot = slot} {ids} {e} {p} at open_yet (chosen old _ _ _ done) k =
      let kept =
        Chosen-insert s b c slot (record e { quorum = some (ack_all old ids); commit = true }) p.log
          nz
          (open_slot slot e (record e { quorum = some (ack_all old ids); commit = true }) p.log at
            open_yet)
          k in
      elim (after_commit-outcome _ _ _ done) [
        | inl ran ↦ rw ran (exec-Chosen _ kept)
        | inr (o, answered) ↦ rw answered kept
      ]

  pub handle_p2b-Chosen :
      (g : Config) (now slot a : ℕ) (ids : List ℕ) (p q : PigPaxos)
      → handle_p2b g now slot a ids p ≡ some q
      → Chosen s b c p.log
      → Chosen s b c q.log
  handle_p2b-Chosen g now slot a ids p q h k = elim (handle_p2b-outcome g now slot a ids p q h) [
    | inl same ↦ rw same k
    | inr (e, at, _, open_yet, votes) ↦
        Votes-Chosen (ap (lookup slot) (log-step_down now a p) ∙ at) open_yet votes
          (rw (log-step_down now a p) k)
  ]
