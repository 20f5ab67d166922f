-- ===== src/Pig/Backed/Commits.antt =====
-- Votes, commits, recovery and timeouts keep a node backed.
use pigpaxos.Prelude.{
  ℕ, zero, suc, ◌+◌, ◌-◌, ◌≤◌, ◌≡◌, ◌≢◌, refl, ap, sym, ◌∙◌, List, [], ◌∷◌, ◌++◌, Option, none,
  some, true, false, not, ◌&&◌, ◌==◌, ltb, leb, arith, inl, inr, Bool-cases, Option-cases, some_inj,
  if_elim, length,
}
use pigpaxos.Prelude.Assoc.{lookup}
use pigpaxos.Ballot.{owner}
use pigpaxos.Config.{Config}
use pigpaxos.Db.{Command}
use pigpaxos.Quorum.Valid.{ack_all}
use pigpaxos.Pig.Msg.{Reply, P1a, P2a, P3, P3RecoverRequest, P3RecoverReply}
use pigpaxos.Pig.State.{Entry, PigPaxos, forward_requests, reply}
use pigpaxos.Pig.Exec.{exec}
use pigpaxos.Pig.Prepare.{adopt, handle_p1a, uncommitted}
use pigpaxos.Pig.Accept.{
  accept_entry, accept_p2a, vote_p2a, step_down, after_commit, commit_entry, handle_p2b,
}
use pigpaxos.Pig.Commit.{
  commit_at, commit_slots, handle_p3, handle_p2a, answer_recovery, handle_recover_request,
  recovered_log, handle_recover_reply,
}
use pigpaxos.Pig.Votes.{Votes, ignored, recorded, chosen, handle_p2b-outcome}
use pigpaxos.Pig.Invariant.Calls.{IsValid}
use pigpaxos.Pig.Proposals.Handlers.{log-step_down}
use pigpaxos.Pig.Backed.{ReportsBacked, LogBacked, Backed, OutsBacked-append, LogBacked-insert}
use pigpaxos.Pig.Backed.Outs.{
  forwards-Backed, accept_out-Backed, commit_sends-Backed, commit_notes-Backed, retro-Backed,
  exec-Backed,
}

module _ (B : ℕ → ℕ → Command → Type 0) where
  -- The reports of a promise are entries of the log.
  uncommitted-Backed :
      (b : ℕ) (log : List (ℕ × Entry)) (s rounds : ℕ)
      → ((t : ℕ) (e : Entry) → lookup t log ≡ some e → e.commit ≡ false → e.ballot ≤ b)
      → LogBacked B log
      → ReportsBacked B b (uncommitted log s rounds)
  unfolding uncommitted
  uncommitted-Backed b log s zero h k = tt
  uncommitted-Backed b log s (suc rounds) h k =
      let rest = uncommitted-Backed b log (s + 1) rounds h k in
      elim (Option-cases (lookup s log)) [
        | inl nothing ↦ rw (nothing, uncommitted) rest
        | inr (e, has) ↦ elim (Bool-cases e.commit) [
          | inl done ↦ rw (has, uncommitted) (rw done rest)
          | inr open_yet ↦
              rw (has, uncommitted) (rw open_yet ((h s e has open_yet, k s e has), rest))
        ]
      ]

  pub handle_p1a-Backed :
      (m : P1a) (to : ℕ) (p : PigPaxos) → IsValid p → Backed B p → Backed B (handle_p1a m to p)
  unfolding handle_p1a adopt forward_requests
  handle_p1a-Backed m to p v k = elim (Bool-cases (ltb p.ballot m.ballot)) [
    | inl new ↦ rw new (record {
      log = k.log;
      out =
          OutsBacked-append B _ _
            (OutsBacked-append B p.out _ k.out (forwards-Backed B (owner m.ballot) p.requests))
            (
              uncommitted-Backed m.ballot p.log p.execute (p.next_slot - p.execute)
                  (λ t e at open_yet. ground (arith, (v.entries t e at).ballot open_yet)) k.log,
              tt,
            );
    })
    | inr old ↦ rw old (record {
      log = k.log;
      out = OutsBacked-append B p.out _ k.out (
        uncommitted-Backed p.ballot p.log p.execute (p.next_slot - p.execute)
            (λ t e at open_yet. (v.entries t e at).ballot open_yet) k.log,
        tt,
      );
    })
  ]

  accepted_entry :
      (m : P2a) (o : Option Entry)
      → (m.ballot ≢ 0 → B m.ballot m.slot m.command)
      → ((e : Entry) → o ≡ some e → e.ballot ≢ 0 → B e.ballot m.slot e.command)
      → (accept_entry m o).ballot ≢ 0
      → B (accept_entry m o).ballot m.slot (accept_entry m o).command
  accepted_entry m none h v = h
  accepted_entry m (some e) h v =
      let P : Entry → Type 0 = λ f. f.ballot ≢ 0 → B f.ballot m.slot f.command in
      if_elim P (not e.commit && ltb e.ballot m.ballot) _ _ (λ newer. h)
        (λ older. if_elim P (e.commit && e.ballot == 0) _ _ (λ unknown. h) (λ kept. v e refl))

  vote_p2a-Backed :
      (m : P2a) (to : ℕ) (p : PigPaxos)
      → (m.ballot ≢ 0 → B m.ballot m.slot m.command)
      → Backed B p
      → Backed B (vote_p2a m to p)
  unfolding vote_p2a accept_p2a
  vote_p2a-Backed m to p h k = elim (Bool-cases (leb p.ballot m.ballot)) [
    | inl current ↦ rw current (record {
      log =
          LogBacked-insert B m.slot _ p.log
            (accepted_entry m (lookup m.slot p.log) h (λ e at. k.log m.slot e at)) k.log;
      out =
          OutsBacked-append B _ _
            (OutsBacked-append B p.out _ k.out (accept_out-Backed B m (lookup m.slot p.log)))
            (tt, tt);
    })
    | inr stale ↦
        rw stale (record { log = k.log; out = OutsBacked-append B p.out _ k.out (tt, tt) })
  ]

  committed_entry :
      (a s : ℕ) (o : Option Entry)
      → ((e : Entry) → o ≡ some e → e.ballot ≢ 0 → B e.ballot s e.command)
      → (commit_at a o).ballot ≢ 0
      → B (commit_at a o).ballot s (commit_at a o).command
  committed_entry a s none v = λ nz. absurd (nz refl)
  committed_entry a s (some e) v =
      if_elim (λ (f : Entry). f.ballot ≢ 0 → B f.ballot s f.command) (e.ballot == a) _ _
        (λ same. v e refl) (λ other. v e refl)

  commit_slots-Backed :
      (c : Config) (a : ℕ) (slots : List ℕ) (p : PigPaxos)
      → Backed B p
      → Backed B (commit_slots c a slots p)
  unfolding commit_slots
  commit_slots-Backed c a [] p k = k
  commit_slots-Backed c a (s ∷ slots) p k = commit_slots-Backed c a slots _ (record {
    log =
        LogBacked-insert B s _ p.log (committed_entry a s (lookup s p.log) (λ e at. k.log s e at))
          k.log;
    out =
        OutsBacked-append B _ _
          (OutsBacked-append B p.out _ k.out (commit_sends-Backed B p.id a s (lookup s p.log)))
          (commit_notes-Backed B c p.reply_when_commit s (commit_at a (lookup s p.log)));
  })

  pub handle_p3-Backed :
      (c : Config) (m : P3) (p : PigPaxos) → Backed B p → Backed B (handle_p3 c m p)
  unfolding handle_p3
  handle_p3-Backed c m p k = exec-Backed B _ (commit_slots-Backed c m.ballot m.slots p k)

  pub handle_p2a-Backed :
      (c : Config) (m : P2a) (to : ℕ) (p : PigPaxos)
      → (m.ballot ≢ 0 → B m.ballot m.slot m.command)
      → Backed B p
      → Backed B (handle_p2a c m to p)
  unfolding handle_p2a
  handle_p2a-Backed c m to p h k =
      let voted = vote_p2a-Backed m to p h k in
      if_elim (Backed B) (ltb 0 (length m.p3msg.slots)) _ _
        (λ more. handle_p3-Backed c m.p3msg _ voted) (λ done. voted)

  pub handle_recover_request-Backed :
      (m : P3RecoverRequest) (p : PigPaxos) → Backed B p → Backed B (handle_recover_request m p)
  unfolding handle_recover_request answer_recovery
  handle_recover_request-Backed m p k =
      exec-Backed B _ (answered (lookup m.slot p.log) (λ e at. k.log m.slot e at))
    where
      answered :
          (o : Option Entry)
          → ((e : Entry) → o ≡ some e → e.ballot ≢ 0 → B e.ballot m.slot e.command)
          → Backed B (answer_recovery m o p)
      answered none v = k
      answered (some e) v =
          if_elim (Backed B) e.commit _ _
            (λ done. record { log = k.log; out = OutsBacked-append B p.out _ k.out (v e refl, tt) })
            (λ open_yet. k)

  pub handle_recover_reply-Backed :
      (m : P3RecoverReply) (p : PigPaxos)
      → (m.ballot ≢ 0 → B m.ballot m.slot m.command)
      → Backed B p
      → Backed B (handle_recover_reply m p)
  unfolding handle_recover_reply recovered_log
  handle_recover_reply-Backed m p h k =
      exec-Backed B _ (record { log = recovered (lookup m.slot p.log); out = k.out })
    where
      recovered : (o : Option Entry) → LogBacked B (recovered_log m o p.log)
      recovered none = k.log
      recovered (some e) = LogBacked-insert B m.slot _ p.log h k.log

  step_down-Backed : (now b : ℕ) (p : PigPaxos) → Backed B p → Backed B (step_down now b p)
  unfolding step_down
  step_down-Backed now b p k =
      if_elim (Backed B) (ltb p.ballot b) _ _
        (λ higher. record { log = k.log; out = OutsBacked-append B p.out _ k.out (tt, tt) })
        (λ same. k)

  after_commit-Backed :
      (e : Entry) (p q : PigPaxos) → after_commit e p ≡ some q → Backed B p → Backed B q
  unfolding after_commit
  after_commit-Backed e p q h k = elim (Bool-cases p.reply_when_commit) [
    | inr runs ↦
        let run : after_commit e p ≡ some (exec p) = simp (runs) in
        rw (some_inj (sym h ∙ run)) (exec-Backed B p k)
    | inl answers ↦ elim (Option-cases e.request) [
      | inl nil ↦ let run : after_commit e p ≡ none = simp (answers, nil) in cc (sym run ∙ h)
      | inr (r, has) ↦
          let a : Reply = record { command = r.command; value = none; timestamp = r.timestamp } in
          let run : after_commit e p ≡ some (record p { out = p.out ++ reply r a ∷ [] }) =
            simp (answers, has) in
          rw (some_inj (sym h ∙ run))
            (record { log = k.log; out = OutsBacked-append B p.out _ k.out (tt, tt) })
    ]
  ]

  Votes-Backed :
      {c : Config} {slot a : ℕ} {ids : List ℕ} {e : Entry} {p q : PigPaxos}
      → lookup slot p.log ≡ some e
      → Votes c slot a ids e p q
      → Backed B p
      → Backed B q
  unfolding commit_entry
  Votes-Backed at (ignored _ same) k = rw same k
  Votes-Backed {slot = slot} {ids} {e} {p} at (recorded old _ _ _ same) k = rw same (record {
    log =
        LogBacked-insert B slot (record e { quorum = some (ack_all old ids) }) p.log
          (k.log slot e at) k.log;
    out = k.out;
  })
  Votes-Backed {c = c} {slot} {ids = ids} {e} {p} at (chosen old _ _ _ done) k =
      after_commit-Backed _ _ _ done (record {
        log =
            LogBacked-insert B slot (record e { quorum = some (ack_all old ids); commit = true })
              p.log (k.log slot e at) k.log;
        out = OutsBacked-append B p.out _ k.out (retro-Backed B c.use_retro_log slot e.command);
      })

  pub handle_p2b-Backed :
      (c : Config) (now slot a : ℕ) (ids : List ℕ) (p q : PigPaxos)
      → handle_p2b c now slot a ids p ≡ some q
      → Backed B p
      → Backed B q
  handle_p2b-Backed c now slot a ids p q h k = elim (handle_p2b-outcome c now slot a ids p q h) [
    | inl same ↦ rw same k
    | inr (e, at, _, _, votes) ↦
        Votes-Backed (ap (lookup slot) (log-step_down now a p) ∙ at) votes
          (step_down-Backed now a p k)
  ]
