-- ===== src/Pig/Invariant/Runs.antt =====
-- The invariant under votes, commits and timers, and over whole runs.
use pigpaxos.Prelude.{
  ℕ, zero, suc, ◌+◌, ◌-◌, ◌^◌, ◌<◌, ◌≡◌, refl, ap, sym, ◌∙◌, max, List, [], ◌∷◌, ◌++◌, Option, none,
  some, Bool, true, false, not, ◌&&◌, ◌||◌, ◌==◌, ltb, arith, inl, inr, if◌then◌else◌, some_inj,
  if_elim, length,
}
use pigpaxos.Prelude.Assoc.{lookup, erase}
use pigpaxos.Ballot.{number}
use pigpaxos.Config.{Config}
use pigpaxos.Quorum.{Quorum}
use pigpaxos.Quorum.Valid.{ack_all, ack_all-IsValid}
use pigpaxos.Pig.Msg.{P1b, P2a, P3, P3RecoverRequest, P3RecoverReply, committed}
use pigpaxos.Pig.State.{Entry, PigPaxos, broadcast}
use pigpaxos.Pig.Accept.{
  in_ms, handle_request, retry_p2a, handle_p1b, vote_p2a, step_down, after_commit, commit_entry,
  handle_p2b,
}
use pigpaxos.Pig.Commit.{
  handle_p3, handle_p2a, answer_recovery, handle_recover_request, recovered_log,
  handle_recover_reply,
}
use pigpaxos.Pig.Maintain.{
  retry, retry_slot, check_timeout, update_executed, delete_slots, cleanup_log,
}
use pigpaxos.Pig.Step.{
  Event, request, prepare, promise, accept, accepted, committed, recover_request, recover_reply,
  timeout, executed, cleanup, handle,
}
use pigpaxos.Pig.Ballots.{handle-Advances}
use pigpaxos.Pig.Votes.{Votes, ignored, recorded, chosen, handle_p2b-outcome, after_commit-outcome}
use pigpaxos.Pig.Invariant.Logs.{
  EntryValid, LogValid, LogValid-mono, LogValid-insert, LogValid-erase, LogValid-if, ReportsBelow,
}
use pigpaxos.Pig.Invariant.Calls.{
  IsValid, exec-IsValid, retry_p1a-IsValid, handle_request-IsValid, handle_p1a-IsValid,
  count_promise-IsValid, merge_promise-IsValid, accept_p2a-IsValid, commit_slots-IsValid,
}

handle_p1b-IsValid :
    (c : Config) (now : ℕ) (m : P1b) (p : PigPaxos)
    → ReportsBelow m.ballot m.log
    → IsValid p
    → IsValid (handle_p1b c now m p)
unfolding handle_p1b
handle_p1b-IsValid c now m p reports v =
    if_elim IsValid (ltb m.ballot p.ballot || p.active) _ _ (λ old. v)
      (λ new. count_promise-IsValid c now m _ (merge_promise-IsValid m p (ground arith) reports v))

handle_p3-IsValid : (c : Config) (m : P3) (p : PigPaxos) → IsValid p → IsValid (handle_p3 c m p)
unfolding handle_p3
handle_p3-IsValid c m p v = exec-IsValid _ (commit_slots-IsValid c m.ballot m.slots p v)

handle_p2a-IsValid :
    (c : Config) (m : P2a) (to : ℕ) (p : PigPaxos) → IsValid p → IsValid (handle_p2a c m to p)
unfolding handle_p2a vote_p2a
handle_p2a-IsValid c m to p v =
    let w = accept_p2a-IsValid m p v in
    let voted : IsValid (vote_p2a m to p) = record {
      entries = w.entries;
      executed = w.executed;
      promises = w.promises;
    } in
    if_elim IsValid (ltb 0 (length m.p3msg.slots)) _ _ (λ more. handle_p3-IsValid c m.p3msg _ voted)
      (λ done. voted)

step_down-IsValid : (now b : ℕ) (p : PigPaxos) → IsValid p → IsValid (step_down now b p)
unfolding step_down
step_down-IsValid now b p v =
    if_elim IsValid (ltb p.ballot b) _ _
      (λ higher. record {
        entries =
            LogValid-mono p.next_slot p.next_slot p.ballot b p.log (omega arith) (ground arith)
              v.entries;
        executed = v.executed;
        promises = v.promises;
      })
      (λ same. v)

after_commit-IsValid :
    (e : Entry) (p q : PigPaxos) → after_commit e p ≡ some q → IsValid p → IsValid q
after_commit-IsValid e p q h v = elim (after_commit-outcome e p q h) [
  | inl ran ↦ rw ran (exec-IsValid p v)
  | inr (o, sent) ↦
      rw sent (record { entries = v.entries; executed = v.executed; promises = v.promises })
]

-- An entry with more votes.
more_votes :
    (n b s : ℕ) (e : Entry) (old : Quorum) (ids : List ℕ) (done : Bool)
    → e.quorum ≡ some old
    → e.commit ≡ false
    → EntryValid n b s e
    → EntryValid n b s (record e { quorum = some (ack_all old ids); commit = done })
more_votes n b s e old ids done has open_yet w = record {
  below = w.below;
  ballot = λ _. w.ballot open_yet;
  votes = λ q at. rw (some_inj at) at (ack_all-IsValid old ids (w.votes old has));
}

Votes-IsValid :
    {c : Config} {slot b : ℕ} {ids : List ℕ} {e : Entry} {p q : PigPaxos}
    → lookup slot p.log ≡ some e
    → e.commit ≡ false
    → Votes c slot b ids e p q
    → IsValid p
    → IsValid q
unfolding commit_entry
Votes-IsValid at open_yet (ignored _ same) v = rw same v
Votes-IsValid {slot} {ids} {e} {p} at open_yet (recorded old has _ _ same) v = rw same (record {
  entries =
      LogValid-insert p.next_slot p.ballot slot _ p.log
        (more_votes p.next_slot p.ballot slot e old ids e.commit has open_yet (v.entries slot e at))
        v.entries;
  executed = v.executed;
  promises = v.promises;
})
Votes-IsValid {slot} {ids} {e} {p} at open_yet (chosen old has _ _ done) v =
    after_commit-IsValid _ _ _ done (record {
      entries =
          LogValid-insert p.next_slot p.ballot slot _ p.log
            (more_votes p.next_slot p.ballot slot e old ids true has open_yet (v.entries slot e at))
            v.entries;
      executed = v.executed;
      promises = v.promises;
    })

log-step_down : (now b : ℕ) (p : PigPaxos) → (step_down now b p).log ≡ p.log
unfolding step_down
log-step_down now b p = ground arith

handle_p2b-IsValid :
    (c : Config) (now slot b : ℕ) (ids : List ℕ) (p q : PigPaxos)
    → handle_p2b c now slot b ids p ≡ some q
    → IsValid p
    → IsValid q
handle_p2b-IsValid c now slot b ids p q h v = elim (handle_p2b-outcome c now slot b ids p q h) [
  | inl same ↦ rw same v
  | inr (e, at, _, open_yet, votes) ↦
      Votes-IsValid (ap (lookup slot) (log-step_down now b p) ∙ at) open_yet votes
        (step_down-IsValid now b p v)
]

answer_recovery-IsValid :
    (m : P3RecoverRequest) (o : Option Entry) (p : PigPaxos)
    → IsValid p
    → IsValid (answer_recovery m o p)
unfolding answer_recovery
answer_recovery-IsValid m none p v = v
answer_recovery-IsValid m (some e) p v =
    if_elim IsValid e.commit _ _
      (λ done. record { entries = v.entries; executed = v.executed; promises = v.promises })
      (λ open_yet. v)

handle_recover_request-IsValid :
    (m : P3RecoverRequest) (p : PigPaxos) → IsValid p → IsValid (handle_recover_request m p)
unfolding handle_recover_request
handle_recover_request-IsValid m p v =
    exec-IsValid _ (answer_recovery-IsValid m (lookup m.slot p.log) p v)

recovered_log-LogValid :
    (m : P3RecoverReply) (n b : ℕ) (o : Option Entry) (log : List (ℕ × Entry))
    → o ≡ lookup m.slot log
    → LogValid n b log
    → LogValid n b (recovered_log m o log)
unfolding recovered_log
recovered_log-LogValid m n b none log at v = v
recovered_log-LogValid m n b (some e) log at v =
    let w = v m.slot e (sym at) in
    LogValid-insert n b m.slot _ log (record { below = w.below; ballot = λ e. cc; votes = w.votes })
      v

handle_recover_reply-IsValid :
    (m : P3RecoverReply) (p : PigPaxos) → IsValid p → IsValid (handle_recover_reply m p)
unfolding handle_recover_reply
handle_recover_reply-IsValid m p v = exec-IsValid _ (record {
  entries =
      recovered_log-LogValid m (max p.next_slot (m.slot + 1)) p.ballot (lookup m.slot p.log) p.log
        refl
        (LogValid-mono p.next_slot (max p.next_slot (m.slot + 1)) p.ballot p.ballot p.log
          (omega arith) (omega arith) v.entries);
  executed = omega (arith, v.executed);
  promises = v.promises;
})

retry_slot-IsValid :
    (cutoff : ℕ) (o : Option Entry) (p : PigPaxos) → IsValid p → IsValid (retry_slot cutoff o p)
unfolding retry_slot retry_p2a
retry_slot-IsValid cutoff none p v = v
retry_slot-IsValid cutoff (some e) p v =
    if_elim IsValid (not e.commit && ltb e.timestamp cutoff) _ _
      (λ late. record { entries = v.entries; executed = v.executed; promises = v.promises })
      (λ early. v)

retry-IsValid : (cutoff now : ℕ) (p : PigPaxos) → IsValid p → IsValid (retry cutoff now p)
unfolding retry
retry-IsValid cutoff now p v =
    if_elim IsValid (p.active && ltb p.execute p.next_slot) _ _
      (λ leads. retry_slot-IsValid cutoff (lookup p.execute p.log) p v)
      (λ follows.
        if_elim IsValid (not p.active && ltb p.p1a_time cutoff) _ _
          (λ late. retry_p1a-IsValid now p v) (λ early. v))

check_timeout-IsValid :
    (cutoff now : ℕ) (p : PigPaxos) → IsValid p → IsValid (check_timeout cutoff now p)
unfolding check_timeout
check_timeout-IsValid cutoff now p v =
    let w = retry-IsValid cutoff now p v in
    let q = retry cutoff now p in
    if_elim IsValid
      (ltb q.last_p3_time (in_ms now - 10) && ltb 0 q.last_p3_time && ltb 0 q.p3_ballot)
      (record q {
        out =
            q.out
            ++ broadcast (committed (record { ballot = q.p3_ballot; slots = q.p3_slots })) ∷ [];
        last_p3_time = in_ms now;
        p3_slots = [];
      })
      q (λ due. record { entries = w.entries; executed = w.executed; promises = w.promises })
      (λ quiet. w)

delete_slots-LogValid :
    (n b i rounds : ℕ) (log : List (ℕ × Entry))
    → LogValid n b log
    → LogValid n b (delete_slots i rounds log)
unfolding delete_slots
delete_slots-LogValid n b i zero log v = v
delete_slots-LogValid n b i (suc rounds) log v =
    delete_slots-LogValid n b (i + 1) rounds (if i == 0 then log else erase (i - 1) log)
      (LogValid-if n b (i == 0) log (erase (i - 1) log) v (LogValid-erase n b (i - 1) log v))

cleanup_log-IsValid : (p : PigPaxos) → IsValid p → IsValid (cleanup_log p)
unfolding cleanup_log
cleanup_log-IsValid p v = record {
  entries = delete_slots-LogValid p.next_slot p.ballot _ _ p.log v.entries;
  executed = v.executed;
  promises = v.promises;
}

update_executed-IsValid :
    (id last : ℕ) (p : PigPaxos) → IsValid p → IsValid (update_executed id last p)
unfolding update_executed
update_executed-IsValid id last p v = record {
  entries = v.entries;
  executed = v.executed;
  promises = v.promises;
}

-- A promise reports no ballot above its own; no other call has a condition.
abbrev pub IsWellFormed : Event → Type 0
IsWellFormed (promise now m) = ReportsBelow m.ballot m.log
IsWellFormed _ = Unit {0}

-- Every well-formed call, whatever branch it takes, keeps the invariant, while the ballot numbers
-- of the node last.
pub handle-IsValid :
    (c : Config) (e : Event) (p q : PigPaxos)
    → number p.ballot + 1 < 2 ^ 32
    → p.id < 2 ^ 32
    → IsWellFormed e
    → handle c e p ≡ some q
    → IsValid p
    → IsValid q
unfolding handle
handle-IsValid c (request now r) p q h hi wf eq v = rw (some_inj eq) at (
    handle_request-IsValid now r p
      (handle-Advances c (request now r) p (handle_request now r p) h hi refl).ballot v)
handle-IsValid c (prepare m to) p q h hi wf eq v = rw (some_inj eq) at (handle_p1a-IsValid m to p v)
handle-IsValid c (promise now m) p q h hi wf eq v =
    rw (some_inj eq) at (handle_p1b-IsValid c now m p wf v)
handle-IsValid c (accept m to) p q h hi wf eq v =
    rw (some_inj eq) at (handle_p2a-IsValid c m to p v)
handle-IsValid c (accepted now slot b ids) p q h hi wf eq v =
    handle_p2b-IsValid c now slot b ids p q eq v
handle-IsValid c (committed m) p q h hi wf eq v = rw (some_inj eq) at (handle_p3-IsValid c m p v)
handle-IsValid c (recover_request m) p q h hi wf eq v =
    rw (some_inj eq) at (handle_recover_request-IsValid m p v)
handle-IsValid c (recover_reply m) p q h hi wf eq v =
    rw (some_inj eq) at (handle_recover_reply-IsValid m p v)
handle-IsValid c (timeout t now) p q h hi wf eq v =
    rw (some_inj eq) at (check_timeout-IsValid t now p v)
handle-IsValid c (executed id last) p q h hi wf eq v =
    rw (some_inj eq) at (update_executed-IsValid id last p v)
handle-IsValid c cleanup p q h hi wf eq v = rw (some_inj eq) at (cleanup_log-IsValid p v)
