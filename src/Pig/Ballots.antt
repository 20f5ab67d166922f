-- ===== src/Pig/Ballots.antt =====
-- The ballot of a node never falls, and no node leads under the ballot of another.
use pigpaxos.Prelude.{
  ℕ, List, length, ◌+◌, ◌≤◌, ◌<◌, ◌^◌, ◌≡◌, refl, ◌∙◌, some, true, arith, ltb, Bool-cases, some_inj,
  inl, inr, ◌==◌, ◌&&◌, ◌||◌,
}
use pigpaxos.Ballot.{number, owner}
use pigpaxos.Ballot.Order.{next_above}
use pigpaxos.Config.{Config}
use pigpaxos.Quorum.{ack, majority}
use pigpaxos.Pig.Msg.{Request, P1a, P1b, P2a, P3, P3RecoverRequest, P3RecoverReply}
use pigpaxos.Pig.State.{Entry, PigPaxos, forward_requests}
use pigpaxos.Pig.Exec.{exec}
use pigpaxos.Pig.Prepare.{start_p1a, retry_p1a, adopt, handle_p1a}
use pigpaxos.Pig.Accept.{
  handle_request, start_p2a, lead, count_promise, merge_promise, handle_p1b, accept_p2a, vote_p2a,
  step_down, after_commit, commit_entry, handle_p2b, retry_p2a,
}
use pigpaxos.Pig.Commit.{
  commit_slots, handle_p3, handle_p2a, answer_recovery, handle_recover_request,
  handle_recover_reply,
}
use pigpaxos.Pig.Maintain.{retry, retry_slot, check_timeout, update_executed, cleanup_log}
use pigpaxos.Pig.Step.{
  Event, request, prepare, promise, accept, accepted, committed, recover_request, recover_reply,
  timeout, executed, cleanup, handle, Reach, here, later,
}
use pigpaxos.Pig.Votes.{Votes, ignored, recorded, chosen, handle_p2b-outcome}
use pigpaxos.Pig.Frame.{SameRole, exec-SameRole, commit_slots-SameRole, propose_all-SameRole}

-- A node that leads owns its ballot.
abbrev pub OwnsBallot : PigPaxos → Type 0
OwnsBallot p = p.active ≡ true → owner p.ballot ≡ p.id

-- `q` is the same node at a ballot that is not lower, and leads only under a ballot of its own.
pub record Advances (p q : PigPaxos) : Type 0 where
  pub id : q.id ≡ p.id
  pub ballot : p.ballot ≤ q.ballot
  pub owned : OwnsBallot p → OwnsBallot q

pub Advances-refl : (p : PigPaxos) → Advances p p
Advances-refl p = record { id = refl; ballot = omega arith; owned = λ h. h }

pub Advances-trans : {p q r : PigPaxos} → Advances p q → Advances q r → Advances p r
Advances-trans a b = record {
  id = b.id ∙ a.id;
  ballot = omega (arith, a.ballot, b.ballot);
  owned = λ h. b.owned (a.owned h);
}

SameRole-Advances : {p q : PigPaxos} → SameRole p q → Advances p q
SameRole-Advances s = record {
  id = s.id;
  ballot = omega (arith, s.ballot);
  owned = λ h e. ground (arith, s.id, s.ballot, s.active, h);
}

start_p1a-Advances :
    (now : ℕ) (p : PigPaxos)
    → number p.ballot + 1 < 2 ^ 32
    → p.id < 2 ^ 32
    → Advances p (start_p1a now p)
unfolding start_p1a
start_p1a-Advances now p h hi =
    let up = next_above p.ballot p.ballot p.id p.id h h hi hi in
    record { id = ground arith; ballot = ground (arith, up.0); owned = ground (arith, up.1) }

handle_request-Advances :
    (now : ℕ) (r : Request) (p : PigPaxos)
    → number p.ballot + 1 < 2 ^ 32
    → p.id < 2 ^ 32
    → Advances p (handle_request now r p)
unfolding handle_request start_p1a start_p2a
handle_request-Advances now r p h hi =
    let up = next_above p.ballot p.ballot p.id p.id h h hi hi in
    record { id = ground arith; ballot = ground (arith, up.0); owned = ground (arith, up.1) }

handle_p1a-Advances : (m : P1a) (to : ℕ) (p : PigPaxos) → Advances p (handle_p1a m to p)
unfolding handle_p1a adopt forward_requests
handle_p1a-Advances m to p = record {
  id = ground arith;
  ballot = ground arith;
  owned = ground arith;
}

lead-Advances : (now : ℕ) (p : PigPaxos) → owner p.ballot ≡ p.id → Advances p (lead now p)
unfolding lead
lead-Advances now p h =
    let same = propose_all-SameRole now p.requests _ in
    record {
      id = same.id;
      ballot = omega (arith, same.ballot);
      owned = λ _ _. rw (same.ballot, same.id) h;
    }

count_promise-Advances :
    (c : Config) (now : ℕ) (m : P1b) (p : PigPaxos) → Advances p (count_promise c now m p)
unfolding count_promise
count_promise-Advances c now m p =
    elim (Bool-cases (owner m.ballot == p.id && m.ballot == p.ballot)) [
      | inr other ↦ rw other (Advances-refl p)
      | inl mine ↦ elim (Bool-cases (majority c (ack p.quorum m.id))) [
        | inr few ↦ rw (mine, few) (record { id = refl; ballot = omega arith; owned = λ h. h })
        | inl enough ↦
            let led = lead-Advances now (record p { quorum = ack p.quorum m.id }) (ground arith) in
            rw (mine, enough) (record { id = led.id; ballot = led.ballot; owned = led.owned })
      ]
    ]

merge_promise-Advances : (m : P1b) (p : PigPaxos) → Advances p (merge_promise m p)
unfolding merge_promise forward_requests
merge_promise-Advances m p = record {
  id = ground arith;
  ballot = ground arith;
  owned = ground arith;
}

handle_p1b-Advances :
    (c : Config) (now : ℕ) (m : P1b) (p : PigPaxos) → Advances p (handle_p1b c now m p)
unfolding handle_p1b
handle_p1b-Advances c now m p = elim (Bool-cases (ltb m.ballot p.ballot || p.active)) [
  | inl old ↦ rw old (Advances-refl p)
  | inr new ↦ rw new (
      Advances-trans (merge_promise-Advances m p)
        (count_promise-Advances c now m (merge_promise m p)))
]

accept_p2a-Advances : (m : P2a) (p : PigPaxos) → Advances p (accept_p2a m p)
unfolding accept_p2a
accept_p2a-Advances m p = record { id = ground arith; ballot = ground arith; owned = ground arith }

step_down-Advances : (now b : ℕ) (p : PigPaxos) → Advances p (step_down now b p)
unfolding step_down
step_down-Advances now b p = record {
  id = ground arith;
  ballot = ground arith;
  owned = ground arith;
}

check_timeout-Advances : (t now : ℕ) (p : PigPaxos) → Advances p (check_timeout t now p)
unfolding check_timeout retry retry_slot retry_p1a retry_p2a
check_timeout-Advances t now p = record {
  id = ground arith;
  ballot = ground arith;
  owned = ground arith;
}

commit_slots-Advances :
    (c : Config) (b : ℕ) (slots : List ℕ) (p : PigPaxos) → Advances p (commit_slots c b slots p)
commit_slots-Advances c b slots p = SameRole-Advances (commit_slots-SameRole c b slots p)

exec-Advances : (p : PigPaxos) → Advances p (exec p)
exec-Advances p = SameRole-Advances (exec-SameRole p)

handle_p3-Advances : (c : Config) (m : P3) (p : PigPaxos) → Advances p (handle_p3 c m p)
unfolding handle_p3
handle_p3-Advances c m p =
    Advances-trans (commit_slots-Advances c m.ballot m.slots p) (exec-Advances _)

handle_p2a-Advances :
    (c : Config) (m : P2a) (to : ℕ) (p : PigPaxos) → Advances p (handle_p2a c m to p)
unfolding handle_p2a vote_p2a
handle_p2a-Advances c m to p =
    let voted = accept_p2a-Advances m p in
    let ended = handle_p3-Advances c m.p3msg (vote_p2a m to p) in
    elim (Bool-cases (ltb 0 (length m.p3msg.slots))) [
      | inl more ↦ rw more (
          Advances-trans (record { id = voted.id; ballot = voted.ballot; owned = voted.owned })
            ended)
      | inr none_left ↦
          rw none_left (record { id = voted.id; ballot = voted.ballot; owned = voted.owned })
    ]

after_commit-Advances : (e : Entry) (p q : PigPaxos) → after_commit e p ≡ some q → Advances p q
unfolding after_commit
after_commit-Advances e p q h = record {
  id = ground (arith, (exec-SameRole p).id);
  ballot = ground (arith, (exec-SameRole p).ballot);
  owned = ground (arith, (exec-SameRole p).id, (exec-SameRole p).ballot, (exec-SameRole p).active);
}

Votes-Advances :
    {c : Config} {slot b : ℕ} {ids : List ℕ} {e : Entry} {p q : PigPaxos}
    → Votes c slot b ids e p q
    → Advances p q
unfolding commit_entry
Votes-Advances (ignored _ same) = rw same (Advances-refl _)
Votes-Advances (recorded _ _ _ _ same) =
    rw same (record { id = refl; ballot = omega arith; owned = λ h. h })
Votes-Advances (chosen _ _ _ _ done) =
    let a = after_commit-Advances _ _ _ done in
    record { id = a.id; ballot = a.ballot; owned = a.owned }

handle_p2b-Advances :
    (c : Config) (now slot b : ℕ) (ids : List ℕ) (p q : PigPaxos)
    → handle_p2b c now slot b ids p ≡ some q
    → Advances p q
handle_p2b-Advances c now slot b ids p q h = elim (handle_p2b-outcome c now slot b ids p q h) [
  | inl same ↦ rw same (Advances-refl p)
  | inr (e, _, _, _, votes) ↦ Advances-trans (step_down-Advances now b p) (Votes-Advances votes)
]

handle_recover_request-Advances :
    (m : P3RecoverRequest) (p : PigPaxos) → Advances p (handle_recover_request m p)
unfolding handle_recover_request answer_recovery
handle_recover_request-Advances m p =
    Advances-trans (record { id = ground arith; ballot = ground arith; owned = ground arith })
      (exec-Advances _)

handle_recover_reply-Advances :
    (m : P3RecoverReply) (p : PigPaxos) → Advances p (handle_recover_reply m p)
unfolding handle_recover_reply
handle_recover_reply-Advances m p =
    let e = exec-Advances _ in record { id = e.id; ballot = e.ballot; owned = e.owned }

update_executed-Advances : (id last : ℕ) (p : PigPaxos) → Advances p (update_executed id last p)
unfolding update_executed
update_executed-Advances id last p = record { id = refl; ballot = omega arith; owned = λ h. h }

cleanup_log-Advances : (p : PigPaxos) → Advances p (cleanup_log p)
unfolding cleanup_log
cleanup_log-Advances p = record { id = refl; ballot = omega arith; owned = λ h. h }

-- Whatever call a node handles, it keeps its identity, its ballot does not fall, and if it led only
-- under a ballot of its own it does so afterwards, while its ballot numbers last.
pub handle-Advances :
    (c : Config) (e : Event) (p q : PigPaxos)
    → number p.ballot + 1 < 2 ^ 32
    → p.id < 2 ^ 32
    → handle c e p ≡ some q
    → Advances p q
unfolding handle
handle-Advances c (request now r) p q h hi eq =
    rw (some_inj eq) at (handle_request-Advances now r p h hi)
handle-Advances c (prepare m to) p q h hi eq = rw (some_inj eq) at (handle_p1a-Advances m to p)
handle-Advances c (promise now m) p q h hi eq = rw (some_inj eq) at (handle_p1b-Advances c now m p)
handle-Advances c (accept m to) p q h hi eq = rw (some_inj eq) at (handle_p2a-Advances c m to p)
handle-Advances c (accepted now slot b ids) p q h hi eq =
    handle_p2b-Advances c now slot b ids p q eq
handle-Advances c (committed m) p q h hi eq = rw (some_inj eq) at (handle_p3-Advances c m p)
handle-Advances c (recover_request m) p q h hi eq =
    rw (some_inj eq) at (handle_recover_request-Advances m p)
handle-Advances c (recover_reply m) p q h hi eq =
    rw (some_inj eq) at (handle_recover_reply-Advances m p)
handle-Advances c (timeout t now) p q h hi eq = rw (some_inj eq) at (check_timeout-Advances t now p)
handle-Advances c (executed id last) p q h hi eq =
    rw (some_inj eq) at (update_executed-Advances id last p)
handle-Advances c cleanup p q h hi eq = rw (some_inj eq) at (cleanup_log-Advances p)

pub Reach-Advances : {c : Config} {p q : PigPaxos} → p.id < 2 ^ 32 → Reach c p q → Advances p q
Reach-Advances hi here = Advances-refl _
Reach-Advances {c} {p} hi (later {q = q} {r = r} before e h eq) =
    let a = Reach-Advances hi before in
    Advances-trans a (handle-Advances c e q r h (rw (← a.id) at hi) eq)
