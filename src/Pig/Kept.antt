-- ===== src/Pig/Kept.antt =====
-- A proposal that a node has broadcast stays broadcast.
use pigpaxos.Prelude.{
  ℕ, ◌+◌, ◌-◌, ◌^◌, ◌<◌, ◌≡◌, Option, none, some, not, ◌&&◌, ◌||◌, ◌==◌, ltb, arith, some_inj,
  if_elim,
}
use pigpaxos.Prelude.Assoc.{lookup}
use pigpaxos.Ballot.{owner}
use pigpaxos.Config.{Config}
use pigpaxos.Quorum.{ack, majority}
use pigpaxos.Pig.Msg.{Request, P1b, P2a}
use pigpaxos.Pig.State.{Entry, PigPaxos}
use pigpaxos.Pig.Prepare.{retry_p1a}
use pigpaxos.Pig.Accept.{
  handle_request, lead, count_promise, merge_promise, handle_p1b, retry_p2a, in_ms,
}
use pigpaxos.Pig.Maintain.{retry, retry_slot, check_timeout}
use pigpaxos.Pig.Step.{
  Event, request, prepare, promise, accept, accepted, committed, recover_request, recover_reply,
  timeout, executed, cleanup, handle,
}
use pigpaxos.Pig.Proposals.{HasProposed}
use pigpaxos.Pig.Backed.Proposing.{
  HasProposed-later, HasProposed-start_p2a, HasProposed-propose_all,
}
use pigpaxos.Pig.Proposals.Quiet.{Quiet}
use pigpaxos.Pig.Proposals.Steps.{start_p1a-Quiet, handle_p1a-Quiet}
use pigpaxos.Pig.Proposals.Promise.{merge_promise-Quiet}
use pigpaxos.Ballot.{number}
use pigpaxos.Pig.Run.{IsDelivered}
use pigpaxos.Pig.Proposals.Handlers.{
  handle_p2a-Quiet, handle_p3-Quiet, handle_recover_request-Quiet, handle_recover_reply-Quiet,
  handle_p2b-Quiet, cleanup_log-Quiet, update_executed-Quiet,
}

Quiet-HasProposed : {p q : PigPaxos} (m : P2a) → Quiet p q → HasProposed p m → HasProposed q m
Quiet-HasProposed m w k = rw w.silent k

lead-HasProposed : (now : ℕ) (p : PigPaxos) (m : P2a) → HasProposed p m → HasProposed (lead now p) m
unfolding lead
lead-HasProposed now p m k =
    HasProposed-propose_all now p.requests _ m (HasProposed-later m p.out _ k)

count_promise-HasProposed :
    (c : Config) (now : ℕ) (m : P1b) (p : PigPaxos) (n : P2a)
    → HasProposed p n
    → HasProposed (count_promise c now m p) n
unfolding count_promise
count_promise-HasProposed c now m p n k =
    if_elim (λ (q : PigPaxos). HasProposed q n) (owner m.ballot == p.id && m.ballot == p.ballot) _ _
      (λ mine.
        if_elim (λ (q : PigPaxos). HasProposed q n) (majority c (ack p.quorum m.id)) _ _
          (λ enough. lead-HasProposed now _ n k) (λ few. k))
      (λ other. k)

handle_p1b-HasProposed :
    (c : Config) (now : ℕ) (m : P1b) (p : PigPaxos) (n : P2a)
    → HasProposed p n
    → HasProposed (handle_p1b c now m p) n
unfolding handle_p1b
handle_p1b-HasProposed c now m p n k =
    if_elim (λ (q : PigPaxos). HasProposed q n) (ltb m.ballot p.ballot || p.active) _ _ (λ old. k)
      (λ new.
        count_promise-HasProposed c now m (merge_promise m p) n
          (Quiet-HasProposed n (merge_promise-Quiet m p (ground arith)) k))

handle_request-HasProposed :
    (now : ℕ) (r : Request) (p : PigPaxos) (n : P2a)
    → number p.ballot + 1 < 2 ^ 32
    → p.id < 2 ^ 32
    → HasProposed p n
    → HasProposed (handle_request now r p) n
unfolding handle_request
handle_request-HasProposed now r p n h hi k =
    if_elim (λ (q : PigPaxos). HasProposed q n) (not p.active) _ _
      (λ follows.
        if_elim (λ (q : PigPaxos). HasProposed q n) (not (owner p.ballot == p.id)) _ _
          (λ other. Quiet-HasProposed n (start_p1a-Quiet now _ h hi) k) (λ waiting. k))
      (λ leads. HasProposed-start_p2a now p r n k)

retry_slot-HasProposed :
    (t : ℕ) (o : Option Entry) (p : PigPaxos) (n : P2a)
    → HasProposed p n
    → HasProposed (retry_slot t o p) n
unfolding retry_slot retry_p2a
retry_slot-HasProposed t none p n k = k
retry_slot-HasProposed t (some e) p n k =
    if_elim (λ (q : PigPaxos). HasProposed q n) (not e.commit && ltb e.timestamp t) _ _
      (λ late. HasProposed-later n p.out _ k) (λ soon. k)

retry_p1a-HasProposed :
    (now : ℕ) (p : PigPaxos) (n : P2a) → HasProposed p n → HasProposed (retry_p1a now p) n
unfolding retry_p1a
retry_p1a-HasProposed now p n k =
    if_elim (λ (q : PigPaxos). HasProposed q n) p.active _ _ (λ leads. k)
      (λ follows. HasProposed-later n p.out _ k)

check_timeout-HasProposed :
    (t now : ℕ) (p : PigPaxos) (n : P2a) → HasProposed p n → HasProposed (check_timeout t now p) n
unfolding check_timeout retry
check_timeout-HasProposed t now p n k =
    let kept : HasProposed (retry t now p) n =
      if_elim (λ (q : PigPaxos). HasProposed q n) (p.active && ltb p.execute p.next_slot) _ _
        (λ waits. retry_slot-HasProposed t (lookup p.execute p.log) p n k)
        (λ rest.
          if_elim (λ (q : PigPaxos). HasProposed q n) (not p.active && ltb p.p1a_time t) _ _
            (λ late. retry_p1a-HasProposed now p n k) (λ soon. k)) in
    if_elim (λ (q : PigPaxos). HasProposed q n)
      (ltb (retry t now p).last_p3_time (in_ms now - 10)
        && ltb 0 (retry t now p).last_p3_time
        && ltb 0 (retry t now p).p3_ballot)
      _ _ (λ due. HasProposed-later n (retry t now p).out _ kept) (λ rest. kept)

pub handle-HasProposed :
    (c : Config) (e : Event) (p q : PigPaxos) (n : P2a)
    → number p.ballot + 1 < 2 ^ 32
    → p.id < 2 ^ 32
    → IsDelivered p e
    → handle c e p ≡ some q
    → HasProposed p n
    → HasProposed q n
unfolding handle
handle-HasProposed c (request now r) p q n h hi d eq k =
    rw (some_inj eq) at (handle_request-HasProposed now r p n h hi k)
handle-HasProposed c (prepare m to) p q n h hi d eq k =
    Quiet-HasProposed n (rw (some_inj eq) at (handle_p1a-Quiet m to p)) k
handle-HasProposed c (promise now m) p q n h hi d eq k =
    rw (some_inj eq) at (handle_p1b-HasProposed c now m p n k)
handle-HasProposed c (accept m to) p q n h hi d eq k =
    Quiet-HasProposed n (rw (some_inj eq) at (handle_p2a-Quiet c m to p d)) k
handle-HasProposed c (accepted now slot b ids) p q n h hi d eq k =
    Quiet-HasProposed n (handle_p2b-Quiet c now slot b ids p q eq) k
handle-HasProposed c (committed m) p q n h hi d eq k =
    Quiet-HasProposed n (rw (some_inj eq) at (handle_p3-Quiet c m p)) k
handle-HasProposed c (recover_request m) p q n h hi d eq k =
    Quiet-HasProposed n (rw (some_inj eq) at (handle_recover_request-Quiet m p)) k
handle-HasProposed c (recover_reply m) p q n h hi d eq k =
    Quiet-HasProposed n (rw (some_inj eq) at (handle_recover_reply-Quiet m p)) k
handle-HasProposed c (timeout t now) p q n h hi d eq k =
    rw (some_inj eq) at (check_timeout-HasProposed t now p n k)
handle-HasProposed c (executed id last) p q n h hi d eq k =
    Quiet-HasProposed n (rw (some_inj eq) at (update_executed-Quiet id last p)) k
handle-HasProposed c cleanup p q n h hi d eq k =
    Quiet-HasProposed n (rw (some_inj eq) at (cleanup_log-Quiet p)) k
