-- ===== src/Pig/Step.antt =====
-- A node as a state machine: the calls that reach it, one at a time, in any order.
use pigpaxos.Prelude.{ℕ, ◌+◌, ◌^◌, ◌<◌, List, ◌≡◌, Option, some}
use pigpaxos.Ballot.{number}
use pigpaxos.Config.{Config}
use pigpaxos.Pig.Msg.{Request, P1a, P1b, P2a, P3, P3RecoverRequest, P3RecoverReply}
use pigpaxos.Pig.State.{PigPaxos}
use pigpaxos.Pig.Prepare.{handle_p1a}
use pigpaxos.Pig.Accept.{handle_request, handle_p1b, handle_p2b}
use pigpaxos.Pig.Commit.{handle_p2a, handle_p3, handle_recover_request, handle_recover_reply}
use pigpaxos.Pig.Maintain.{check_timeout, update_executed, cleanup_log}

-- A call of a handler, with the readings of the clock that it makes.
pub data Event : Type 0 where
  request : (now : ℕ) → Request → Event
  prepare : P1a → (reply_to : ℕ) → Event
  promise : (now : ℕ) → P1b → Event
  accept : P2a → (reply_to : ℕ) → Event
  accepted : (now slot ballot : ℕ) → (ids : List ℕ) → Event
  committed : P3 → Event
  recover_request : P3RecoverRequest → Event
  recover_reply : P3RecoverReply → Event
  timeout : (cutoff now : ℕ) → Event
  executed : (id last : ℕ) → Event
  cleanup : Event

-- `none` is a panic of the node.
unfoldable pub handle : Config → Event → PigPaxos → Option PigPaxos
handle c (request now r) p = some (handle_request now r p)
handle c (prepare m to) p = some (handle_p1a m to p)
handle c (promise now m) p = some (handle_p1b c now m p)
handle c (accept m to) p = some (handle_p2a c m to p)
handle c (accepted now slot ballot ids) p = handle_p2b c now slot ballot ids p
handle c (committed m) p = some (handle_p3 c m p)
handle c (recover_request m) p = some (handle_recover_request m p)
handle c (recover_reply m) p = some (handle_recover_reply m p)
handle c (timeout cutoff now) p = some (check_timeout cutoff now p)
handle c (executed id last) p = some (update_executed id last p)
handle c cleanup p = some (cleanup_log p)

-- The states that a node reaches from another while its ballot numbers last: `Next` wraps at 2 ^ 32.
pub data Reach (c : Config) (p : PigPaxos) : PigPaxos → Type 0 where
  here : Reach c p p
  later :
      {q r : PigPaxos}
      → Reach c p q
      → (e : Event) → number q.ballot + 1 < 2 ^ 32
      → handle c e q ≡ some r
      → Reach c p r
