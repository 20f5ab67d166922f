-- ===== src/Pig/Run.antt =====
-- The runs of a node that starts anew, and the messages that the network brings.
use pigpaxos.Prelude.{ℕ, ◌+◌, ◌^◌, ◌<◌, ◌≡◌, ◌≢◌, some, Bool}
use pigpaxos.Ballot.{number, owner}
use pigpaxos.Config.{Config}
use pigpaxos.Pig.State.{PigPaxos, new_pig_paxos}
use pigpaxos.Pig.Step.{
  Event, request, prepare, promise, accept, accepted, committed, recover_request, recover_reply,
  timeout, executed, cleanup, handle,
}
use pigpaxos.Pig.Invariant.Runs.{IsWellFormed}
use pigpaxos.Pig.Invariant.Logs.{ReportsBelow}

-- A message that the network brings: a P2a comes from another node, and a promise reports no ballot
-- above its own.
abbrev pub IsDelivered : PigPaxos → Event → Type 0
IsDelivered p (accept m to) = owner m.ballot ≢ p.id
IsDelivered p (promise now m) = ReportsBelow m.ballot m.log
IsDelivered p _ = Unit {0}

pub IsDelivered-IsWellFormed : (p : PigPaxos) (e : Event) → IsDelivered p e → IsWellFormed e
IsDelivered-IsWellFormed p (request now r) d = tt
IsDelivered-IsWellFormed p (prepare m to) d = tt
IsDelivered-IsWellFormed p (promise now m) d = d
IsDelivered-IsWellFormed p (accept m to) d = tt
IsDelivered-IsWellFormed p (accepted now slot b ids) d = tt
IsDelivered-IsWellFormed p (committed m) d = tt
IsDelivered-IsWellFormed p (recover_request m) d = tt
IsDelivered-IsWellFormed p (recover_reply m) d = tt
IsDelivered-IsWellFormed p (timeout t now) d = tt
IsDelivered-IsWellFormed p (executed id last) d = tt
IsDelivered-IsWellFormed p cleanup d = tt

-- The states of a node that starts anew and handles delivered messages while its ballot numbers last.
pub data Run (c : Config) (id : ℕ) (multiversion : Bool) : PigPaxos → Type 0 where
  start : Run c id multiversion (new_pig_paxos id multiversion)
  next :
      {p q : PigPaxos}
      → Run c id multiversion p
      → (e : Event) → number p.ballot + 1 < 2 ^ 32
      → IsDelivered p e
      → handle c e p ≡ some q
      → Run c id multiversion q
