-- ===== src/Pig/Msg.antt =====
-- pigpaxos/msg.go and the client messages of message.go. A slot is an int that is never negative.
use pigpaxos.Prelude.{ℕ, List}
use pigpaxos.Db.{Command, Value}

-- `Request`: `channel` names the channel `c` that its reply goes to.
pub record Request : Type 0 where
  pub command : Command
  pub timestamp : ℕ
  pub node_id : ℕ
  pub channel : ℕ

-- `Reply`
pub record Reply : Type 0 where
  pub command : Command
  pub value : Value
  pub timestamp : ℕ

-- `CommandBallot`
pub record CommandBallot : Type 0 where
  pub command : Command
  pub ballot : ℕ

-- `P1a`
pub record P1a : Type 0 where
  pub ballot : ℕ

-- `P1b`
pub record P1b : Type 0 where
  pub id : ℕ
  pub ballot : ℕ
  pub log : List (ℕ × CommandBallot)

-- `P3`
pub record P3 : Type 0 where
  pub ballot : ℕ
  pub slots : List ℕ

-- `P2a`
pub record P2a : Type 0 where
  pub ballot : ℕ
  pub slot : ℕ
  pub global_execute : ℕ
  pub command : Command
  pub p3msg : P3

-- `P2b`
pub record P2b : Type 0 where
  pub ids : List ℕ
  pub ballot : ℕ
  pub slot : ℕ

-- `P3RecoverRequest`
pub record P3RecoverRequest : Type 0 where
  pub ballot : ℕ
  pub slot : ℕ
  pub node_id : ℕ

-- `P3RecoverReply`
pub record P3RecoverReply : Type 0 where
  pub ballot : ℕ
  pub slot : ℕ
  pub command : Command

pub data Msg : Type 0 where
  prepare : P1a → Msg
  promise : P1b → Msg
  accept : P2a → Msg
  accepted : P2b → Msg
  committed : P3 → Msg
  recover_request : P3RecoverRequest → Msg
  recover_reply : P3RecoverReply → Msg
