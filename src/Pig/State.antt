-- ===== src/Pig/State.antt =====
-- The state of a node: `entry` and `PigPaxos`. What a handler sends is appended to `out`. The
-- counter `slot` of the source starts at -1: the field `next_slot` is `slot + 1`. So are the
-- cleanup markers, which may be -1 too: `executed_by_node` and `last_cleanup` hold them plus one.
use pigpaxos.Prelude.{ℕ, List, [], ◌∷◌, ◌++◌, map, Option, none, Bool, false, ◌||◌, ◌==◌}
use pigpaxos.Ballot.{owner}
use pigpaxos.Quorum.{Quorum, new_quorum}
use pigpaxos.Db.{Command, Database, new_database}
use pigpaxos.Pig.Msg.{Request, Reply, Msg, recover_request}

-- `entry`; nil pointers are `none`. The zero time is 0.
pub record Entry : Type 0 where
  pub ballot : ℕ
  pub command : Command
  pub commit : Bool
  pub request : Option Request
  pub quorum : Option Quorum
  pub timestamp : ℕ

-- What a handler does to the rest of the node.
pub data Out : Type 0 where
  broadcast : Msg → Out
  send : ℕ → Msg → Out
  forward : ℕ → Request → Out
  reply : Request → Reply → Out
  retro : ℕ → Command → Out  -- the transaction of the retroscope log for a committed slot

-- `PigPaxos`, with the identity and the database of its node
pub record PigPaxos : Type 0 where
  pub id : ℕ
  pub log : List (ℕ × Entry)
  pub next_slot : ℕ
  pub execute : ℕ
  pub last_cleanup : ℕ
  pub global_execute : ℕ
  pub executed_by_node : List (ℕ × ℕ)
  pub active : Bool
  pub ballot : ℕ
  pub p1a_time : ℕ
  pub quorum : Quorum
  pub requests : List Request
  pub p3_ballot : ℕ
  pub p3_slots : List ℕ
  pub last_p3_time : ℕ
  pub reply_when_commit : Bool
  pub db : Database
  pub out : List Out

-- `NewPigPaxos` over a new node
abbrev pub new_pig_paxos : ℕ → Bool → PigPaxos
new_pig_paxos id multiversion = record {
  id = id;
  log = [];
  next_slot = 0;
  execute = 0;
  last_cleanup = 1;
  global_execute = 0;
  executed_by_node = [];
  active = false;
  ballot = 0;
  p1a_time = 0;
  quorum = new_quorum;
  requests = [];
  p3_ballot = 0;
  p3_slots = [];
  last_p3_time = 0;
  reply_when_commit = false;
  db = new_database multiversion;
  out = [];
}

-- `IsLeader`
unfoldable pub is_leader : PigPaxos → Bool
is_leader p = p.active || owner p.ballot == p.id

-- `Leader`
unfoldable pub leader : PigPaxos → ℕ
leader p = owner p.ballot

-- `SetActive`, `SetBallot`
pub set_active : Bool → PigPaxos → PigPaxos
set_active active p = record p { active = active }

pub set_ballot : ℕ → PigPaxos → PigPaxos
set_ballot ballot p = record p { ballot = ballot }

abbrev pub emit : Out → PigPaxos → PigPaxos
emit o p = record p { out = p.out ++ o ∷ [] }

-- `forward`
unfoldable pub forward_requests : PigPaxos → PigPaxos
forward_requests p = record p {
  out = p.out ++ map (forward (owner p.ballot)) p.requests;
  requests = [];
}

-- `sendRecoverRequest`
abbrev pub recover_from : ℕ → ℕ → ℕ → Out
recover_from self ballot slot =
    send (owner ballot) (recover_request (record { ballot = ballot; slot = slot; node_id = self }))

-- The command of the zero `entry`.
abbrev pub no_command : Command
no_command = record { key = 0; value = none; client_id = 0; command_id = 0 }
