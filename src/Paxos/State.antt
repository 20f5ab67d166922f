-- ===== src/Paxos/State.antt =====
-- The messages of paxos/msg.go that differ from those of PigPaxos, and the state of a node.
use pigpaxos.Prelude.{ℕ, List, [], ◌∷◌, ◌++◌, map, Bool, false, ◌||◌, ◌==◌}
use pigpaxos.Prelude.Assoc.{insert}
use pigpaxos.Ballot.{owner}
use pigpaxos.Quorum.{Quorum, new_quorum}
use pigpaxos.Db.{Command, Database, new_database}
use pigpaxos.Pig.Msg.{Request, Reply, P1a, P1b, P2a, P3}
use pigpaxos.Pig.State.{Entry}

-- `P2b`
pub record Vote : Type 0 where
  pub ballot : ℕ
  pub id : ℕ
  pub slot : ℕ
  pub last_executed : ℕ

-- `P3RecoverRequest`
pub record RecoverRequest : Type 0 where
  pub ballot : ℕ
  pub slots : List ℕ
  pub node_id : ℕ

-- `P3RecoverReply`
pub record RecoverReply : Type 0 where
  pub ballot : ℕ
  pub slots : List ℕ
  pub commands : List Command

-- What a handler does to the rest of the node; `P3.Command` is never set.
pub data Sent : Type 0 where
  prepare : P1a → Sent
  promise : (to : ℕ) → P1b → Sent
  accept : P2a → Sent
  accepted : (to : ℕ) → Vote → Sent
  committed : P3 → Sent
  recover_request : (to : ℕ) → RecoverRequest → Sent
  recover_reply : (to : ℕ) → RecoverReply → Sent
  forward : (to : ℕ) → Request → Sent
  reply : Request → Reply → Sent

-- `Paxos`, with the identity and the database of its node; `next_slot` is `slot + 1`
pub record Paxos : Type 0 where
  pub id : ℕ
  pub log : List (ℕ × Entry)
  pub execute : ℕ
  pub active : Bool
  pub ballot : ℕ
  pub next_slot : ℕ
  pub p3_ballot : ℕ
  pub p3_slots : List ℕ
  pub last_p3_time : ℕ
  pub last_cleanup : ℕ
  pub global_executed : ℕ
  pub execute_by_node : List (ℕ × ℕ)
  pub quorum : Quorum
  pub requests : List Request
  pub reply_when_commit : Bool
  pub db : Database
  pub out : List Sent

-- the loop of `NewPaxos` over the configured identities
unfoldable pub zero_markers : List ℕ → List (ℕ × ℕ) → List (ℕ × ℕ)
zero_markers [] m = m
zero_markers (id ∷ ids) m = zero_markers ids (insert id 0 m)

-- `NewPaxos` over a new node, with the identities of the configuration
unfoldable pub new_paxos : ℕ → List ℕ → Bool → Paxos
new_paxos id ids multiversion = record {
  id = id;
  log = [];
  execute = 0;
  active = false;
  ballot = 0;
  next_slot = 0;
  p3_ballot = 0;
  p3_slots = [];
  last_p3_time = 0;
  last_cleanup = 0;
  global_executed = 0;
  execute_by_node = zero_markers ids [];
  quorum = new_quorum;
  requests = [];
  reply_when_commit = false;
  db = new_database multiversion;
  out = [];
}

-- `IsLeader`
abbrev pub is_leader : Paxos → Bool
is_leader p = p.active || owner p.ballot == p.id

abbrev pub emit : Sent → Paxos → Paxos
emit o p = record p { out = p.out ++ o ∷ [] }

-- `forward`
unfoldable pub forward_requests : Paxos → Paxos
forward_requests p = record p {
  out = p.out ++ map (forward (owner p.ballot)) p.requests;
  requests = [];
}

-- `sendRecoverRequest`
abbrev pub recover_from : ℕ → ℕ → List ℕ → Sent
recover_from self ballot slots =
    recover_request (owner ballot) (record { ballot = ballot; slots = slots; node_id = self })
