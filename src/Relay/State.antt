-- ===== src/Relay/State.antt =====
-- The state of a replica: `RoutedMsg`, `P2bAggregated` and `Replica`.
use pigpaxos.Prelude.{ℕ, List, [], ◌∷◌, ◌++◌, Option, none, some, Bool, get_elem?}
use pigpaxos.Pig.Msg.{Request, P1a, P1b, P2a, P2b, P3}
use pigpaxos.Pig.State.{PigPaxos}

-- The payloads of a `RoutedMsg` that `handleRoutedMsg` tells apart.
pub data Payload : Type 0 where
  p1a : P1a → Payload
  p2a : P2a → Payload
  p3 : P3 → Payload
  p1b : P1b → Payload
  p2b : P2b → Payload

-- `RoutedMsg`
pub record RoutedMsg : Type 0 where
  pub hops : List ℕ
  pub is_forward : Bool
  pub progress : ℕ
  pub payload : Payload

-- `P2bAggregated`; `relay_last_execute`, which may be -1, is held plus one
pub record P2bAggregated : Type 0 where
  pub missing : List ℕ
  pub relay_id : ℕ
  pub relay_last_execute : ℕ
  pub ballot : ℕ
  pub slot : ℕ

-- the `RoutedMsg` in `p1bRelayRoutedMsg`, whose payload is a `[]P1b`
pub record P1bRelay : Type 0 where
  pub hops : List ℕ
  pub progress : ℕ
  pub p1bs : List P1b

-- a `RoutedMsg` in `p2bRelaysMapByBalSlot`, whose payload is a `P2b`
pub record P2bRelay : Type 0 where
  pub hops : List ℕ
  pub progress : ℕ
  pub votes : P2b

-- What a replica hands to `Send` and `Forward`.
pub data Sent : Type 0 where
  routed : RoutedMsg → Sent
  plain_p1a : P1a → Sent
  plain_p1bs : List P1b → Sent
  plain_p2b : P2b → Sent
  small_p2b : P2bAggregated → Sent
  back_p1bs : P1bRelay → Sent
  back_p2b : P2bRelay → Sent
  forwarded : Request → Sent

-- `Replica`, with the flags it reads. The node's own messages are in `node.out`.
pub record Replica : Type 0 where
  pub node : PigPaxos
  pub relay_groups : List (List ℕ)
  pub my_relay_group : ℕ
  pub node_ids_to_group : List (ℕ × ℕ)
  pub max_depth : ℕ
  pub relay_slack : ℕ
  pub use_small_p2b : Bool
  pub stable_leader : Bool
  pub gray_nodes : List (ℕ × ℕ)
  pub p1b_relay : Option P1bRelay
  pub pending_p1b_relay : ℕ
  pub p1b_relay_depth : ℕ
  pub p2b_relays : List (ℕ × P2bRelay)
  pub p2b_relay_times : List (ℕ × ℕ)
  pub sent : List (ℕ × Sent)

-- `r.relayGroups[i].nodes`, for an `i` that `NewReplica` has put in range
abbrev pub group_at : Replica → ℕ → List ℕ
group_at r i = elim (get_elem? r.relay_groups i) [ none ↦ [] | some g ↦ g ]

-- `Send`, without the gray list of a failing connection
abbrev pub send_to : ℕ → Sent → Replica → Replica
send_to to m r = record r { sent = r.sent ++ (to, m) ∷ [] }

-- `Send` to `Hops[i]`; `none` is the panic of an index out of range
abbrev pub send_hop : List ℕ → ℕ → Sent → Replica → Option Replica
send_hop hops i m r = elim (get_elem? hops i) [ none ↦ none | some to ↦ some (send_to to m r) ]
