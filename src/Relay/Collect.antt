-- ===== src/Relay/Collect.antt =====
-- The replies that a relay collects and passes back: `handleP1bRelay`, `handleP2bRelay` and the
-- leader's `handleP1bLeader`, `handleP2b` and `handleP2bAggregated`.
pub mod Votes
use pigpaxos.Prelude.{
  ℕ, ◌+◌, List, [], ◌∷◌, ◌++◌, Option, none, some, Bool, true, false, ◌&&◌, ◌||◌, ◌==◌, ltb,
  if◌then◌else◌, length, contains,
}
use pigpaxos.Prelude.Assoc.{lookup, insert, erase, value_at}
use pigpaxos.Ballot.{owner}
use pigpaxos.Config.{Config}
use pigpaxos.Pig.Msg.{P1b, P2b}
use pigpaxos.Pig.State.{is_leader}
use pigpaxos.Pig.Accept.{handle_p1b, handle_p2b}
use pigpaxos.Pig.Maintain.{update_executed}
use pigpaxos.Relay.Groups.{missing_ids, voted_ids}
use pigpaxos.Relay.State.{
  P2bAggregated, P1bRelay, P2bRelay, plain_p1bs, plain_p2b, small_p2b, back_p1bs, back_p2b, Replica,
  group_at, send_to, send_hop,
}

-- `readyToRelayP1b`
unfoldable pub ready_to_relay_p1b : Replica → ℕ → List P1b → Bool
ready_to_relay_p1b r ballot p1bs =
    let group = group_at r r.my_relay_group in
    length p1bs == length group || length p1bs + 1 == length group && contains group (owner ballot)

-- the message back to the last hop, and the fields that are cleared
unfoldable pub relay_p1bs : P1bRelay → Replica → Option Replica
relay_p1bs x r =
    send_hop x.hops x.progress (if x.progress == 0 then plain_p1bs x.p1bs else back_p1bs x)
      (record r { pending_p1b_relay = 0; p1b_relay_depth = 0; p1b_relay = none })

-- `handleP1bRelay`; `none` is the panic of a nil `p1bRelayRoutedMsg`
unfoldable pub handle_p1b_relay : P1b → Replica → Option Replica
handle_p1b_relay m r = elim r.p1b_relay [
  | none ↦ none
  | some x ↦
      let x' : P1bRelay = record x { p1bs = x.p1bs ++ m ∷ [] } in
      if ready_to_relay_p1b r m.ballot x'.p1bs
      then relay_p1bs x' r
      else some (record r { p1b_relay = some x' })
]

-- `HandleP1b` of the node
abbrev pub node_p1b : Config → ℕ → P1b → Replica → Replica
node_p1b c now m r = record r { node = handle_p1b c now m r.node }

-- `handleP1bLeader`
unfoldable pub handle_p1b_leader : Config → ℕ → List P1b → Replica → Replica
handle_p1b_leader c now [] r = r
handle_p1b_leader c now (m ∷ ms) r = handle_p1b_leader c now ms (node_p1b c now m r)

-- `handleP1b`
unfoldable pub handle_p1b_reply : Config → ℕ → P1b → Replica → Option Replica
handle_p1b_reply c now m r = elim r.p1b_relay [
  | none ↦ some (node_p1b c now m r)
  | some x ↦ if ltb 0 r.pending_p1b_relay then handle_p1b_relay m r else some (node_p1b c now m r)
]

-- `readyToRelayP2b`, for the collected votes of a slot
unfoldable pub ready_to_relay_p2b : Replica → P2b → Bool
ready_to_relay_p2b r votes =
    let group = group_at r r.my_relay_group in
    length votes.ids + r.relay_slack == length group
    || length votes.ids + 1 + r.relay_slack == length group
      && value_at (owner votes.ballot) r.node_ids_to_group == r.my_relay_group

-- the `P2bAggregated` of the relay
abbrev pub aggregate : ℕ → List ℕ → ℕ → Replica → P2bAggregated
aggregate slot missing ballot r = record {
  missing = missing;
  relay_id = r.node.id;
  relay_last_execute = r.node.execute;
  ballot = ballot;
  slot = slot;
}

-- the message back to the last hop for a slot, and the deletion of the slot
unfoldable pub relay_p2b : ℕ → List ℕ → P2bRelay → Replica → Option Replica
relay_p2b slot missing x r =
    send_hop x.hops x.progress
      (if x.progress == 0
        then (if r.use_small_p2b
            then small_p2b (aggregate slot missing x.votes.ballot r)
            else plain_p2b x.votes)
        else back_p2b x)
      (record r {
        p2b_relays = erase slot r.p2b_relays;
        p2b_relay_times = erase slot r.p2b_relay_times;
      })

-- the branch of `handleP2bRelay` for votes of the relay's ballot
unfoldable pub collect_p2b : P2b → P2bRelay → Replica → Option Replica
collect_p2b m x r =
    let x' : P2bRelay = record x { votes = record x.votes { ids = x.votes.ids ++ m.ids } } in
    let r' = record r { p2b_relays = insert m.slot x' r.p2b_relays } in
    if ready_to_relay_p2b r' x'.votes
    then relay_p2b m.slot
        (if ltb 0 r.relay_slack then missing_ids (group_at r r.my_relay_group) x'.votes.ids else [])
        x' r'
    else some r'

-- `handleP2bRelay`
unfoldable pub handle_p2b_relay : P2b → Replica → Option Replica
handle_p2b_relay m r = elim (lookup m.slot r.p2b_relays) [
  | none ↦ some r
  | some x ↦
      if x.votes.ballot == m.ballot
      then collect_p2b m x r
      else some (
          send_to (owner x.votes.ballot)
            (plain_p2b (record { ids = []; ballot = m.ballot; slot = m.slot })) r)
]

-- `HandleP2b` of the node
unfoldable pub node_p2b : Config → ℕ → ℕ → ℕ → List ℕ → Replica → Option Replica
node_p2b c now slot ballot ids r = elim (handle_p2b c now slot ballot ids r.node) [
  | none ↦ none
  | some node ↦ some (record r { node = node })
]

-- `handleP2b`
unfoldable pub handle_p2b_reply : Config → ℕ → P2b → Replica → Option Replica
handle_p2b_reply c now m r =
    if is_leader r.node then node_p2b c now m.slot m.ballot m.ids r else handle_p2b_relay m r

-- `handleP2bAggregated`
unfoldable pub handle_p2b_aggregated : Config → ℕ → P2bAggregated → Replica → Option Replica
handle_p2b_aggregated c now m r =
    if is_leader r.node
    then node_p2b c now m.slot m.ballot
        (voted_ids (group_at r (value_at m.relay_id r.node_ids_to_group)) m.missing)
        (record r { node = update_executed m.relay_id m.relay_last_execute r.node })
    else some r
