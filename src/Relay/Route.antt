-- ===== src/Relay/Route.antt =====
-- Forward propagation and the timers of a relay: `handleP1aRelay`, `handleP2aRelay`,
-- `handleRoutedMsg`, `handleRequest` and the branch of `startTicker` for a follower.
use pigpaxos.Prelude.{
  ℕ, ◌+◌, ◌%◌, ◌^◌, List, [], ◌∷◌, ◌++◌, Option, none, some, Bool, true, false, not, ◌&&◌, ◌||◌,
  ◌==◌, ltb, if◌then◌else◌, length, contains, get_elem?,
}
use pigpaxos.Prelude.Assoc.{lookup, insert, value_at, keys}
use pigpaxos.Ballot.{owner}
use pigpaxos.Config.{Config}
use pigpaxos.Pig.Msg.{Request, P1a, P2a}
use pigpaxos.Pig.State.{is_leader}
use pigpaxos.Pig.Prepare.{handle_p1a}
use pigpaxos.Pig.Accept.{handle_request}
use pigpaxos.Pig.Commit.{handle_p2a, handle_p3}
use pigpaxos.Relay.Groups.{missing_ids}
use pigpaxos.Relay.State.{
  Payload, p1a, p2a, p3, p1b, p2b, RoutedMsg, P1bRelay, P2bRelay, routed, plain_p1a, plain_p2b,
  forwarded, Replica, group_at, send_to,
}
use pigpaxos.Relay.Collect.{handle_p1b_relay, handle_p2b_relay, relay_p1bs, relay_p2b}

-- `Progress + 1`, a uint8
abbrev pub next_progress : RoutedMsg → ℕ
next_progress m = (m.progress + 1) % 2 ^ 8

-- the relay that `handleP1aRelay` sets up for a new ballot
unfoldable pub start_p1b_relay : ℕ → P1a → RoutedMsg → Replica → Replica
start_p1b_relay now m via r =
    let r' =
      if ltb 0 r.pending_p1b_relay then send_to (owner r.node.ballot) (plain_p1a m) r else r in
    record r' {
      pending_p1b_relay = now;
      p1b_relay = some (record { hops = via.hops; progress = via.progress; p1bs = [] });
    }

-- whether `handleP1aRelay` sets up a relay and asks for propagation
abbrev pub relays_p1a : P1a → RoutedMsg → Replica → Bool
relays_p1a m via r = ltb r.node.ballot m.ballot && ltb (next_progress via) r.max_depth

-- whom the node answers: the last hop at a leaf, itself at a relay
abbrev pub answer_to : RoutedMsg → Replica → Option ℕ
answer_to via r =
    if next_progress via == r.max_depth then get_elem? via.hops via.progress else some r.node.id

-- `handleP1aRelay`
unfoldable pub handle_p1a_relay : ℕ → P1a → RoutedMsg → Replica → Option Replica
handle_p1a_relay now m via r =
    let r' = if relays_p1a m via r then start_p1b_relay now m via r else r in
    elim (answer_to via r) [
      | none ↦ none
      | some to ↦ some (record r' { node = handle_p1a m to r'.node })
    ]

-- `newP2bRelay`
unfoldable pub new_p2b_relay : ℕ → P2a → RoutedMsg → Replica → Replica
new_p2b_relay now m via r = record r {
  p2b_relays =
      insert m.slot
        (record {
          hops = via.hops;
          progress = via.progress;
          votes = record { ids = []; ballot = m.ballot; slot = m.slot };
        })
        r.p2b_relays;
  p2b_relay_times = insert m.slot now r.p2b_relay_times;
}

-- the set-up of a relay in `handleP2aRelay`, from the relay that the slot has
unfoldable pub set_up_p2b_relay : ℕ → P2a → RoutedMsg → Option P2bRelay → Replica → Replica
set_up_p2b_relay now m via none r = new_p2b_relay now m via r
set_up_p2b_relay now m via (some x) r =
    let to = owner x.votes.ballot in
    if ltb x.votes.ballot m.ballot
    then new_p2b_relay now m via
        (send_to to (plain_p2b (record { ids = []; ballot = m.ballot; slot = m.slot })) r)
    else if ltb m.ballot x.votes.ballot
    then send_to to (plain_p2b (record { ids = []; ballot = x.votes.ballot; slot = m.slot })) r
    else r

-- `handleP2aRelay`
unfoldable pub handle_p2a_relay : Config → ℕ → P2a → RoutedMsg → Replica → Option Replica
handle_p2a_relay c now m via r =
    let leaf = next_progress via == r.max_depth in
    let r' = if leaf then r else set_up_p2b_relay now m via (lookup m.slot r.p2b_relays) r in
    elim (answer_to via r) [
      | none ↦ none
      | some to ↦ some (record r' { node = handle_p2a c m to r'.node })
    ]

-- `BroadcastToPeerGroup`
unfoldable pub broadcast_to_group : List ℕ → ℕ → RoutedMsg → Replica → Replica
broadcast_to_group [] exclude m r = r
broadcast_to_group (id ∷ ids) exclude m r =
    let skip = id == r.node.id || id == exclude || contains (keys r.gray_nodes) id in
    broadcast_to_group ids exclude m (if skip then r else send_to id (routed m) r)

-- the forward propagation at the end of `handleRoutedMsg`
unfoldable pub propagate : RoutedMsg → Bool → Replica → Option Replica
propagate m needed r =
    if ltb (next_progress m) r.max_depth && needed
    then elim (get_elem? (m.hops ++ r.node.id ∷ []) ((next_progress m + 255) % 2 ^ 8)) [
      | none ↦ none
      | some exclude ↦ some (
          broadcast_to_group (group_at r r.my_relay_group) exclude
            (record m { progress = next_progress m; hops = m.hops ++ r.node.id ∷ [] }) r)
    ]
    else some r

-- the part of `handleRoutedMsg` before the propagation of a forward message
unfoldable pub handle_payload : Config → ℕ → RoutedMsg → Payload → Replica → Option Replica
handle_payload c now m (p1a x) r = elim (handle_p1a_relay now x m r) [
  | none ↦ none
  | some r' ↦ some (if relays_p1a x m r then record r' { p1b_relay_depth = m.progress } else r')
]
handle_payload c now m (p2a x) r = handle_p2a_relay c now x m r
handle_payload c now m (p3 x) r = some (record r { node = handle_p3 c x r.node })
handle_payload c now m (p1b x) r = some r
handle_payload c now m (p2b x) r = some r

-- `needToPropagate`
abbrev pub needs_propagation : RoutedMsg → Payload → Replica → Bool
needs_propagation m (p1a x) r = relays_p1a x m r
needs_propagation m (p2a x) r = true
needs_propagation m (p3 x) r = true
needs_propagation m (p1b x) r = false
needs_propagation m (p2b x) r = false

-- the backward branch of `handleRoutedMsg`
unfoldable pub handle_back : Payload → Replica → Option Replica
handle_back (p1b x) r = handle_p1b_relay x r
handle_back (p2b x) r = handle_p2b_relay x r
handle_back (p1a x) r = some r
handle_back (p2a x) r = some r
handle_back (p3 x) r = some r

-- `handleRoutedMsg`
unfoldable pub handle_routed_msg : Config → ℕ → RoutedMsg → Replica → Option Replica
handle_routed_msg c now m r =
    if m.is_forward
    then elim (handle_payload c now m m.payload r) [
      | none ↦ none
      | some r' ↦ propagate m (needs_propagation m m.payload r) r'
    ]
    else handle_back m.payload r

-- `handleRequest`
unfoldable pub handle_client_request : ℕ → Request → Replica → Replica
handle_client_request now m r =
    if not r.stable_leader || is_leader r.node || r.node.ballot == 0
    then record r { node = handle_request now m r.node }
    else send_to (owner r.node.ballot) (forwarded m) r

-- the timeout of the promises in `startTicker`
unfoldable pub expire_p1b : ℕ → P1bRelay → Replica → Option Replica
expire_p1b cutoff x r =
    if ltb 0 r.pending_p1b_relay && ltb r.pending_p1b_relay cutoff && ltb 0 (length x.p1bs)
    then elim (relay_p1bs x r) [
      | none ↦ none
      | some r' ↦ some (record r' { p1b_relay_depth = r.p1b_relay_depth })
    ]
    else some r

-- the timeout of the votes in `startTicker`, over the slots with a relay
unfoldable pub expire_p2bs : ℕ → List (ℕ × P2bRelay) → Replica → Option Replica
expire_p2bs cutoff [] r = some r
expire_p2bs cutoff ((slot, x) ∷ rest) r =
    if ltb (value_at slot r.p2b_relay_times) cutoff
    then elim (relay_p2b slot (missing_ids (group_at r r.my_relay_group) x.votes.ids) x r) [
      | none ↦ none
      | some r' ↦ expire_p2bs cutoff rest r'
    ]
    else expire_p2bs cutoff rest r
