-- ===== src/Relay/Start.antt =====
-- `NewReplica`, `Broadcast` and `startTicker`. `known` stands for the configured identities after
-- `sort.Slice`, and the relays of a broadcast for the choice of `GetRandomNodeId` in each group.
use pigpaxos.Prelude.{
  ℕ, ◌+◌, ◌-◌, ◌*◌, ◌%◌, List, [], ◌∷◌, Option, none, some, Bool, true, ◌&&◌, ◌==◌, ltb,
  if◌then◌else◌, length, replicate,
}
use pigpaxos.Prelude.Assoc.{insert}
use pigpaxos.Id.{zone_of}
use pigpaxos.Config.{Config}
use pigpaxos.Pig.State.{new_pig_paxos, is_leader}
use pigpaxos.Pig.Maintain.{check_timeout, cleanup_log}
use pigpaxos.Relay.Groups.{append_at, peers_to_groups}
use pigpaxos.Relay.State.{Payload, routed, Replica, send_to}
use pigpaxos.Relay.Route.{expire_p1b, expire_p2bs}

-- The flags of replica.go that a replica reads at its start.
pub record Flags : Type 0 where
  pub pg : ℕ
  pub region_peer_groups : Bool
  pub use_small_p2b : Bool
  pub rg_slack : ℕ
  pub stable_leader : Bool

-- the loop over the identities for groups by zone; `none` is an index out of range
unfoldable pub region_groups : List ℕ → List (List ℕ) → Option (List (List ℕ))
region_groups [] groups = some groups
region_groups (id ∷ ids) groups =
    let rest = region_groups ids (append_at (zone_of id - 1) id groups) in
    if ltb 0 (zone_of id) && ltb (zone_of id - 1) (length groups) then rest else none

-- the inner loop that fills `NodeIdsToGroup` for the group `i`
unfoldable pub number_group : ℕ → List ℕ → List (ℕ × ℕ) → List (ℕ × ℕ)
number_group i [] m = m
number_group i (id ∷ ids) m = number_group i ids (insert id i m)

-- the loop that fills `NodeIdsToGroup`; `none` is the panic of a nil group
unfoldable pub number_groups : ℕ → List (List ℕ) → List (ℕ × ℕ) → Option (List (ℕ × ℕ))
number_groups i [] m = some m
number_groups i (g ∷ gs) m =
    let rest = number_groups (i + 1) gs (number_group i g m) in if length g == 0 then none else rest

-- the groups and the group of the replica itself; `none` is a panic, as of a division by 0
unfoldable pub relay_groups_of : Config → Flags → ℕ → List ℕ → Option (List (List ℕ) × ℕ)
relay_groups_of c f id known =
    if f.region_peer_groups
    then elim (region_groups known (replicate c.z [])) [
      | none ↦ none
      | some groups ↦ some (groups, zone_of id - 1)
    ]
    else if f.pg == 0
    then none
    else (let x = peers_to_groups id f.pg known in some (x.groups, x.my_group))

-- `NewReplica`
unfoldable pub new_replica : Config → Flags → ℕ → Bool → List ℕ → Option Replica
new_replica c f id multiversion known = elim (relay_groups_of c f id known) [
  | none ↦ none
  | some (groups, mine) ↦ elim (number_groups 0 groups []) [
    | none ↦ none
    | some numbers ↦ some (record {
      node = new_pig_paxos id multiversion;
      relay_groups = groups;
      my_relay_group = mine;
      node_ids_to_group = numbers;
      max_depth = 2;
      relay_slack = f.rg_slack;
      use_small_p2b = f.use_small_p2b;
      stable_leader = f.stable_leader;
      gray_nodes = [];
      p1b_relay = none;
      pending_p1b_relay = 0;
      p1b_relay_depth = 0;
      p2b_relays = [];
      p2b_relay_times = [];
      sent = [];
    })
  ]
]

-- `Broadcast`, to one chosen relay in each group
unfoldable pub broadcast_by : List ℕ → Payload → Replica → Replica
broadcast_by [] m r = r
broadcast_by (relay ∷ relays) m r = broadcast_by relays m (
    send_to relay
      (routed (record { hops = r.node.id ∷ []; is_forward = true; progress = 0; payload = m })) r)

-- the nodes that stay on the gray list, ten seconds at least
unfoldable pub keep_gray : ℕ → List (ℕ × ℕ) → List (ℕ × ℕ)
keep_gray now [] = []
keep_gray now ((id, t) ∷ rest) =
    let kept = keep_gray now rest in
    if ltb (t + 10 * 1000 * 1_000_000) now then kept else (id, t) ∷ kept

-- the timeouts of a round of `startTicker`
unfoldable pub tick_timeouts : ℕ → ℕ → Replica → Option Replica
tick_timeouts cutoff now r =
    if is_leader r.node
    then some (record r { node = check_timeout cutoff now r.node })
    else elim r.p1b_relay [
      | none ↦ expire_p2bs cutoff r.p2b_relays r
      | some x ↦ elim (expire_p1b cutoff x r) [
        | none ↦ none
        | some r' ↦ expire_p2bs cutoff r'.p2b_relays r'
      ]
    ]

-- a round of `startTicker`, `timeout` the flag stdpigtimeout in milliseconds
unfoldable pub tick : ℕ → ℕ → ℕ → Replica → Option Replica
tick ticks timeout now r =
    let cleaned = if ticks % 3 == 0 then record r { node = cleanup_log r.node } else r in
    let checked =
      if ticks % 1000 == 0
      then record cleaned { gray_nodes = keep_gray now cleaned.gray_nodes }
      else cleaned in
    tick_timeouts (now - timeout * 1_000_000) now checked
