-- ===== src/Relay/Tests.antt =====
-- A relay and its leader on concrete messages.
use pigpaxos.Prelude.{
  ℕ, ◌≡◌, ◌⊎◌, refl, min, List, [], ◌∷◌, none, true, false, arith, count, length, some,
}
use pigpaxos.Prelude.Assoc.{lookup, insert, value_at}
use pigpaxos.Config.{Config}
use pigpaxos.Relay.Start.{number_group, number_groups}
use pigpaxos.Relay.Numbers.{Numbered, peers-Numbered}
use pigpaxos.Pig.Msg.{P2b}
use pigpaxos.Pig.State.{is_leader, new_pig_paxos}
use pigpaxos.Relay.Groups.{
  peers_to_groups, group_all, group_one, append_at, missing_ids, voted_ids, remove_all, swap_remove,
}
use pigpaxos.Relay.Groups.Partition.{flatten, peers_to_groups_lem}
use pigpaxos.Relay.Groups.Missing.{voted_ids-missing_ids}
use pigpaxos.Relay.State.{P2bRelay, Replica, group_at}
use pigpaxos.Relay.Collect.{ready_to_relay_p2b}
use pigpaxos.Relay.Collect.Votes.{joined, Enough, Waiting, PassedOn, relayed_votes}

abbrev four : Config
four = record { n = 4; z = 2; npz = (1, 3) ∷ (2, 1) ∷ []; use_retro_log = false }

abbrev nodes : List ℕ
nodes = 65537 ∷ 65538 ∷ 65539 ∷ 65540 ∷ 65541 ∷ []

two_groups :
    (peers_to_groups 65539 2 nodes).groups
    ≡ (65537 ∷ 65538 ∷ []) ∷ (65539 ∷ 65540 ∷ 65541 ∷ []) ∷ []
unfolding peers_to_groups group_all group_one append_at
two_groups = refl

peers_to_groups_lem_example :
    (length (peers_to_groups 65539 2 nodes).groups ≡ 2)
    × (flatten (peers_to_groups 65539 2 nodes).groups ≡ nodes)
peers_to_groups_lem_example = peers_to_groups_lem 65539 2 nodes (omega arith)

still_missing : missing_ids nodes (65538 ∷ 65537 ∷ []) ≡ 65540 ∷ 65541 ∷ 65539 ∷ []
unfolding missing_ids remove_all swap_remove
still_missing = refl

voted_ids-missing_ids_example :
    count 65538 (voted_ids nodes (missing_ids nodes (65538 ∷ 65537 ∷ [])))
    ≡ min (count 65538 nodes) (count 65538 (65538 ∷ 65537 ∷ []))
voted_ids-missing_ids_example = voted_ids-missing_ids nodes (65538 ∷ 65537 ∷ []) 65538

-- The votes of slot 4 at the relay 1.2 for the leader 2.1, one short of a reply.
abbrev collected : P2bRelay
collected = record {
  hops = 131073 ∷ [];
  progress = 0;
  votes = record { ids = 65538 ∷ []; ballot = 4_295_098_369; slot = 4 };
}

abbrev vote : P2b
vote = record { ids = 65537 ∷ []; ballot = 4_295_098_369; slot = 4 }

abbrev relay : Replica
relay = record {
  node = new_pig_paxos 65538 false;
  relay_groups = (65537 ∷ 65538 ∷ 65539 ∷ []) ∷ (131073 ∷ []) ∷ [];
  my_relay_group = 0;
  node_ids_to_group = (65537, 0) ∷ (65538, 0) ∷ (65539, 0) ∷ (131073, 1) ∷ [];
  max_depth = 2;
  relay_slack = 1;
  use_small_p2b = true;
  stable_leader = true;
  gray_nodes = [];
  p1b_relay = none;
  pending_p1b_relay = 0;
  p1b_relay_depth = 0;
  p2b_relays = (4, collected) ∷ [];
  p2b_relay_times = (4, 1_000) ∷ [];
  sent = [];
}

-- the leader 2.1, alone in its group
abbrev leader : Replica
leader = record relay {
  node = record (new_pig_paxos 131073 false) { active = true; ballot = 4_295_098_369 };
  my_relay_group = 1;
  p2b_relays = [];
  p2b_relay_times = [];
}

slot_known : lookup 4 relay.p2b_relays ≡ some collected
unfolding lookup
slot_known = refl

groups_agree :
    group_at leader (value_at relay.node.id leader.node_ids_to_group)
    ≡ group_at relay relay.my_relay_group
unfolding value_at lookup
groups_agree = refl

relayed_votes_example :
    (¬ Enough (joined vote collected).votes relay × Waiting vote collected relay)
    ⊎ (Enough (joined vote collected).votes relay
        × PassedOn four 1_000 vote collected relay leader 131073)
unfolding is_leader
relayed_votes_example =
    relayed_votes four 1_000 vote collected relay leader 131073 slot_known refl refl refl refl refl
      groups_agree

relay_ready : ready_to_relay_p2b relay (joined vote collected).votes ≡ true
unfolding ready_to_relay_p2b
relay_ready = refl

abbrev numbers : List (ℕ × ℕ)
numbers = (65537, 0) ∷ (65538, 0) ∷ (65539, 1) ∷ (65540, 1) ∷ (65541, 1) ∷ []

numbered : number_groups 0 (peers_to_groups 65539 2 nodes).groups [] ≡ some numbers
unfolding number_groups number_group peers_to_groups group_all group_one append_at insert
numbered = refl

peers-Numbered_example : Numbered 0 (peers_to_groups 65539 2 nodes).groups numbers 65540
peers-Numbered_example = peers-Numbered 65539 2 65540 nodes numbers (omega arith) numbered refl
