-- ===== src/Relay/Collect/Votes.antt =====
-- What a relay passes back for a slot, and how the leader reads it.
use pigpaxos.Prelude.{
  ℕ, ◌+◌, ◌≡◌, ◌⊎◌, inl, inr, refl, ap, ◌∙◌, min, Bool-cases, List, [], ◌∷◌, ◌++◌, none, some, true,
  false, ◌==◌, ltb, arith, count, get_elem?, length, if◌then◌else◌,
}
use pigpaxos.Prelude.Assoc.{lookup, insert, erase, value_at, lookup-erase, lookup-insert}
use pigpaxos.Ballot.{owner}
use pigpaxos.Config.{Config}
use pigpaxos.Pig.Msg.{P2b}
use pigpaxos.Pig.State.{is_leader}
use pigpaxos.Pig.Maintain.{update_executed}
use pigpaxos.Relay.Groups.{missing_ids, voted_ids}
use pigpaxos.Relay.Groups.Missing.{voted_ids-missing_ids}
use pigpaxos.Relay.State.{
  P2bAggregated, P2bRelay, small_p2b, plain_p2b, back_p2b, Replica, group_at, send_to, send_hop,
  Sent,
}
use pigpaxos.Relay.Collect.{
  ready_to_relay_p2b, aggregate, relay_p2b, collect_p2b, handle_p2b_relay, node_p2b,
  handle_p2b_aggregated,
}

-- the votes of a slot with those of one more reply
abbrev pub joined : P2b → P2bRelay → P2bRelay
joined m x = record x { votes = record x.votes { ids = x.votes.ids ++ m.ids } }

-- The votes, with the relay slack, are as many as the peer group has nodes, or one fewer when the
-- owner of the ballot, whose vote no relay collects, is in the group.
abbrev pub Enough : P2b → Replica → Type 0
Enough v r =
    (length v.ids + r.relay_slack ≡ length (group_at r r.my_relay_group))
    ⊎ ((length v.ids + r.relay_slack + 1 ≡ length (group_at r r.my_relay_group))
        × (value_at (owner v.ballot) r.node_ids_to_group ≡ r.my_relay_group))

-- The votes are kept for the slot and nothing is sent.
pub record Waiting (m : P2b) (x : P2bRelay) (r : Replica) : Type 0 where
  pub after : Replica
  pub run : handle_p2b_relay m r ≡ some after
  pub sent : after.sent ≡ r.sent
  pub stored : lookup m.slot after.p2b_relays ≡ some (joined m x)

-- One small message goes to the node at `to`, and the slot is forgotten. The leader `l` that receives
-- the message notes the execution point of the relay under its identity, and counts votes for the
-- slot and the ballot of the reply: those collected from the peer group, or, with no relay slack,
-- those of the whole group.
pub record PassedOn (c : Config) (now : ℕ) (m : P2b) (x : P2bRelay) (r l : Replica) (to : ℕ)
    : Type 0 where
  pub answer : P2bAggregated
  pub after : Replica
  pub ids : List ℕ
  pub run : handle_p2b_relay m r ≡ some after
  pub sent : after.sent ≡ r.sent ++ (to, small_p2b answer) ∷ []
  pub forgotten : lookup m.slot after.p2b_relays ≡ none
  pub counted :
      handle_p2b_aggregated c now answer l
      ≡ node_p2b c now m.slot m.ballot ids
          (record l { node = update_executed r.node.id r.node.execute l.node })
  pub votes :
      (a : ℕ)
      → count a ids ≡ (
          if ltb 0 r.relay_slack
          then min (count a (group_at r r.my_relay_group)) (count a (x.votes.ids ++ m.ids))
          else count a (group_at r r.my_relay_group))

-- the missing identities that a relay reports
abbrev missing_of : P2b → P2bRelay → Replica → List ℕ
missing_of m x r =
    if ltb 0 r.relay_slack
    then missing_ids (group_at r r.my_relay_group) (x.votes.ids ++ m.ids)
    else []

collect_run :
    (m : P2b) (x : P2bRelay) (r : Replica)
    → lookup m.slot r.p2b_relays ≡ some x
    → x.votes.ballot ≡ m.ballot
    → handle_p2b_relay m r ≡ collect_p2b m x r
unfolding handle_p2b_relay
collect_run m x r at same = rw (at, handle_p2b_relay) (ground (arith, same))

-- the replica after it has relayed the votes of a slot
abbrev passed : P2b → P2bRelay → Replica → ℕ → Replica
passed m x r to = record r {
  p2b_relays = erase m.slot (insert m.slot (joined m x) r.p2b_relays);
  p2b_relay_times = erase m.slot r.p2b_relay_times;
  sent = r.sent ++ (to, small_p2b (aggregate m.slot (missing_of m x r) x.votes.ballot r)) ∷ [];
}

ready_anyway :
    (v : P2b) (r : Replica) (relays : List (ℕ × P2bRelay))
    → ready_to_relay_p2b (record r { p2b_relays = relays }) v ≡ ready_to_relay_p2b r v
unfolding ready_to_relay_p2b
ready_anyway v r relays = refl

send_hop_run :
    (hops : List ℕ) (i to : ℕ) (m : Sent) (r : Replica)
    → get_elem? hops i ≡ some to
    → send_hop hops i m r ≡ some (send_to to m r)
send_hop_run hops i to m r h = rw (h, send_hop) refl

relay_run :
    (slot : ℕ) (missing : List ℕ) (x : P2bRelay) (r : Replica) (to : ℕ)
    → r.use_small_p2b ≡ true
    → x.progress ≡ 0
    → get_elem? x.hops 0 ≡ some to
    → relay_p2b slot missing x r
      ≡ some (record r {
        p2b_relays = erase slot r.p2b_relays;
        p2b_relay_times = erase slot r.p2b_relay_times;
        sent = r.sent ++ (to, small_p2b (aggregate slot missing x.votes.ballot r)) ∷ [];
      })
unfolding relay_p2b
relay_run slot missing x r to small root hop =
    let m = small_p2b (aggregate slot missing x.votes.ballot r) in
    let left : Replica = record r {
      p2b_relays = erase slot r.p2b_relays;
      p2b_relay_times = erase slot r.p2b_relay_times;
    } in
    let chosen : (if x.progress == 0
          then (if r.use_small_p2b then m else plain_p2b x.votes)
          else back_p2b x)
        ≡ m =
      simp (root, small) in
    ap (λ (t : Sent). send_hop x.hops x.progress t left) chosen
    ∙ ap (λ (i : ℕ). send_hop x.hops i m left) root
    ∙ send_hop_run x.hops 0 to m left hop

passed_run :
    (m : P2b) (x : P2bRelay) (r : Replica) (to : ℕ)
    → ready_to_relay_p2b r (joined m x).votes ≡ true
    → r.use_small_p2b ≡ true
    → x.progress ≡ 0
    → get_elem? x.hops 0 ≡ some to
    → collect_p2b m x r ≡ some (passed m x r to)
unfolding collect_p2b
passed_run m x r to ready small root hop =
    let x' = joined m x in
    let r' : Replica = record r { p2b_relays = insert m.slot x' r.p2b_relays } in
    rw (ready_anyway x'.votes r (insert m.slot x' r.p2b_relays), ready)
      (relay_run m.slot (missing_of m x r) x' r' to small root hop)

waiting_run :
    (m : P2b) (x : P2bRelay) (r : Replica)
    → ready_to_relay_p2b r (joined m x).votes ≡ false
    → collect_p2b m x r ≡ some (record r { p2b_relays = insert m.slot (joined m x) r.p2b_relays })
unfolding collect_p2b
waiting_run m x r open_yet =
    rw (ready_anyway (joined m x).votes r (insert m.slot (joined m x) r.p2b_relays), open_yet) refl

ready_to_relay_p2b_accepts : (v : P2b) (r : Replica) → ready_to_relay_p2b r v ≡ true → Enough v r
unfolding ready_to_relay_p2b
ready_to_relay_p2b_accepts v r h = ground arith

ready_to_relay_p2b_refuses : (v : P2b) (r : Replica) → ready_to_relay_p2b r v ≡ false → ¬ Enough v r
unfolding ready_to_relay_p2b
ready_to_relay_p2b_refuses v r h e = ground arith

voted_of :
    (group ids : List ℕ) (slack a : ℕ)
    → count a (voted_ids group (if ltb 0 slack then missing_ids group ids else []))
      ≡ (if ltb 0 slack then min (count a group) (count a ids) else count a group)
unfolding voted_ids
voted_of group ids slack a = elim (Bool-cases (ltb 0 slack)) [
  | inl some_slack ↦ rw some_slack (voted_ids-missing_ids group ids a)
  | inr no_slack ↦ rw no_slack refl
]

-- A relay next to the leader, with small replies, that knows the slot of a reply and has its ballot
-- adds the reply's votes. While the votes with the relay slack are not as many as its peer group, or
-- one fewer when the owner of the ballot is in the group, it keeps them and sends nothing. Once they
-- are, it sends one small message to the last hop and forgets the slot, and a leader with the same
-- peer group for the relay notes the relay's execution point and reads the message as votes for the
-- slot and ballot of the reply: those collected from the group, or with no relay slack those of the
-- whole group.
pub relayed_votes :
    (c : Config) (now : ℕ) (m : P2b) (x : P2bRelay) (r l : Replica) (to : ℕ)
    → lookup m.slot r.p2b_relays ≡ some x
    → x.votes.ballot ≡ m.ballot
    → r.use_small_p2b ≡ true
    → x.progress ≡ 0
    → get_elem? x.hops 0 ≡ some to
    → is_leader l.node ≡ true
    → group_at l (value_at r.node.id l.node_ids_to_group) ≡ group_at r r.my_relay_group
    → (¬ Enough (joined m x).votes r × Waiting m x r)
      ⊎ (Enough (joined m x).votes r × PassedOn c now m x r l to)
unfolding handle_p2b_aggregated
relayed_votes c now m x r l to at same small root hop lead group =
    elim (Bool-cases (ready_to_relay_p2b r (joined m x).votes)) [
      | inr open_yet ↦ inl (
        ready_to_relay_p2b_refuses (joined m x).votes r open_yet,
        record {
          after = record r { p2b_relays = insert m.slot (joined m x) r.p2b_relays };
          run = collect_run m x r at same ∙ waiting_run m x r open_yet;
          sent = refl;
          stored = ground (arith, lookup-insert m.slot m.slot (joined m x) r.p2b_relays);
        },
      )
      | inl ready ↦ inr (
        ready_to_relay_p2b_accepts (joined m x).votes r ready,
        record {
          answer = aggregate m.slot (missing_of m x r) x.votes.ballot r;
          after = passed m x r to;
          ids = voted_ids (group_at r r.my_relay_group) (missing_of m x r);
          run = collect_run m x r at same ∙ passed_run m x r to ready small root hop;
          sent = refl;
          forgotten =
              ground (arith, lookup-erase m.slot m.slot (insert m.slot (joined m x) r.p2b_relays));
          counted = rw (lead, group, same) refl;
          votes =
              λ a. voted_of (group_at r r.my_relay_group) (x.votes.ids ++ m.ids) r.relay_slack a;
        },
      )
    ]
