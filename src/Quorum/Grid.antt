-- ===== src/Quorum/Grid.antt =====
-- The zone quorums: grid rows against grid columns, and the flexible grid.
use pigpaxos.Prelude.{
  ℕ, ◌/◌, ◌≤◌, ◌≡◌, List, [], ◌∷◌, Bool, true, ◌&&◌, ◌==◌, ltb, arith, contains, IsNodup, count_if,
  count_if-true, count_if_cong, count_if_mono, count_if_full, count_if_witness,
  count_if-le-count_if, pigeonhole, refl, Bool-cases, inl, inr, ==→eq,
}
use pigpaxos.Prelude.Assoc.{keys, value_at, value_at-cons, length-keys}
use pigpaxos.Config.{Config}
use pigpaxos.Config.Tally.{in_zone}
use pigpaxos.Config.Load.{Describes}
use pigpaxos.Quorum.{
  Quorum, any_full_zone, majority_zones, all_zones, grid_row, grid_column, fgrid_q1, fgrid_q2,
}
use pigpaxos.Quorum.Majority.{IsVoted}

-- The votes of a zone are at most its nodes, and a zone with votes is configured.
votes_in_zone :
    (ms : List ℕ) (q : Quorum) (z : ℕ)
    → IsVoted ms q
    → count_if (in_zone z) q.acks ≤ count_if (λ a. in_zone z a && contains q.acks a) ms
votes_in_zone ms q z v = count_if-le-count_if (in_zone z) q.acks ms v.valid.distinct v.voters

zone_configured :
    (c : Config) (ms : List ℕ) (q : Quorum) (z : ℕ)
    → Describes ms c
    → IsVoted ms q
    → contains (keys q.zones) z ≡ true
    → contains (keys c.npz) z ≡ true
zone_configured c ms q z d v h = ground (
  arith,
  v.valid.tally.present z,
  d.tally.present z,
  votes_in_zone ms q z v,
  count_if_mono (λ a. in_zone z a && contains q.acks a) (in_zone z) ms (λ a e. ground arith),
)

-- A full zone of the votes: its number is that of its nodes, and it has one.
full_zone :
    (c : Config) (zs : List (ℕ × ℕ))
    → IsNodup (keys zs)
    → any_full_zone c zs ≡ true
    → (z : ℕ) × (contains (keys zs) z ≡ true) × (value_at z zs ≡ value_at z c.npz)
unfolding any_full_zone
full_zone c [] d h = cc
full_zone c ((z, n) ∷ zs) d h = elim (Bool-cases (n == value_at z c.npz)) [
  | inl full ↦ (z, ground arith, ground (arith, value_at-cons z n zs z))
  | inr other ↦
      let (y, k, e) = full_zone c zs d.1 (ground arith) in
      (y, ground arith, ground (arith, value_at-cons z n zs y, ==→eq z y))
]

-- A grid row and a grid column share a voter: one vote from every zone meets all of some zone.
pub row_meets_column :
    (c : Config) (ms : List ℕ) (q r : Quorum)
    → Describes ms c
    → IsVoted ms q
    → IsVoted ms r
    → grid_row c q ≡ true
    → grid_column c r ≡ true
    → (a : ℕ) × (contains q.acks a ≡ true) × (contains r.acks a ≡ true)
unfolding grid_row all_zones grid_column
row_meets_column c ms q r d vq vr hq hr =
    let (z, present, full) = full_zone c r.zones vr.valid.tally.distinct hr in
    let everywhere : contains (keys q.zones) z ≡ true =
      count_if_full (λ a. true) (contains (keys q.zones)) (keys c.npz) z
        (ground (
          arith,
          count_if-true (keys c.npz),
          count_if-true (keys q.zones),
          count_if-le-count_if (λ a. true) (keys q.zones) (keys c.npz) vq.valid.tally.distinct
              (λ y e. zone_configured c ms q y d vq e),
          length-keys q.zones,
          length-keys c.npz,
          d.zones,
        ))
        (zone_configured c ms r z d vr present) refl in
    let (a, voted, inside) =
      count_if_witness (in_zone z) q.acks (ground (arith, vq.valid.tally.present z)) in
    (
      a,
      voted,
      count_if_full (in_zone z) (contains r.acks) ms a
          (ground (arith, votes_in_zone ms r z vr, vr.valid.tally.values z, d.tally.values z))
          (vq.voters a voted) inside,
    )

-- Whether the votes of a zone are a majority of it.
zone_won : Config → Quorum → ℕ → Bool
zone_won c q z = ltb (value_at z c.npz / 2) (value_at z q.zones)

majority_zones_lem :
    (c : Config) (zs : List (ℕ × ℕ))
    → IsNodup (keys zs)
    → majority_zones c zs ≡ count_if (λ z. ltb (value_at z c.npz / 2) (value_at z zs)) (keys zs)
unfolding majority_zones
majority_zones_lem c [] d = refl
majority_zones_lem c ((z, n) ∷ zs) d = ground (
  arith,
  majority_zones_lem c zs d.1,
  value_at-cons z n zs z,
  count_if_cong (λ y. ltb (value_at y c.npz / 2) (value_at y zs))
      (λ y. ltb (value_at y c.npz / 2) (value_at y ((z, n) ∷ zs))) (keys zs)
      (λ y e. ground (arith, value_at-cons z n zs y, ==→eq z y)),
)

zones_won :
    (c : Config) (ms : List ℕ) (q : Quorum)
    → Describes ms c
    → IsVoted ms q
    → majority_zones c q.zones ≤ count_if (zone_won c q) (keys c.npz)
unfolding zone_won
zones_won c ms q d v = omega (
  arith,
  majority_zones_lem c q.zones v.valid.tally.distinct,
  count_if-le-count_if (zone_won c q) (keys q.zones) (keys c.npz) v.valid.tally.distinct
      (λ y e. zone_configured c ms q y d v e),
  count_if_mono (λ z. zone_won c q z && contains (keys q.zones) z) (zone_won c q) (keys c.npz)
      (λ a e. ground arith),
)

-- A phase 1 and a phase 2 quorum of the flexible grid for the same number of zone failures share
-- a voter.
pub fgrid_quorums_intersect :
    (c : Config) (ms : List ℕ) (q r : Quorum) (fz : ℕ)
    → Describes ms c
    → IsVoted ms q
    → IsVoted ms r
    → fgrid_q1 c q fz ≡ true
    → fgrid_q2 c r fz ≡ true
    → (a : ℕ) × (contains q.acks a ≡ true) × (contains r.acks a ≡ true)
unfolding fgrid_q1 fgrid_q2
fgrid_quorums_intersect c ms q r fz d vq vr hq hr =
    let (z, _, won, won') =
      pigeonhole (zone_won c q) (zone_won c r) (λ a. true) (keys c.npz) (λ a e. refl) (λ a e. refl)
        (ground (
          arith,
          zones_won c ms q d vq,
          zones_won c ms r d vr,
          count_if-true (keys c.npz),
          length-keys c.npz,
          d.zones,
        )) in
    let (a, _, both, both') =
      pigeonhole (λ a. in_zone z a && contains q.acks a) (λ a. in_zone z a && contains r.acks a)
        (in_zone z) ms (λ a e. ground arith) (λ a e. ground arith)
        (unfold zone_won in
          ground (
            arith,
            votes_in_zone ms q z vq,
            votes_in_zone ms r z vr,
            vq.valid.tally.values z,
            vr.valid.tally.values z,
            d.tally.values z,
          )) in
    (a, ground arith, ground arith)
