-- ===== src/Quorum/Tests.antt =====
-- Quorums over concrete nodes.
use pigpaxos.Prelude.{ℕ, ◌≡◌, refl, List, [], ◌∷◌, true, false, arith, contains, some, none}
use pigpaxos.Config.{Config, load}
use pigpaxos.Config.Load.{load-Describes}
use pigpaxos.Quorum.{
  new_quorum, ack, nack, reset, majority, fast_quorum, layer_majority, grid_row, grid_column,
  fgrid_q1, fgrid_q2, any_full_zone, majority_zones,
}
use pigpaxos.Quorum.Valid.{
  ack_all, ack_all-IsValid, contains-ack_all, new_quorum-IsValid, ack_all_order, nack_needs_reset,
}
use pigpaxos.Quorum.Majority.{IsVoted, majorities_intersect}
use pigpaxos.Quorum.Fast.{fast_quorums_intersect}
use pigpaxos.Quorum.Grid.{row_meets_column, fgrid_quorums_intersect}

-- Nodes 1.1, 1.2, 2.1 and 2.2.
abbrev nodes : List ℕ
nodes = 65537 ∷ 65538 ∷ 131073 ∷ 131074 ∷ []

abbrev four : Config
four = load nodes false

votes-IsVoted :
    (ms ids : List ℕ)
    → ((a : ℕ) → contains ids a ≡ true → contains ms a ≡ true)
    → IsVoted ms (ack_all new_quorum ids)
votes-IsVoted ms ids h = record {
  valid = ack_all-IsValid new_quorum ids new_quorum-IsValid;
  voters = λ a e. h a (ground (arith, contains-ack_all new_quorum ids a));
}

abbrev first_three : List ℕ
first_three = 65537 ∷ 65538 ∷ 131073 ∷ []

abbrev last_three : List ℕ
last_three = 131074 ∷ 131073 ∷ 65538 ∷ []

first-IsVoted : IsVoted nodes (ack_all new_quorum first_three)
first-IsVoted = votes-IsVoted nodes first_three (λ a e. ground arith)

last-IsVoted : IsVoted nodes (ack_all new_quorum last_three)
last-IsVoted = votes-IsVoted nodes last_three (λ a e. ground arith)

majorities_intersect_example :
    (a : ℕ) × (contains nodes a ≡ true)
    × (contains (ack_all new_quorum first_three).acks a ≡ true)
    × (contains (ack_all new_quorum last_three).acks a ≡ true)
unfolding majority load ack_all ack
majorities_intersect_example =
    majorities_intersect four nodes (ack_all new_quorum first_three) (ack_all new_quorum last_three)
      (load-Describes nodes false) first-IsVoted last-IsVoted refl refl

fast_quorums_intersect_example :
    (a : ℕ) × (contains (ack_all new_quorum first_three).acks a ≡ true)
    × (contains (ack_all new_quorum last_three).acks a ≡ true)
    × (contains (ack_all new_quorum first_three).acks a ≡ true)
unfolding majority load ack_all ack fast_quorum
fast_quorums_intersect_example =
    fast_quorums_intersect four nodes (ack_all new_quorum first_three)
      (ack_all new_quorum last_three) (ack_all new_quorum first_three) refl
      (load-Describes nodes false) first-IsVoted last-IsVoted first-IsVoted refl refl refl

-- A vote from each zone, and all votes of zone 1.
abbrev row : List ℕ
row = 65538 ∷ 131074 ∷ []

abbrev column : List ℕ
column = 65537 ∷ 65538 ∷ []

row_meets_column_example :
    (a : ℕ) × (contains (ack_all new_quorum row).acks a ≡ true)
    × (contains (ack_all new_quorum column).acks a ≡ true)
unfolding grid_row grid_column any_full_zone load ack_all ack
row_meets_column_example =
    row_meets_column four nodes (ack_all new_quorum row) (ack_all new_quorum column)
      (load-Describes nodes false) (votes-IsVoted nodes row (λ a e. ground arith))
      (votes-IsVoted nodes column (λ a e. ground arith)) refl refl

-- With no zone failure allowed, phase 1 needs a majority of every zone and phase 2 of one.
fgrid_quorums_intersect_example :
    (a : ℕ) × (contains (ack_all new_quorum nodes).acks a ≡ true)
    × (contains (ack_all new_quorum column).acks a ≡ true)
unfolding fgrid_q1 fgrid_q2 majority_zones load ack_all ack
fgrid_quorums_intersect_example =
    fgrid_quorums_intersect four nodes (ack_all new_quorum nodes) (ack_all new_quorum column) 0
      (load-Describes nodes false) (votes-IsVoted nodes nodes (λ a e. e))
      (votes-IsVoted nodes column (λ a e. ground arith)) refl refl

ack_all_order_example :
    (ack_all new_quorum (65537 ∷ 65538 ∷ 65537 ∷ [])).size
    ≡ (ack_all new_quorum (65538 ∷ 65537 ∷ [])).size
ack_all_order_example =
    ack_all_order new_quorum (65537 ∷ 65538 ∷ 65537 ∷ []) (65538 ∷ 65537 ∷ []) new_quorum-IsValid
      (λ a. ground arith)

nack_needs_reset_example :
    (nack (ack_all new_quorum row) 65537 ≡ none)
    × (nack (ack_all (reset new_quorum) row) 65537
        ≡ some (record (ack_all (reset new_quorum) row) { nacks = some (65537 ∷ []) }))
nack_needs_reset_example = nack_needs_reset new_quorum row 65537

-- Of five nodes three are a fast quorum: two fast quorums and a majority may have no voter in
-- common.
abbrev five : Config
five = load (1 ∷ 2 ∷ 3 ∷ 4 ∷ 5 ∷ []) false

fast_of_five :
    (fast_quorum five (ack_all new_quorum (1 ∷ 2 ∷ 3 ∷ [])) ≡ true)
    × (fast_quorum five (ack_all new_quorum (3 ∷ 4 ∷ 5 ∷ [])) ≡ true)
    × (majority five (ack_all new_quorum (1 ∷ 2 ∷ 4 ∷ [])) ≡ true)
unfolding fast_quorum majority load ack_all ack
fast_of_five = (refl, refl, refl)

layer_of_four :
    (layer_majority four (ack_all new_quorum column) ≡ true)
    × (layer_majority four (ack_all new_quorum (131073 ∷ 131074 ∷ [])) ≡ true)
unfolding layer_majority load ack_all ack
layer_of_four = (refl, refl)
