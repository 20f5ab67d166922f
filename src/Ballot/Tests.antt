-- ===== src/Ballot/Tests.antt =====
-- The theorems on ballots at concrete nodes.
use pigpaxos.Prelude.{ℕ, ◌+◌, ◌-◌, ◌*◌, ◌^◌, ◌<◌, ◌≡◌, ◌≢◌, ◌↔◌, ◌⊎◌, arith}
use pigpaxos.Ballot.{new_ballot, number, owner, next}
use pigpaxos.Ballot.Fields.{new_ballot_fields}
use pigpaxos.Ballot.Order.{new_ballot_order, next_above, next_wraps}

-- Ballot 5 of node 1.2.
abbrev five : ℕ
five = 5 * 2 ^ 32 + 65538

new_ballot_fields_example :
    (number (new_ballot 5 65538) ≡ 5)
    × (owner (new_ballot 5 65538) ≡ 65538)
    × (new_ballot (number five) (owner five) ≡ five)
new_ballot_fields_example = new_ballot_fields 5 65538 five (omega arith) (omega arith) (omega arith)

new_ballot_order_example :
    (new_ballot 5 65538 < new_ballot 6 65537) ↔ ((5 < 6) ⊎ ((◌≡◌ {A = ℕ} 5 6) × (65538 < 65537)))
new_ballot_order_example =
    new_ballot_order 5 6 65538 65537 (omega arith) (omega arith) (omega arith) (omega arith)

next_above_example :
    (five < next five 65537)
    × (owner (next five 65537) ≡ 65537)
    × (number (next five 65537) ≡ number five + 1)
    × (◌≢◌ {A = ℕ} 65537 65538 → next five 65537 ≢ next five 65538)
unfolding number
next_above_example =
    next_above five five 65537 65538 (omega arith) (omega arith) (omega arith) (omega arith)

next_wraps_example : (next (2 ^ 64 - 1) 65537 ≡ 65537) × (next (2 ^ 64 - 1) 65537 < 2 ^ 64 - 1)
unfolding number
next_wraps_example = next_wraps (2 ^ 64 - 1) 65537 (omega arith) (omega arith)
