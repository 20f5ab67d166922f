-- ===== src/Ballot/Order.antt =====
-- Ballots as numbers are ordered first by their number, then by their owner.
use pigpaxos.Prelude.{ℕ, ◌+◌, ◌*◌, ◌/◌, ◌^◌, ◌<◌, ◌≡◌, ◌↔◌, ◌⊎◌, ◌≢◌, arith}
use pigpaxos.Ballot.{new_ballot, number, owner, next}
use pigpaxos.Ballot.Fields.{new_ballot_lem, owner_lem}

-- The order of two ballots is lexicographic in their numbers and their owners.
pub new_ballot_order :
    (n m i j : ℕ)
    → n < 2 ^ 32
    → m < 2 ^ 32
    → i < 2 ^ 32
    → j < 2 ^ 32
    → (new_ballot n i < new_ballot m j) ↔ ((n < m) ⊎ ((n ≡ m) × (i < j)))
new_ballot_order n m i j hn hm hi hj =
    rw (new_ballot_lem n i hi, new_ballot_lem m j hj) (ground arith)

-- Below the largest number, `Next` gives the node a ballot of its own above the old one, and two
-- nodes never take the same ballot, whatever ballots they start from.
pub next_above :
    (b c id other : ℕ)
    → number b + 1 < 2 ^ 32
    → number c + 1 < 2 ^ 32
    → id < 2 ^ 32
    → other < 2 ^ 32
    → (b < next b id)
      × (owner (next b id) ≡ id)
      × (number (next b id) ≡ number b + 1)
      × (id ≢ other → next b id ≢ next c other)
unfolding next number
next_above b c id other hb hc hi ho =
    rw (new_ballot_lem (b / 2 ^ 32 + 1) id hi, new_ballot_lem (c / 2 ^ 32 + 1) other ho)
      (ground (arith, owner_lem ((b / 2 ^ 32 + 1) * 2 ^ 32 + id)))

-- At the largest number `Next` wraps: the new ballot is not above the old one.
pub next_wraps :
    (b id : ℕ) → number b + 1 ≡ 2 ^ 32 → id < 2 ^ 32 → (next b id ≡ id) × (next b id < b)
unfolding next number
next_wraps b id hb hi = rw (new_ballot_lem (b / 2 ^ 32 + 1) id hi) (omega arith)
