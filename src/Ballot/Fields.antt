-- ===== src/Ballot/Fields.antt =====
-- The fields of a ballot: its number and the identity of its owner.
use pigpaxos.Prelude.{ℕ, ◌+◌, ◌*◌, ◌/◌, ◌%◌, ◌^◌, ◌<◌, ◌≡◌, arith}
use pigpaxos.Words.{or_fields}
use pigpaxos.Id.{zone_of, node_of}
use pigpaxos.Id.Fields.{node_of_lem, new_id_lem}
use pigpaxos.Ballot.{new_ballot, number, owner, next_ballot, leader_id, next}

pub new_ballot_lem : (n id : ℕ) → id < 2 ^ 32 → new_ballot n id ≡ (n * 2 ^ 32 + id) % 2 ^ 64
unfolding new_ballot zone_of
new_ballot_lem n id h = ground (
  arith,
  node_of_lem id h,
  or_fields 32 n (id / 2 ^ 16 * 2 ^ 16) (omega arith),
  or_fields 16 (n * 2 ^ 16 + id / 2 ^ 16) (node_of id) (omega (arith, node_of_lem id h)),
)

pub owner_lem : (b : ℕ) → owner b ≡ b % 2 ^ 32
unfolding owner
owner_lem b = omega (arith, new_id_lem (b % 2 ^ 32 / 2 ^ 16) (b % 2 ^ 16) (omega arith))

-- A ballot built from a number and an identity below 2 ^ 32 has these as its `N` and its `ID`,
-- and every uint64 is built from its `N` and its `ID`.
pub new_ballot_fields :
    (n id b : ℕ)
    → n < 2 ^ 32
    → id < 2 ^ 32
    → b < 2 ^ 64
    → (number (new_ballot n id) ≡ n)
      × (owner (new_ballot n id) ≡ id)
      × (new_ballot (number b) (owner b) ≡ b)
unfolding number
new_ballot_fields n id b hn hi hb = rw (new_ballot_lem n id hi) (
    omega (
      arith,
      owner_lem ((n * 2 ^ 32 + id) % 2 ^ 64),
      owner_lem b,
      new_ballot_lem (b / 2 ^ 32) (owner b) (omega (arith, owner_lem b)),
    ))

-- The functions on plain integers agree with the methods of the ballot type.
next_ballot-eq-next :
    (b id : ℕ) → id < 2 ^ 32 → (next_ballot b id ≡ next b id) × (leader_id b ≡ owner b)
unfolding next_ballot leader_id owner next number zone_of
next_ballot-eq-next b id h = ground (
  arith,
  node_of_lem id h,
  new_ballot_lem (b / 2 ^ 32 + 1) id h,
  or_fields 16 (id / 2 ^ 16) (node_of id) (omega (arith, node_of_lem id h)),
  or_fields 32 (b / 2 ^ 32 + 1) id h,
)
