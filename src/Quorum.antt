-- ===== src/Quorum.antt =====
-- quorum.go: the acknowledgements for one proposal and the quorum tests over them.
pub mod Valid
pub mod Majority
pub mod Fast
pub mod Grid
mod Tests
use pigpaxos.Prelude.{
  ℕ, zero, suc, ◌+◌, ◌-◌, ◌*◌, ◌/◌, List, [], ◌∷◌, Option, none, some, Bool, true, false, not, ltb,
  leb, ◌==◌, ◌||◌, if◌then◌else◌, length, contains,
}
use pigpaxos.Prelude.Assoc.{value_at, increment}
use pigpaxos.Id.{zone_of}
use pigpaxos.Config.{Config}

-- `acks` and `nacks` hold the identities that are mapped to true. A map that was never made is
-- `none`: reading it gives false, writing to it panics.
pub record Quorum : Type 0 where
  pub size : ℕ
  pub acks : List ℕ
  pub zones : List (ℕ × ℕ)
  pub nacks : Option (List ℕ)

-- `NewQuorum` leaves `nacks` nil.
abbrev pub new_quorum : Quorum
new_quorum = record { size = 0; acks = []; zones = []; nacks = none }

unfoldable pub ack : Quorum → ℕ → Quorum
ack q id = if contains q.acks id then q else record {
  size = q.size + 1;
  acks = id ∷ q.acks;
  zones = increment (zone_of id) q.zones;
  nacks = q.nacks;
}

-- `none` is the panic of an assignment to a nil map.
pub nack : Quorum → ℕ → Option Quorum
nack q id = elim q.nacks [
  | none ↦ none
  | some ids ↦ some (if contains ids id then q else record q { nacks = some (id ∷ ids) })
]

-- `ADD`
pub add : Quorum → Quorum
add q = record q { size = q.size + 1 }

abbrev pub reset : Quorum → Quorum
reset q = record { size = 0; acks = []; zones = []; nacks = some [] }

module _ (c : Config) where
  pub all : Quorum → Bool
  all q = q.size == c.n

  unfoldable pub majority : Quorum → Bool
  majority q = ltb (c.n / 2) q.size

  pub layer_majority : Quorum → Bool
  layer_majority q = ltb (c.n / 4) q.size

  pub fast_quorum : Quorum → Bool
  fast_quorum q = leb (c.n * 3 / 4) q.size

  pub all_zones : Quorum → Bool
  all_zones q = length q.zones == c.z

  -- the loops over `q.zones`
  any_zone_majority : List (ℕ × ℕ) → Bool
  any_zone_majority [] = false
  any_zone_majority ((z, n) ∷ zs) = ltb (value_at z c.npz / 2) n || any_zone_majority zs

  any_full_zone : List (ℕ × ℕ) → Bool
  any_full_zone [] = false
  any_full_zone ((z, n) ∷ zs) = n == value_at z c.npz || any_full_zone zs

  majority_zones : List (ℕ × ℕ) → ℕ
  majority_zones [] = 0
  majority_zones ((z, n) ∷ zs) = (if ltb (value_at z c.npz / 2) n then 1 else 0) + majority_zones zs

  pub zone_majority : Quorum → Bool
  zone_majority q = any_zone_majority q.zones

  pub grid_row : Quorum → Bool
  unfolding all_zones
  grid_row q = all_zones q

  pub grid_column : Quorum → Bool
  grid_column q = any_full_zone q.zones

  -- the int `config.z - Fz` may be negative, and then every count reaches it
  pub fgrid_q1 : Quorum → ℕ → Bool
  fgrid_q1 q fz = leb (c.z - fz) (majority_zones q.zones)

  pub fgrid_q2 : Quorum → ℕ → Bool
  fgrid_q2 q fz = leb (fz + 1) (majority_zones q.zones)
