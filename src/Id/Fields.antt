-- ===== src/Id/Fields.antt =====
-- The two fields of an identity.
use pigpaxos.Prelude.{ℕ, ◌+◌, ◌*◌, ◌/◌, ◌%◌, ◌^◌, ◌<◌, ◌≡◌, arith}
use pigpaxos.Words.{or_fields, mask_and}
use pigpaxos.Id.{new_id, zone_of, node_of}

pub node_of_lem : (i : ℕ) → i < 2 ^ 32 → node_of i ≡ i % 2 ^ 16
unfolding node_of
node_of_lem i h = omega (arith, mask_and 16 (i % 2 ^ 32))

pub new_id_lem :
    (zone node : ℕ) → node < 2 ^ 16 → new_id zone node ≡ (zone * 2 ^ 16 + node) % 2 ^ 32
unfolding new_id
new_id_lem zone node h = rw (or_fields 16 zone node h)

-- An identity built from a zone and a node below 2 ^ 16 has these fields, and every uint32 is
-- built from its fields.
pub new_id_fields :
    (zone node i : ℕ)
    → zone < 2 ^ 16
    → node < 2 ^ 16
    → i < 2 ^ 32
    → (zone_of (new_id zone node) ≡ zone)
      × (node_of (new_id zone node) ≡ node)
      × (new_id (zone_of i) (node_of i) ≡ i)
unfolding zone_of
new_id_fields zone node i hz hn hi = rw (new_id_lem zone node hn) (
    omega (
      arith,
      node_of_lem ((zone * 2 ^ 16 + node) % 2 ^ 32) (omega arith),
      node_of_lem i hi,
      new_id_lem (i / 2 ^ 16) (node_of i) (omega (arith, node_of_lem i hi)),
    ))
