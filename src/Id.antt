-- ===== src/Id.antt =====
-- id.go: a node's identity, `zone << 16 | node` in a uint32, and the orders on identities.
-- The textual form (`NewIDFromString`, `String`) is not modelled.
pub mod Fields
pub mod Order
mod Tests
use Prim.Native.Nat.{bit_or, bit_and}
use pigpaxos.Prelude.{ℕ, ◌≡◌, Bool, true, false, ltb, if◌then◌else◌}
use pigpaxos.Prelude.Int.{ℤ, pos, negsuc}
use pigpaxos.Words.{◌<<◌, ◌>>◌, u32}

-- `NewID`: the `int` is truncated to a uint32.
unfoldable pub new_id : ℕ → ℕ → ℕ
new_id zone node = u32 (bit_or (zone << 16) node)

-- `(i ID) Zone`
unfoldable pub zone_of : ℕ → ℕ
zone_of i = i >> 16

-- `(i ID) Node`
unfoldable pub node_of : ℕ → ℕ
node_of i = bit_and 0x0000FFFF (u32 i)

-- `(ids IDs) Less`, on the two elements
pub less : ℕ → ℕ → Bool
less a b =
    if ltb (zone_of a) (zone_of b)
    then true
    else if ltb (zone_of b) (zone_of a)
    then false
    else ltb (node_of a) (node_of b)

-- `compareID`
pub compare_id : ℕ → ℕ → ℤ
compare_id a b =
    if ltb (zone_of a) (zone_of b)
    then negsuc 0
    else if ltb (zone_of b) (zone_of a)
    then pos 1
    else if ltb (node_of a) (node_of b)
    then negsuc 0
    else if ltb (node_of b) (node_of a)
    then pos 1
    else pos 0
