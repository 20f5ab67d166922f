-- ===== src/Ballot.antt =====
-- ballot.go: a ballot is `n << 32 | zone << 16 | node` in a uint64. The textual form is not
-- modelled.
pub mod Fields
pub mod Order
mod Tests
use Prim.Native.Nat.{bit_or}
use pigpaxos.Prelude.{ℕ, ◌+◌}
use pigpaxos.Words.{◌<<◌, ◌>>◌, u16, u32, u64}
use pigpaxos.Id.{new_id, zone_of, node_of}

-- `NewBallot`
unfoldable pub new_ballot : ℕ → ℕ → ℕ
new_ballot n id = u64 (bit_or (bit_or (n << 32) (zone_of id << 16)) (node_of id))

-- `(b Ballot) N`
unfoldable pub number : ℕ → ℕ
number b = b >> 32

-- `(b Ballot) ID`
unfoldable pub owner : ℕ → ℕ
owner b = let zone = u32 b >> 16 in let node = u16 b in new_id zone node

-- `(b *Ballot) Next`
unfoldable pub next : ℕ → ℕ → ℕ
next b id = new_ballot (number b + 1) id

-- `NextBallot`, over the int (64 bits) that holds the ballot
pub next_ballot : ℕ → ℕ → ℕ
next_ballot ballot id =
    let n = bit_or (zone_of id << 16) (node_of id) in u64 (bit_or (((ballot >> 32) + 1) << 32) n)

-- `LeaderID`
pub leader_id : ℕ → ℕ
leader_id ballot = let zone = u32 ballot >> 16 in let node = u16 ballot in new_id zone node
