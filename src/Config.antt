-- ===== src/Config.antt =====
-- config.go: what the quorum tests and the replicas read of the configuration.
pub mod Tally
pub mod Load
mod Tests
use pigpaxos.Prelude.{ℕ, ◌+◌, List, [], ◌∷◌, Bool, false, length}
use pigpaxos.Prelude.Assoc.{increment}
use pigpaxos.Id.{zone_of}

pub record Config : Type 0 where
  pub n : ℕ  -- total number of nodes
  pub z : ℕ  -- total number of zones
  pub npz : List (ℕ × ℕ)  -- nodes per zone
  pub use_retro_log : Bool

-- the loop of `Load` over the identities of `Addrs`
pub count_nodes : List ℕ → ℕ → List (ℕ × ℕ) → ℕ × List (ℕ × ℕ)
count_nodes [] n npz = (n, npz)
count_nodes (id ∷ ids) n npz = count_nodes ids (n + 1) (increment (zone_of id) npz)

-- `Load`, after the file has been decoded: `ids` are the keys of `Addrs`.
unfoldable pub load : List ℕ → Bool → Config
unfolding count_nodes zone_of increment
load ids use_retro_log =
    let (n, npz) = count_nodes ids 0 [] in
    record { n = n; z = length npz; npz = npz; use_retro_log = use_retro_log }
