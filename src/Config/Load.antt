-- ===== src/Config/Load.antt =====
-- `Load` counts the configured nodes, in all and zone by zone.
use pigpaxos.Prelude.{ℕ, ◌+◌, ◌≡◌, refl, List, [], ◌∷◌, ◌++◌, Bool, arith, length, count_if_middle}
use mathlib.Core.List.{append-nil}
use pigpaxos.Id.{zone_of}
use pigpaxos.Config.{Config, count_nodes, load}
use pigpaxos.Config.Tally.{in_zone, IsTally, IsTally-nil, IsTally-increment, IsTally-counts}
use pigpaxos.Prelude.Assoc.{increment}

-- The configuration describes the nodes `ids`: how many they are, how many zones they stand in,
-- and how many stand in each zone.
pub record Describes (ids : List ℕ) (c : Config) : Type 0 where
  pub total : c.n ≡ length ids
  pub zones : c.z ≡ length c.npz
  pub tally : IsTally ids c.npz

count_nodes_total :
    (ids : List ℕ) (n : ℕ) (npz : List (ℕ × ℕ)) → (count_nodes ids n npz).0 ≡ n + length ids
unfolding count_nodes
count_nodes_total [] n npz = omega arith
count_nodes_total (id ∷ ids) n npz =
    ground (arith, count_nodes_total ids (n + 1) (increment (zone_of id) npz))

count_nodes-IsTally :
    (ids seen : List ℕ) (n : ℕ) (npz : List (ℕ × ℕ))
    → IsTally seen npz
    → IsTally (ids ++ seen) (count_nodes ids n npz).1
unfolding count_nodes
count_nodes-IsTally [] seen n npz t = t
count_nodes-IsTally (id ∷ ids) seen n npz t =
    IsTally-counts (ids ++ id ∷ seen) (id ∷ ids ++ seen) _
      (λ z. count_if_middle (in_zone z) id ids seen)
      (count_nodes-IsTally ids (id ∷ seen) (n + 1) _ (IsTally-increment id seen npz t))

-- Loading a configuration describes the nodes whose addresses it lists.
pub load-Describes : (ids : List ℕ) (retro : Bool) → Describes ids (load ids retro)
unfolding load
load-Describes ids retro = record {
  total = omega (arith, count_nodes_total ids 0 []);
  zones = refl;
  tally = rw append-nil at (count_nodes-IsTally ids [] 0 [] IsTally-nil);
}
