-- ===== src/Relay/Groups.antt =====
-- Peer groups as lists of identities, and the identities that a relay reports as missing.
pub mod Partition
pub mod Missing
use pigpaxos.Prelude.{
  ℕ, zero, suc, ◌+◌, ◌/◌, List, [], ◌∷◌, ◌++◌, Bool, true, false, ◌&&◌, ◌==◌, ltb, leb,
  if◌then◌else◌, length, replicate,
}

-- The variables of `peersToGroups`; a nil group is an empty one.
pub record Grouping : Type 0 where
  pub groups : List (List ℕ)
  pub pg_num : ℕ
  pub added : ℕ
  pub my_group : ℕ

-- `peerGroups[pgNum].nodes = append(..., id)`
unfoldable pub append_at : ℕ → ℕ → List (List ℕ) → List (List ℕ)
append_at k id [] = []
append_at zero id (g ∷ gs) = (g ++ id ∷ []) ∷ gs
append_at (suc k) id (g ∷ gs) = g ∷ append_at k id gs

-- one round of the loop of `peersToGroups`
unfoldable pub group_one : ℕ → ℕ → ℕ → ℕ → Grouping → Grouping
group_one self per num_groups id x =
    let full = leb per (x.added + 1) && ltb (x.pg_num + 1) num_groups in
    record {
      groups = append_at x.pg_num id x.groups;
      pg_num = if full then x.pg_num + 1 else x.pg_num;
      added = if full then 0 else x.added + 1;
      my_group = if id == self then x.pg_num else x.my_group;
    }

-- the loop of `peersToGroups`
unfoldable pub group_all : ℕ → ℕ → ℕ → List ℕ → Grouping → Grouping
group_all self per num_groups [] x = x
group_all self per num_groups (id ∷ ids) x =
    group_all self per num_groups ids (group_one self per num_groups id x)

-- `peersToGroups` for a positive number of groups
unfoldable pub peers_to_groups : ℕ → ℕ → List ℕ → Grouping
peers_to_groups self num_groups ids =
    group_all self (length ids / num_groups) num_groups ids
      (record { groups = replicate num_groups []; pg_num = 0; added = 0; my_group = 0 })

-- the last element and those before it
abbrev pub last : ℕ → List ℕ → ℕ
last y [] = y
last y (z ∷ zs) = last z zs

abbrev pub init : ℕ → List ℕ → List ℕ
init y [] = []
init y (z ∷ zs) = y ∷ init z zs

-- what is left behind an element that the last one takes the place of
abbrev pub last_first : List ℕ → List ℕ
last_first [] = []
last_first (y ∷ ys) = last y ys ∷ init y ys

-- the inner loop of `computeMissingIDsForP2b`: it stops at the first occurrence
unfoldable pub swap_remove : ℕ → List ℕ → List ℕ
swap_remove id [] = []
swap_remove id (x ∷ xs) =
    let rest = swap_remove id xs in if id == x then last_first xs else x ∷ rest

-- the outer loop
unfoldable pub remove_all : List ℕ → List ℕ → List ℕ
remove_all [] group = group
remove_all (id ∷ ids) group = remove_all ids (swap_remove id group)

-- `computeMissingIDsForP2b`, over the group of the relay and the collected identities
unfoldable pub missing_ids : List ℕ → List ℕ → List ℕ
missing_ids group ids = remove_all ids group

-- the identities that `handleP2bAggregated` hands to `HandleP2b`
unfoldable pub voted_ids : List ℕ → List ℕ → List ℕ
voted_ids group missing = if ltb 0 (length missing) then remove_all missing group else group
