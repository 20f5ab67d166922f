-- ===== src/Relay/Groups/Missing.antt =====
-- What the leader makes of the missing identities is what the relay has collected.
use pigpaxos.Prelude.{ℕ, ◌-◌, ◌≡◌, refl, min, List, [], ◌∷◌, false, arith, count, length, ltb}
use pigpaxos.Relay.Groups.{last, init, last_first, swap_remove, remove_all, missing_ids, voted_ids}

count-init : (a y : ℕ) (ys : List ℕ) → count a (last y ys ∷ init y ys) ≡ count a (y ∷ ys)
count-init a y [] = refl
count-init a y (z ∷ zs) = ground (arith, count-init a z zs)

count-last_first : (a : ℕ) (xs : List ℕ) → count a (last_first xs) ≡ count a xs
count-last_first a [] = refl
count-last_first a (y ∷ ys) = count-init a y ys

count-swap_remove :
    (a id : ℕ) (xs : List ℕ) → count a (swap_remove id xs) ≡ count a xs - count a (id ∷ [])
unfolding swap_remove
count-swap_remove a id [] = ground arith
count-swap_remove a id (x ∷ xs) = ground (arith, count-swap_remove a id xs, count-last_first a xs)

count-remove_all :
    (a : ℕ) (ids xs : List ℕ) → count a (remove_all ids xs) ≡ count a xs - count a ids
unfolding remove_all
count-remove_all a [] xs = omega arith
count-remove_all a (id ∷ ids) xs =
    ground (arith, count-remove_all a ids (swap_remove id xs), count-swap_remove a id xs)

nothing_missing : (xs : List ℕ) (a : ℕ) → ltb 0 (length xs) ≡ false → count a xs ≡ 0
nothing_missing [] a h = refl
nothing_missing (x ∷ xs) a h = absurd (ground arith)

-- Every node is among the votes that the leader reads from the missing identities of a relay as
-- often as the relay has collected it, up to its occurrences in the peer group.
pub voted_ids-missing_ids :
    (group ids : List ℕ) (a : ℕ)
    → count a (voted_ids group (missing_ids group ids)) ≡ min (count a group) (count a ids)
unfolding voted_ids missing_ids
voted_ids-missing_ids group ids a = ground (
  arith,
  count-remove_all a (remove_all ids group) group,
  count-remove_all a ids group,
  nothing_missing (remove_all ids group) a,
)
