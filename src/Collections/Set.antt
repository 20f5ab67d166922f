-- ===== src/Collections/Set.antt =====
-- lib/set.go: a Go map with empty values. Its keys are numbers here, in the order of an iteration.
use pigpaxos.Prelude.{
  ℕ, ◌≡◌, refl, List, [], ◌∷◌, Bool, not, ◌&&◌, ◌||◌, ◌==◌, if◌then◌else◌, contains, arith,
}

-- `Set`
abbrev pub Set : Type 0
Set = List ℕ

-- `Add`
unfoldable pub add : ℕ → Set → Set
add e s = if contains s e then s else e ∷ s

-- `Has`
abbrev pub has : Set → ℕ → Bool
has s e = contains s e

-- `Remove`
unfoldable pub remove : ℕ → Set → Set
remove e [] = []
remove e (x ∷ s) = let rest = remove e s in if x == e then rest else x ∷ rest

pub has-add : (e x : ℕ) (s : Set) → has (add e s) x ≡ (e == x || has s x)
unfolding add
has-add e x s = ground arith

pub has-remove : (e x : ℕ) (s : Set) → has (remove e s) x ≡ (has s x && not (e == x))
unfolding remove
has-remove e x [] = refl
has-remove e x (y ∷ s) = ground (arith, has-remove e x s)
