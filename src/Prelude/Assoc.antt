-- ===== src/Prelude/Assoc.antt =====
-- A Go map with integer keys, as an association list. What reads it goes through `lookup`.
use Prim.Native.Nat.{ℕ, ◌+◌}
use mathlib.Core.Path.{◌≡◌, refl}
use mathlib.Core.Bool.{true, ◌||◌}
use mathlib.Core.List.{List, [], ◌∷◌}
use mathlib.Core.Option.{Option, none, some}
use native.Mathlib.Omega.{arith}
use mathlib.Core.Logic.{inl, inr}
use pigpaxos.Prelude.Tests.{◌==◌, if◌then◌else◌, Bool-cases}
use pigpaxos.Prelude.Lists.{length, contains, IsNodup}

abbrev pub keys {ℓ} : {V : Type ℓ} → List (ℕ × V) → List ℕ
keys [] = []
keys ((k, v) ∷ m) = k ∷ keys m

module _ {ℓ} {V : Type ℓ} where
  -- `m[k]`, with `none` for a missing key
  unfoldable pub lookup : ℕ → List (ℕ × V) → Option V
  lookup key [] = none
  lookup key ((first, value) ∷ others) = if first == key then some value else lookup key others

  -- `m[k] = v`
  unfoldable pub insert : ℕ → V → List (ℕ × V) → List (ℕ × V)
  insert key new [] = (key, new) ∷ []
  insert key new ((first, value) ∷ others) =
      if first == key then (key, new) ∷ others else (first, value) ∷ insert key new others

  -- `delete(m, k)`
  unfoldable pub erase : ℕ → List (ℕ × V) → List (ℕ × V)
  erase k [] = []
  erase k ((j, w) ∷ m) = let rest = erase k m in if j == k then rest else (j, w) ∷ rest

  pub lookup-nil : (k : ℕ) → lookup k [] ≡ none
  unfolding lookup
  lookup-nil k = refl

  pub lookup-insert :
      (k j : ℕ) (new : V) (entries : List (ℕ × V))
      → lookup j (insert k new entries) ≡ (if k == j then some new else lookup j entries)
  unfolding lookup insert
  lookup-insert k j new [] = refl
  lookup-insert k j new ((first, value) ∷ others) = ground (arith, lookup-insert k j new others)

  pub lookup-erase :
      (k j : ℕ) (m : List (ℕ × V)) → lookup j (erase k m) ≡ (if k == j then none else lookup j m)
  unfolding lookup erase
  lookup-erase k j [] = ground arith
  lookup-erase k j ((i, w) ∷ m) = ground (arith, lookup-erase k j m)

  pub contains-keys-insert :
      (k j : ℕ) (v : V) (m : List (ℕ × V))
      → contains (keys (insert k v m)) j ≡ (k == j || contains (keys m) j)
  unfolding insert
  contains-keys-insert k j v [] = refl
  contains-keys-insert k j v ((i, w) ∷ m) = ground (arith, contains-keys-insert k j v m)

  pub keys-insert-IsNodup :
      (k : ℕ) (v : V) (m : List (ℕ × V)) → IsNodup (keys m) → IsNodup (keys (insert k v m))
  unfolding insert
  keys-insert-IsNodup k v [] h = (refl, tt)
  keys-insert-IsNodup k v ((i, w) ∷ m) h =
      ground (arith, contains-keys-insert k i v m, keys-insert-IsNodup k v m h.1)

  pub lookup-some_of_contains :
      (k : ℕ) (m : List (ℕ × V)) → contains (keys m) k ≡ true → (v : V) × (lookup k m ≡ some v)
  unfolding lookup
  lookup-some_of_contains k [] h = cc
  lookup-some_of_contains k ((i, w) ∷ m) h = elim (Bool-cases (i == k)) [
    | inl same ↦ (w, rw same)
    | inr other ↦ let (v, e) = lookup-some_of_contains k m (rw other at h) in (v, rw other e)
  ]

-- `m[k]` of a map to integers: 0 for a missing key
unfoldable pub value_at : ℕ → List (ℕ × ℕ) → ℕ
unfolding lookup
value_at k m = elim (lookup k m) [ none ↦ 0 | some n ↦ n ]

-- `m[k]++`
unfoldable pub increment : ℕ → List (ℕ × ℕ) → List (ℕ × ℕ)
unfolding insert value_at
increment k m = insert k (value_at k m + 1) m

pub value_at-increment :
    (k j : ℕ) (m : List (ℕ × ℕ))
    → value_at j (increment k m) ≡ value_at j m + (if k == j then 1 else 0)
unfolding value_at increment
value_at-increment k j m = ground (arith, lookup-insert k j (value_at k m + 1) m)

pub value_at-nil : (j : ℕ) → value_at j [] ≡ 0
unfolding value_at
value_at-nil j = refl

pub keys-increment :
    (k j : ℕ) (m : List (ℕ × ℕ))
    → contains (keys (increment k m)) j ≡ (k == j || contains (keys m) j)
unfolding increment
keys-increment k j m = contains-keys-insert k j (value_at k m + 1) m

pub increment-IsNodup :
    (k : ℕ) (m : List (ℕ × ℕ)) → IsNodup (keys m) → IsNodup (keys (increment k m))
unfolding increment
increment-IsNodup k m h = keys-insert-IsNodup k (value_at k m + 1) m h

pub value_at-cons :
    (k n : ℕ) (m : List (ℕ × ℕ)) (j : ℕ)
    → value_at j ((k, n) ∷ m) ≡ (if k == j then n else value_at j m)
unfolding value_at
value_at-cons k n m j = ground arith

pub length-keys {ℓ} : {V : Type ℓ} (m : List (ℕ × V)) → length (keys m) ≡ length m
length-keys [] = refl
length-keys ((k, v) ∷ m) = omega (arith, length-keys m)
