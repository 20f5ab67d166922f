-- ===== src/Prelude/Counting.antt =====
-- Counting the members of a list that pass a test, and the pigeonhole principle.
use Prim.Native.Nat.{ℕ, ◌+◌, ◌≤◌, ◌<◌}
use mathlib.Core.Path.{◌≡◌, refl}
use mathlib.Core.Logic.{inl, inr}
use mathlib.Core.Bool.{Bool, true, false, ◌&&◌}
use mathlib.Core.List.{List, [], ◌∷◌, ◌++◌}
use native.Mathlib.Omega.{arith}
use pigpaxos.Prelude.Tests.{◌==◌, if◌then◌else◌, Bool-cases, ==→eq}
use pigpaxos.Prelude.Lists.{length, contains, IsNodup}

abbrev pub count_if : (ℕ → Bool) → List ℕ → ℕ
count_if p [] = 0
count_if p (x ∷ xs) = (if p x then 1 else 0) + count_if p xs

pub count_if-le-length : (p : ℕ → Bool) (ms : List ℕ) → count_if p ms ≤ length ms
count_if-le-length p [] = omega arith
count_if-le-length p (m ∷ ms) = ground (arith, count_if-le-length p ms)

pub count_if_mono :
    (p q : ℕ → Bool) (ms : List ℕ)
    → ((a : ℕ) → p a ≡ true → q a ≡ true)
    → count_if p ms ≤ count_if q ms
count_if_mono p q [] h = omega arith
count_if_mono p q (m ∷ ms) h = ground (arith, h m, count_if_mono p q ms h)

-- A member that passes both tests, if the two counts exceed what passes a test that both imply.
pub pigeonhole :
    (p q r : ℕ → Bool) (ms : List ℕ)
    → ((a : ℕ) → p a ≡ true → r a ≡ true)
    → ((a : ℕ) → q a ≡ true → r a ≡ true)
    → count_if r ms < count_if p ms + count_if q ms
    → (a : ℕ) × (contains ms a ≡ true) × (p a ≡ true) × (q a ≡ true)
pigeonhole p q r [] hp hq h = absurd (omega arith)
pigeonhole p q r (m ∷ ms) hp hq h = elim (Bool-cases (p m && q m)) [
  | inl both ↦ (m, ground arith, ground arith, ground arith)
  | inr other ↦
      let (a, c, pa, qa) = pigeonhole p q r ms hp hq (ground (arith, hp m, hq m)) in
      (a, ground arith, pa, qa)
]

count_if-contains-cons :
    (p : ℕ → Bool) (x : ℕ) (xs ms : List ℕ)
    → p x ≡ true
    → contains ms x ≡ true
    → contains xs x ≡ false
    → count_if (λ a. p a && contains xs a) ms + 1 ≤ count_if (λ a. p a && contains (x ∷ xs) a) ms
count_if-contains-cons p x xs [] e h k = cc
count_if-contains-cons p x xs (m ∷ ms) e h k = elim (Bool-cases (m == x)) [
  | inl same ↦ ground (
    arith,
    ==→eq m x same,
    count_if_mono (λ a. p a && contains xs a) (λ a. p a && contains (x ∷ xs) a) ms
        (λ a b. ground arith),
  )
  | inr other ↦ ground (arith, count_if-contains-cons p x xs ms e (ground arith) k)
]

-- What distinct members of a list pass a test is counted there too.
pub count_if-le-count_if :
    (p : ℕ → Bool) (xs ms : List ℕ)
    → IsNodup xs
    → ((a : ℕ) → contains xs a ≡ true → contains ms a ≡ true)
    → count_if p xs ≤ count_if (λ a. p a && contains xs a) ms
count_if-le-count_if p [] ms d h = omega arith
count_if-le-count_if p (x ∷ xs) ms d h = elim (Bool-cases (p x)) [
  | inl passes ↦ ground (
    arith,
    count_if-le-count_if p xs ms d.1 (λ a e. h a (ground arith)),
    count_if-contains-cons p x xs ms passes (h x (ground arith)) d.0,
  )
  | inr fails ↦ ground (
    arith,
    count_if-le-count_if p xs ms d.1 (λ a e. h a (ground arith)),
    count_if_mono (λ a. p a && contains xs a) (λ a. p a && contains (x ∷ xs) a) ms
        (λ a b. ground arith),
  )
]

pub count_if-true : (xs : List ℕ) → count_if (λ a. true) xs ≡ length xs
count_if-true [] = refl
count_if-true (x ∷ xs) = omega (arith, count_if-true xs)

-- Distinct members of a list are counted there one by one.
pub length-le-count_if :
    (xs ms : List ℕ)
    → IsNodup xs
    → ((a : ℕ) → contains xs a ≡ true → contains ms a ≡ true)
    → length xs ≤ count_if (contains xs) ms
length-le-count_if xs ms d h =
    omega (arith, count_if-true xs, count_if-le-count_if (λ a. true) xs ms d h)

pub length-le-length :
    (xs ms : List ℕ)
    → IsNodup xs
    → ((a : ℕ) → contains xs a ≡ true → contains ms a ≡ true)
    → length xs ≤ length ms
length-le-length xs ms d h =
    omega (arith, length-le-count_if xs ms d h, count_if-le-length (contains xs) ms)

-- Two tests that pass often enough pass often together.
pub count_if_both :
    (p q : ℕ → Bool) (ms : List ℕ)
    → count_if p ms + count_if q ms ≤ count_if (λ a. p a && q a) ms + length ms
count_if_both p q [] = omega arith
count_if_both p q (m ∷ ms) = ground (arith, count_if_both p q ms)

-- Where an element stands does not matter to a count.
pub count_if_middle :
    (p : ℕ → Bool) (x : ℕ) (xs ys : List ℕ) → count_if p (xs ++ x ∷ ys) ≡ count_if p (x ∷ xs ++ ys)
count_if_middle p x [] ys = refl
count_if_middle p x (y ∷ xs) ys = omega (arith, count_if_middle p x xs ys)

fewer : (p q : ℕ → Bool) (ms : List ℕ) → count_if (λ b. p b && q b) ms ≤ count_if p ms
fewer p q ms = count_if_mono (λ b. p b && q b) p ms (λ a h. ground arith)

-- If what passes one test also passes a second as often, every such member passes the second.
pub count_if_full :
    (p q : ℕ → Bool) (ms : List ℕ) (a : ℕ)
    → count_if p ms ≤ count_if (λ b. p b && q b) ms
    → contains ms a ≡ true
    → p a ≡ true
    → q a ≡ true
count_if_full p q [] a h c e = cc
count_if_full p q (m ∷ ms) a h c e = elim (Bool-cases (m == a)) [
  | inl same ↦ ground (arith, ==→eq m a same, fewer p q ms)
  | inr other ↦ count_if_full p q ms a (ground (arith, fewer p q ms)) (ground arith) e
]

-- A positive count shows a member that passes.
pub count_if_witness :
    (p : ℕ → Bool) (ms : List ℕ)
    → 0 < count_if p ms
    → (a : ℕ) × (contains ms a ≡ true) × (p a ≡ true)
count_if_witness p [] h = absurd (omega arith)
count_if_witness p (m ∷ ms) h = elim (Bool-cases (p m)) [
  | inl e ↦ (m, ground arith, e)
  | inr e ↦ let (a, c, f) = count_if_witness p ms (ground arith) in (a, ground arith, f)
]

-- Tests that agree on the members count alike.
pub count_if_cong :
    (p q : ℕ → Bool) (ms : List ℕ)
    → ((a : ℕ) → contains ms a ≡ true → p a ≡ q a)
    → count_if p ms ≡ count_if q ms
count_if_cong p q [] h = refl
count_if_cong p q (m ∷ ms) h = ground (arith, h m, count_if_cong p q ms (λ a c. h a (ground arith)))
