-- ===== src/Words.antt =====
-- Go's unsigned shifts, `|` of disjoint fields and `&` with a low mask, as arithmetic.
use Prim.Native.Nat.{digits, bit_or, bit_and, bit_or-bitwise, bit_and-bitwise}
use native.Mathlib.Nat.{pow-suc, one-le-pow}
use pigpaxos.Prelude.{
  ℕ, zero, suc, ◌+◌, ◌-◌, ◌*◌, ◌/◌, ◌%◌, ◌^◌, ◌≤◌, ◌<◌, max, min, ◌≡◌, refl, ap, arith,
}

infixl 70 ◌<<◌ ◌>>◌
abbrev pub ◌<<◌ : ℕ → ℕ → ℕ
x << k = x * 2 ^ k

abbrev pub ◌>>◌ : ℕ → ℕ → ℕ
x >> k = x / 2 ^ k

abbrev pub u16 : ℕ → ℕ
u16 x = x % 2 ^ 16

abbrev pub u32 : ℕ → ℕ
u32 x = x % 2 ^ 32

abbrev pub u64 : ℕ → ℕ
u64 x = x % 2 ^ 64

-- More fuel than digits makes no difference to the recursion that `|` and `&` stand for.
module _ (z : ℕ → ℕ) (f : ℕ → ℕ → ℕ) where
  digits_enough : (n m a b : ℕ) → a ≤ n → a ≤ m → digits z f n a b ≡ digits z f m a b
  digits_enough zero zero zero y h k = refl
  digits_enough zero (suc m) zero y h k = refl
  digits_enough (suc n) zero zero y h k = refl
  digits_enough (suc n) (suc m) zero y h k = refl
  digits_enough zero m (suc x) y h k = absurd (omega arith)
  digits_enough (suc n) zero (suc x) y h k = absurd (omega arith)
  digits_enough (suc n) (suc m) (suc x) y h k =
      let shorter = digits_enough n m (suc x / 2) (y / 2) (omega arith) (omega arith) in
      omega (arith, shorter)

or_low : (a b : ℕ) → bit_or a b ≡ bit_or (a / 2) (b / 2) * 2 + max (a % 2) (b % 2)
or_low zero b = omega (arith, bit_or-bitwise 0 b, bit_or-bitwise 0 (b / 2))
or_low (suc a) b = omega (
  arith,
  bit_or-bitwise (suc a) b,
  bit_or-bitwise (suc a / 2) (b / 2),
  digits_enough (λ y. y) max a (suc a / 2) (suc a / 2) (b / 2) (omega arith) (omega arith),
)

and_low : (a b : ℕ) → bit_and a b ≡ bit_and (a / 2) (b / 2) * 2 + min (a % 2) (b % 2)
and_low zero b = omega (arith, bit_and-bitwise 0 b, bit_and-bitwise 0 (b / 2))
and_low (suc a) b = omega (
  arith,
  bit_and-bitwise (suc a) b,
  bit_and-bitwise (suc a / 2) (b / 2),
  digits_enough (λ y. 0) min a (suc a / 2) (suc a / 2) (b / 2) (omega arith) (omega arith),
)

or_nothing : (bound a : ℕ) → a ≤ bound → bit_or a 0 ≡ a
or_nothing bound zero h = refl
or_nothing zero (suc a) h = absurd (omega arith)
or_nothing (suc bound) (suc a) h =
    omega (arith, or_low (suc a) 0, or_nothing bound (suc a / 2) (omega arith))

-- Fields that do not overlap add up.
pub or_fields : (k q r : ℕ) → r < 2 ^ k → bit_or (q << k) r ≡ (q << k) + r
or_fields zero q r h = ground (arith, or_nothing q q)
or_fields (suc k) q r h = ground (
  arith,
  or_low (q << suc k) r,
  pow-suc 2 k,
  ap (λ (t : ℕ). q * t) (pow-suc 2 k),
  or_fields k q (r / 2) (omega (arith, pow-suc 2 k)),
)

and_fields : (k q r : ℕ) → r < 2 ^ k → bit_and (2 ^ k - 1) ((q << k) + r) ≡ r
and_fields zero q r h = omega (arith, bit_and-bitwise 0 ((q << 0) + r))
and_fields (suc k) q r h = ground (
  arith,
  and_low (2 ^ suc k - 1) ((q << suc k) + r),
  pow-suc 2 k,
  one-le-pow k 2,
  ap (λ (t : ℕ). q * t) (pow-suc 2 k),
  and_fields k q (r / 2) (omega (arith, pow-suc 2 k)),
)

-- A mask of `k` ones keeps the remainder.
pub mask_and : (k a : ℕ) → bit_and (2 ^ k - 1) a ≡ a % 2 ^ k
mask_and k a = ground (arith, one-le-pow k 2, and_fields k (a / 2 ^ k) (a % 2 ^ k))
