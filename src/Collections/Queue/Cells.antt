-- ===== src/Collections/Queue/Cells.antt =====
-- The cells of a buffer after a copy or a write.
use pigpaxos.Prelude.{
  ℕ, zero, suc, ◌+◌, ◌-◌, ◌≤◌, ◌<◌, ◌≡◌, ◌≢◌, refl, ap, List, [], ◌∷◌, ◌++◌, some, length, take,
  drop, replicate, set, get_elem?, arith,
}
use pigpaxos.Collections.Queue.{copy}

pub length-copy {ℓ} :
    {A : Type ℓ} (dst : List A) (i : ℕ) (src : List A) → length (copy dst i src) ≡ length dst
unfolding copy
length-copy [] i src = refl
length-copy (x ∷ dst) (suc i) src = ap suc (length-copy dst i src)
length-copy (x ∷ dst) zero [] = refl
length-copy (x ∷ dst) zero (y ∷ src) = ap suc (length-copy dst zero src)

pub length-replicate {ℓ} : {A : Type ℓ} (n : ℕ) (a : A) → length (replicate n a) ≡ n
length-replicate zero a = refl
length-replicate (suc n) a = ap suc (length-replicate n a)

pub length-set {ℓ} : {A : Type ℓ} (xs : List A) (i : ℕ) (a : A) → length (set xs i a) ≡ length xs
length-set [] i a = refl
length-set (x ∷ xs) zero a = refl
length-set (x ∷ xs) (suc i) a = ap suc (length-set xs i a)

pub length-take {ℓ} : {A : Type ℓ} (n : ℕ) (xs : List A) → n ≤ length xs → length (take n xs) ≡ n
length-take zero xs h = refl
length-take (suc n) [] h = absurd (omega arith)
length-take (suc n) (x ∷ xs) h = ap suc (length-take n xs (omega arith))

pub length-drop {ℓ} : {A : Type ℓ} (n : ℕ) (xs : List A) → length (drop n xs) ≡ length xs - n
length-drop zero xs = omega arith
length-drop (suc n) [] = omega arith
length-drop (suc n) (x ∷ xs) = omega (arith, length-drop n xs)

pub get_elem?-drop {ℓ} :
    {A : Type ℓ} (n i k : ℕ) (xs : List A) → k ≡ n + i → get_elem? (drop n xs) i ≡ get_elem? xs k
get_elem?-drop zero i k xs h = ap (get_elem? xs) (omega arith)
get_elem?-drop (suc n) i k [] h = refl
get_elem?-drop (suc n) i zero (x ∷ xs) h = absurd (omega arith)
get_elem?-drop (suc n) i (suc k) (x ∷ xs) h = get_elem?-drop n i k xs (omega arith)

pub get_elem?-take {ℓ} :
    {A : Type ℓ} (n i : ℕ) (xs : List A) → i < n → get_elem? (take n xs) i ≡ get_elem? xs i
get_elem?-take zero i xs h = absurd (omega arith)
get_elem?-take (suc n) i [] h = refl
get_elem?-take (suc n) zero (x ∷ xs) h = refl
get_elem?-take (suc n) (suc i) (x ∷ xs) h = get_elem?-take n i xs (omega arith)

pub get_elem?-set_same {ℓ} :
    {A : Type ℓ} (xs : List A) (i : ℕ) (a : A) → i < length xs → get_elem? (set xs i a) i ≡ some a
get_elem?-set_same [] i a h = absurd (omega arith)
get_elem?-set_same (x ∷ xs) zero a h = refl
get_elem?-set_same (x ∷ xs) (suc i) a h = get_elem?-set_same xs i a (omega arith)

pub get_elem?-set_other {ℓ} :
    {A : Type ℓ} (xs : List A) (i j : ℕ) (a : A) → i ≢ j → get_elem? (set xs i a) j ≡ get_elem? xs j
get_elem?-set_other [] i j a h = refl
get_elem?-set_other (x ∷ xs) zero zero a h = absurd (h refl)
get_elem?-set_other (x ∷ xs) zero (suc j) a h = refl
get_elem?-set_other (x ∷ xs) (suc i) zero a h = refl
get_elem?-set_other (x ∷ xs) (suc i) (suc j) a h = get_elem?-set_other xs i j a (λ e. h (ap suc e))

-- A copy leaves what stands before it, and has the source where it goes.
pub get_elem?-copy_before {ℓ} :
    {A : Type ℓ} (dst : List A) (i : ℕ) (src : List A) (j : ℕ)
    → j < i
    → get_elem? (copy dst i src) j ≡ get_elem? dst j
unfolding copy
get_elem?-copy_before [] i src j h = refl
get_elem?-copy_before (x ∷ dst) zero src j h = absurd (omega arith)
get_elem?-copy_before (x ∷ dst) (suc i) src zero h = refl
get_elem?-copy_before (x ∷ dst) (suc i) src (suc j) h =
    get_elem?-copy_before dst i src j (omega arith)

pub get_elem?-copy_inside {ℓ} :
    {A : Type ℓ} (dst : List A) (i : ℕ) (src : List A) (j k : ℕ)
    → k ≡ i + j
    → k < length dst
    → j < length src
    → get_elem? (copy dst i src) k ≡ get_elem? src j
unfolding copy
get_elem?-copy_inside [] i src j k e h l = absurd (omega arith)
get_elem?-copy_inside (x ∷ dst) (suc i) src j zero e h l = absurd (omega arith)
get_elem?-copy_inside (x ∷ dst) (suc i) src j (suc k) e h l =
    get_elem?-copy_inside dst i src j k (omega arith) (omega arith) l
get_elem?-copy_inside (x ∷ dst) zero [] j k e h l = absurd (omega arith)
get_elem?-copy_inside (x ∷ dst) zero (y ∷ src) zero zero e h l = refl
get_elem?-copy_inside (x ∷ dst) zero (y ∷ src) zero (suc k) e h l = absurd (omega arith)
get_elem?-copy_inside (x ∷ dst) zero (y ∷ src) (suc j) zero e h l = absurd (omega arith)
get_elem?-copy_inside (x ∷ dst) zero (y ∷ src) (suc j) (suc k) e h l =
    get_elem?-copy_inside dst zero src j k (omega arith) (omega arith) (omega arith)

-- The list of `f 0`, ..., `f (k - 1)`.
abbrev pub build {ℓ} : {A : Type ℓ} → (ℕ → A) → ℕ → List A
build f zero = []
build f (suc k) = build f k ++ f k ∷ []

pub build_ext {ℓ} :
    {A : Type ℓ} (f g : ℕ → A) (k : ℕ) → ((j : ℕ) → j < k → f j ≡ g j) → build f k ≡ build g k
build_ext f g zero h = refl
build_ext f g (suc k) h = rw (build_ext f g k (λ j l. h j (omega arith)), h k (omega arith)) refl

pub build_last {ℓ} : {A : Type ℓ} (f : ℕ → A) (k : ℕ) → build f (k + 1) ≡ build f k ++ f k ∷ []
build_last f k = let next_one : k + 1 ≡ suc k = omega arith in rw next_one refl

pub build_front {ℓ} :
    {A : Type ℓ} (f : ℕ → A) (k : ℕ) → build f (suc k) ≡ f 0 ∷ build (λ (j : ℕ). f (suc j)) k
build_front f zero = refl
build_front f (suc k) = rw (build_front f k) refl
