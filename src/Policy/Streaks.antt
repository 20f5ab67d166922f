-- ===== src/Policy/Streaks.antt =====
-- The policy answers exactly at the end of a streak.
mod Tests
use pigpaxos.Prelude.{
  ℕ, zero, suc, ◌+◌, ◌≤◌, ◌<◌, ◌≡◌, ◌≢◌, refl, ap, ap₂, sym, ◌∙◌, List, [], ◌∷◌, Bool, true, false,
  ◌==◌, ltb, leb, if◌then◌else◌, arith, inl, inr, Bool-cases,
}
use pigpaxos.Policy.{Consecutive, new_consecutive, count_hit, hit}

-- How many of the accesses, the newest first, are of the identity `id` before another one comes.
unfoldable pub streak : ℕ → List ℕ → ℕ
streak id [] = 0
streak id (x ∷ xs) = if x == id then suc (streak id xs) else 0

-- The answers over a run of accesses ...
abbrev pub answers : List ℕ → Consecutive → List ℕ
answers [] c = []
answers (id ∷ ids) c = (hit id c).0 ∷ answers ids (hit id c).1

-- ... and those that follow from the accesses since the last answer, `since`.
abbrev pub streak_answers : ℕ → List ℕ → List ℕ → List ℕ
streak_answers n [] since = []
streak_answers n (id ∷ ids) since =
    (if leb n (streak id (id ∷ since)) then id else 0)
    ∷ streak_answers n ids (if leb n (streak id (id ∷ since)) then [] else id ∷ since)

-- The state of the policy tells the streak of each identity since the last answer.
record Tells (since : List ℕ) (c : Consecutive) : Type 0 where
  last : streak c.last since ≡ c.hits
  other : (id : ℕ) → id ≢ c.last → streak id since ≡ 0

streak-same : (id : ℕ) (since : List ℕ) → streak id (id ∷ since) ≡ suc (streak id since)
unfolding streak
streak-same id since = ground arith

streak-other : (id j : ℕ) (since : List ℕ) → j ≢ id → streak j (id ∷ since) ≡ 0
unfolding streak
streak-other id j since h = ground arith

count_hit-Tells :
    (id : ℕ) (since : List ℕ) (c : Consecutive)
    → Tells since c
    → Tells (id ∷ since) (count_hit id c)
      × ((count_hit id c).last ≡ id)
      × ((count_hit id c).hits ≡ streak id (id ∷ since))
      × ((count_hit id c).n ≡ c.n)
unfolding count_hit
count_hit-Tells id since c v = elim (Bool-cases (id == c.last)) [
  | inl same ↦
      let is : id ≡ c.last = ground arith in
      let grown : streak id (id ∷ since) ≡ c.hits + 1 =
        omega (arith, streak-same id since, ap (λ (x : ℕ). streak x since) is, v.last) in
      rw same (
        record {
          last = ap (λ (x : ℕ). streak x (id ∷ since)) (sym is) ∙ grown;
          other = λ j h. streak-other id j since (λ e. h (e ∙ is));
        },
        sym is,
        sym grown,
        refl,
      )
  | inr new ↦
      let grown : streak id (id ∷ since) ≡ 1 =
        omega (arith, streak-same id since, v.other id (ground arith)) in
      rw new
        (record { last = grown; other = λ j h. streak-other id j since h }, refl, sym grown, refl)
]

start_over : {n : ℕ} → Tells [] (record { last = 0; hits = 0; n = n })
unfolding streak
start_over = record { last = refl; other = λ id h. refl }

answers_lem :
    (ids since : List ℕ) (c : Consecutive)
    → Tells since c
    → answers ids c ≡ streak_answers c.n ids since
unfolding hit
answers_lem [] since c v = refl
answers_lem (id ∷ ids) since c v =
    let (w, last, hits, n) = count_hit-Tells id since c v in
    let k = streak id (id ∷ since) in
    elim (Bool-cases (leb c.n k)) [
      | inl enough ↦
          let test : leb (count_hit id c).n (count_hit id c).hits ≡ true = rw (n, hits) enough in
          let rest =
            answers_lem ids [] (record (count_hit id c) { last = 0; hits = 0 }) start_over in
          rw (test, enough)
            (ap₂ (λ (x : ℕ) (xs : List ℕ). x ∷ xs) last
              (rest ∙ ap (λ (t : ℕ). streak_answers t ids []) n))
      | inr few ↦
          let test : leb (count_hit id c).n (count_hit id c).hits ≡ false = rw (n, hits) few in
          rw (test, few)
            (ap (λ (xs : List ℕ). 0 ∷ xs)
              (answers_lem ids (id ∷ since) (count_hit id c) w
                ∙ ap (λ (t : ℕ). streak_answers t ids (id ∷ since)) n))
    ]

-- Over any run of accesses, the policy answers an identity exactly when the accesses since its last
-- answer end in a streak of that identity as long as the threshold, and 0 otherwise.
pub consecutive_answers :
    (n : ℕ) (ids : List ℕ) → answers ids (new_consecutive n) ≡ streak_answers n ids []
unfolding new_consecutive
consecutive_answers n ids = answers_lem ids [] (new_consecutive n) start_over
