-- ===== src/Policy/Streaks/Tests.antt =====
-- The policy on concrete accesses.
use pigpaxos.Prelude.{ℕ, ◌≡◌, refl, List, [], ◌∷◌}
use pigpaxos.Policy.{new_consecutive}
use pigpaxos.Policy.Streaks.{streak, answers, streak_answers, consecutive_answers}

abbrev accesses : List ℕ
accesses = 4 ∷ 5 ∷ 5 ∷ 5 ∷ 4 ∷ 4 ∷ []

answered_accesses : streak_answers 2 accesses [] ≡ 0 ∷ 0 ∷ 5 ∷ 0 ∷ 0 ∷ 4 ∷ []
unfolding streak
answered_accesses = refl

consecutive_answers_example : answers accesses (new_consecutive 2) ≡ streak_answers 2 accesses []
consecutive_answers_example = consecutive_answers 2 accesses
