-- ===== src/Collections/Queue/Tests.antt =====
-- A queue on concrete values.
use pigpaxos.Prelude.{ℕ, ◌≡◌, refl, List, [], ◌∷◌}
use pigpaxos.Collections.Queue.{new_queue}
use pigpaxos.Collections.Queue.Fifo.{
  Call, push_of, pop_of, popped, popped_first, first_in_first_out,
}

abbrev calls : List (Call ℕ)
calls = push_of 3 ∷ push_of 4 ∷ pop_of ∷ push_of 5 ∷ pop_of ∷ pop_of ∷ pop_of ∷ []

popped_calls : popped_first 0 calls [] ≡ 3 ∷ 4 ∷ 5 ∷ 0 ∷ []
popped_calls = refl

first_in_first_out_example : popped 0 calls (new_queue 0) ≡ popped_first 0 calls []
first_in_first_out_example = first_in_first_out 0 calls
