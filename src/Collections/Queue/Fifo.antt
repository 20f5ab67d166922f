-- ===== src/Collections/Queue/Fifo.antt =====
-- The queue is first in, first out.
use pigpaxos.Prelude.{◌≡◌, refl, ap, ◌∙◌, List, [], ◌∷◌, ◌++◌, arith}
use pigpaxos.Collections.Queue.{Queue, new_queue, push, pop}
use pigpaxos.Collections.Queue.Moves.{IsValid, contents, front, rest, push_lem, pop_lem}

-- A call of the queue.
pub data Call {ℓ} (A : Type ℓ) : Type ℓ where
  push_of : A → Call A
  pop_of : Call A

module _ {ℓ} {A : Type ℓ} (nil : A) where
  -- What the pops of a run of calls return ...
  abbrev pub popped : List (Call A) → Queue A → List A
  popped [] q = []
  popped (push_of e ∷ calls) q = popped calls (push nil q e)
  popped (pop_of ∷ calls) q = (pop nil q).0 ∷ popped calls (pop nil q).1

  -- ... and what they return on the list of the elements that wait.
  abbrev pub popped_first : List (Call A) → List A → List A
  popped_first [] xs = []
  popped_first (push_of e ∷ calls) xs = popped_first calls (xs ++ e ∷ [])
  popped_first (pop_of ∷ calls) xs = front nil xs ∷ popped_first calls (rest nil xs)

  popped_lem :
      (calls : List (Call A)) (q : Queue A)
      → IsValid q
      → popped calls q ≡ popped_first calls (contents nil q)
  popped_lem [] q v = refl
  popped_lem (push_of e ∷ calls) q v =
      let (w, added) = push_lem nil q e v in
      popped_lem calls (push nil q e) w ∙ ap (popped_first calls) added
  popped_lem (pop_of ∷ calls) q v =
      let (w, first, others) = pop_lem nil q v in
      rw first (
        ap (λ (xs : List A). front nil (contents nil q) ∷ xs)
          (popped_lem calls (pop nil q).1 w ∙ ap (popped_first calls) others))

  new_queue-IsValid : IsValid (new_queue nil)
  unfolding new_queue
  new_queue-IsValid = record { head = omega arith; size = omega arith; tail = refl }

  -- A queue that starts empty gives, in any run of pushes and pops, the elements in the order in which
  -- they were pushed, and nil when none waits, however often its buffer has grown.
  pub first_in_first_out :
      (calls : List (Call A)) → popped calls (new_queue nil) ≡ popped_first calls []
  unfolding new_queue
  first_in_first_out calls = popped_lem calls (new_queue nil) new_queue-IsValid
