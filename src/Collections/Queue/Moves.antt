-- ===== src/Collections/Queue/Moves.antt =====
-- What a push and a pop do to the elements that wait.
use pigpaxos.Prelude.{
  ℕ, suc, ◌+◌, ◌-◌, ◌*◌, ◌%◌, ◌≤◌, ◌<◌, ◌≡◌, ◌≢◌, refl, ap, ap₂, sym, ◌∙◌, List, [], ◌∷◌, ◌++◌,
  some, ◌&&◌, ◌==◌, ltb, if◌then◌else◌, length, take, drop, replicate, set, get_elem?, arith, inl,
  inr, Bool-cases,
}
use native.Mathlib.Nat.{mod-eq_of_lt, mod-eq-sub-mod}
use pigpaxos.Collections.Queue.{Queue, copy, grow, store, push, cell, pop}
use pigpaxos.Collections.Queue.Cells.{
  length-copy, length-replicate, length-set, length-take, length-drop, get_elem?-drop,
  get_elem?-take, get_elem?-set_same, get_elem?-set_other, get_elem?-copy_before,
  get_elem?-copy_inside, build, build_ext, build_last, build_front,
}

wrap : (n i j : ℕ) → i < n → j ≤ n → (i + j) % n ≡ (if ltb (i + j) n then i + j else i + j - n)
wrap n i j h k = elim (Bool-cases (ltb (i + j) n)) [
  | inl below ↦ rw below (mod-eq_of_lt (ground arith))
  | inr above ↦ rw above (mod-eq-sub-mod (ground arith) ∙ mod-eq_of_lt (ground arith))
]

-- The tail is `size` cells behind the head, around the buffer.
pub record IsValid {ℓ} {A : Type ℓ} (q : Queue A) : Type 0 where
  pub head : q.head < length q.cells
  pub size : q.size ≤ length q.cells
  pub tail : q.tail ≡ (q.head + q.size) % length q.cells

module _ {ℓ} {A : Type ℓ} (nil : A) where
  -- The element in place `j` from the head on.
  element : Queue A → ℕ → A
  element q j = cell nil q.cells ((q.head + j) % length q.cells)

  -- The elements of the queue from the head on.
  abbrev pub contents : Queue A → List A
  contents q = build (λ (j : ℕ). cell nil q.cells ((q.head + j) % length q.cells)) q.size

  cell_same :
      (xs ys : List A) (i j : ℕ) → get_elem? xs i ≡ get_elem? ys j → cell nil xs i ≡ cell nil ys j
  unfolding cell
  cell_same xs ys i j h = rw (h, cell) refl

  cell_at : (xs : List A) (i : ℕ) (x : A) → get_elem? xs i ≡ some x → cell nil xs i ≡ x
  unfolding cell
  cell_at xs i x h = rw (h, cell) refl

  moved_cell :
      (q : Queue A) (j : ℕ)
      → q.head < length q.cells
      → j < length q.cells
      → get_elem?
          (copy
            (copy (replicate (length q.cells * 2) nil) 0 (drop q.head q.cells))
            (length q.cells - q.head)
            (take q.head q.cells))
          j
        ≡ get_elem? q.cells ((q.head + j) % length q.cells)
  moved_cell q j h k =
      let n = length q.cells in
      let long : length (replicate (n * 2) nil) ≡ n * 2 = length-replicate (n * 2) nil in
      let fresh = copy (replicate (n * 2) nil) 0 (drop q.head q.cells) in
      let front : length fresh ≡ n * 2 =
        length-copy (replicate (n * 2) nil) 0 (drop q.head q.cells) ∙ long in
      elim (Bool-cases (ltb (q.head + j) n)) [
        | inl first ↦
            get_elem?-copy_before fresh (n - q.head) (take q.head q.cells) j (ground arith)
            ∙ get_elem?-copy_inside (replicate (n * 2) nil) 0 (drop q.head q.cells) j j
                (omega arith) (omega (arith, long, k)) (ground (arith, length-drop q.head q.cells))
            ∙ get_elem?-drop q.head j (q.head + j) q.cells refl
            ∙ ap (get_elem? q.cells) (ground (arith, wrap n q.head j h (omega (arith, k)), first))
        | inr second ↦
            let i : ℕ = q.head + j - n in
            get_elem?-copy_inside fresh (n - q.head) (take q.head q.cells) i j (ground arith)
              (omega (arith, front, k))
              (ground (arith, length-take q.head q.cells (omega (arith, h))))
            ∙ get_elem?-take q.head i q.cells (ground arith)
            ∙ ap (get_elem? q.cells) (ground (arith, wrap n q.head j h (omega (arith, k)), second))
      ]

  store_lem :
      (q : Queue A) (e : A)
      → IsValid q
      → q.size < length q.cells
      → IsValid (store nil q e) × (contents (store nil q e) ≡ contents q ++ e ∷ [])
  unfolding store cell
  store_lem q e v room =
      let n = length q.cells in
      let cells = set q.cells q.tail e in
      let same : length cells ≡ n = length-set q.cells q.tail e in
      let at : q.tail ≡ (if ltb (q.head + q.size) n then q.head + q.size else q.head + q.size - n) =
        v.tail ∙ wrap n q.head q.size v.head v.size in
      let inside : q.tail < n = ground (arith, at, v.head) in
      let apart : (j : ℕ) → j < q.size → q.tail ≢ (q.head + j) % n = λ j h e.
        ground (arith, at, wrap n q.head j v.head (omega (arith, h, v.size)), e, h, v.head, room) in
      (
        record {
          head = omega (arith, same, v.head);
          size = omega (arith, same, room);
          tail = ground (
            arith,
            at,
            wrap n q.tail 1 inside (omega (arith, inside)),
            wrap n q.head (q.size + 1) v.head (omega (arith, room)),
            same,
            room,
            v.head,
          );
        },
        rw same (
            build_last (λ (j : ℕ). cell nil cells ((q.head + j) % n)) q.size
            ∙ ap₂ (λ (xs : List A) (x : A). xs ++ x ∷ [])
                (build_ext _ _ q.size (λ j h.
                  cell_same cells q.cells ((q.head + j) % n) ((q.head + j) % n)
                    (get_elem?-set_other q.cells q.tail ((q.head + j) % n) e (apart j h))))
                (cell_at cells ((q.head + q.size) % n) e (
                  ap (get_elem? cells) (sym v.tail) ∙ get_elem?-set_same q.cells q.tail e inside))),
      )

  -- A full queue is moved to the front of a buffer twice as long.
  grow_lem :
      (q : Queue A)
      → IsValid q
      → q.size ≡ length q.cells
      → IsValid (grow nil q)
        × (contents (grow nil q) ≡ contents q)
        × (q.size < length (grow nil q).cells)
  unfolding grow
  grow_lem q v full =
      let n = length q.cells in
      let fresh = copy (replicate (n * 2) nil) 0 (drop q.head q.cells) in
      let front : length fresh ≡ n * 2 =
        length-copy (replicate (n * 2) nil) 0 (drop q.head q.cells)
        ∙ length-replicate (n * 2) nil in
      let wide : length (copy fresh (n - q.head) (take q.head q.cells)) ≡ n * 2 =
        length-copy fresh (n - q.head) (take q.head q.cells) ∙ front in
      let moved : (j : ℕ)
          → j < n
          → get_elem? (copy fresh (n - q.head) (take q.head q.cells)) j
            ≡ get_elem? q.cells ((q.head + j) % n) =
        λ j h. moved_cell q j v.head h in
      (
        record {
          head = omega (arith, wide, v.head);
          size = omega (arith, wide, v.size);
          tail =
              let least : (0 + q.size) % (n * 2) ≡ 0 + q.size =
                mod-eq_of_lt (omega (arith, full, v.head)) in
              rw wide (omega (arith, least, full));
        },
        rw wide (
            build_ext _ _ q.size (λ j h.
              ap (cell nil (copy fresh (n - q.head) (take q.head q.cells)))
                (mod-eq_of_lt {n = 0 + j} {m = n * 2} (omega (arith, h, full)) ∙ omega arith)
              ∙ cell_same _ q.cells j ((q.head + j) % n) (moved j (omega (arith, h, full))))),
        omega (arith, wide, full, v.head),
      )

  full_size :
      (q : Queue A)
      → q.size < length (grow nil q).cells
      → (grow nil q).size < length (grow nil q).cells
  unfolding grow
  full_size q h = h

  pub push_lem :
      (q : Queue A) (e : A)
      → IsValid q
      → IsValid (push nil q e) × (contents (push nil q e) ≡ contents q ++ e ∷ [])
  unfolding push
  push_lem q e v =
      let n = length q.cells in
      let at : q.tail ≡ (if ltb (q.head + q.size) n then q.head + q.size else q.head + q.size - n) =
        v.tail ∙ wrap n q.head q.size v.head v.size in
      elim (Bool-cases (q.head == q.tail && ltb 0 q.size)) [
        | inl full ↦
            let (w, same, room) = grow_lem q v (ground (arith, at, full, v.head, v.size)) in
            let (w', added) = store_lem (grow nil q) e w (full_size q room) in
            rw full (w', added ∙ ap (λ (xs : List A). xs ++ e ∷ []) same)
        | inr room ↦ rw room (store_lem q e v (ground (arith, at, room, v.head, v.size)))
      ]

  -- The first element of a list, and the others.
  abbrev pub front : List A → A
  front [] = nil
  front (x ∷ xs) = x

  abbrev pub rest : List A → List A
  rest [] = []
  rest (x ∷ xs) = xs

  contents_empty : (q : Queue A) → q.size ≡ 0 → contents q ≡ []
  contents_empty q h = ap (build (λ (j : ℕ). cell nil q.cells ((q.head + j) % length q.cells))) h

  contents_front :
      (q : Queue A) (k : ℕ)
      → q.size ≡ suc k
      → q.head < length q.cells
      → contents q
        ≡ cell nil q.cells q.head
          ∷ build (λ (j : ℕ). cell nil q.cells ((q.head + suc j) % length q.cells)) k
  contents_front q k h at =
      let f : ℕ → A = λ j. cell nil q.cells ((q.head + j) % length q.cells) in
      let first : f 0 ≡ cell nil q.cells q.head =
        ap (cell nil q.cells)
          (mod-eq_of_lt {n = q.head + 0} {m = length q.cells} (omega (arith, at)) ∙ omega arith) in
      ap (build f) h ∙ build_front f k ∙ ap (λ (x : A). x ∷ build (λ (j : ℕ). f (suc j)) k) first

  pub pop_lem :
      (q : Queue A)
      → IsValid q
      → IsValid (pop nil q).1
        × ((pop nil q).0 ≡ front (contents q))
        × (contents (pop nil q).1 ≡ rest (contents q))
  unfolding pop
  pop_lem q v = elim (Bool-cases (q.size == 0)) [
    | inl empty ↦
        let none_left = contents_empty q (ground arith) in
        rw empty (v, ap front (sym none_left), none_left ∙ ap rest (sym none_left))
    | inr some_left ↦
        let n = length q.cells in
        let k = q.size - 1 in
        let all = contents_front q k (ground arith) v.head in
        let step : (q.head + 1) % n ≡ (if ltb (q.head + 1) n then q.head + 1 else q.head + 1 - n) =
          wrap n q.head 1 v.head (omega (arith, v.head)) in
        rw some_left (
          record {
            head = ground (arith, step, v.head);
            size = omega (arith, v.size);
            tail = ground (
              arith,
              v.tail,
              wrap n q.head q.size v.head v.size,
              step,
              v.head,
              v.size,
              some_left,
              wrap n ((q.head + 1) % n) (q.size - 1) (ground (arith, step, v.head))
                  (omega (arith, v.size)),
            );
          },
          ap front (sym all),
          build_ext _ _ k (λ j h. ap (cell nil q.cells) (
                ground (
                  arith,
                  step,
                  h,
                  v.size,
                  v.head,
                  some_left,
                  wrap n ((q.head + 1) % n) j (ground (arith, step, v.head))
                      (omega (arith, h, v.size)),
                  wrap n q.head (suc j) v.head (omega (arith, h, v.size)),
                )))
              ∙ ap rest (sym all),
        )
  ]
