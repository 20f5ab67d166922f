-- ===== src/Collections/Queue.antt =====
-- lib/queue.go: a queue in a circular buffer that doubles when it is full.
pub mod Cells
pub mod Moves
pub mod Fifo
mod Tests
use pigpaxos.Prelude.{
  ℕ, zero, suc, ◌+◌, ◌-◌, ◌*◌, ◌%◌, List, [], ◌∷◌, ◌++◌, Option, none, some, Bool, ◌&&◌, ◌==◌, ltb,
  if◌then◌else◌, length, take, drop, replicate, set, get_elem?,
}

-- `Queue`
pub record Queue {ℓ} (A : Type ℓ) : Type ℓ where
  pub cells : List A
  pub size : ℕ
  pub head : ℕ
  pub tail : ℕ

-- `copy(dst[i:], src)`
unfoldable pub copy {ℓ} : {A : Type ℓ} → List A → ℕ → List A → List A
copy [] i src = []
copy (x ∷ dst) (suc i) src = x ∷ copy dst i src
copy (x ∷ dst) zero [] = x ∷ dst
copy (x ∷ dst) zero (y ∷ src) = y ∷ copy dst zero src

-- `nil` is the nil interface, which fills a new buffer.
module _ {ℓ} {A : Type ℓ} (nil : A) where
  -- `NewQueue`
  unfoldable pub new_queue : Queue A
  new_queue = record { cells = replicate 100 nil; size = 0; head = 0; tail = 0 }

  -- the branch of `Push` for a full buffer
  unfoldable pub grow : Queue A → Queue A
  grow q =
      let n = length q.cells in
      let fresh = copy (replicate (n * 2) nil) 0 (drop q.head q.cells) in
      record {
        cells = copy fresh (n - q.head) (take q.head q.cells);
        size = q.size;
        head = 0;
        tail = n;
      }

  -- `q.queue[q.tail] = e` and what follows it
  unfoldable pub store : Queue A → A → Queue A
  store q e = record {
    cells = set q.cells q.tail e;
    size = q.size + 1;
    head = q.head;
    tail = (q.tail + 1) % length q.cells;
  }

  -- `Push`
  unfoldable pub push : Queue A → A → Queue A
  push q e = store (if q.head == q.tail && ltb 0 q.size then grow q else q) e

  -- `queue[i]` within the buffer
  unfoldable pub cell : List A → ℕ → A
  cell cells i = elim (get_elem? cells i) [ none ↦ nil | some x ↦ x ]

  -- `Pop`
  unfoldable pub pop : Queue A → A × Queue A
  pop q = if q.size == 0 then (nil, q) else (
    cell q.cells q.head,
    record q { head = (q.head + 1) % length q.cells; size = q.size - 1 },
  )
