-- ===== src/Policy.antt =====
-- policy.go: the policy that answers an identity after `n` accesses of it in a row. An answer of 0 is
-- no answer.
mod Streaks
use pigpaxos.Prelude.{ℕ, ◌+◌, List, ◌==◌, leb, if◌then◌else◌}

-- `consecutive`
pub record Consecutive : Type 0 where
  pub last : ℕ
  pub hits : ℕ
  pub n : ℕ

-- `NewPolicy` for the name "consecutive"
unfoldable pub new_consecutive : ℕ → Consecutive
new_consecutive threshold = record { last = 0; hits = 0; n = threshold }

-- the access is counted ...
unfoldable pub count_hit : ℕ → Consecutive → Consecutive
count_hit id c =
    if id == c.last then record c { hits = c.hits + 1 } else record c { last = id; hits = 1 }

-- `Hit`
unfoldable pub hit : ℕ → Consecutive → ℕ × Consecutive
hit id c =
    let c' = count_hit id c in
    if leb c'.n c'.hits then (c'.last, record c' { last = 0; hits = 0 }) else (0, c')
