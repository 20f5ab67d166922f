-- ===== src/Hlc/Pack.antt =====
-- Timestamps as 64-bit words.
use pigpaxos.Prelude.{◌+◌, ◌*◌, ◌^◌, ◌<◌, ◌≡◌, ◌↔◌, arith}
use pigpaxos.Prelude.Int.{pos, negsuc}
use pigpaxos.Words.{or_fields, mask_and}
use pigpaxos.Hlc.{Timestamp, to_int64, new_timestamp_i64, compare_times}

to_int64_lem :
    (t : Timestamp)
    → t.physical_time < 2 ^ 47
    → t.logical_time < 2 ^ 15
    → to_int64 t ≡ t.physical_time * 2 ^ 16 + t.logical_time
unfolding to_int64
to_int64_lem t hp hl = ground (arith, or_fields 16 t.physical_time t.logical_time (omega arith))

-- A timestamp whose physical time is below 2 ^ 47 and whose logical time is not negative is read
-- back from its int64, and `Compare` of two such timestamps is 1, -1 or 0 exactly when the int64 of
-- the first is above, below or equal to that of the second.
pub to_int64_order :
    (t s : Timestamp)
    → t.physical_time < 2 ^ 47
    → t.logical_time < 2 ^ 15
    → s.physical_time < 2 ^ 47
    → s.logical_time < 2 ^ 15
    → (new_timestamp_i64 (to_int64 t) ≡ t)
      × ((compare_times t s ≡ pos 1) ↔ (to_int64 s < to_int64 t))
      × ((compare_times t s ≡ negsuc 0) ↔ (to_int64 t < to_int64 s))
      × ((compare_times t s ≡ pos 0) ↔ (to_int64 t ≡ to_int64 s))
unfolding compare_times new_timestamp_i64
to_int64_order t s hp hl kp kl =
    rw (to_int64_lem t hp hl, to_int64_lem s kp kl)
      (ground (arith, mask_and 16 (t.physical_time * 2 ^ 16 + t.logical_time)))
