-- ===== src/Hlc/Order.antt =====
-- The clock moves forward.
use pigpaxos.Prelude.{ℕ, ◌+◌, ◌^◌, ◌<◌, ◌≡◌, arith}
use pigpaxos.Prelude.Int.{pos, negsuc}
use pigpaxos.Hlc.{Timestamp, Hlc, compare_times, increment_logical, now, merge_times, update_clock}

-- While the logical times are not negative and below the largest int16, `Now` gives a timestamp
-- after the clock's last one, and `Update` one after the clock's last one and after the timestamp
-- that it receives.
pub clock_advances :
    (pt : ℕ) (t : Timestamp) (h : Hlc)
    → h.current.logical_time + 1 < 2 ^ 15
    → t.logical_time + 1 < 2 ^ 15
    → (compare_times (now pt h).current h.current ≡ pos 1)
      × (compare_times (update_clock pt t h).current h.current ≡ pos 1)
      × (compare_times (update_clock pt t h).current t ≡ pos 1)
unfolding compare_times now update_clock merge_times increment_logical
clock_advances pt t h a b = ground arith

-- At the largest int16 the logical time wraps: where the physical clock has not moved on, `Now` gives
-- a timestamp before the clock's last one.
pub clock_wraps :
    (pt : ℕ) (h : Hlc)
    → h.current.logical_time + 1 ≡ 2 ^ 15
    → pt < h.current.physical_time + 1
    → compare_times (now pt h).current h.current ≡ negsuc 0
unfolding compare_times now increment_logical
clock_wraps pt h a b = ground arith
