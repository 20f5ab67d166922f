-- ===== src/Hlc/Tests.antt =====
-- The clock at concrete readings.
use pigpaxos.Prelude.{◌<◌, ◌≡◌, ◌↔◌, refl, arith}
use pigpaxos.Prelude.Int.{pos, negsuc}
use pigpaxos.Hlc.{Timestamp, Hlc, compare_times, now, update_clock, to_int64, new_timestamp_i64}
use pigpaxos.Hlc.Order.{clock_advances, clock_wraps}
use pigpaxos.Hlc.Pack.{to_int64_order}

abbrev clock : Hlc
clock = record { last_wall_time = 90; current = record { physical_time = 100; logical_time = 3 } }

abbrev received : Timestamp
received = record { physical_time = 100; logical_time = 9 }

clock_advances_example :
    (compare_times (now 95 clock).current clock.current ≡ pos 1)
    × (compare_times (update_clock 95 received clock).current clock.current ≡ pos 1)
    × (compare_times (update_clock 95 received clock).current received ≡ pos 1)
clock_advances_example = clock_advances 95 received clock (omega arith) (omega arith)

abbrev full : Hlc
full = record {
  last_wall_time = 90;
  current = record { physical_time = 100; logical_time = 32767 };
}

clock_wraps_example : compare_times (now 100 full).current full.current ≡ negsuc 0
clock_wraps_example = clock_wraps 100 full refl (omega arith)

to_int64_order_example :
    (new_timestamp_i64 (to_int64 received) ≡ received)
    × ((compare_times received clock.current ≡ pos 1)
        ↔ (to_int64 clock.current < to_int64 received))
    × ((compare_times received clock.current ≡ negsuc 0)
        ↔ (to_int64 received < to_int64 clock.current))
    × ((compare_times received clock.current ≡ pos 0)
        ↔ (to_int64 received ≡ to_int64 clock.current))
to_int64_order_example =
    to_int64_order received clock.current (omega arith) (omega arith) (omega arith) (omega arith)
