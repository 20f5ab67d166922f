-- ===== src/Hlc.antt =====
-- hlc/hlc.go and hlc/timestamp.go: the hybrid logical clock. A physical time is a count of
-- milliseconds that is never negative; a logical time is an int16, held as its 16-bit word.
pub mod Order
pub mod Pack
mod Tests
use Prim.Native.Nat.{bit_or, bit_and}
use pigpaxos.Prelude.{ℕ, ◌+◌, ◌-◌, ◌%◌, ◌^◌, ◌&&◌, ltb, leb, if◌then◌else◌, true, false}
use pigpaxos.Prelude.Int.{ℤ, pos, negsuc}
use pigpaxos.Words.{◌<<◌, ◌>>◌, u64}

-- `Timestamp`
pub record Timestamp : Type 0 where
  pub physical_time : ℕ
  pub logical_time : ℕ

-- an int16 word moved so that its order is the signed one
abbrev pub biased : ℕ → ℕ
biased w = (w + 2 ^ 15) % 2 ^ 16

-- `int64(t.LogicalTime)`, as a 64-bit word
abbrev pub extend : ℕ → ℕ
extend w = if ltb w (2 ^ 15) then w else w + (2 ^ 64 - 2 ^ 16)

-- `ToInt64`
unfoldable pub to_int64 : Timestamp → ℕ
to_int64 t = bit_or (u64 (t.physical_time << 16)) (extend t.logical_time)

-- `NewTimestampI64`, for an int64 that is not negative
unfoldable pub new_timestamp_i64 : ℕ → Timestamp
new_timestamp_i64 h = record { physical_time = h >> 16; logical_time = bit_and (2 ^ 16 - 1) h }

-- `IncrementLogical`
unfoldable pub increment_logical : Timestamp → Timestamp
increment_logical t = record t { logical_time = (t.logical_time + 1) % 2 ^ 16 }

-- `Compare`
unfoldable pub compare_times : Timestamp → Timestamp → ℤ
compare_times t s =
    if ltb s.physical_time t.physical_time
    then pos 1
    else if ltb t.physical_time s.physical_time
    then negsuc 0
    else if ltb (biased s.logical_time) (biased t.logical_time)
    then pos 1
    else if ltb (biased t.logical_time) (biased s.logical_time)
    then negsuc 0
    else pos 0

-- `HLC`
pub record Hlc : Type 0 where
  pub last_wall_time : ℕ
  pub current : Timestamp

-- `NewHLC`
abbrev pub new_hlc : ℕ → Hlc
new_hlc pt = record {
  last_wall_time = pt;
  current = record { physical_time = pt; logical_time = 0 };
}

-- `Now`, at the reading `pt` of the physical clock; the result is the `current` it leaves
unfoldable pub now : ℕ → Hlc → Hlc
now pt h =
    if leb pt h.current.physical_time
    then record h { current = increment_logical h.current }
    else record h { current = record { physical_time = pt; logical_time = 0 } }

-- the timestamp that `Update` leaves when the physical clock is not ahead
unfoldable pub merge_times : Timestamp → Timestamp → Timestamp
merge_times t own =
    if ltb own.physical_time t.physical_time
    then record { physical_time = t.physical_time; logical_time = (t.logical_time + 1) % 2 ^ 16 }
    else if ltb t.physical_time own.physical_time
    then increment_logical own
    else increment_logical (
        if ltb (biased own.logical_time) (biased t.logical_time)
        then record own { logical_time = t.logical_time }
        else own)

-- `Update`, at the reading `pt` of the physical clock
unfoldable pub update_clock : ℕ → Timestamp → Hlc → Hlc
update_clock pt t h =
    if ltb h.current.physical_time pt && ltb t.physical_time pt
    then record h { current = record { physical_time = pt; logical_time = 0 } }
    else record h { current = merge_times t h.current }
