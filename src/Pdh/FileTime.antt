-- ===== src/Pdh/FileTime.antt =====
-- The conversion of a file time in `pdhCollectQueryDataWithTime` (pdh.go), with its `int64` as
-- words of 64 bits.
use win_perf_counters.Pdh.Memory.{signed}
use win_perf_counters.Int.{pos}
use win_perf_counters.Prelude.{
  ℕ, ◌+◌, ◌-◌, ◌*◌, ◌/◌, ◌%◌, ◌^◌, ◌<◌, ◌≤◌, ◌≡◌, ltb, if◌then◌else◌, arith,
}

-- `fileTime` (kernel32.go)
pub record FileTime : Type 0 where
  pub dw_low_date_time : ℕ
  pub dw_high_date_time : ℕ

-- `epochDifferenceMicros`
abbrev pub epoch_difference_micros : ℕ
epoch_difference_micros = 11644473600000000

-- `x / d` on `int64`, for a positive constant `d`: towards zero.
abbrev pub quotient64 : ℕ → ℕ → ℕ
quotient64 x d = if ltb x (2 ^ 63) then x / d else (2 ^ 64 - (2 ^ 64 - x) / d) % 2 ^ 64

-- `(int64(high) << 32) | int64(low)`: the shift leaves the lower half free, so that the union of the
-- bits is a sum.
abbrev pub ticks : FileTime → ℕ
ticks t = t.dw_high_date_time * 2 ^ 32 % 2 ^ 64 + t.dw_low_date_time

-- `totalMicroSeconds`
abbrev pub total_micro_seconds : FileTime → ℕ
total_micro_seconds t = (quotient64 (ticks t) 10 + 2 ^ 64 - epoch_difference_micros) % 2 ^ 64

-- `totalMicroSeconds*1000`, the nanoseconds that `time.Unix` is called with.
unfoldable pub unix_nanos : FileTime → ℕ
unix_nanos t = total_micro_seconds t * 1000 % 2 ^ 64

-- A file time: two words of 32 bits.
abbrev pub IsFileTime : FileTime → Type 0
IsFileTime t = (t.dw_low_date_time < 2 ^ 32) × (t.dw_high_date_time < 2 ^ 32)

-- The intervals of 100 ns since 1601 that a file time counts.
abbrev pub intervals : FileTime → ℕ
intervals t = t.dw_high_date_time * 2 ^ 32 + t.dw_low_date_time

-- 1970-01-01 and the last microsecond whose nanoseconds an `int64` can hold, in 2262.
abbrev pub first_interval : ℕ
first_interval = 116444736000000000

abbrev pub last_interval : ℕ
last_interval = 116444736000000000 + 92233720368547759

-- The whole microseconds since 1970.
abbrev pub micros_since_1970 : FileTime → ℕ
micros_since_1970 t = (intervals t - first_interval) / 10

-- Of a file time between 1970 and 2262, `time.Unix` gets the nanoseconds since 1970 rounded down to a
-- microsecond, and no step of the conversion overflows: the words of 64 bits hold the intervals, the
-- microseconds since 1970 and the nanoseconds as they are, each below 2 ^ 63.
pub unix_nanos-signed :
    (t : FileTime)
    → IsFileTime t
    → first_interval ≤ intervals t
    → intervals t ≤ last_interval
    → (ticks t ≡ intervals t)
      × (intervals t < 2 ^ 63)
      × (total_micro_seconds t ≡ micros_since_1970 t)
      × (micros_since_1970 t * 1000 < 2 ^ 63)
      × (signed 64 (unix_nanos t) ≡ pos (micros_since_1970 t * 1000))
unfolding unix_nanos
unix_nanos-signed t h first last =
    let joined : ticks t ≡ intervals t = ground arith in
    let micros : total_micro_seconds t ≡ micros_since_1970 t = ground arith in
    let below : micros_since_1970 t * 1000 < 2 ^ 63 = omega arith in
    (joined, omega arith, micros, below, rw micros (ground arith))
