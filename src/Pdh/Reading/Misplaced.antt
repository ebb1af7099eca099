-- ===== src/Pdh/Reading/Misplaced.antt =====
-- The structs that do not have the value where the C compiler has it.
use win_perf_counters.Pdh.Layout.{offset_from}
use win_perf_counters.Pdh.Layout.Amd64
use win_perf_counters.Pdh.Layout.Arm64
use win_perf_counters.Pdh.Layout.I386
use win_perf_counters.Pdh.Memory.{Bytes, bytes_of, read, read4-bytes_of, signed}
use win_perf_counters.Pdh.Reading.Documented.{
  Value, IsValue, value_bytes, Raw, IsRaw, raw_bytes, raw_last,
}
use win_perf_counters.Pdh.Reading.{read_data, read_long, read_large, read_raw}
use win_perf_counters.Prelude.{ℕ, ◌+◌, ◌*◌, ◌%◌, ◌^◌, ◌<◌, ◌≡◌, ap, ◌++◌, arith}
use win_perf_counters.Text.{text_eq}

-- A word and the four bytes before it, as one word of eight bytes.
read8_early :
    (padding word : ℕ) (rest : Bytes)
    → padding < 2 ^ 32
    → read 8 (bytes_of 4 padding ++ (bytes_of 8 word ++ rest)) ≡ padding + word % 2 ^ 32 * 2 ^ 32
read8_early padding word rest h = omega arith

-- Where PDH writes its documented layout, `LongValue` is the padding before the value on every
-- architecture, whatever the value is; on 386 `LargeValue` is made of the padding and the lower half
-- of the value, and so is `FirstValue` of a raw counter.
pub misplaced_values :
    (v : Value) (r : Raw) (rest : Bytes)
    → IsValue v
    → IsRaw r
    → ((read_long I386.layouts (value_bytes v rest)).value ≡ signed 32 v.padding)
      × ((read_long Amd64.layouts (value_bytes v rest)).value ≡ signed 32 v.padding)
      × ((read_long Arm64.layouts (value_bytes v rest)).value ≡ signed 32 v.padding)
      × ((read_large I386.layouts (value_bytes v rest)).value
          ≡ signed 64 (v.padding + v.word % 2 ^ 32 * 2 ^ 32))
      × ((read_raw I386.layouts (raw_bytes r rest)).value
          ≡ signed 64 (r.padding + r.first_value % 2 ^ 32 * 2 ^ 32))
unfolding read_data offset_from text_eq
misplaced_values v r rest p q =
    let long = ap (signed 32) (read4-bytes_of v.padding (bytes_of 8 v.word ++ rest) p.1) in
    (
      long,
      long,
      long,
      ap (signed 64) (read8_early v.padding v.word rest p.1),
      ap (signed 64) (read8_early r.padding r.first_value (raw_last r rest) q.1),
    )
