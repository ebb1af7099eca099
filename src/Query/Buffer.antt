-- ===== src/Query/Buffer.antt =====
-- The loop of every call that fills a buffer (performance_query.go): `GetCounterPath`,
-- `ExpandWildCardPath`, the three `GetFormattedCounterArray…` and `GetRawCounterArray`.
pub mod Rounds
pub mod Unchanged
pub mod Content
use win_perf_counters.Pdh.Api.{Reply}
use win_perf_counters.Pdh.Codes.{error_success, pdh_more_data}
use win_perf_counters.Prelude.{
  ℕ, zero, suc, ◌*◌, ◌%◌, ◌^◌, ◌==◌, ltb, leb, if◌then◌else◌, Bool, true, false, not,
}
use win_perf_counters.Result.{
  PdhError, pdh, buffer_limit_reached, Result, ok, err, panic, out_of_fuel,
}
use win_perf_counters.Text.{Text}

-- `initialBufferSize`
abbrev pub initial_buffer_size : ℕ
initial_buffer_size = 1024

-- `buflen *= 2` on `uint32`.
abbrev pub double32 : ℕ → ℕ
double32 n = n * 2 % 2 ^ 32

-- The rounds that are enough for every limit below 2 ^ 31: the size doubles from 2 ^ 10.
abbrev pub buffer_rounds : ℕ
buffer_rounds = 22

-- `newPdhError`
abbrev pub new_pdh_error : (ℕ → Text) → ℕ → PdhError
new_pdh_error format_message code = record { error_code = code; error_text = format_message code }

-- One round ends with a result, or asks for the next with a new size.
pub data Round (P : Type 0) : Type 0 where
  done : Result P → Round P
  retry : ℕ → Round P

-- The size is used as a hint if it exceeds the buffer.
abbrev pub hinted : ℕ → ℕ → ℕ
hinted buflen size = if ltb buflen size then size else buflen

unfoldable pub judge : {P : Type 0} → (ℕ → Text) → ℕ → Reply P → Round P
judge format_message buflen r =
    if r.status == error_success
    then done (ok r.content)
    else if r.status == pdh_more_data
    then retry (hinted buflen r.size)
    else done (err (pdh (new_pdh_error format_message r.status)))

-- What a round does: it returns, or hands the size to the next round.
abbrev pub conclude : {W P : Type 0} → Round P → W → (ℕ → W → Result P × W) → Result P × W
conclude (done result) w next = (result, w)
conclude (retry size) w next = next size w

module _ {W P : Type 0} (format_message : ℕ → Text) (call : ℕ → W → Reply P × W) where
  -- `for buflen := …; buflen <= m.maxBufferSize; buflen *= 2`; `&buf[0]` of an empty buffer panics
  -- before the call.
  unfoldable pub fill_buffer : ℕ → ℕ → ℕ → W → Result P × W
  unfolding judge
  fill_buffer zero max_buffer_size buflen w = (out_of_fuel, w)
  fill_buffer (suc rounds) max_buffer_size buflen w =
      if not (leb buflen max_buffer_size)
      then (err buffer_limit_reached, w)
      else if buflen == 0
      then (panic, w)
      else conclude (judge format_message buflen (call buflen w).0) (call buflen w).1
          (λ size w'. fill_buffer rounds max_buffer_size (double32 size) w')
