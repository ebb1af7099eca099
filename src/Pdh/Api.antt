-- ===== src/Pdh/Api.antt =====
-- What the program calls of pdh.dll, and of the system beside it. `W` is the state of the system,
-- `T` its times and `D` the type of `float64`.
use win_perf_counters.Int.{ℤ}
use win_perf_counters.Prelude.{ℕ, Option, List}
use win_perf_counters.Text.{Text}

-- What a call with a buffer leaves: its status, the size that it writes back, and the content of the
-- buffer, which means something after a success only.
pub record Reply (P : Type 0) : Type 0 where
  pub status : ℕ
  pub size : ℕ
  pub content : P

-- A formatted or raw value (`pdhFmtCounterValueLong` and its kin, `pdhRawCounter`), and an item of
-- an array of them; the name is a UTF-16 string up to its terminator, a null pointer is `none`.
pub record CounterData (V : Type 0) : Type 0 where
  pub c_status : ℕ
  pub value : V

pub record Item (V : Type 0) : Type 0 where
  pub sz_name : Option (List ℕ)
  pub fmt_value : CounterData V

pub record Pdh (W T D : Type 0) : Type 0 where
  pub open_query : W → (ℕ × ℕ) × W
  pub close_query : ℕ → W → ℕ × W
  pub add_counter : ℕ → Text → W → (ℕ × ℕ) × W
  -- `none` where the library has no `PdhAddEnglishCounterW`
  pub add_english_counter : Option (ℕ → Text → W → (ℕ × ℕ) × W)
  pub collect_query_data : ℕ → W → ℕ × W
  pub collect_query_data_with_time : ℕ → W → (ℕ × T) × W
  pub get_counter_info : ℕ → ℕ → W → Reply (Option (List ℕ)) × W
  pub expand_wild_card_path : Text → ℕ → W → Reply (List ℕ) × W
  pub get_formatted_long : ℕ → W → (ℕ × CounterData ℤ) × W
  pub get_formatted_large : ℕ → W → (ℕ × CounterData ℤ) × W
  pub get_formatted_double : ℕ → W → (ℕ × CounterData D) × W
  pub get_raw_value : ℕ → W → (ℕ × CounterData ℤ) × W
  pub get_array_long : ℕ → ℕ → W → Reply (List (Item ℤ)) × W
  pub get_array_large : ℕ → ℕ → W → Reply (List (Item ℤ)) × W
  pub get_array_double : ℕ → ℕ → W → Reply (List (Item D)) × W
  pub get_raw_array : ℕ → ℕ → W → Reply (List (Item ℤ)) × W
  pub format_message : ℕ → Text
  pub now : W → T × W
