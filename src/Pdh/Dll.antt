-- ===== src/Pdh/Dll.antt =====
-- The procedures that pdh.go finds in pdh.dll and kernel32.go in Kernel32.dll, and what pdh.go passes
-- to them.
use win_perf_counters.Int.{ℤ}
use win_perf_counters.Pdh.Api.{Reply}
use win_perf_counters.Pdh.FileTime.{FileTime}
use win_perf_counters.Pdh.Memory.{Bytes}
use win_perf_counters.Pdh.Reading.{Memory}
use win_perf_counters.Prelude.{
  ℕ, zero, suc, ◌+◌, ◌/◌, ◌%◌, ◌^◌, Bool, false, ◌||◌, Option, List, [], ◌∷◌, ◌++◌, ltb, ◌==◌,
  if◌then◌else◌,
}
use win_perf_counters.Text.{Text}

-- What a procedure with a buffer leaves: the word that it returns, the size and the count that it
-- writes, and the memory.
pub record Written : Type 0 where
  pub ret : ℕ
  pub size : ℕ
  pub count : ℕ
  pub memory : Memory

-- A text for a status, or the text of the error that there is none.
pub data Message : Type 0 where
  units : List ℕ → Message
  failure : Text → Message

-- The procedures, by their names in the libraries. Each returns a word of the machine, of which the
-- upper half means nothing where a DWORD is returned. A string is passed as its UTF-16 units; a nil
-- pointer is `none`.
pub record Dll (W : Type 0) : Type 0 where
  pub add_counter_w : ℕ → Option (List ℕ) → ℕ → W → (ℕ × ℕ) × W
  pub add_english_counter_w : Option (ℕ → Option (List ℕ) → ℕ → W → (ℕ × ℕ) × W)
  pub close_query : ℕ → W → ℕ × W
  pub collect_query_data : ℕ → W → ℕ × W
  pub collect_query_data_with_time : ℕ → W → (ℕ × FileTime) × W
  pub get_formatted_counter_value : ℕ → ℕ → W → (ℕ × Bytes) × W
  pub get_formatted_counter_array_w : ℕ → ℕ → ℕ → W → Written × W
  pub open_query : ℕ → ℕ → W → (ℕ × ℕ) × W
  pub expand_wild_card_path_w : ℕ → Option (List ℕ) → ℕ → ℕ → W → Reply (List ℕ) × W
  pub get_counter_info_w : ℕ → ℕ → ℕ → W → Written × W
  pub get_raw_counter_value : ℕ → W → (ℕ × Bytes) × W
  pub get_raw_counter_array_w : ℕ → ℕ → W → Written × W
  pub validate_path_w : Option (List ℕ) → W → ℕ × W
  pub local_file_time_to_file_time : FileTime → W → (ℕ × FileTime) × W
  pub format_message : ℕ → ℕ → Message

-- What the calls use of Go: the number with the given bits, the clock, and the address at which the
-- variable `flags` of `pdhExpandWildCardPath` stands.
pub record Runtime (W T D : Type 0) : Type 0 where
  pub float64_of_bits : ℕ → D
  pub unix : ℤ → T
  pub now : W → T × W
  pub flags_address : W → ℕ

-- `uint32(ret)`
abbrev pub uint32_of : ℕ → ℕ
uint32_of ret = ret % 2 ^ 32

-- `pdhFmtLong`, `pdhFmtLarge`, and `pdhFmtDouble|pdhFmtNocap100`
abbrev pub pdh_fmt_long : ℕ
pdh_fmt_long = 0x100

abbrev pub pdh_fmt_large : ℕ
pdh_fmt_large = 0x400

abbrev pub pdh_fmt_double_nocap100 : ℕ
pdh_fmt_double_nocap100 = 0x8200

-- `FORMAT_MESSAGE_FROM_HMODULE | FORMAT_MESSAGE_ARGUMENT_ARRAY | FORMAT_MESSAGE_IGNORE_INSERTS`
abbrev pub format_message_flags : ℕ
format_message_flags = 0x2A00

abbrev pub has_nul : Text → Bool
has_nul [] = false
has_nul (b ∷ bs) = b == 0 || has_nul bs

-- `%d`, of at most so many digits.
abbrev pub decimal : ℕ → ℕ → Text
decimal zero n = []
decimal (suc digits) n =
    let rest = decimal digits (n / 10) in (if ltb n 10 then [] else rest) ++ ((b'0' + n % 10) ∷ [])
