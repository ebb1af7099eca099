-- ===== src/Query/Strings.antt =====
-- UTF-16 buffers (performance_query.go): `utf16PtrToString` and `utf16ToStringArray`.
pub mod Lines
pub mod Arrays
pub mod Encode
use mathlib.Core.Option
use win_perf_counters.Prelude.{
  ℕ, zero, suc, ◌+◌, ◌-◌, ◌*◌, ◌/◌, ◌%◌, Bool, true, false, ◌&&◌, Option, none, some, List, [], ◌∷◌,
  ◌++◌, ltb, leb, if◌then◌else◌, length, drop, ◌==◌, map,
}
use win_perf_counters.Result.{Result, ok, err, panic, out_of_fuel, ◌>>=◌}
use win_perf_counters.Text.{Text}

-- A Go string that was decoded from UTF-16, as its code points. `[]rune` has one rune for each of
-- them, but three for a lone surrogate, whose three bytes are no valid UTF-8.
abbrev pub Runes : Type 0
Runes = List ℕ

abbrev pub within : ℕ → ℕ → ℕ → Bool
within lo hi u = leb lo u && ltb u hi

abbrev pub is_high : ℕ → Bool
is_high = within 0xD800 0xDC00

abbrev pub is_low : ℕ → Bool
is_low = within 0xDC00 0xE000

abbrev pub paired : ℕ → ℕ → ℕ
paired u v = (u - 0xD800) * 0x400 + (v - 0xDC00) + 0x10000

-- What `syscall.UTF16ToString` makes of what stands before the first zero: a pair of surrogates is
-- one code point, and a lone one is kept.
unfoldable pub decode_utf16 : List ℕ → Runes
decode_utf16 [] = []
decode_utf16 (u ∷ []) = u ∷ []
decode_utf16 (u ∷ v ∷ us) = elim (is_high u && is_low v) [
  | true ↦ paired u v ∷ decode_utf16 us
  | false ↦ u ∷ decode_utf16 (v ∷ us)
]

-- What stands before the first zero; `none` if there is none.
unfoldable pub until_zero : List ℕ → Option (List ℕ)
until_zero [] = none
until_zero (u ∷ us) = if u == 0 then some [] else Option.map (◌∷◌ u) (until_zero us)

-- `utf16PtrToString` on the memory behind a pointer. Where no zero follows, the source reads on
-- behind the buffer; that is a fault here.
unfoldable pub decode_line : Option (List ℕ) → Result Runes
unfolding decode_utf16
decode_line none = panic
decode_line (some us) = ok (decode_utf16 us)

unfoldable pub utf16_ptr_to_string : List ℕ → Result Runes
unfolding decode_line until_zero
utf16_ptr_to_string memory = decode_line (until_zero memory)

-- A null pointer is the empty string.
unfoldable pub utf16_opt_to_string : Option (List ℕ) → Result Runes
unfolding utf16_ptr_to_string
utf16_opt_to_string none = ok []
utf16_opt_to_string (some memory) = utf16_ptr_to_string memory

-- `&buf[start:][0]`, then `utf16PtrToString` of it.
unfoldable pub line_at : List ℕ → ℕ → Result Runes
unfolding utf16_ptr_to_string
line_at buf start = if ltb start (length buf) then utf16_ptr_to_string (drop start buf) else panic

-- `len([]rune(s))`
unfoldable pub rune_count : Runes → ℕ
rune_count [] = 0
rune_count (r ∷ rs) = (if within 0xD800 0xE000 r then 3 else 1) + rune_count rs

-- The `for` of `utf16ToStringArray`, with the line that it tests. Each round moves on by a rune and
-- a terminator at least, so that rounds for the length of the buffer are enough.
unfoldable pub collect_lines : ℕ → List ℕ → ℕ → Runes → List Runes → Result (List Runes)
unfolding line_at rune_count
collect_lines rounds buf start [] lines = ok lines
collect_lines zero buf start (r ∷ rs) lines = out_of_fuel
collect_lines (suc rounds) buf start (r ∷ rs) lines =
    let next : ℕ = start + rune_count (r ∷ rs) + 1 in
    line_at buf next >>= λ line. collect_lines rounds buf next line (lines ++ ((r ∷ rs) ∷ []))

-- `utf16ToStringArray`
unfoldable pub utf16_to_string_array : List ℕ → Result (List Runes)
unfolding collect_lines
utf16_to_string_array buf = line_at buf 0 >>= λ line. collect_lines (length buf) buf 0 line []

-- The bytes of one rune, and of a string.
abbrev pub utf8_rune : ℕ → Text
utf8_rune r =
    if ltb r 0x80
    then r ∷ []
    else if ltb r 0x800
    then (0xC0 + r / 0x40) ∷ (0x80 + r % 0x40) ∷ []
    else if ltb r 0x10000
    then (0xE0 + r / 0x1000) ∷ (0x80 + r / 0x40 % 0x40) ∷ (0x80 + r % 0x40) ∷ []
    else (0xF0 + r / 0x40000)
      ∷ (0x80 + r / 0x1000 % 0x40)
      ∷ (0x80 + r / 0x40 % 0x40)
      ∷ (0x80 + r % 0x40)
      ∷ []

unfoldable pub utf8 : Runes → Text
utf8 [] = []
utf8 (r ∷ rs) = utf8_rune r ++ utf8 rs
