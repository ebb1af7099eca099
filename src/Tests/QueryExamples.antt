-- ===== src/Tests/QueryExamples.antt =====
-- Queries, buffers and UTF-16 strings on a small system.
use win_perf_counters.Pdh.Api.{Reply}
use win_perf_counters.Pdh.Codes.{error_success}
use win_perf_counters.Prelude.{ℕ, ◌*◌, ◌^◌, ◌≡◌, ◌≤◌, ◌<◌, ◌⊎◌, refl, ◌≢◌, [], ◌∷◌, ◌++◌, arith}
use win_perf_counters.Query.Buffer.Rounds.{
  fill_buffer-Returns, fill_buffer_wraps, IsDocumented, fill_buffer-documented,
}
use win_perf_counters.Query.Buffer.{initial_buffer_size, buffer_rounds, fill_buffer}
use win_perf_counters.Query.Lifecycle.{HandleLaws, opens, closes, Owns, perform, perform-Owns}
use win_perf_counters.Query.Strings.Arrays.{
  utf16_to_string_array-multi_string, utf16_to_string_array_truncates,
}
use win_perf_counters.Query.Strings.Lines.{multi_string}
use win_perf_counters.Query.Strings.{paired, utf16_to_string_array}
use win_perf_counters.Query.{Query}
use win_perf_counters.Result.{buffer_limit_reached, Result, ok, err, panic, Returns}
use win_perf_counters.Tests.Machine.{Machine, machine, buffer_of}
use win_perf_counters.Text.{Text, codes}

machine-HandleLaws : HandleLaws machine (λ w. w)
machine-HandleLaws = record {
  opened = λ w e. ground arith;
  not_opened = λ w e. ground arith;
  closed = λ h hs w l e. rw l (ground arith);
  not_closed = not_closed;
}
  where
    not_closed :
        (h : ℕ) (w : Machine)
        → (machine.close_query h w).0 ≢ error_success
        → (machine.close_query h w).1 ≡ w
    not_closed h [] e = refl
    not_closed h (x ∷ w) e = ground arith

abbrev fresh : Query
fresh = record { max_buffer_size = 4096; query_handle = 0 }

perform-Owns_example :
    Owns machine
      (λ w. w)
      machine-HandleLaws
      (9 ∷ [])
      (perform machine
        (λ w. w)
        machine-HandleLaws
        (opens ∷ opens ∷ closes ∷ closes ∷ opens ∷ [])
        (fresh, 9 ∷ []))
perform-Owns_example =
    perform-Owns machine (λ w. w) machine-HandleLaws (opens ∷ opens ∷ closes ∷ closes ∷ opens ∷ [])
      (9 ∷ []) fresh (9 ∷ []) refl

-- Content of 3000 bytes.
abbrev call : ℕ → Machine → Reply Text × Machine
call = buffer_of 3000 (codes "content") []

call-IsDocumented : IsDocumented call 3000 (codes "content")
call-IsDocumented = record {
  too_small = λ b w h. ground arith;
  succeeds = λ b w h. ground arith;
  fills = λ b w h. ground arith;
}

abbrev filled : Result Text
filled = (fill_buffer machine.format_message call buffer_rounds 8192 initial_buffer_size []).0

fill_buffer-documented_example :
    ((filled ≡ ok (codes "content")) ⊎ (filled ≡ err buffer_limit_reached))
    × ((8192 < initial_buffer_size) ⊎ (8192 < 3000) → filled ≡ err buffer_limit_reached)
    × (initial_buffer_size ≤ 8192 → 3000 ≤ initial_buffer_size → filled ≡ ok (codes "content"))
    × (initial_buffer_size ≤ 8192
        → 2 * 3000 ≤ 8192
        → ((n : ℕ) (v : Machine) → 2 * (call n v).0.size ≤ 8192)
        → filled ≡ ok (codes "content"))
    × (initial_buffer_size < 3000
        → initial_buffer_size ≤ (call initial_buffer_size []).0.size
        → 8192 < 2 * (call initial_buffer_size []).0.size
        → filled ≡ err buffer_limit_reached)
fill_buffer-documented_example =
    fill_buffer-documented machine.format_message call call-IsDocumented 8192 (omega arith)
      (λ n w. ground arith) []

fill_buffer-Returns_example :
    Returns (fill_buffer machine.format_message call buffer_rounds 8192 initial_buffer_size []).0
fill_buffer-Returns_example =
    fill_buffer-Returns machine.format_message call 8192 [] (omega arith) (λ n w. ground arith)

abbrev huge : ℕ → Machine → Reply Text × Machine
huge = buffer_of (2 ^ 31) (codes "content") []

fill_buffer_wraps_example :
    (fill_buffer machine.format_message huge buffer_rounds 4096 initial_buffer_size []).0 ≡ panic
fill_buffer_wraps_example =
    fill_buffer_wraps machine.format_message huge 4096 [] (omega arith) refl refl

utf16_to_string_array-multi_string_example :
    utf16_to_string_array (multi_string ((b'a' ∷ b'b' ∷ []) ∷ (0x4E2D ∷ []) ∷ []) ++ (0 ∷ (5 ∷ [])))
    ≡ ok ((b'a' ∷ b'b' ∷ []) ∷ (0x4E2D ∷ []) ∷ [])
utf16_to_string_array-multi_string_example =
    utf16_to_string_array-multi_string ((b'a' ∷ b'b' ∷ []) ∷ (0x4E2D ∷ []) ∷ []) (5 ∷ [])
      (ground arith)

utf16_to_string_array_truncates_example :
    utf16_to_string_array (((b'a' ∷ []) ++ (0xD83D ∷ 0xDE00 ∷ [])) ++ (0 ∷ (b'b' ∷ 0 ∷ 0 ∷ [])))
    ≡ ok (((b'a' ∷ []) ++ (paired 0xD83D 0xDE00 ∷ [])) ∷ [])
utf16_to_string_array_truncates_example =
    utf16_to_string_array_truncates (b'a' ∷ []) [] (b'b' ∷ 0 ∷ 0 ∷ []) 0xD83D 0xDE00 (ground arith)
      refl refl tt
