-- ===== src/Tests/PdhExamples.antt =====
-- A small library behind pdh.go, and what is read of its memory.
use win_perf_counters.Int.{ℤ, pos}
use win_perf_counters.Pdh.Calls.{
  pdh_dll, pdh_add_counter, pdh_expand_wild_card_path, with_uint32, same, reply32,
}
use win_perf_counters.Pdh.Dll.{Written, units, Dll, Runtime}
use win_perf_counters.Pdh.FileTime.{
  FileTime, ticks, intervals, total_micro_seconds, micros_since_1970, unix_nanos, unix_nanos-signed,
}
use win_perf_counters.Pdh.Layout.Amd64
use win_perf_counters.Pdh.Layout.Arm64
use win_perf_counters.Pdh.Layout.I386
use win_perf_counters.Pdh.Memory.{signed}
use win_perf_counters.Pdh.Paths.{pdh_calls-decoded}
use win_perf_counters.Pdh.Reading.Arrays.{value_item, raw_item, memory_of, read_items-Documented}
use win_perf_counters.Pdh.Reading.Documented.{
  Value, value_bytes, Raw, raw_bytes, Entry, array_bytes,
}
use win_perf_counters.Pdh.Reading.Misplaced.{misplaced_values}
use win_perf_counters.Pdh.Reading.{read_long, read_large, read_double, read_raw, read_items}
use win_perf_counters.Prelude.{
  ℕ, suc, ◌+◌, ◌*◌, ◌%◌, ◌^◌, ◌≡◌, ◌<◌, refl, inl, inr, none, some, List, [], ◌∷◌, ◌++◌, map, arith,
}
use win_perf_counters.Query.Documented.{named_values, get_formatted_counter_array_double-Documented}
use win_perf_counters.Query.Values.{get_formatted_counter_array_double}
use win_perf_counters.Query.Times.{collect_data_with_time-unix, collect_data_with_time-clock}
use win_perf_counters.Query.{Query, collect_data_with_time}
use win_perf_counters.Query.Strings.{decode_utf16, utf8}
use win_perf_counters.Result.{ok}
use win_perf_counters.Text.{codes}

abbrev pub go : Runtime ℕ ℤ ℕ
go = record {
  float64_of_bits = λ bits. bits;
  unix = λ n. n;
  now = λ w. (pos w, suc w);
  flags_address = λ w. 4096;
}

-- 2020-01-01, and a time zone without an offset.
abbrev new_year : FileTime
new_year = record { dw_low_date_time = 2580406272; dw_high_date_time = 30785627 }

abbrev nothing : Written
nothing = record { ret = 0; size = 0; count = 0; memory = memory_of (λ a. 0 ∷ []) [] }

-- `ret` is the word that `PdhCollectQueryDataWithTime` returns.
abbrev pub library : ℕ → Dll ℕ
library ret = record {
  add_counter_w = λ query path user w. ((0, 7), w);
  add_english_counter_w = none;
  close_query = λ query w. (0, w);
  collect_query_data = λ query w. (0, w);
  collect_query_data_with_time = λ query w. ((ret, new_year), suc w);
  get_formatted_counter_value = λ counter flags w. ((0, []), w);
  get_formatted_counter_array_w = λ counter flags size w. (nothing, w);
  open_query = λ source user w. ((0, 1), w);
  expand_wild_card_path_w =
      λ source path size flags w. (record { status = 0; size = 0; content = 0 ∷ [] }, w);
  get_counter_info_w = λ counter explain size w. (nothing, w);
  get_raw_counter_value = λ counter w. ((0, []), w);
  get_raw_counter_array_w = λ counter size w. (nothing, w);
  validate_path_w = λ path w. (0, w);
  local_file_time_to_file_time = λ local w. ((1, local), suc w);
  format_message = λ flags code. units [];
}

abbrev pub open_one : Query
open_one = record { max_buffer_size = 2048; query_handle = 1 }

unix_nanos-signed_example :
    (ticks new_year ≡ intervals new_year)
    × (intervals new_year < 2 ^ 63)
    × (total_micro_seconds new_year ≡ micros_since_1970 new_year)
    × (micros_since_1970 new_year * 1000 < 2 ^ 63)
    × (signed 64 (unix_nanos new_year) ≡ pos (micros_since_1970 new_year * 1000))
unix_nanos-signed_example =
    unix_nanos-signed new_year (omega arith, omega arith) (omega arith) (omega arith)

collect_data_with_time-unix_example :
    collect_data_with_time (pdh_dll Amd64.layouts go (library 0)) open_one 3
    ≡ ((pos (micros_since_1970 new_year * 1000), ok tt), open_one, 5)
collect_data_with_time-unix_example =
    collect_data_with_time-unix Amd64.layouts go (library 0) open_one 3 4 5 new_year new_year 1
      (λ e. omega (arith, e)) refl refl (λ e. omega (arith, e)) (omega arith, omega arith)
      (omega arith) (omega arith)

collect_data_with_time-clock_example :
    collect_data_with_time (pdh_dll Amd64.layouts go (library (2 ^ 32))) open_one 3
    ≡ ((pos 4, ok tt), open_one, 5)
collect_data_with_time-clock_example =
    collect_data_with_time-clock Amd64.layouts go (library (2 ^ 32)) open_one 3 4 new_year 1
      (λ e. omega (arith, e)) refl (λ e. omega (arith, e))

abbrev value : Value
value = record { status = 0; padding = 9; word = 2 ^ 40 + 5 }

abbrev raw : Raw
raw = record {
  status = 1;
  time_stamp = 6;
  padding = 9;
  first_value = 2 ^ 40 + 5;
  second_value = 8;
  multi_count = 0;
}

abbrev pub values : List (Entry Value)
values = record { name = 4096; gap = 0; content = value } ∷ []

abbrev raws : List (Entry Raw)
raws = record { name = 4096; gap = 0; content = raw } ∷ []

abbrev pub idle : ℕ → List ℕ
idle address = b'a' ∷ 0 ∷ []

read_items-Documented_example :
    (read_items Arm64.layouts Arm64.layouts.item_double
        (codes "FmtValue")
        (read_double Arm64.layouts (λ bits. bits))
        1
        (memory_of idle (array_bytes value_bytes 8 values []))
      ≡ map (value_item idle (λ bits. bits)) values)
    × (read_items Arm64.layouts Arm64.layouts.item_large
          (codes "FmtValue")
          (read_large Arm64.layouts)
          1
          (memory_of idle (array_bytes value_bytes 8 values []))
        ≡ map (value_item idle (signed 64)) values)
    × (read_items Arm64.layouts Arm64.layouts.raw_counter_item
          (codes "RawValue")
          (read_raw Arm64.layouts)
          1
          (memory_of idle (array_bytes raw_bytes 8 raws []))
        ≡ map (raw_item idle) raws)
read_items-Documented_example =
    read_items-Documented (λ bits. bits) idle [] Arm64.layouts values raws (inr refl)
      ((omega arith, (omega arith, omega arith, omega arith)), tt)
      ((omega arith, (omega arith, omega arith, omega arith)), tt)

misplaced_values_example :
    ((read_long I386.layouts (value_bytes value [])).value ≡ signed 32 9)
    × ((read_long Amd64.layouts (value_bytes value [])).value ≡ signed 32 9)
    × ((read_long Arm64.layouts (value_bytes value [])).value ≡ signed 32 9)
    × ((read_large I386.layouts (value_bytes value [])).value
        ≡ signed 64 (9 + (2 ^ 40 + 5) % 2 ^ 32 * 2 ^ 32))
    × ((read_raw I386.layouts (raw_bytes raw [])).value
        ≡ signed 64 (9 + (2 ^ 40 + 5) % 2 ^ 32 * 2 ^ 32))
misplaced_values_example =
    misplaced_values value raw [] (omega arith, omega arith, omega arith)
      (omega arith, omega arith, omega arith)

-- An `a`, a pair of surrogates and a lone one.
abbrev path_units : List ℕ
path_units = b'a' ∷ 0xd83d ∷ 0xde00 ∷ 0xd800 ∷ []

pdh_calls-decoded_example :
    (pdh_add_counter Amd64.layouts go (library 0) 1 (utf8 (decode_utf16 path_units)) 3
      ≡ with_uint32 Amd64.layouts go
          (library 0)
          (same Amd64.layouts go (library 0))
          ((library 0).add_counter_w 1 (some (path_units ++ (0 ∷ []))) 0 3))
    × (pdh_expand_wild_card_path Amd64.layouts go (library 0) (utf8 (decode_utf16 path_units)) 64 3
        ≡ reply32 Amd64.layouts go
            (library 0)
            ((library 0).expand_wild_card_path_w 0 (some (path_units ++ (0 ∷ []))) 64 4096 3))
pdh_calls-decoded_example = pdh_calls-decoded Amd64.layouts go (library 0) path_units 1 64 3 (
  (omega arith, λ e. omega (arith, e)),
  (
    (omega arith, λ e. omega (arith, e)),
    ((omega arith, λ e. omega (arith, e)), ((omega arith, λ e. omega (arith, e)), tt)),
  ),
)

-- An instance without data, beside one that has it.
abbrev pub two_values : List (Entry Value)
two_values =
    record { name = 4096; gap = 0; content = record value { status = 0x800007D5 } } ∷ values

abbrev pub letter : Entry Value → List ℕ
letter e = b'a' ∷ []

abbrev pub no_more : Entry Value → List ℕ
no_more e = []

abbrev pub filling : Dll ℕ
filling = record (library 0) {
  get_formatted_counter_array_w = λ counter flags size w. (
    record {
      ret = 0;
      size = 64;
      count = 2;
      memory = memory_of idle (array_bytes value_bytes 8 two_values []);
    },
    suc w,
  );
}

get_formatted_counter_array_double-Documented_example :
    get_formatted_counter_array_double (pdh_dll Amd64.layouts go filling) 7 open_one 3
    ≡ (ok (named_values (λ bits. bits) letter two_values), open_one, 4)
get_formatted_counter_array_double-Documented_example =
    get_formatted_counter_array_double-Documented Amd64.layouts go filling idle letter no_more
      two_values [] 7 64 open_one 3 4 (inl refl) (omega arith) (omega arith)
      (
        (omega arith, (omega arith, omega arith, omega arith)),
        ((omega arith, (omega arith, omega arith, omega arith)), tt),
      )
      (
        (λ e. omega (arith, e), (omega arith, tt), refl),
        ((λ e. omega (arith, e), (omega arith, tt), refl), tt),
      )
      refl
