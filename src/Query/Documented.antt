-- ===== src/Query/Documented.antt =====
-- An array of formatted values, from the memory that PDH documents to the values that
-- `GetFormattedCounterArrayDouble` returns (performance_query.go, pdh.go).
use win_perf_counters.Pdh.Calls.{pdh_dll, pdh_get_formatted_counter_array_double}
use win_perf_counters.Pdh.Dll.{Dll, Runtime, pdh_fmt_double_nocap100}
use win_perf_counters.Pdh.Layout.Amd64
use win_perf_counters.Pdh.Layout.Arm64
use win_perf_counters.Pdh.Layout.{Layouts}
use win_perf_counters.Pdh.Reading.Arrays.{value_item, memory_of, IsEntry, read_items-Documented}
use win_perf_counters.Pdh.Reading.Documented.{Value, IsValue, value_bytes, Entry, array_bytes}
use win_perf_counters.Pdh.Reading.{string_at}
use win_perf_counters.Prelude.{
  ℕ, suc, ◌==◌, false, ◌≢◌, ◌++◌, ◌^◌, ◌≤◌, ◌≡◌, ◌⊎◌, refl, true, leb, List, [], ◌∷◌, map, length,
  All, if◌then◌else◌, Bool, ltb, Bool-cases, inl, inr, arith, ap,
}
use win_perf_counters.Query.Buffer.{fill_buffer, judge, initial_buffer_size}
use win_perf_counters.Query.Strings.Lines.{HasNoZero, until_zero-append}
use win_perf_counters.Query.Strings.{
  utf16_opt_to_string, utf16_ptr_to_string, decode_line, decode_utf16, utf8,
}
use win_perf_counters.Query.Values.{get_formatted_counter_array_double}
use win_perf_counters.Query.{Query, NamedValue, is_valid_status, valid_items, counter_items}
use win_perf_counters.Result.{ok}

-- `PDH_CSTATUS_VALID_DATA` is 0 and `PDH_CSTATUS_NEW_DATA` is 1; the others are larger.
abbrev pub has_data : ℕ → Bool
has_data status = ltb status 2

is_valid_status-has_data : (status : ℕ) → is_valid_status status ≡ has_data status
is_valid_status-has_data status = ground arith

-- The values of the entries with valid or new data, under their names.
abbrev pub named_values :
    {D : Type 0} → (ℕ → D) → (Entry Value → List ℕ) → List (Entry Value) → List (NamedValue D)
named_values value name [] = []
named_values value name (e ∷ es) =
    if has_data e.content.status
    then record { name = utf8 (decode_utf16 (name e)); value = value e.content.word }
      ∷ named_values value name es
    else named_values value name es

module _ (units_at : ℕ → List ℕ) (name after : Entry Value → List ℕ) where
  -- At the address of the entry's name stand the units of a name, a zero and something more.
  abbrev pub IsNamed : Entry Value → Type 0
  IsNamed e = (e.name ≢ 0) × HasNoZero (name e) × (units_at e.name ≡ name e ++ (0 ∷ after e))

  name_lem :
      (e : Entry Value)
      → IsNamed e
      → utf16_opt_to_string (string_at units_at e.name) ≡ ok (decode_utf16 (name e))
  unfolding utf16_opt_to_string utf16_ptr_to_string decode_line
  name_lem e (address, nonzero, stands) =
      let somewhere : (e.name == 0) ≡ false = ground arith in
      rw (somewhere, stands, until_zero-append (name e) (after e) nonzero) refl

  module _ {D : Type 0} (value : ℕ → D) where
    valid_items-map :
        (es : List (Entry Value))
        → All IsNamed es
        → valid_items (map (value_item units_at value) es) ≡ ok (named_values value name es)
    unfolding valid_items
    valid_items-map [] h = refl
    valid_items-map (e ∷ es) h = elim (Bool-cases (has_data e.content.status)) [
      | inl valid ↦
          rw
            (
              is_valid_status-has_data e.content.status,
              valid,
              name_lem e h.0,
              valid_items-map es h.1,
            )
            refl
      | inr invalid ↦
          rw (is_valid_status-has_data e.content.status, invalid, valid_items-map es h.1) refl
    ]

    length-items :
        (es : List (Entry Value)) → length (map (value_item units_at value) es) ≡ length es
    length-items [] = refl
    length-items (e ∷ es) = ap suc (length-items es)

    counter_items-map :
        (es : List (Entry Value))
        → All IsNamed es
        → length es ≤ 2 ^ 20
        → counter_items (map (value_item units_at value) es) ≡ ok (named_values value name es)
    unfolding counter_items
    counter_items-map es h short =
        let few : leb (length es) (2 ^ 20) ≡ true = ground arith in
        rw (length-items es, few) (valid_items-map es h)

-- On amd64 and arm64, if the first buffer is allowed and PDH fills it with at most 2 ^ 20 values as
-- documented, each with a name that a zero ends, then `GetFormattedCounterArrayDouble` returns
-- exactly those with valid or new data, in their order, as `float64` under their names.
pub get_formatted_counter_array_double-Documented :
    {W T D : Type 0} (layouts : Layouts) (go : Runtime W T D) (dll : Dll W) (units_at : ℕ → List ℕ)
    (name after : Entry Value → List ℕ) (es : List (Entry Value)) (rest : List ℕ) (handle size : ℕ)
    (q : Query) (w w' : W)
    → (layouts ≡ Amd64.layouts) ⊎ (layouts ≡ Arm64.layouts)
    → initial_buffer_size ≤ q.max_buffer_size
    → length es ≤ 2 ^ 20
    → All (IsEntry 64 IsValue) es
    → All (IsNamed units_at name after) es
    → dll.get_formatted_counter_array_w handle pdh_fmt_double_nocap100 initial_buffer_size w ≡ (
      record {
        ret = 0;
        size = size;
        count = length es;
        memory = memory_of units_at (array_bytes value_bytes 8 es rest);
      },
      w',
    )
    → get_formatted_counter_array_double (pdh_dll layouts go dll) handle q w
      ≡ (ok (named_values go.float64_of_bits name es), q, w')
unfolding get_formatted_counter_array_double pdh_get_formatted_counter_array_double fill_buffer
    judge
get_formatted_counter_array_double-Documented layouts go dll units_at name after es rest handle size
      q w w' known allowed short fits named filled =
    let below : leb initial_buffer_size q.max_buffer_size ≡ true = ground arith in
    rw
      (
        below,
        filled,
        (read_items-Documented go.float64_of_bits units_at rest layouts es [] known fits tt).0,
        counter_items-map units_at name after go.float64_of_bits es named short,
      )
      refl
