-- ===== src/Query/Values.antt =====
-- The getters of `performanceQueryImpl` (performance_query.go), and its two `Must…` functions.
use win_perf_counters.Int.{ℤ}
use win_perf_counters.Pdh.Api.{Reply, Pdh}
use win_perf_counters.Prelude.{ℕ, List, [], Option, map, ◌==◌, if◌then◌else◌}
use win_perf_counters.Query.Buffer.{fill_buffer, buffer_rounds, initial_buffer_size}
use win_perf_counters.Query.Strings.{utf16_opt_to_string, utf16_to_string_array, utf8}
use win_perf_counters.Query.{
  Query, NamedValue, new_performance_query, counter_items, checked_value, Method, close, open_fresh,
  open_query, add_counter_to_query,
}
use win_perf_counters.Result.{uninitialized_query, Result, ok, err, panic, out_of_fuel, ◌>>=◌}
use win_perf_counters.Text.{Text}

-- A panic in place of an error.
abbrev pub must : {A : Type 0} → Result A → Result A
must (ok a) = ok a
must (err e) = panic
must panic = panic
must out_of_fuel = out_of_fuel

module _ {W T D : Type 0} (api : Pdh W T D) where
  -- `MustAddCounterToQuery`
  unfoldable pub must_add_counter_to_query : Text → Method api ℕ
  unfolding add_counter_to_query
  must_add_counter_to_query path q w =
      let (r, q', w') = add_counter_to_query api path q w in (must r, q', w')

  -- `MustNewOpenPerformanceQuery`: the query is lost if `Open` fails.
  unfoldable pub must_new_open_performance_query : ℕ → W → Result Query × W
  unfolding open_query close open_fresh
  must_new_open_performance_query max_buffer_size w =
      let (r, q, w') = open_query api (new_performance_query [] max_buffer_size) w in
      (must r >>= (λ u. ok q), w')

  -- The content of a buffer, read by `decode` in the query's limit.
  abbrev pub read_buffer : {P A : Type 0} → (ℕ → W → Reply P × W) → (P → Result A) → Method api A
  read_buffer call decode q w =
      let (r, w') =
        fill_buffer api.format_message call buffer_rounds q.max_buffer_size initial_buffer_size w in
      (r >>= decode, q, w')

  abbrev utf8_path : Option (List ℕ) → Result Text
  utf8_path s = utf16_opt_to_string s >>= λ runes. ok (utf8 runes)

  -- `GetCounterPath`
  unfoldable pub get_counter_path : ℕ → Method api Text
  unfolding fill_buffer utf16_opt_to_string utf8
  get_counter_path handle = read_buffer (api.get_counter_info handle) utf8_path

  abbrev utf8_paths : List ℕ → Result (List Text)
  utf8_paths buf = utf16_to_string_array buf >>= λ lines. ok (map utf8 lines)

  -- `ExpandWildCardPath`
  unfoldable pub expand_wild_card_path : Text → Method api (List Text)
  unfolding fill_buffer utf16_to_string_array utf8
  expand_wild_card_path path = read_buffer (api.expand_wild_card_path path) utf8_paths

  -- `GetFormattedCounterArrayLong`, `…Large`, `…Double` and `GetRawCounterArray`
  unfoldable pub get_formatted_counter_array_long : ℕ → Method api (List (NamedValue ℤ))
  unfolding fill_buffer counter_items
  get_formatted_counter_array_long handle = read_buffer (api.get_array_long handle) counter_items

  unfoldable pub get_formatted_counter_array_large : ℕ → Method api (List (NamedValue ℤ))
  unfolding fill_buffer counter_items
  get_formatted_counter_array_large handle = read_buffer (api.get_array_large handle) counter_items

  unfoldable pub get_formatted_counter_array_double : ℕ → Method api (List (NamedValue D))
  unfolding fill_buffer counter_items
  get_formatted_counter_array_double handle =
      read_buffer (api.get_array_double handle) counter_items

  unfoldable pub get_raw_counter_array : ℕ → Method api (List (NamedValue ℤ))
  unfolding fill_buffer counter_items
  get_raw_counter_array handle = read_buffer (api.get_raw_array handle) counter_items

  -- `GetFormattedCounterValueLong`, `…Large` and `…Double`: no test of the query's handle.
  unfoldable pub get_formatted_counter_value_long : ℕ → Method api ℤ
  unfolding checked_value
  get_formatted_counter_value_long handle q w =
      let (reply, w') = api.get_formatted_long handle w in
      (checked_value api.format_message reply, q, w')

  unfoldable pub get_formatted_counter_value_large : ℕ → Method api ℤ
  unfolding checked_value
  get_formatted_counter_value_large handle q w =
      let (reply, w') = api.get_formatted_large handle w in
      (checked_value api.format_message reply, q, w')

  unfoldable pub get_formatted_counter_value_double : ℕ → Method api D
  unfolding checked_value
  get_formatted_counter_value_double handle q w =
      let (reply, w') = api.get_formatted_double handle w in
      (checked_value api.format_message reply, q, w')

  -- `GetRawCounterValue`
  unfoldable pub get_raw_counter_value : ℕ → Method api ℤ
  unfolding checked_value
  get_raw_counter_value handle q w =
      if q.query_handle == 0
      then (err uninitialized_query, q, w)
      else let (reply, w') = api.get_raw_value handle w in
        (checked_value api.format_message reply, q, w')
