-- ===== src/Query.antt =====
-- `performanceQueryImpl` (performance_query.go). A method takes the query and the state of the
-- system and gives both back, after an error too.
pub mod Buffer
pub mod Strings
pub mod Values
pub mod Lifecycle
pub mod Times
pub mod Documented
use win_perf_counters.Int.{ℤ, pos}
use win_perf_counters.Pdh.Api.{Reply, CounterData, Item, Pdh}
use win_perf_counters.Pdh.Codes.{
  error_success, error_invalid_function, pdh_cstatus_valid_data, pdh_cstatus_new_data,
}
use win_perf_counters.Prelude.{
  ℕ, ◌*◌, ◌^◌, Bool, true, false, not, ◌||◌, Option, none, some, List, [], ◌∷◌, map, ◌==◌, leb,
  if◌then◌else◌, length,
}
use win_perf_counters.Query.Buffer.{new_pdh_error, fill_buffer, buffer_rounds, initial_buffer_size}
use win_perf_counters.Query.Strings.{
  Runes, utf16_ptr_to_string, utf16_opt_to_string, utf16_to_string_array, utf8,
}
use win_perf_counters.Result.{Error, pdh, uninitialized_query, Result, ok, err, panic, out_of_fuel}
use win_perf_counters.Result
use win_perf_counters.Text.{Text}

-- `performanceQueryImpl`; the handle 0 means that no query is open.
pub record Query : Type 0 where
  pub max_buffer_size : ℕ
  pub query_handle : ℕ

-- `newPerformanceQuery`; the computer is not used.
abbrev pub new_performance_query : Text → ℕ → Query
new_performance_query computer max_buffer_size = record {
  max_buffer_size = max_buffer_size;
  query_handle = 0;
}

-- `counterValue` and its kin: an instance name and a value.
pub record NamedValue (V : Type 0) : Type 0 where
  pub name : Text
  pub value : V

abbrev pub is_valid_status : ℕ → Bool
is_valid_status c_status = c_status == pdh_cstatus_valid_data || c_status == pdh_cstatus_new_data

-- The loop over the items of an array: those with valid data, with their names.
unfoldable pub valid_items : {V : Type 0} → List (Item V) → Result (List (NamedValue V))
unfolding utf16_opt_to_string utf8
valid_items [] = ok []
valid_items (i ∷ items) =
    let rest = valid_items items in
    if is_valid_status i.fmt_value.c_status
    then Result.◌>>=◌ (utf16_opt_to_string i.sz_name) (λ name.
      Result.◌>>=◌ rest
        (λ values. ok (record { name = utf8 name; value = i.fmt_value.value } ∷ values)))
    else rest

-- `(*[1 << 20]item)(…)[:itemCount]` panics beyond the length of that array.
unfoldable pub counter_items : {V : Type 0} → List (Item V) → Result (List (NamedValue V))
unfolding valid_items
counter_items items = if leb (length items) (2 ^ 20) then valid_items items else panic

-- A formatted value by its status: that of the call, then that of the data.
unfoldable pub checked_value : {V : Type 0} → (ℕ → Text) → ℕ × CounterData V → Result V
checked_value format_message (ret, value) =
    if not (ret == error_success)
    then err (pdh (new_pdh_error format_message ret))
    else if is_valid_status value.c_status
    then ok value.value
    else err (pdh (new_pdh_error format_message value.c_status))

module _ {W T D : Type 0} (api : Pdh W T D) where
  abbrev pub Method : Type 0 → Type 0
  Method A = Query → W → Result A × Query × W

  abbrev pub failed : {A : Type 0} → ℕ → Result A
  failed ret = err (pdh (new_pdh_error api.format_message ret))

  -- `Close`
  unfoldable pub close : Method (Unit {0})
  close q w =
      if q.query_handle == 0
      then (err uninitialized_query, q, w)
      else let (ret, w') = api.close_query q.query_handle w in
        if not (ret == error_success)
        then (failed ret, q, w')
        else (ok tt, record q { query_handle = 0 }, w')

  -- `Open` from its call of `pdhOpenQuery` on.
  unfoldable pub open_fresh : Method (Unit {0})
  open_fresh q w =
      let ((ret, handle), w') = api.open_query w in
      if not (ret == error_success)
      then (failed ret, q, w')
      else (ok tt, record q { query_handle = handle }, w')

  -- What `Open` does with the outcome of `Close`.
  abbrev pub after_close : Result (Unit {0}) × Query × W → Result (Unit {0}) × Query × W
  after_close (ok u, q, w) = open_fresh q w
  after_close (err e, q, w) = (err e, q, w)
  after_close (panic, q, w) = (panic, q, w)
  after_close (out_of_fuel, q, w) = (out_of_fuel, q, w)

  -- `Open`: an open query is closed first.
  unfoldable pub open_query : Method (Unit {0})
  open_query q w = if not (q.query_handle == 0) then after_close (close q w) else open_fresh q w

  -- The outcome of a call that makes a handle.
  abbrev pub handle_or_error : Query → (ℕ × ℕ) × W → Result ℕ × Query × W
  handle_or_error q ((ret, handle), w) =
      (if not (ret == error_success) then failed ret else ok handle, q, w)

  -- `AddCounterToQuery`
  unfoldable pub add_counter_to_query : Text → Method ℕ
  add_counter_to_query path q w =
      if q.query_handle == 0
      then (err uninitialized_query, q, w)
      else handle_or_error q (api.add_counter q.query_handle path w)

  -- `pdhAddEnglishCounter`: without the procedure nothing is called.
  abbrev pub pdh_add_english_counter :
      Option (ℕ → Text → W → (ℕ × ℕ) × W) → ℕ → Text → W → (ℕ × ℕ) × W
  pdh_add_english_counter none handle path w = ((error_invalid_function, 0), w)
  pdh_add_english_counter (some call) handle path w = call handle path w

  -- `AddEnglishCounterToQuery`
  unfoldable pub add_english_counter_to_query : Text → Method ℕ
  add_english_counter_to_query path q w =
      if q.query_handle == 0
      then (err uninitialized_query, q, w)
      else handle_or_error q (pdh_add_english_counter api.add_english_counter q.query_handle path w)

  -- `IsVistaOrNewer`: the procedure was found.
  abbrev pub has_procedure : Option (ℕ → Text → W → (ℕ × ℕ) × W) → Bool
  has_procedure none = false
  has_procedure (some call) = true

  abbrev pub is_vista_or_newer : Bool
  is_vista_or_newer = has_procedure api.add_english_counter

  -- `CollectData`
  unfoldable pub collect_data : Method (Unit {0})
  collect_data q w =
      if q.query_handle == 0
      then (err uninitialized_query, q, w)
      else let (ret, w') = api.collect_query_data q.query_handle w in
        (if not (ret == error_success) then failed ret else ok tt, q, w')

  -- `CollectDataWithTime`: the time is that of the clock beside an error.
  unfoldable pub collect_data_with_time : Query → W → (T × Result (Unit {0})) × Query × W
  collect_data_with_time q w =
      if q.query_handle == 0
      then (((api.now w).0, err uninitialized_query), q, (api.now w).1)
      else let ((ret, mtime), w') = api.collect_query_data_with_time q.query_handle w in
        if not (ret == error_success)
        then (((api.now w').0, failed ret), q, (api.now w').1)
        else ((mtime, ok tt), q, w')
