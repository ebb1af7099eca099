-- ===== src/WinPerfCounters/Handles/Implementation.antt =====
-- `performanceQueryImpl` (performance_query.go) keeps account of its handle in every method.
use win_perf_counters.Int.{ℤ}
use win_perf_counters.Pdh.Api.{Reply, Pdh}
use win_perf_counters.Prelude.{
  ℕ, ◌≡◌, refl, Option, none, some, List, ◌==◌, either_branch, not, ◌∙◌,
}
use win_perf_counters.Pdh.Codes.{error_success}
use win_perf_counters.Query.Buffer.Unchanged.{fill_buffer_unchanged}
use win_perf_counters.Query.Buffer.{fill_buffer, buffer_rounds, initial_buffer_size}
use win_perf_counters.Query.Values.{
  get_counter_path, expand_wild_card_path, get_raw_counter_value,
  get_formatted_counter_value_double, get_raw_counter_array, get_formatted_counter_array_double,
}
use win_perf_counters.Query.{
  Query, add_counter_to_query, pdh_add_english_counter, add_english_counter_to_query, collect_data,
  collect_data_with_time,
}
use win_perf_counters.Result.{Result}
use win_perf_counters.Text.{Text}
use win_perf_counters.WinPerfCounters.Handles.Lifecycle.{
  PdhHandles, handle_of, IsKept, close-Keeps, open_query-Keeps, close_releases,
}
use win_perf_counters.WinPerfCounters.Handles.{HandleKeeping}
use win_perf_counters.WinPerfCounters.Implementation.{performance_query}

module _ {W T D : Type 0} (api : Pdh W T D) (live : W → List ℕ) (laws : PdhHandles api live) where
  -- A method that changes neither its query nor what is open.
  abbrev Untouched : {R : Type 0} → Query → W → R × Query × W → Type 0
  Untouched q w o = (o.1 ≡ q) × (live o.2 ≡ live w)

  untouched :
      {R : Type 0} (method : Query → W → R × Query × W)
      → ((q : Query) (w : W) → Untouched q w (method q w))
      → IsKept api live laws method
  untouched method same others q w p = let (kept, unchanged) = same q w in rw (kept, unchanged) p

  english_unchanged :
      (found : Option (ℕ → Text → W → (ℕ × ℕ) × W)) (h : ℕ) (path : Text) (w : W)
      → api.add_english_counter ≡ found
      → live (pdh_add_english_counter api found h path w).1 ≡ live w
  english_unchanged none h path w e = refl
  english_unchanged (some call) h path w e = laws.added_english call h path w e

  added-Untouched :
      (path : Text) (q : Query) (w : W) → Untouched q w (add_counter_to_query api path q w)
  unfolding add_counter_to_query
  added-Untouched path q w =
      either_branch {A = Result ℕ × Query × W} (Untouched q w) (q.query_handle == 0) (refl, refl)
        (refl, laws.added q.query_handle path w)

  english-Untouched :
      (path : Text) (q : Query) (w : W) → Untouched q w (add_english_counter_to_query api path q w)
  unfolding add_english_counter_to_query
  english-Untouched path q w =
      either_branch {A = Result ℕ × Query × W} (Untouched q w) (q.query_handle == 0) (refl, refl)
        (refl, english_unchanged api.add_english_counter q.query_handle path w refl)

  collect-Untouched : (q : Query) (w : W) → Untouched q w (collect_data api q w)
  unfolding collect_data
  collect-Untouched q w =
      either_branch {A = Result (Unit {0}) × Query × W} (Untouched q w) (q.query_handle == 0)
        (refl, refl) (refl, laws.collected q.query_handle w)

  timed-Untouched : (q : Query) (w : W) → Untouched q w (collect_data_with_time api q w)
  unfolding collect_data_with_time
  timed-Untouched q w =
      let collected = laws.collected_with_time q.query_handle w in
      let ((ret, time), w') = api.collect_query_data_with_time q.query_handle w in
      either_branch {A = (T × Result (Unit {0})) × Query × W} (Untouched q w) (q.query_handle == 0)
        (refl, laws.now w)
        (either_branch {A = (T × Result (Unit {0})) × Query × W} (Untouched q w)
          (not (ret == error_success)) (refl, laws.now w' ∙ collected) (refl, collected))

  raw_value-Untouched :
      (handle : ℕ) (q : Query) (w : W) → Untouched q w (get_raw_counter_value api handle q w)
  unfolding get_raw_counter_value
  raw_value-Untouched handle q w =
      either_branch {A = Result ℤ × Query × W} (Untouched q w) (q.query_handle == 0) (refl, refl)
        (refl, laws.raw_value handle w)

  -- The open queries over the loop that fills a buffer.
  filled :
      {P : Type 0} (call : ℕ → W → Reply P × W)
      → ((size : ℕ) (w : W) → live (call size w).1 ≡ live w)
      → (q : Query) (w : W)
      → live
          (fill_buffer api.format_message call buffer_rounds q.max_buffer_size initial_buffer_size
            w).1
        ≡ live w
  filled call unchanged q w =
      fill_buffer_unchanged live api.format_message call unchanged buffer_rounds q.max_buffer_size
        initial_buffer_size w

  -- On a system that does what is documented, the open queries are those that the hosts' queries hold:
  -- every method of the interface accounts for what it opens and closes.
  pub performance_query-HandleKeeping : HandleKeeping (performance_query api) live handle_of
  unfolding get_counter_path expand_wild_card_path get_formatted_counter_value_double
      get_raw_counter_array get_formatted_counter_array_double
  performance_query-HandleKeeping = record {
    created = λ computer n. refl;
    opened = open_query-Keeps api live laws;
    closed = close-Keeps api live laws;
    released = close_releases api live laws;
    added = λ path. untouched (add_counter_to_query api path) (added-Untouched path);
    added_english =
        λ path. untouched (add_english_counter_to_query api path) (english-Untouched path);
    path_read = λ handle.
        untouched (get_counter_path api handle)
          (λ q w. (refl, filled (api.get_counter_info handle) (laws.path_read handle) q w));
    path_expanded = λ path.
        untouched (expand_wild_card_path api path)
          (λ q w. (refl, filled (api.expand_wild_card_path path) (laws.path_expanded path) q w));
    raw_value = λ handle. untouched (get_raw_counter_value api handle) (raw_value-Untouched handle);
    double_value = λ handle.
        untouched (get_formatted_counter_value_double api handle)
          (λ q w. (refl, laws.double_value handle w));
    raw_array = λ handle.
        untouched (get_raw_counter_array api handle)
          (λ q w. (refl, filled (api.get_raw_array handle) (laws.raw_array handle) q w));
    double_array = λ handle.
        untouched (get_formatted_counter_array_double api handle)
          (λ q w. (refl, filled (api.get_array_double handle) (laws.double_array handle) q w));
    collected = untouched (collect_data api) collect-Untouched;
    collected_with_time = untouched (collect_data_with_time api) timed-Untouched;
  }
