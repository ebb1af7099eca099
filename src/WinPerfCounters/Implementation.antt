-- ===== src/WinPerfCounters/Implementation.antt =====
-- The interface that the collector calls, filled by `performanceQueryImpl`, and the laws of it that
-- the collector's behaviour rests on.
use win_perf_counters.Pdh.Api.{Pdh}
use win_perf_counters.Prelude.{ℕ, ◌≡◌, refl, Bool, false, not, ◌==◌, arith}
use win_perf_counters.Query.Values.{
  get_counter_path, expand_wild_card_path, get_raw_counter_value,
  get_formatted_counter_value_double, get_raw_counter_array, get_formatted_counter_array_double,
}
use win_perf_counters.Query.{
  Query, new_performance_query, close, open_fresh, open_query, add_counter_to_query,
  add_english_counter_to_query, is_vista_or_newer, collect_data, collect_data_with_time,
}
use win_perf_counters.Result.{Error, uninitialized_query, err}
use win_perf_counters.Text.{Text}
use win_perf_counters.WinPerfCounters.Model.{PerformanceQuery}

abbrev pub performance_query : {W T D : Type 0} → Pdh W T D → PerformanceQuery W Query T D
performance_query api = record {
  new_performance_query = new_performance_query;
  open_query = open_query api;
  close = close api;
  add_counter_to_query = add_counter_to_query api;
  add_english_counter_to_query = add_english_counter_to_query api;
  get_counter_path = get_counter_path api;
  expand_wild_card_path = expand_wild_card_path api;
  get_raw_counter_value = get_raw_counter_value api;
  get_formatted_counter_value_double = get_formatted_counter_value_double api;
  get_raw_counter_array = get_raw_counter_array api;
  get_formatted_counter_array_double = get_formatted_counter_array_double api;
  collect_data = collect_data api;
  collect_data_with_time = collect_data_with_time api;
  is_vista_or_newer = is_vista_or_newer api;
}

-- What the collector may rely on. `is_open` tells the queries that are open.
pub record QueryLaws {W Q T D : Type 0} (queries : PerformanceQuery W Q T D) (is_open : Q → Bool)
    : Type 0 where
  pub created :
      (computer : Text) (n : ℕ) → is_open (queries.new_performance_query computer n) ≡ false
  pub open_failed :
      (q : Q) (w : W) (e : Error)
      → is_open q ≡ false
      → (queries.open_query q w).0 ≡ err e
      → is_open (queries.open_query q w).1 ≡ false
  pub close_unopened :
      (q : Q) (w : W) → is_open q ≡ false → queries.close q w ≡ (err uninitialized_query, q, w)
  pub collect_unopened :
      (q : Q) (w : W)
      → is_open q ≡ false
      → queries.collect_data q w ≡ (err uninitialized_query, q, w)
  pub add_unopened :
      (q : Q) (w : W) (path : Text)
      → is_open q ≡ false
      → queries.add_counter_to_query path q w ≡ (err uninitialized_query, q, w)
  pub add_english_unopened :
      (q : Q) (w : W) (path : Text)
      → is_open q ≡ false
      → queries.add_english_counter_to_query path q w ≡ (err uninitialized_query, q, w)

abbrev pub has_handle : Query → Bool
has_handle q = not (q.query_handle == 0)

module _ {W T D : Type 0} (api : Pdh W T D) where
  open_query_failed :
      (q : Query) (w : W) (e : Error)
      → has_handle q ≡ false
      → (open_query api q w).0 ≡ err e
      → has_handle (open_query api q w).1 ≡ false
  unfolding open_query open_fresh
  open_query_failed q w e shut failed = ground arith

  close_unopened :
      (q : Query) (w : W) → has_handle q ≡ false → close api q w ≡ (err uninitialized_query, q, w)
  unfolding close
  close_unopened q w shut = ground arith

  collect_unopened :
      (q : Query) (w : W)
      → has_handle q ≡ false
      → collect_data api q w ≡ (err uninitialized_query, q, w)
  unfolding collect_data
  collect_unopened q w shut = ground arith

  add_unopened :
      (q : Query) (w : W) (path : Text)
      → has_handle q ≡ false
      → (add_counter_to_query api path q w ≡ (err uninitialized_query, q, w))
        × (add_english_counter_to_query api path q w ≡ (err uninitialized_query, q, w))
  unfolding add_counter_to_query add_english_counter_to_query
  add_unopened q w path shut = ground arith

  -- The implementation keeps the laws, for every system.
  pub performance_query-QueryLaws : QueryLaws (performance_query api) has_handle
  performance_query-QueryLaws = record {
    created = λ computer n. refl;
    open_failed = open_query_failed;
    close_unopened = close_unopened;
    collect_unopened = collect_unopened;
    add_unopened = λ q w path shut. (add_unopened q w path shut).0;
    add_english_unopened = λ q w path shut. (add_unopened q w path shut).1;
  }
