-- ===== src/WinPerfCounters/Working/Implementation.antt =====
-- `performanceQueryImpl` (performance_query.go) on a pdh.dll whose calls succeed for open queries.
use win_perf_counters.Pdh.Api.{Pdh}
use win_perf_counters.Pdh.Codes.{error_success}
use win_perf_counters.Prelude.{
  ℕ, ◌≡◌, ◌≢◌, ◌<◌, ◌^◌, refl, Bool, true, false, not, ◌&&◌, ltb, Option, none, some, ◌==◌, arith,
}
use win_perf_counters.Query.Values.{get_raw_counter_array, get_formatted_counter_array_double}
use win_perf_counters.Query.{
  Query, new_performance_query, close, open_fresh, open_query, add_counter_to_query,
  pdh_add_english_counter, has_procedure, add_english_counter_to_query, collect_data,
  collect_data_with_time,
}
use win_perf_counters.Text.{Text}
use win_perf_counters.WinPerfCounters.Implementation.{performance_query}
use win_perf_counters.WinPerfCounters.Working.Arrays.{IsReadable, read_buffer-Returns}
use win_perf_counters.WinPerfCounters.Working.{IsOk, IsWorking}

-- Every query can be opened, and what is called for an open one succeeds; the calls that read arrays
-- may return any status, but sizes below 2 ^ 31 and arrays that can be read.
pub record PdhWorks {W T D : Type 0} (api : Pdh W T D) : Type 0 where
  pub opened : (w : W) → ((api.open_query w).0.0 ≡ error_success) × ((api.open_query w).0.1 ≢ 0)
  pub closed : (h : ℕ) (w : W) → h ≢ 0 → (api.close_query h w).0 ≡ error_success
  pub added : (h : ℕ) (path : Text) (w : W) → h ≢ 0 → (api.add_counter h path w).0.0 ≡ error_success
  pub added_english :
      (call : ℕ → Text → W → (ℕ × ℕ) × W) (h : ℕ) (path : Text) (w : W)
      → api.add_english_counter ≡ some call
      → h ≢ 0
      → (call h path w).0.0 ≡ error_success
  pub collected : (h : ℕ) (w : W) → h ≢ 0 → (api.collect_query_data h w).0 ≡ error_success
  pub collected_with_time :
      (h : ℕ) (w : W) → h ≢ 0 → (api.collect_query_data_with_time h w).0.0 ≡ error_success
  pub raw_sizes : (c n : ℕ) (w : W) → (api.get_raw_array c n w).0.size < 2 ^ 31
  pub raw_items : (c n : ℕ) (w : W) → IsReadable (api.get_raw_array c n w).0.content
  pub double_sizes : (c n : ℕ) (w : W) → (api.get_array_double c n w).0.size < 2 ^ 31
  pub double_items : (c n : ℕ) (w : W) → IsReadable (api.get_array_double c n w).0.content

-- The query has a handle and a limit below 2 ^ 31.
abbrev pub is_usable : Query → Bool
is_usable q = not (q.query_handle == 0) && ltb q.max_buffer_size (2 ^ 31)

module _ {W T D : Type 0} (api : Pdh W T D) (works : PdhWorks api) where
  usable_parts :
      (q : Query) → is_usable q ≡ true → (q.query_handle ≢ 0) × (q.max_buffer_size < 2 ^ 31)
  usable_parts q e = (λ z. ground arith, ground arith)

  open-IsOk :
      (computer : Text) (size : ℕ) (w : W)
      → size < 2 ^ 31
      → let o = open_query api (new_performance_query computer size) w in
        IsOk o.0 × (is_usable o.1 ≡ true)
  unfolding open_query open_fresh
  open-IsOk computer size w small =
      let (e, nonzero) = works.opened w in
      let in_use : ((api.open_query w).0.1 == 0) ≡ false = ground arith in
      let limited : ltb size (2 ^ 31) ≡ true = ground arith in rw (e, in_use, limited) (tt, refl)

  -- The test for a handle, which a usable query passes.
  has_handle_lem : (q : Query) → is_usable q ≡ true → (q.query_handle == 0) ≡ false
  has_handle_lem q e = ground arith

  close-IsOk : (q : Query) (w : W) → is_usable q ≡ true → IsOk (close api q w).0
  unfolding close
  close-IsOk q w e = rw (has_handle_lem q e, works.closed q.query_handle w (usable_parts q e).0) tt

  add-IsOk :
      (path : Text) (q : Query) (w : W)
      → is_usable q ≡ true
      → let o = add_counter_to_query api path q w in IsOk o.0 × (is_usable o.1 ≡ true)
  unfolding add_counter_to_query
  add-IsOk path q w e =
      rw (has_handle_lem q e, works.added q.query_handle path w (usable_parts q e).0) (tt, e)

  english-added :
      (found : Option (ℕ → Text → W → (ℕ × ℕ) × W)) (h : ℕ) (path : Text) (w : W)
      → api.add_english_counter ≡ found
      → has_procedure api found ≡ true
      → h ≢ 0
      → (pdh_add_english_counter api found h path w).0.0 ≡ error_success
  english-added none h path w e vista nonzero = absurd (ground arith)
  english-added (some call) h path w e vista nonzero = works.added_english call h path w e nonzero

  add_english-IsOk :
      has_procedure api api.add_english_counter ≡ true
      → (path : Text) (q : Query) (w : W) → is_usable q ≡ true
      → let o = add_english_counter_to_query api path q w in IsOk o.0 × (is_usable o.1 ≡ true)
  unfolding add_english_counter_to_query
  add_english-IsOk vista path q w e =
      rw
        (
          has_handle_lem q e,
          english-added api.add_english_counter q.query_handle path w refl vista
              (usable_parts q e).0,
        )
        (tt, e)

  collect-IsOk :
      (q : Query) (w : W)
      → is_usable q ≡ true
      → let o = collect_data api q w in IsOk o.0 × (is_usable o.1 ≡ true)
  unfolding collect_data
  collect-IsOk q w e =
      rw (has_handle_lem q e, works.collected q.query_handle w (usable_parts q e).0) (tt, e)

  collect_timed-IsOk :
      (q : Query) (w : W)
      → is_usable q ≡ true
      → let o = collect_data_with_time api q w in IsOk o.0.1 × (is_usable o.1 ≡ true)
  unfolding collect_data_with_time
  collect_timed-IsOk q w e =
      rw (has_handle_lem q e, works.collected_with_time q.query_handle w (usable_parts q e).0)
        (tt, e)

  -- On such a system `performanceQueryImpl` succeeds for open queries, and the calls that read arrays
  -- return, with an error or without.
  pub performance_query-IsWorking : IsWorking (performance_query api) is_usable
  unfolding get_raw_counter_array get_formatted_counter_array_double
  performance_query-IsWorking = record {
    opens = open-IsOk;
    closes = close-IsOk;
    adds = add-IsOk;
    adds_english = add_english-IsOk;
    collects = collect-IsOk;
    collects_with_time = collect_timed-IsOk;
    reads_raw = λ c q w e. (
      read_buffer-Returns api (api.get_raw_array c) q w (works.raw_sizes c) (works.raw_items c)
          (usable_parts q e).1,
      e,
    );
    reads_double = λ c q w e. (
      read_buffer-Returns api (api.get_array_double c) q w (works.double_sizes c)
          (works.double_items c) (usable_parts q e).1,
      e,
    );
  }
