-- ===== src/WinPerfCounters/Schedules/Quiet.antt =====
-- Queries whose values can be read without a change of the system.
use win_perf_counters.Pdh.Api.{Pdh}
use win_perf_counters.Prelude.{ℕ, either_branch, ◌≡◌, refl, ◌==◌}
use win_perf_counters.Query.Buffer.{buffer_rounds, initial_buffer_size}
use win_perf_counters.Query.Buffer.Unchanged.{fill_buffer_unchanged}
use win_perf_counters.Query.{Query}
use win_perf_counters.Int.{ℤ}
use win_perf_counters.Query.Values.{
  get_raw_counter_value, get_formatted_counter_value_double, get_raw_counter_array,
  get_formatted_counter_array_double,
}
use win_perf_counters.Result.{Result}
use win_perf_counters.WinPerfCounters.Implementation.{performance_query}
use win_perf_counters.WinPerfCounters.Model.{PerformanceQuery}

-- Reading collected values leaves the system alone.
pub record IsQuiet {W Q T D : Type 0} (queries : PerformanceQuery W Q T D) : Type 0 where
  pub raw_value : (c : ℕ) (q : Q) (w : W) → (queries.get_raw_counter_value c q w).2 ≡ w
  pub double_value :
      (c : ℕ) (q : Q) (w : W) → (queries.get_formatted_counter_value_double c q w).2 ≡ w
  pub raw_array : (c : ℕ) (q : Q) (w : W) → (queries.get_raw_counter_array c q w).2 ≡ w
  pub double_array :
      (c : ℕ) (q : Q) (w : W) → (queries.get_formatted_counter_array_double c q w).2 ≡ w

-- The same of the calls of pdh.dll.
pub record IsQuietPdh {W T D : Type 0} (api : Pdh W T D) : Type 0 where
  pub raw_value : (c : ℕ) (w : W) → (api.get_raw_value c w).1 ≡ w
  pub double_value : (c : ℕ) (w : W) → (api.get_formatted_double c w).1 ≡ w
  pub raw_array : (c size : ℕ) (w : W) → (api.get_raw_array c size w).1 ≡ w
  pub double_array : (c size : ℕ) (w : W) → (api.get_array_double c size w).1 ≡ w

-- `performanceQueryImpl` reads values without a change of the system if pdh.dll does.
pub performance_query-IsQuiet :
    {W T D : Type 0} (api : Pdh W T D) → IsQuietPdh api → IsQuiet (performance_query api)
unfolding get_raw_counter_value get_formatted_counter_value_double get_raw_counter_array
    get_formatted_counter_array_double
performance_query-IsQuiet {W} api quiet = record {
  raw_value = λ c q w.
      either_branch {A = Result ℤ × Query × W} (λ o. o.2 ≡ w) (q.query_handle == 0) refl
        (quiet.raw_value c w);
  double_value = λ c q w. quiet.double_value c w;
  raw_array = λ c q w.
      fill_buffer_unchanged (λ w'. w') api.format_message (api.get_raw_array c) (quiet.raw_array c)
        buffer_rounds q.max_buffer_size initial_buffer_size w;
  double_array = λ c q w.
      fill_buffer_unchanged (λ w'. w') api.format_message (api.get_array_double c)
        (quiet.double_array c) buffer_rounds q.max_buffer_size initial_buffer_size w;
}
