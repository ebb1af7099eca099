-- ===== src/WinPerfCounters/Handles.antt =====
-- The handles of the collector's queries: what every method of the interface `PerformanceQuery` does
-- to the queries that are open in the system (win_perf_counters.go, performance_query.go).
pub mod Hosts
pub mod Items
pub mod Reading
pub mod Gathering
pub mod Lifecycle
pub mod Implementation
use mathlib.Core.List.{Perm}
use win_perf_counters.Prelude.{ℕ, ◌≡◌, List, [], ◌++◌}
use win_perf_counters.Result.{ok}
use win_perf_counters.Text.{Text}
use win_perf_counters.WinPerfCounters.Model.{PerformanceQuery, System}

-- The open queries are those that `q` holds and those of others, in any order, before and after.
abbrev pub Keeps : {W Q R : Type 0} → (W → List ℕ) → (Q → List ℕ) → (Q → W → R × Q × W) → Type 0
Keeps {W} {Q} live holds method =
    (others : List ℕ) (q : Q) (w : W)
    → Perm (live w) (holds q ++ others)
    → Perm (live (method q w).2) (holds (method q w).1 ++ others)

-- Every method keeps to that; a new query holds nothing, nor does one that was closed.
pub record HandleKeeping {W Q T D : Type 0} (queries : PerformanceQuery W Q T D) (live : W → List ℕ)
    (holds : Q → List ℕ) : Type 0 where
  pub created : (computer : Text) (n : ℕ) → holds (queries.new_performance_query computer n) ≡ []
  pub opened : Keeps live holds queries.open_query
  pub closed : Keeps live holds queries.close
  pub released : (q : Q) (w : W) → (queries.close q w).0 ≡ ok tt → holds (queries.close q w).1 ≡ []
  pub added : (path : Text) → Keeps live holds (queries.add_counter_to_query path)
  pub added_english : (path : Text) → Keeps live holds (queries.add_english_counter_to_query path)
  pub path_read : (handle : ℕ) → Keeps live holds (queries.get_counter_path handle)
  pub path_expanded : (path : Text) → Keeps live holds (queries.expand_wild_card_path path)
  pub raw_value : (handle : ℕ) → Keeps live holds (queries.get_raw_counter_value handle)
  pub double_value :
      (handle : ℕ) → Keeps live holds (queries.get_formatted_counter_value_double handle)
  pub raw_array : (handle : ℕ) → Keeps live holds (queries.get_raw_counter_array handle)
  pub double_array :
      (handle : ℕ) → Keeps live holds (queries.get_formatted_counter_array_double handle)
  pub collected : Keeps live holds queries.collect_data
  pub collected_with_time : Keeps live holds queries.collect_data_with_time

-- The clock and the pause do not touch the queries.
pub record IsApart {W T : Type 0} (system : System W T) (live : W → List ℕ) : Type 0 where
  pub now : (w : W) → live (system.now w).1 ≡ live w
  pub sleep : (w : W) → live (system.sleep w) ≡ live w
