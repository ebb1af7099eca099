-- ===== src/Tests/MemoryExamples.antt =====
-- Collecting from the memory of a small pdh.dll.
use win_perf_counters.Int.{ℤ, pos}
use win_perf_counters.Pdh.Calls.{pdh_dll}
use win_perf_counters.Pdh.Layout.Amd64
use win_perf_counters.Prelude.{ℕ, ◌≡◌, refl, inl, true, none, [], ◌∷◌, map, arith}
use win_perf_counters.Query.{Query}
use win_perf_counters.Result.{ok}
use win_perf_counters.Tests.CollectedExamples.{idle_time, arrays}
use win_perf_counters.Tests.PdhExamples.{go, idle, open_one, two_values, letter, no_more, filling}
use win_perf_counters.Text.{Text, codes}
use win_perf_counters.WinPerfCounters.Fields.Assignments.{latest, field_at}
use win_perf_counters.WinPerfCounters.Fields.Unique.{NodupFields}
use win_perf_counters.WinPerfCounters.Fields.{InstanceGrouping, FieldGrouping}
use win_perf_counters.WinPerfCounters.Gathering.FromMemory.{
  Answer, answered, gather_computer_counters-Documented,
}
use win_perf_counters.WinPerfCounters.Gathering.{sample_of, gather_computer_counters}
use win_perf_counters.WinPerfCounters.Implementation.{performance_query}
use win_perf_counters.WinPerfCounters.Model.{HostCountersInfo, PerformanceQuery, System}

abbrev steady : System ℕ ℤ
steady = record {
  now = λ w. (pos w, w);
  zero_time = pos 0;
  passed = λ last interval now. true;
  sleep = λ w. w;
  os_hostname = λ w. none;
}

abbrev pdh_queries : PerformanceQuery ℕ Query ℤ ℕ
pdh_queries = performance_query (pdh_dll Amd64.layouts go filling)

abbrev idle_host : HostCountersInfo Query ℤ
idle_host = record {
  computer = codes "localhost";
  tag = [];
  counters = idle_time ∷ [];
  query = open_one;
  timestamp = pos 0;
}

abbrev answer : Answer
answer = record {
  entries = two_values;
  units_at = idle;
  name = letter;
  after = no_more;
  rest = [];
  size = 64;
}

gather_computer_counters-Documented_example :
    (groups : FieldGrouping ℕ) × (gather_computer_counters pdh_queries steady arrays idle_host 3
      ≡ (ok (map (sample_of pdh_queries steady idle_host) groups), idle_host, 4))
    × NodupFields groups
    × ((group : InstanceGrouping) (field : Text)
        → field_at group field groups
          ≡ latest group field
              (answered Amd64.layouts go filling steady (idle_time ∷ []) (answer ∷ [])))
gather_computer_counters-Documented_example =
    gather_computer_counters-Documented Amd64.layouts go filling steady arrays idle_host
      (answer ∷ []) 3 4 (inl refl) (omega arith) refl refl
      (
        refl,
        (
          omega arith,
          (
            (omega arith, (omega arith, omega arith, omega arith)),
            ((omega arith, (omega arith, omega arith, omega arith)), tt),
          ),
          (
            (λ e. omega (arith, e), (omega arith, tt), refl),
            ((λ e. omega (arith, e), (omega arith, tt), refl), tt),
          ),
        ),
        (4, refl, refl),
      )
