-- ===== src/Tests/ConfiguredExamples.antt =====
-- Refreshing the counters of two computers where every call of the refresh succeeds.
use win_perf_counters.Prelude.{ℕ, true, false, none, [], ◌∷◌}
use win_perf_counters.Query.{Query}
use win_perf_counters.Tests.CollectedExamples.{processor_host}
use win_perf_counters.Tests.Machine.{Machine, machine_queries, clock, config, memory}
use win_perf_counters.Text.{codes}
use win_perf_counters.WinPerfCounters.Gathering.{gather}
use win_perf_counters.WinPerfCounters.Model.{PerfObject, Config, State}

abbrev paging : PerfObject
paging = record memory {
  counters = codes "Pages/sec" ∷ codes "Page Faults/sec" ∷ [];
  fail_on_missing = true;
}

abbrev two_computers : Config
two_computers = record config {
  object = paging ∷ [];
  use_wildcards_expansion = false;
  sources = codes "box" ∷ codes "localhost" ∷ [];
}

abbrev pub fresh : State Machine Query ℕ ℕ
fresh = record {
  config = two_computers;
  last_refreshed = none;
  host_counters = [];
  cached_hostname = [];
  samples = [];
  world = [];
}

-- A computer that is no longer configured is in the map, and its query is open.
abbrev stale : State Machine Query ℕ ℕ
stale = record fresh { host_counters = (codes "old", processor_host) ∷ []; world = 1 ∷ [] }

abbrev gathered : State Machine Query ℕ ℕ
gathered = (gather machine_queries clock stale).1
