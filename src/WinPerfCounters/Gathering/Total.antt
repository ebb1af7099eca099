-- ===== src/WinPerfCounters/Gathering/Total.antt =====
-- `Gather` without expansion on a working system (win_perf_counters.go): it succeeds every time, with
-- the configured counters.
use win_perf_counters.Prelude.{◌≡◌, ◌≢◌, ◌⊎◌, Bool, none, List, [], All}
use win_perf_counters.Pdh.Api.{Pdh}
use win_perf_counters.Query.{Query}
use win_perf_counters.Result.{Result}
use win_perf_counters.WinPerfCounters.Gathering.Configured.{HasConfigured}
use win_perf_counters.WinPerfCounters.Hosts.Configured.{IsStrict}
use win_perf_counters.WinPerfCounters.Model.{PerfObject, State, PerformanceQuery, System}
use win_perf_counters.WinPerfCounters.Working.{IsWorking, IsReady}

module _ {W Q T D : Type 0} (queries : PerformanceQuery W Q T D) (system : System W T)
    (is_open : Q → Bool) (working : IsWorking queries is_open) where
  module _ (objects : List PerfObject) (some_object : objects ≢ [])
      (strict : All IsStrict objects) where
    -- Ready for a `Gather`, and either it is the first or every computer has its counters.
    record IsSound (s : State W Q T D) : Type 0 where
      pub ready : IsReady is_open objects s
      pub before : (s.last_refreshed ≡ none) ⊎ HasConfigured queries system s
