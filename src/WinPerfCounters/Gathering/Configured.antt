-- ===== src/WinPerfCounters/Gathering/Configured.antt =====
-- The counters after a `Gather` without expansion (win_perf_counters.go): the configured ones, each
-- once, however often the counters were refreshed before.
use win_perf_counters.Names
use win_perf_counters.Prelude.{◌≡◌, map}
use win_perf_counters.Result.{Result}
use win_perf_counters.Text.{Text}
use win_perf_counters.WinPerfCounters.Hosts.Configured.{configured}
use win_perf_counters.WinPerfCounters.Items.Grown.{counters_of, shape, for_computer}
use win_perf_counters.WinPerfCounters.Model.{State, PerformanceQuery, System}

module _ {W Q T D : Type 0} (queries : PerformanceQuery W Q T D) (system : System W T) where
  -- Every computer has the counters that are configured for it, in their order, and no others.
  pub record HasConfigured (s : State W Q T D) : Type 0 where
    pub computers :
        (k : Text)
        → map shape (counters_of k s.host_counters)
          ≡ for_computer k (configured queries system s.config)
