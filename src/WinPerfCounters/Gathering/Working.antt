-- ===== src/WinPerfCounters/Gathering/Working.antt =====
-- `Gather` without expansion (win_perf_counters.go) succeeds where every query is open, whatever the
-- errors of single counters.
use win_perf_counters.Prelude.{◌≡◌, ◌≢◌, refl, Bool, true, false, ◌&&◌, List, [], either_branch}
use win_perf_counters.Result.{Result, ok, err, panic, out_of_fuel}
use win_perf_counters.Text.{Text}
use win_perf_counters.WinPerfCounters.Gathering.{
  is_refresh_due, ignore_checked, prime_hosts, mark_refreshed, refresh, collect_host, collect_hosts,
  gather_samples, gather_data, gather,
}
use win_perf_counters.WinPerfCounters.Gathering.Reads.{gather_hosts-IsOk}
use win_perf_counters.WinPerfCounters.Hosts.Working.{
  each_host-IsOk, clean_queries-IsReady, parse_config-IsReady,
}
use win_perf_counters.WinPerfCounters.Hosts.{each_host, in_hosts, on_host}
use win_perf_counters.WinPerfCounters.Model.{
  PerfObject, Config, HostCountersInfo, State, PerformanceQuery, System, pure,
}
use win_perf_counters.WinPerfCounters.Working.{
  IsOk, Achieves, bind-Achieves, if-Achieves, IsWorking, IsReady, moved-IsReady,
}

module _ {W Q T D : Type 0} (queries : PerformanceQuery W Q T D) (system : System W T)
    (is_open : Q → Bool) (objects : List PerfObject) (some_object : objects ≢ [])
    (working : IsWorking queries is_open) where
  abbrev Ready : State W Q T D → Type 0
  Ready = IsReady is_open objects

  is_refresh_due-IsReady : Achieves Ready Ready (is_refresh_due queries system)
  unfolding is_refresh_due
  is_refresh_due-IsReady = record {
    outcome = λ s i. (tt, moved-IsReady is_open objects s _ refl refl refl i.all_open i);
  }

  ignore_checked-IsReady :
      (ignored : List Text) (o : Result (Unit {0}) × State W Q T D)
      → IsOk o.0 × Ready o.1
      → let o' = ignore_checked queries system ignored o in IsOk o'.0 × Ready o'.1
  ignore_checked-IsReady ignored (ok u, s) h = h
  ignore_checked-IsReady ignored (err x, s) h = elim h.0 [ ]
  ignore_checked-IsReady ignored (panic, s) h = elim h.0 [ ]
  ignore_checked-IsReady ignored (out_of_fuel, s) h = elim h.0 [ ]

  -- A loop over the hosts that leaves every query open.
  loop-IsReady :
      (method : HostCountersInfo Q T → W → Result (Unit {0}) × HostCountersInfo Q T × W)
      (s : State W Q T D)
      → ((h : HostCountersInfo Q T) (w : W)
          → is_open h.query ≡ true
          → IsOk (method h w).0 × (is_open (method h w).1.query ≡ true))
      → Ready s
      → let o = in_hosts queries system (each_host method s.host_counters s.world) s in
        IsOk o.0 × Ready o.1
  loop-IsReady method s works i =
      let (good, still) =
        each_host-IsOk is_open method (λ (h : HostCountersInfo Q T). is_open h.query ≡ true) works
          s.host_counters s.world i.all_open in
      (good, moved-IsReady is_open objects s _ refl refl refl still i)

  prime_hosts-IsReady : Achieves Ready Ready (prime_hosts queries system)
  unfolding prime_hosts
  prime_hosts-IsReady = record {
    outcome = λ s i. ignore_checked-IsReady s.config.ignored_errors _ (
        loop-IsReady (on_host queries system queries.collect_data) s
          (λ h w opened. working.collects h.query w opened) i);
  }

  mark_refreshed-IsReady : Achieves Ready Ready (mark_refreshed queries system)
  unfolding mark_refreshed
  mark_refreshed-IsReady = record {
    outcome = λ s i. (tt, moved-IsReady is_open objects s _ refl refl refl i.all_open i);
  }

  nothing-IsReady : {A : Type 0} (a : A) → Achieves Ready Ready (pure a)
  nothing-IsReady a = record { outcome = λ s i. (tt, i) }

  refresh-IsReady : Achieves Ready Ready (refresh queries system)
  unfolding refresh
  refresh-IsReady =
      bind-Achieves Ready Ready Ready _ _
        (bind-Achieves Ready Ready Ready _ _
          (clean_queries-IsReady queries system is_open objects some_object working)
          (λ u. parse_config-IsReady queries system is_open objects some_object working))
        (λ u. bind-Achieves Ready Ready Ready _ _ prime_hosts-IsReady (λ go_on.
          if-Achieves Ready Ready go_on _ _ mark_refreshed-IsReady (nothing-IsReady false)))

  collect_host-IsReady :
      (config : Config) (h : HostCountersInfo Q T) (w : W)
      → is_open h.query ≡ true
      → let o = collect_host queries system config h w in IsOk o.0 × (is_open o.1.query ≡ true)
  unfolding collect_host
  collect_host-IsReady config h w opened =
      either_branch {A = Result (Unit {0}) × HostCountersInfo Q T × W}
        (λ o. IsOk o.0 × (is_open o.1.query ≡ true))
        (config.use_perf_counter_time && queries.is_vista_or_newer)
        (working.collects_with_time h.query w opened)
        (working.collects h.query (system.now w).1 opened)

  collect_hosts-IsReady : Achieves Ready Ready (collect_hosts queries system)
  unfolding collect_hosts
  collect_hosts-IsReady = record {
    outcome = λ s i. loop-IsReady _ s (collect_host-IsReady s.config) i;
  }

  gather_samples-IsReady : Achieves Ready Ready (gather_samples queries system)
  unfolding gather_samples
  gather_samples-IsReady = record {
    outcome = λ s i.
        let (good, still) =
          gather_hosts-IsOk queries system is_open working s.config s.host_counters s.world i.single
            i.all_open in
        (good, moved-IsReady is_open objects s _ refl refl refl still i);
  }

  gather_data-IsReady : Achieves Ready Ready (gather_data queries system)
  unfolding gather_data
  gather_data-IsReady =
      bind-Achieves Ready Ready Ready _ _ collect_hosts-IsReady (λ u. gather_samples-IsReady)

  pub gather-IsReady : Achieves Ready Ready (gather queries system)
  unfolding gather
  gather-IsReady = bind-Achieves Ready Ready Ready _ _ is_refresh_due-IsReady (λ due.
      bind-Achieves Ready Ready Ready _ _
        (if-Achieves Ready Ready due _ _ refresh-IsReady (nothing-IsReady true))
        (λ go_on. if-Achieves Ready Ready go_on _ _ gather_data-IsReady (nothing-IsReady tt)))
