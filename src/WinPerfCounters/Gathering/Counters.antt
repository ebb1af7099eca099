-- ===== src/WinPerfCounters/Gathering/Counters.antt =====
-- The steps of `Gather` that leave the counters of the hosts alone (win_perf_counters.go): all but a
-- refresh.
use win_perf_counters.Dict.{lookup}
use win_perf_counters.Prelude.{
  ◌≡◌, refl, ◌∙◌, ◌&&◌, List, [], ◌∷◌, if◌then◌else◌, either_branch, arith,
}
use win_perf_counters.Names
use win_perf_counters.Result.{Result}
use win_perf_counters.Text.{Text, text_eq}
use win_perf_counters.WinPerfCounters.Ensures.{Preserves, keeping, bind-Preserves}
use win_perf_counters.WinPerfCounters.Gathering.Invariant.{ignored_state}
use win_perf_counters.WinPerfCounters.Gathering.{
  is_refresh_due, prime_hosts, mark_refreshed, collect_host, gather_computer_counters, gather_hosts,
  collect_hosts, gather_samples, gather_data,
}
use win_perf_counters.WinPerfCounters.Hosts.Cleaning.{looped, goes_on, stops}
use win_perf_counters.WinPerfCounters.Hosts.{each_host}
use win_perf_counters.WinPerfCounters.Items.Grown.{counters_of}
use win_perf_counters.WinPerfCounters.Model.{
  Config, HostCountersInfo, Hosts, State, PerformanceQuery, System,
}

-- The counters of a computer are those of the first entry under its name.
counters_of-cons :
    {Q T : Type 0} (k j : Text) (h : HostCountersInfo Q T) (hosts : Hosts Q T)
    → counters_of k ((j, h) ∷ hosts) ≡ (if text_eq j k then h.counters else counters_of k hosts)
unfolding lookup
counters_of-cons k j h hosts = ground arith

module _ {W Q T : Type 0}
    (method : HostCountersInfo Q T → W → Result (Unit {0}) × HostCountersInfo Q T × W)
    (same : (h : HostCountersInfo Q T) (w : W) → (method h w).1.counters ≡ h.counters) where
  counters_of-each_host :
      (k : Text) (hosts : Hosts Q T) (w : W)
      → counters_of k (each_host method hosts w).1 ≡ counters_of k hosts
  counters_of-each_host k [] w = unfold each_host in refl
  counters_of-each_host k ((j, h) ∷ hosts) w = elim (looped method j h hosts w) [
    | goes_on e f ↦
        rw
          (
            e,
            counters_of-cons k j (method h w).1,
            counters_of-cons k j h hosts,
            same h w,
            counters_of-each_host k hosts (method h w).2,
          )
          refl
    | stops r ne e ↦
        rw (e, counters_of-cons k j (method h w).1, counters_of-cons k j h hosts, same h w) refl
  ]

module _ {W Q T D : Type 0} (queries : PerformanceQuery W Q T D) (system : System W T) where
  counters_of-gather_hosts :
      (config : Config) (k : Text) (hosts : Hosts Q T) (w : W)
      → counters_of k (gather_hosts queries system config hosts w).1 ≡ counters_of k hosts
  unfolding gather_hosts gather_computer_counters
  counters_of-gather_hosts config k [] w = refl
  counters_of-gather_hosts config k ((j, h) ∷ hosts) w =
      let (r, h', w') = gather_computer_counters queries system config h w in
      rw
        (
          counters_of-cons k j h',
          counters_of-cons k j h hosts,
          counters_of-gather_hosts config k hosts w',
        )
        refl

  -- The configuration and the counters of every computer are these.
  pub record Holds (config : Config) (counters : Text → List Names.Counter) (s : State W Q T D)
      : Type 0 where
    pub same_config : s.config ≡ config
    pub same_counters : (k : Text) → counters_of k s.host_counters ≡ counters k

  module _ (config : Config) (counters : Text → List Names.Counter) where
    -- A state with other hosts that have the same counters.
    moved :
        (s s' : State W Q T D)
        → s'.config ≡ s.config
        → ((k : Text) → counters_of k s'.host_counters ≡ counters_of k s.host_counters)
        → Holds config counters s
        → Holds config counters s'
    moved s s' c e i = record {
      same_config = c ∙ i.same_config;
      same_counters = λ k. e k ∙ i.same_counters k;
    }

    pub is_refresh_due-Holds : Preserves (Holds config counters) (is_refresh_due queries system)
    unfolding is_refresh_due
    is_refresh_due-Holds = keeping _ _ (λ s i. moved s _ refl (λ k. refl) i)

    pub prime_hosts-Holds : Preserves (Holds config counters) (prime_hosts queries system)
    unfolding prime_hosts
    prime_hosts-Holds = keeping _ _ (λ s i.
        rw (ignored_state queries system s.config.ignored_errors _)
          (moved s _ refl (λ k. counters_of-each_host _ (λ h w. refl) k s.host_counters s.world) i))

    pub mark_refreshed-Holds : Preserves (Holds config counters) (mark_refreshed queries system)
    unfolding mark_refreshed
    mark_refreshed-Holds = keeping _ _ (λ s i. moved s _ refl (λ k. refl) i)

    collect_host_counters :
        (config : Config) (h : HostCountersInfo Q T) (w : W)
        → (collect_host queries system config h w).1.counters ≡ h.counters
    unfolding collect_host
    collect_host_counters config h w =
        either_branch {A = Result (Unit {0}) × HostCountersInfo Q T × W}
          (λ o. o.1.counters ≡ h.counters)
          (config.use_perf_counter_time && queries.is_vista_or_newer) refl refl

    collect_hosts-Holds : Preserves (Holds config counters) (collect_hosts queries system)
    unfolding collect_hosts
    collect_hosts-Holds = keeping _ _ (λ s i.
        moved s _ refl
          (λ k. counters_of-each_host _ (collect_host_counters s.config) k s.host_counters s.world)
          i)

    gather_samples-Holds : Preserves (Holds config counters) (gather_samples queries system)
    unfolding gather_samples
    gather_samples-Holds =
        keeping _ _ (λ s i.
          moved s _ refl (λ k. counters_of-gather_hosts s.config k s.host_counters s.world) i)

    pub gather_data-Holds : Preserves (Holds config counters) (gather_data queries system)
    unfolding gather_data
    gather_data-Holds = bind-Preserves _ _ _ collect_hosts-Holds (λ u. gather_samples-Holds)
