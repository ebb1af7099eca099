-- ===== src/WinPerfCounters/Gathering/Invariant.antt =====
-- What holds of the collector from its construction on, whatever is called.
use win_perf_counters.Dict.Entries.{insert-All, lookup-All}
use win_perf_counters.Prelude.{
  ℕ, ◌≡◌, refl, Bool, true, false, Option, List, [], ◌∷◌, All, All-append, subst, sym,
  if◌then◌else◌, ◌&&◌,
}
use win_perf_counters.Result.{Result, ok, err, panic, out_of_fuel, OnOk}
use win_perf_counters.Text.{Text, text_eq}
use win_perf_counters.WinPerfCounters.Ensures.{
  Preserves, keeping, bind-Preserves, pure-Preserves, if-Ensures,
}
use win_perf_counters.WinPerfCounters.Fields.Groups.{IsNamed}
use win_perf_counters.WinPerfCounters.Gathering.Repeated.{gathers-Preserves}
use win_perf_counters.WinPerfCounters.Gathering.Samples.{
  IsSample, gather_computer_counters-IsSample,
}
use win_perf_counters.WinPerfCounters.Gathering.{
  gather_computer_counters, samples_of, gather_hosts, is_refresh_due, ignore_checked, prime_hosts,
  mark_refreshed, refresh, collect_host, collect_hosts, gather_samples, gather_data, gather,
  gathers,
}
use win_perf_counters.WinPerfCounters.Hosts.Invariants.{each_host-All, parse_config-Preserves}
use win_perf_counters.WinPerfCounters.Hosts.{
  each_host, on_host, close_hosts, forget_hosts, clean_queries, parse_config,
}
use win_perf_counters.WinPerfCounters.Items.Changes.{ItemInvariant}
use win_perf_counters.WinPerfCounters.Items.Invariants.{add_item-Preserves}
use win_perf_counters.WinPerfCounters.Model.{
  Config, HostCountersInfo, Hosts, Sample, State, PerformanceQuery, System,
}

-- The counters of the host have the names that `newCounter` makes.
abbrev pub HasNamed : {Q T : Type 0} → HostCountersInfo Q T → Type 0
HasNamed h = All IsNamed h.counters

-- All counters have names, and so have all samples passed on.
pub record IsClean {W Q T D : Type 0} (s : State W Q T D) : Type 0 where
  pub hosts : All (λ e. HasNamed e.1) s.host_counters
  pub passed : All IsSample s.samples

module _ {W Q T D : Type 0} (queries : PerformanceQuery W Q T D) (system : System W T) where
  with_hosts :
      (s : State W Q T D) (config : Config) (last : Option T) (hosts : Hosts Q T) (name : Text)
      (w : W)
      → All (λ e. HasNamed e.1) hosts
      → IsClean s
      → IsClean (record {
        config = config;
        last_refreshed = last;
        host_counters = hosts;
        cached_hostname = name;
        samples = s.samples;
        world = w;
      })
  with_hosts s config last hosts name w a i = record { hosts = a; passed = i.passed }

  IsClean-ItemInvariant : (c : Text) → ItemInvariant queries system (IsClean {D = D}) c
  IsClean-ItemInvariant c = record {
    cached = λ s name i. with_hosts s _ _ _ _ _ i.hosts i;
    queried = λ s h q w e i.
        with_hosts s _ _ _ _ _
          (insert-All text_eq HasNamed c _ s.host_counters
            (lookup-All text_eq HasNamed c h s.host_counters e i.hosts) i.hosts)
          i;
    created = λ s tag i.
        with_hosts s _ _ _ _ _ (insert-All text_eq HasNamed c _ s.host_counters tt i.hosts) i;
    appended = λ s h item e n i.
        with_hosts s _ _ _ _ _
          (insert-All text_eq HasNamed c _ s.host_counters
            (All-append IsNamed h.counters (item ∷ [])
              (lookup-All text_eq HasNamed c h s.host_counters e i.hosts) (n, tt))
            i.hosts)
          i;
  }

  -- A loop over the hosts.
  each_host-IsClean :
      (method : HostCountersInfo Q T → W → Result (Unit {0}) × HostCountersInfo Q T × W)
      (s : State W Q T D)
      → ((h : HostCountersInfo Q T) (w : W) → HasNamed h → HasNamed (method h w).1)
      → IsClean s
      → IsClean (record s {
        host_counters = (each_host method s.host_counters s.world).1;
        world = (each_host method s.host_counters s.world).2;
      })
  each_host-IsClean method s keeps i =
      with_hosts s _ _ _ _ _ (each_host-All HasNamed method keeps s.host_counters s.world i.hosts) i

  on_host-HasNamed :
      (method : Q → W → Result (Unit {0}) × Q × W) (h : HostCountersInfo Q T) (w : W)
      → HasNamed h
      → HasNamed (on_host queries system method h w).1
  on_host-HasNamed method h w n = n

  clean_queries-IsClean : Preserves IsClean (clean_queries queries system)
  unfolding clean_queries close_hosts
  clean_queries-IsClean =
      bind-Preserves IsClean (close_hosts queries system) (λ u. forget_hosts queries system)
        (keeping IsClean _ (λ s i. each_host-IsClean _ s (on_host-HasNamed queries.close) i))
        (λ u. keeping IsClean _ (λ s i. with_hosts s _ _ _ _ _ tt i))

  parse_config-IsClean : Preserves IsClean (parse_config queries system)
  parse_config-IsClean =
      parse_config-Preserves queries system IsClean
        (λ path c args. add_item-Preserves queries system c (IsClean-ItemInvariant c) path args)
        (λ s sources i. with_hosts s _ _ _ _ _ i.hosts i)

  pub ignored_state :
      (ignored : List Text) (o : Result (Unit {0}) × State W Q T D)
      → (ignore_checked queries system ignored o).1 ≡ o.1
  ignored_state ignored (ok u, s) = refl
  ignored_state ignored (err e, s) = refl
  ignored_state ignored (panic, s) = refl
  ignored_state ignored (out_of_fuel, s) = refl

  prime_hosts-IsClean : Preserves IsClean (prime_hosts queries system)
  unfolding prime_hosts
  prime_hosts-IsClean = keeping IsClean _ (λ s i.
      rw (ignored_state s.config.ignored_errors _)
        (each_host-IsClean _ s (on_host-HasNamed queries.collect_data) i))

  refresh-IsClean : Preserves IsClean (refresh queries system)
  unfolding refresh mark_refreshed
  refresh-IsClean =
      bind-Preserves IsClean _ _
        (bind-Preserves IsClean _ _ clean_queries-IsClean (λ u. parse_config-IsClean))
        (λ u. bind-Preserves IsClean _ _ prime_hosts-IsClean (λ go_on.
          if-Ensures IsClean go_on _ _ (keeping IsClean _ (λ s i. with_hosts s _ _ _ _ _ i.hosts i))
            (pure-Preserves IsClean false)))

  if-HasNamed :
      (b : Bool) (x y : Result (Unit {0}) × HostCountersInfo Q T × W)
      → HasNamed x.1
      → HasNamed y.1
      → HasNamed (if b then x else y).1
  if-HasNamed true x y m n = m
  if-HasNamed false x y m n = n

  collect_host-HasNamed :
      (config : Config) (h : HostCountersInfo Q T) (w : W)
      → HasNamed h
      → HasNamed (collect_host queries system config h w).1
  unfolding collect_host
  collect_host-HasNamed config h w n =
      if-HasNamed (config.use_perf_counter_time && queries.is_vista_or_newer) _ _ n n

  collect_hosts-IsClean : Preserves IsClean (collect_hosts queries system)
  unfolding collect_hosts
  collect_hosts-IsClean =
      keeping IsClean _ (λ s i. each_host-IsClean _ s (collect_host-HasNamed s.config) i)

  -- The goroutines leave the hosts' counters as they are, and pass on samples with names.
  samples_of-IsSample :
      (r : Result (List (Sample T D)))
      → OnOk (All IsSample) r
      → All IsSample (samples_of queries system r).1
  samples_of-IsSample (ok xs) h = h
  samples_of-IsSample (err e) h = tt
  samples_of-IsSample panic h = tt
  samples_of-IsSample out_of_fuel h = tt

  computer-HasNamed :
      (config : Config) (h : HostCountersInfo Q T) (w : W)
      → HasNamed h
      → HasNamed (gather_computer_counters queries system config h w).1
  unfolding gather_computer_counters
  computer-HasNamed config h w n = n

  first-IsSample :
      (config : Config) (k : Text) (h : HostCountersInfo Q T) (hosts : Hosts Q T) (w : W)
      → HasNamed h
      → (let (passed, hosts', w') =
            gather_hosts queries system config hosts
              (gather_computer_counters queries system config h w).2 in
          All IsSample passed.1 × All (λ e. HasNamed e.1) hosts')
      → let (passed, hosts', w') = gather_hosts queries system config ((k, h) ∷ hosts) w in
        All IsSample passed.1 × All (λ e. HasNamed e.1) hosts'
  unfolding gather_hosts
  first-IsSample config k h hosts w n rest = (
    All-append IsSample _ _
        (samples_of-IsSample _ (gather_computer_counters-IsSample queries system config h w n))
        rest.0,
    (computer-HasNamed config h w n, rest.1),
  )

  gather_hosts-IsSample :
      (config : Config) (hosts : Hosts Q T) (w : W)
      → All (λ e. HasNamed e.1) hosts
      → let (passed, hosts', w') = gather_hosts queries system config hosts w in
        All IsSample passed.1 × All (λ e. HasNamed e.1) hosts'
  gather_hosts-IsSample config [] w a = unfold gather_hosts in (tt, tt)
  gather_hosts-IsSample config ((k, h) ∷ hosts) w a = first-IsSample config k h hosts w a.0 (
      gather_hosts-IsSample config hosts (gather_computer_counters queries system config h w).2 a.1)

  gather_samples-IsClean : Preserves IsClean (gather_samples queries system)
  unfolding gather_samples
  gather_samples-IsClean = keeping IsClean _ (λ s i.
      let (h, a) = gather_hosts-IsSample s.config s.host_counters s.world i.hosts in
      record { hosts = a; passed = All-append IsSample s.samples _ i.passed h })

  gather_data-IsClean : Preserves IsClean (gather_data queries system)
  unfolding gather_data
  gather_data-IsClean =
      bind-Preserves IsClean _ _ collect_hosts-IsClean (λ u. gather_samples-IsClean)

  is_refresh_due-IsClean : Preserves IsClean (is_refresh_due queries system)
  unfolding is_refresh_due
  is_refresh_due-IsClean = keeping IsClean _ (λ s i. with_hosts s _ _ _ _ _ i.hosts i)

  gather-IsClean : Preserves IsClean (gather queries system)
  unfolding gather
  gather-IsClean = bind-Preserves IsClean _ _ is_refresh_due-IsClean (λ due.
      bind-Preserves IsClean _ _
        (if-Ensures IsClean due _ _ refresh-IsClean (pure-Preserves IsClean true))
        (λ go_on. if-Ensures IsClean go_on _ _ gather_data-IsClean (pure-Preserves IsClean tt)))

  -- No host, and nothing passed on.
  pub fresh-IsClean : (s : State W Q T D) → s.host_counters ≡ [] → s.samples ≡ [] → IsClean s
  fresh-IsClean s no_hosts no_samples = record {
    hosts = subst (All (λ e. HasNamed e.1)) (sym no_hosts) tt;
    passed = subst (All IsSample) (sym no_samples) tt;
  }

  pub gathers-IsClean : (n : ℕ) → Preserves IsClean (gathers queries system n)
  gathers-IsClean n = gathers-Preserves queries system IsClean gather-IsClean n
