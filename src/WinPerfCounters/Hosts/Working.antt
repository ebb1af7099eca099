-- ===== src/WinPerfCounters/Hosts/Working.antt =====
-- `cleanQueries` and `parseConfig` without expansion (win_perf_counters.go) succeed where every query
-- is open.
use win_perf_counters.Path.{format_path}
use win_perf_counters.Prelude.{◌≡◌, ◌≢◌, refl, sym, subst, Bool, true, List, [], ◌∷◌, All}
use win_perf_counters.Result.{Result, ok, err, panic, out_of_fuel}
use win_perf_counters.Text.{Text}
use win_perf_counters.WinPerfCounters.Hosts.{
  each_host, on_host, close_hosts, clean_queries, tolerate, named_computer, item_args,
  parse_instance, parse_computer, parse_object, default_sources, parse_objects, parse_config,
}
use win_perf_counters.WinPerfCounters.Items.Working.{add_item-IsReady}
use win_perf_counters.WinPerfCounters.Model.{
  PerfObject, HostCountersInfo, Hosts, State, PerformanceQuery, System,
}
use win_perf_counters.WinPerfCounters.Working.{
  IsOk, Achieves, bind-Achieves, for_each-Achieves, AllOpen, IsWorking, IsReady, moved-IsReady,
}

module _ {W Q T : Type 0} (is_open : Q → Bool)
    (method : HostCountersInfo Q T → W → Result (Unit {0}) × HostCountersInfo Q T × W) where
  next_host-IsOk :
      (P : HostCountersInfo Q T → Type 0) (k : Text) (h : HostCountersInfo Q T) (hosts : Hosts Q T)
      (w : W) (r : Result (Unit {0}))
      → (method h w).0 ≡ r
      → IsOk r × P (method h w).1
      → (let rest = each_host method hosts (method h w).2 in IsOk rest.0 × All (λ e. P e.1) rest.1)
      → let loop = each_host method ((k, h) ∷ hosts) w in IsOk loop.0 × All (λ e. P e.1) loop.1
  unfolding each_host
  next_host-IsOk P k h hosts w (ok u) e p rest = rw (e, each_host) (rest.0, (p.1, rest.1))
  next_host-IsOk P k h hosts w (err x) e p rest = elim p.0 [ ]
  next_host-IsOk P k h hosts w panic e p rest = elim p.0 [ ]
  next_host-IsOk P k h hosts w out_of_fuel e p rest = elim p.0 [ ]

  -- A loop over the hosts whose rounds all succeed.
  pub each_host-IsOk :
      (P : HostCountersInfo Q T → Type 0)
      → ((h : HostCountersInfo Q T) (w : W)
          → is_open h.query ≡ true
          → IsOk (method h w).0 × P (method h w).1)
      → (hosts : Hosts Q T) (w : W) → AllOpen is_open hosts
      → let loop = each_host method hosts w in IsOk loop.0 × All (λ e. P e.1) loop.1
  each_host-IsOk P works [] w a = unfold each_host in (tt, tt)
  each_host-IsOk P works ((k, h) ∷ hosts) w a =
      next_host-IsOk P k h hosts w _ refl (works h w a.0)
        (each_host-IsOk P works hosts (method h w).2 a.1)

module _ {W Q T D : Type 0} (queries : PerformanceQuery W Q T D) (system : System W T)
    (is_open : Q → Bool) (objects : List PerfObject) (some_object : objects ≢ [])
    (working : IsWorking queries is_open) where
  abbrev Ready : State W Q T D → Type 0
  Ready = IsReady is_open objects

  -- Ready if no host were in the map.
  abbrev WithoutHosts : State W Q T D → Type 0
  WithoutHosts s = Ready (record s { host_counters = [] })

  close_hosts-WithoutHosts : Achieves Ready WithoutHosts (close_hosts queries system)
  unfolding close_hosts
  close_hosts-WithoutHosts = record {
    outcome = λ s i.
        let (good, nothing) =
          each_host-IsOk is_open (on_host queries system queries.close) (λ h. Unit {0})
            (λ h w opened. (working.closes h.query w opened, tt)) s.host_counters s.world
            i.all_open in
        (good, moved-IsReady is_open objects s _ refl refl refl tt i);
  }

  pub clean_queries-IsReady : Achieves Ready Ready (clean_queries queries system)
  unfolding clean_queries
  clean_queries-IsReady =
      bind-Achieves Ready WithoutHosts Ready _ _ close_hosts-WithoutHosts
        (λ u. record { outcome = λ s i. (tt, i) })

  tolerate-IsReady :
      (b : Bool) (o : Result (Unit {0}) × State W Q T D)
      → IsOk o.0 × Ready o.1
      → IsOk (tolerate queries system b o).0 × Ready (tolerate queries system b o).1
  tolerate-IsReady b (ok u, s) h = h
  tolerate-IsReady b (err e, s) h = elim h.0 [ ]
  tolerate-IsReady b (panic, s) h = elim h.0 [ ]
  tolerate-IsReady b (out_of_fuel, s) h = elim h.0 [ ]

  parse_instance-IsReady :
      (o : PerfObject) (c counter inst : Text)
      → Achieves Ready Ready (parse_instance queries system o c counter inst)
  unfolding parse_instance
  parse_instance-IsReady o c counter inst = record {
    outcome = λ s i. tolerate-IsReady o.fail_on_missing _ (
        (add_item-IsReady queries system is_open objects working
            (format_path c o.object_name inst counter) c
            (item_args queries system o counter inst)).outcome
          s i);
  }

  parse_object-IsReady :
      (common : List Text) (o : PerfObject)
      → Achieves Ready Ready (parse_object queries system common o)
  unfolding parse_object parse_computer
  parse_object-IsReady common o = for_each-Achieves Ready _ _ (λ computer.
      for_each-Achieves Ready o.counters _ (λ counter.
        for_each-Achieves Ready o.instances _
          (λ inst. parse_instance-IsReady o (named_computer queries system computer) counter inst)))

  parse_objects-IsReady :
      (configured : List PerfObject) (common : List Text)
      → configured ≢ []
      → Achieves Ready Ready (parse_objects queries system configured common)
  parse_objects-IsReady [] common some = absurd (some refl)
  parse_objects-IsReady (o ∷ os) common some =
      for_each-Achieves Ready (o ∷ os) _ (parse_object-IsReady common)

  pub parse_config-IsReady : Achieves Ready Ready (parse_config queries system)
  unfolding parse_config
  parse_config-IsReady = record {
    outcome = λ s i.
        (parse_objects-IsReady s.config.object (default_sources queries system s.config.sources)
            (subst (λ l. l ≢ []) (sym i.same_objects) some_object)).outcome
          _ (moved-IsReady is_open objects s _ refl refl refl i.all_open i);
  }
