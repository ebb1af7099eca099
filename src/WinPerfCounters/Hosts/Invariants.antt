-- ===== src/WinPerfCounters/Hosts/Invariants.antt =====
-- What the loops over the hosts and `parseConfig` keep.
use win_perf_counters.Path.{format_path}
use win_perf_counters.Prelude.{◌≡◌, refl, Bool, true, false, List, [], ◌∷◌, All}
use win_perf_counters.Result.{Result, ok, err, panic, out_of_fuel}
use win_perf_counters.Text.{Text}
use win_perf_counters.WinPerfCounters.Ensures.{Preserves, keeping, for_each-Preserves}
use win_perf_counters.WinPerfCounters.Hosts.{
  each_host, tolerate, named_computer, item_args, parse_instance, parse_computer, parse_object,
  default_sources, parse_objects, parse_config,
}
use win_perf_counters.WinPerfCounters.Items.{ItemArgs, add_item}
use win_perf_counters.WinPerfCounters.Model.{
  PerfObject, HostCountersInfo, Hosts, State, PerformanceQuery, System,
}

module _ {W Q T : Type 0} (P : HostCountersInfo Q T → Type 0)
    (method : HostCountersInfo Q T → W → Result (Unit {0}) × HostCountersInfo Q T × W)
    (keeps : (h : HostCountersInfo Q T) (w : W) → P h → P (method h w).1) where
  -- The rounds that follow one round, given how it ends.
  each_next-All :
      (k : Text) (h : HostCountersInfo Q T) (hosts : Hosts Q T) (w : W) (r : Result (Unit {0}))
      → (method h w).0 ≡ r
      → P h
      → All (λ e. P e.1) hosts
      → ((w' : W) → All (λ e. P e.1) (each_host method hosts w').1)
      → All (λ e. P e.1) (each_host method ((k, h) ∷ hosts) w).1
  unfolding each_host
  each_next-All k h hosts w (ok u) e p a rest = rw (e, each_host) (keeps h w p, rest _)
  each_next-All k h hosts w (err x) e p a rest = rw (e, each_host) (keeps h w p, a)
  each_next-All k h hosts w panic e p a rest = rw (e, each_host) (keeps h w p, a)
  each_next-All k h hosts w out_of_fuel e p a rest = rw (e, each_host) (keeps h w p, a)

  -- A property of the hosts that the rounds keep is kept, also when the loop ends early.
  pub each_host-All :
      (hosts : Hosts Q T) (w : W)
      → All (λ e. P e.1) hosts
      → All (λ e. P e.1) (each_host method hosts w).1
  each_host-All [] w a = unfold each_host in tt
  each_host-All ((k, h) ∷ hosts) w a =
      each_next-All k h hosts w _ refl a.0 a.1 (λ w'. each_host-All hosts w' a.1)

module _ {W Q T D : Type 0} (queries : PerformanceQuery W Q T D) (system : System W T) where
  pub tolerate_state :
      (b : Bool) (o : Result (Unit {0}) × State W Q T D) → (tolerate queries system b o).1 ≡ o.1
  tolerate_state b (ok u, s) = refl
  tolerate_state true (err e, s) = refl
  tolerate_state false (err e, s) = refl
  tolerate_state b (panic, s) = refl
  tolerate_state b (out_of_fuel, s) = refl

  -- An invariant that every `addItem` keeps.
  module _ (I : State W Q T D → Type 0)
      (items : (path computer : Text) (args : ItemArgs)
        → Preserves I (add_item queries system path computer args)) where
    pub parse_instance-Preserves :
        (o : PerfObject) (computer counter inst : Text)
        → Preserves I (parse_instance queries system o computer counter inst)
    unfolding parse_instance
    parse_instance-Preserves o computer counter inst = keeping I _ (λ s i.
        rw (tolerate_state o.fail_on_missing _)
          ((items (format_path computer o.object_name inst counter) computer
              (item_args queries system o counter inst)).outcome
            s i).1)

    pub parse_computer-Preserves :
        (o : PerfObject) (computer : Text) → Preserves I (parse_computer queries system o computer)
    unfolding parse_computer
    parse_computer-Preserves o computer = for_each-Preserves I o.counters _ (λ counter.
        for_each-Preserves I o.instances _ (λ inst.
          parse_instance-Preserves o (named_computer queries system computer) counter inst))

    pub parse_object-Preserves :
        (common : List Text) (o : PerfObject) → Preserves I (parse_object queries system common o)
    unfolding parse_object
    parse_object-Preserves common o = for_each-Preserves I _ _ (parse_computer-Preserves o)

    parse_objects-Preserves :
        (os : List PerfObject) (common : List Text)
        → Preserves I (parse_objects queries system os common)
    parse_objects-Preserves [] common = keeping I _ (λ s h. h)
    parse_objects-Preserves (o ∷ os) common =
        for_each-Preserves I (o ∷ os) _ (parse_object-Preserves common)

    -- So does `parseConfig`, if the invariant does not look at the configured sources.
    pub parse_config-Preserves :
        ((s : State W Q T D) (sources : List Text)
          → I s
          → I (record s { config = record s.config { sources = sources } }))
        → Preserves I (parse_config queries system)
    unfolding parse_config
    parse_config-Preserves stored = keeping I _ (λ s i.
        ((parse_objects-Preserves s.config.object
            (default_sources queries system s.config.sources)).outcome
          _ (stored s _ i)).1)
