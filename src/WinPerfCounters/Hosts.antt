-- ===== src/WinPerfCounters/Hosts.antt =====
-- `cleanQueries` and `parseConfig` (win_perf_counters.go). A range over the map of hosts visits its
-- entries in the order of the list; the theorems hold for every such order.
pub mod Invariants
pub mod Cleaning
pub mod Tolerance
pub mod Broken
pub mod First
pub mod Configured
pub mod Working
use win_perf_counters.Path.{format_path, localhost}
use win_perf_counters.Prelude.{
  ℕ, Bool, true, false, Option, none, some, List, [], ◌∷◌, if◌then◌else◌,
}
use win_perf_counters.Result.{Error, no_objects, Result, ok, err, panic, out_of_fuel}
use win_perf_counters.Text.{Text, text_eq}
use win_perf_counters.WinPerfCounters.Items.{ItemArgs, add_item}
use win_perf_counters.WinPerfCounters.Model.{
  PerfObject, Config, HostCountersInfo, Hosts, State, PerformanceQuery, System, Action, pure, fail,
  continue, ◌>>=◌, ◌>>◌, for_each,
}

module _ {W Q T : Type 0}
    (method : HostCountersInfo Q T → W → Result (Unit {0}) × HostCountersInfo Q T × W) where
  abbrev pub put_first :
      Text
      → HostCountersInfo Q T
      → Result (Unit {0}) × Hosts Q T × W
      → Result (Unit {0}) × Hosts Q T × W
  put_first k h (r, hosts, w) = (r, (k, h) ∷ hosts, w)

  -- A loop over the hosts that ends at the first error; a host may be changed by its own round.
  unfoldable pub each_host : Hosts Q T → W → Result (Unit {0}) × Hosts Q T × W
  each_host [] w = (ok tt, [], w)
  each_host ((k, h) ∷ hosts) w =
      let (r, h', w') = method h w in
      elim r [
        | ok u ↦ put_first k h' (each_host hosts w')
        | err e ↦ (err e, (k, h') ∷ hosts, w')
        | panic ↦ (panic, (k, h') ∷ hosts, w')
        | out_of_fuel ↦ (out_of_fuel, (k, h') ∷ hosts, w')
      ]

module _ {W Q T D : Type 0} (queries : PerformanceQuery W Q T D) (system : System W T) where
  abbrev pub Act : Type 0 → Type 0
  Act = Action W Q T D

  -- The state after such a loop.
  abbrev pub in_hosts :
      Result (Unit {0}) × Hosts Q T × W → State W Q T D → Result (Unit {0}) × State W Q T D
  in_hosts (r, hosts, w) s = (r, record s { host_counters = hosts; world = w })

  -- A method of the query of a host.
  abbrev pub on_host :
      (Q → W → Result (Unit {0}) × Q × W)
      → HostCountersInfo Q T
      → W
      → Result (Unit {0}) × HostCountersInfo Q T × W
  on_host method h w = let (r, q, w') = method h.query w in (r, record h { query = q }, w')

  unfoldable pub close_hosts : Act (Unit {0})
  unfolding each_host
  close_hosts s = in_hosts (each_host (on_host queries.close) s.host_counters s.world) s

  abbrev pub forget_hosts : Act (Unit {0})
  forget_hosts s = (ok tt, record s { host_counters = [] })

  -- `cleanQueries`
  unfoldable pub clean_queries : Act (Unit {0})
  unfolding close_hosts
  clean_queries = close_hosts >> forget_hosts

  -- What `parseConfig` does with the error of an item.
  abbrev pub tolerate : Bool → Result (Unit {0}) × State W Q T D → Result (Unit {0}) × State W Q T D
  tolerate fail_on_missing (ok u, s) = (ok u, s)
  tolerate fail_on_missing (err e, s) = if fail_on_missing then (err e, s) else (ok tt, s)
  tolerate fail_on_missing (panic, s) = (panic, s)
  tolerate fail_on_missing (out_of_fuel, s) = (out_of_fuel, s)

  abbrev pub named_computer : Text → Text
  named_computer computer = if text_eq computer [] then localhost else computer

  abbrev pub item_args : PerfObject → Text → Text → ItemArgs
  item_args o counter inst = record {
    object_name = o.object_name;
    instance_name = inst;
    counter_name = counter;
    measurement = o.measurement;
    include_total = o.include_total;
    use_raw_value = o.use_raw_values;
  }

  -- The innermost round: one instance.
  unfoldable pub parse_instance : PerfObject → Text → Text → Text → Act (Unit {0})
  unfolding add_item format_path
  parse_instance o computer counter inst s = tolerate o.fail_on_missing (
      add_item queries system (format_path computer o.object_name inst counter) computer
        (item_args o counter inst) s)

  unfoldable pub parse_computer : PerfObject → Text → Act (Unit {0})
  unfolding parse_instance text_eq
  parse_computer o computer = for_each o.counters (λ counter.
      for_each o.instances (λ inst. parse_instance o (named_computer computer) counter inst))

  -- The computers of an object: its own, or those of the whole configuration.
  abbrev pub computers_of : List Text → List Text → List Text
  computers_of common [] = common
  computers_of common (c ∷ cs) = c ∷ cs

  unfoldable pub parse_object : List Text → PerfObject → Act (Unit {0})
  unfolding parse_computer
  parse_object common o = for_each (computers_of common o.sources) (parse_computer o)

  abbrev pub default_sources : List Text → List Text
  default_sources [] = localhost ∷ []
  default_sources (c ∷ cs) = c ∷ cs

  abbrev pub parse_objects : List PerfObject → List Text → Act (Unit {0})
  parse_objects [] common = fail no_objects
  parse_objects (o ∷ os) common = for_each (o ∷ os) (parse_object common)

  -- `parseConfig`: the default for the sources is stored.
  unfoldable pub parse_config : Act (Unit {0})
  unfolding parse_object
  parse_config s =
      let common = default_sources s.config.sources in
      let config = record s.config { sources = common } in
      parse_objects config.object common (record s { config = config })
