-- ===== src/WinPerfCounters/Gathering.antt =====
-- `gatherComputerCounters` and `Gather` (win_perf_counters.go).
pub mod Repeated
pub mod Wedged
pub mod First
pub mod Samples
pub mod Collected
pub mod Counters
pub mod Configured
pub mod Reads
pub mod Total
pub mod Working
pub mod FromMemory
pub mod Invariant
pub mod Errors
use win_perf_counters.Errors.{check_error}
use win_perf_counters.Int.{ℤ, pos, negsuc}
use win_perf_counters.Names
use win_perf_counters.Prelude.{
  ℕ, zero, suc, Bool, true, false, not, ◌&&◌, ◌||◌, Option, none, some, List, [], ◌∷◌, ◌++◌, map,
  if◌then◌else◌,
}
use win_perf_counters.Query.{NamedValue}
use win_perf_counters.Result
use win_perf_counters.Result.{Error, Result, ok, err, panic, out_of_fuel}
use win_perf_counters.Text.{Text, codes, text_eq}
use win_perf_counters.WinPerfCounters.Fields.{
  InstanceGrouping, FieldGrouping, Gathering, after_value, after_raw_array, after_double_array,
  with_value, over_result, add_values, add_counter_measurement,
}
use win_perf_counters.WinPerfCounters.Hosts.{
  each_host, in_hosts, on_host, clean_queries, parse_config,
}
use win_perf_counters.WinPerfCounters.Model.{
  Config, HostCountersInfo, Hosts, Value, raw, double, Sample, State, PerformanceQuery, System,
  Action, pure, fail, continue, ◌>>=◌, ◌>>◌,
}

module _ {W Q T D : Type 0} (queries : PerformanceQuery W Q T D) (system : System W T) where
  -- One counter, by the two configuration flags that choose the call.
  unfoldable pub gather_by :
      Bool → Bool → Names.Counter → Gathering D → Q → W → Result (Gathering D) × Q × W
  gather_by true true metric g q w =
      let (r, q', w') = queries.get_raw_counter_value metric.counter_handle q w in
      (after_value metric g (over_result raw r), q', w')
  gather_by true false metric g q w =
      let (r, q', w') = queries.get_formatted_counter_value_double metric.counter_handle q w in
      (after_value metric g (over_result double r), q', w')
  gather_by false true metric g q w =
      let (r, q', w') = queries.get_raw_counter_array metric.counter_handle q w in
      (after_raw_array metric g (over_result (map (with_value raw)) r), q', w')
  gather_by false false metric g q w =
      let (r, q', w') = queries.get_formatted_counter_array_double metric.counter_handle q w in
      (after_double_array metric g (over_result (map (with_value double)) r), q', w')

  -- The loop over the counters of a host.
  unfoldable pub gather_counters :
      Bool → List Names.Counter → Gathering D → Q → W → Result (Gathering D) × Q × W
  unfolding gather_by
  gather_counters expansion [] g q w = (ok g, q, w)
  gather_counters expansion (metric ∷ metrics) g q w =
      let (r, q', w') = gather_by expansion metric.use_raw_value metric g q w in
      elim r [
        | ok g' ↦ gather_counters expansion metrics g' q' w'
        | err e ↦ (err e, q', w')
        | panic ↦ (panic, q', w')
        | out_of_fuel ↦ (out_of_fuel, q', w')
      ]

  abbrev optional_tag : Text → Text → List (Text × Text)
  optional_tag key value = if text_eq value [] then [] else (key, value) ∷ []

  -- The call of the function for the collected data, for one group.
  unfoldable pub sample_of :
      HostCountersInfo Q T → InstanceGrouping × List (Text × Value D) → Sample T D
  unfolding text_eq
  sample_of h (group, fields) = record {
    measurement = group.name;
    fields = fields;
    tags =
        ((codes "objectname", group.object_name)
          ∷ (optional_tag (codes "instance") group.instance_name
              ++ optional_tag (codes "source") h.tag));
    timestamp = h.timestamp;
  }

  abbrev pub samples_if : Bool → HostCountersInfo Q T → Result (Gathering D) → List (Sample T D)
  samples_if true h (ok g) = map (sample_of h) g.groups
  samples_if _ h _ = []

  abbrev pub no_groups : Gathering D
  no_groups = record { last_error = none; groups = [] }

  -- `gatherComputerCounters`, with the calls that it makes.
  unfoldable pub gather_computer_counters :
      Config → HostCountersInfo Q T → W → Result (List (Sample T D)) × HostCountersInfo Q T × W
  unfolding gather_counters sample_of
  gather_computer_counters config h w =
      let (r, q, w') =
        gather_counters config.use_wildcards_expansion h.counters no_groups h.query w in
      (
        over_result (λ (g : Gathering D). samples_if config.has_collect h (ok g)) r,
        record h { query = q },
        w',
      )

  -- What goroutines leave: whether the process goes on, and the samples that were passed on. They stay
  -- passed on if it does not.
  abbrev pub Passed : Type 0
  Passed = Result (Unit {0}) × List (Sample T D)

  -- One goroutine as `Gather` sees it: its error is formatted and dropped. One that panics has passed on
  -- nothing, since that is the last that it does.
  abbrev pub samples_of : Result (List (Sample T D)) → Passed
  samples_of (ok samples) = (ok tt, samples)
  samples_of (err e) = (ok tt, [])
  samples_of panic = (panic, [])
  samples_of out_of_fuel = (out_of_fuel, [])

  abbrev pub join_samples : Passed → Passed → Passed
  join_samples (r, xs) (r', ys) = (Result.◌>>◌ r r', xs ++ ys)

  -- The goroutines of `Gather`, one for each host, in the order of the list. Each touches its own
  -- host; the order of the calls between them is one of those that can happen. A panic in any of
  -- them ends the process, here when the others have run, so that what they have passed on is kept.
  unfoldable pub gather_hosts : Config → Hosts Q T → W → Passed × Hosts Q T × W
  unfolding gather_computer_counters
  gather_hosts config [] w = ((ok tt, []), [], w)
  gather_hosts config ((k, h) ∷ hosts) w =
      let (r, h', w') = gather_computer_counters config h w in
      let (rest, hosts', w'') = gather_hosts config hosts w' in
      (join_samples (samples_of r) rest, (k, h') ∷ hosts', w'')

  abbrev pub Act : Type 0 → Type 0
  Act = Action W Q T D

  -- The test for a refresh; a clock that is not needed is not read.
  abbrev pub is_positive : ℤ → Bool
  is_positive (pos zero) = false
  is_positive (pos (suc n)) = true
  is_positive (negsuc n) = false

  abbrev pub due_since : Option T → ℤ → W → Bool × W
  due_since none interval w = (true, w)
  due_since (some last) interval w =
      if is_positive interval
      then (system.passed last interval (system.now w).0, (system.now w).1)
      else (false, w)

  unfoldable pub is_refresh_due : Act Bool
  is_refresh_due s =
      let (due, w) = due_since s.last_refreshed s.config.counters_refresh_interval s.world in
      (ok due, record s { world = w })

  -- `return m.checkError(err)`: an ignored error ends `Gather` with nil. `false` says so.
  abbrev pub ignore_checked :
      List Text → Result (Unit {0}) × State W Q T D → Result Bool × State W Q T D
  ignore_checked ignored (ok u, s) = (ok true, s)
  ignore_checked ignored (err e, s) =
      (elim (check_error ignored e) [ none ↦ ok false | some e' ↦ err e' ], s)
  ignore_checked ignored (panic, s) = (panic, s)
  ignore_checked ignored (out_of_fuel, s) = (out_of_fuel, s)

  -- The first data of every host.
  unfoldable pub prime_hosts : Act Bool
  unfolding each_host check_error
  prime_hosts s = ignore_checked s.config.ignored_errors (
      in_hosts queries system
        (each_host (on_host queries system queries.collect_data) s.host_counters s.world) s)

  -- `m.lastRefreshed = time.Now()` and the pause behind it.
  unfoldable pub mark_refreshed : Act Bool
  mark_refreshed s =
      let (t, w) = system.now s.world in
      (ok true, record s { last_refreshed = some t; world = system.sleep w })

  -- The refresh; `false` if `Gather` ends here with nil.
  unfoldable pub refresh : Act Bool
  refresh =
      clean_queries queries system
      >> parse_config queries system
      >> (prime_hosts >>= λ go_on. if go_on then mark_refreshed else pure false)

  -- The time is stored beside an error too.
  abbrev pub after_timed :
      HostCountersInfo Q T
      → (T × Result (Unit {0})) × Q × W
      → Result (Unit {0}) × HostCountersInfo Q T × W
  after_timed h ((t, r), q, w) = (r, record h { query = q; timestamp = t }, w)

  -- The data of one host, with the time of the counters or that of the clock.
  unfoldable pub collect_host :
      Config → HostCountersInfo Q T → W → Result (Unit {0}) × HostCountersInfo Q T × W
  collect_host config h w =
      if config.use_perf_counter_time && queries.is_vista_or_newer
      then after_timed h (queries.collect_data_with_time h.query w)
      else let (t, w') = system.now w in
        on_host queries system queries.collect_data (record h { timestamp = t }) w'

  unfoldable pub collect_hosts : Act (Unit {0})
  unfolding each_host collect_host
  collect_hosts s =
      in_hosts queries system (each_host (collect_host s.config) s.host_counters s.world) s

  abbrev pub store_samples : Passed → State W Q T D → Result (Unit {0}) × State W Q T D
  store_samples (r, samples) s = (r, record s { samples = s.samples ++ samples })

  unfoldable pub gather_samples : Act (Unit {0})
  unfolding gather_hosts
  gather_samples s =
      let (passed, hosts, w) = gather_hosts s.config s.host_counters s.world in
      store_samples passed (record s { host_counters = hosts; world = w })

  unfoldable pub gather_data : Act (Unit {0})
  unfolding collect_hosts gather_samples
  gather_data = collect_hosts >> gather_samples

  -- `Gather`
  unfoldable pub gather : Act (Unit {0})
  gather = is_refresh_due >>= λ due.
      (if due then refresh else pure true) >>= λ go_on. if go_on then gather_data else pure tt

  -- What is returned is not looked at; a panic ends the process.
  abbrev pub ignored : Result (Unit {0}) × State W Q T D → Result (Unit {0}) × State W Q T D
  ignored (ok u, s) = (ok tt, s)
  ignored (err e, s) = (ok tt, s)
  ignored (panic, s) = (panic, s)
  ignored (out_of_fuel, s) = (out_of_fuel, s)

  abbrev pub ignoring : Act (Unit {0}) → Act (Unit {0})
  ignoring a s = ignored (a s)

  -- The loop of the command, for that many ticks.
  unfoldable pub gathers : ℕ → Act (Unit {0})
  unfolding gather
  gathers zero = pure tt
  gathers (suc n) = ignoring gather >> gathers n
