-- ===== src/WinPerfCounters/Gathering/Reads.antt =====
-- `gatherComputerCounters` without expansion (win_perf_counters.go) returns where every query is open,
-- and leaves it open.
use win_perf_counters.Names
use win_perf_counters.Prelude.{
  ◌≡◌, refl, Bool, true, false, not, Option, none, some, List, [], ◌∷◌, map, either_branch,
}
use win_perf_counters.Errors.{is_known_counter_data_error}
use win_perf_counters.Query.{NamedValue}
use win_perf_counters.Result
use win_perf_counters.Result.{Error, Result, ok, err, panic, out_of_fuel, Returns}
use win_perf_counters.WinPerfCounters.Fields.{
  Gathering, skip_or_return, after_array, after_raw_array, after_double_array, over_result,
  with_value,
}
use win_perf_counters.WinPerfCounters.Gathering.{
  gather_by, gather_counters, gather_computer_counters, samples_of, gather_hosts, no_groups,
  samples_if,
}
use win_perf_counters.WinPerfCounters.Model.{
  Config, HostCountersInfo, Hosts, Value, raw, double, PerformanceQuery, System,
}
use win_perf_counters.WinPerfCounters.Working.{IsOk, Answers, AllOpen, IsWorking}

module _ {D : Type 0} where
  skip-Returns :
      (metric : Names.Counter) (x : Error) (g : Gathering D) → Returns (skip_or_return metric x g)
  skip-Returns metric x g = either_branch Returns (not (is_known_counter_data_error x)) tt tt

  after_array-Returns :
      (metric : Names.Counter) (g : Gathering D) (values : List (NamedValue (Value D)))
      (failed : Option Error)
      → Returns (after_array metric g values failed)
  after_array-Returns metric g values none = tt
  after_array-Returns metric g values (some x) = skip-Returns metric x _

  after_raw_array-Returns :
      {V : Type 0} (f : V → Value D) (metric : Names.Counter) (g : Gathering D)
      (r : Result (List (NamedValue V)))
      → Returns r
      → Returns (after_raw_array metric g (over_result (map (with_value f)) r))
  after_raw_array-Returns f metric g (ok values) h = tt
  after_raw_array-Returns f metric g (err x) h = skip-Returns metric x _
  after_raw_array-Returns f metric g panic h = h
  after_raw_array-Returns f metric g out_of_fuel h = h

  after_double_array-Returns :
      {V : Type 0} (f : V → Value D) (metric : Names.Counter) (g : Gathering D)
      (r : Result (List (NamedValue V)))
      → Returns r
      → Returns (after_double_array metric g (over_result (map (with_value f)) r))
  after_double_array-Returns f metric g (ok values) h = after_array-Returns metric g _ g.last_error
  after_double_array-Returns f metric g (err x) h = after_array-Returns metric g [] g.last_error
  after_double_array-Returns f metric g panic h = h
  after_double_array-Returns f metric g out_of_fuel h = h

module _ {W Q T D : Type 0} (queries : PerformanceQuery W Q T D) (system : System W T)
    (is_open : Q → Bool) (working : IsWorking queries is_open) where
  gather_by-Answers :
      (use_raw : Bool) (metric : Names.Counter) (g : Gathering D)
      → Answers is_open (gather_by queries system false use_raw metric g)
  unfolding gather_by
  gather_by-Answers true metric g q w opened =
      let (returned, still) = working.reads_raw metric.counter_handle q w opened in
      (after_raw_array-Returns raw metric g _ returned, still)
  gather_by-Answers false metric g q w opened =
      let (returned, still) = working.reads_double metric.counter_handle q w opened in
      (after_double_array-Returns double metric g _ returned, still)

  next_counter-Answers :
      (metric : Names.Counter) (metrics : List Names.Counter) (g : Gathering D) (q : Q) (w : W)
      (r : Result (Gathering D))
      → let o = gather_by queries system false metric.use_raw_value metric g q w in
        o.0 ≡ r
        → Returns r × (is_open o.1 ≡ true)
        → ((g : Gathering D) → Answers is_open (gather_counters queries system false metrics g))
        → let loop = gather_counters queries system false (metric ∷ metrics) g q w in
          Returns loop.0 × (is_open loop.1 ≡ true)
  unfolding gather_counters
  next_counter-Answers metric metrics g q w (ok g') e p rest =
      rw (e, gather_counters) (rest g' _ _ p.1)
  next_counter-Answers metric metrics g q w (err x) e p rest = rw (e, gather_counters) (tt, p.1)
  next_counter-Answers metric metrics g q w panic e p rest = elim p.0 [ ]
  next_counter-Answers metric metrics g q w out_of_fuel e p rest = elim p.0 [ ]

  gather_counters-Answers :
      (metrics : List Names.Counter) (g : Gathering D)
      → Answers is_open (gather_counters queries system false metrics g)
  gather_counters-Answers [] g q w opened = unfold gather_counters in (tt, opened)
  gather_counters-Answers (metric ∷ metrics) g q w opened =
      next_counter-Answers metric metrics g q w _ refl
        (gather_by-Answers metric.use_raw_value metric g q w opened)
        (gather_counters-Answers metrics)

  -- What `Gather` makes of the outcome of a goroutine.
  samples-IsOk :
      (collect : Bool) (h : HostCountersInfo Q T) (r : Result (Gathering D))
      → Returns r
      → IsOk
          (samples_of queries system
            (over_result (λ (g : Gathering D). samples_if queries system collect h (ok g)) r)).0
  samples-IsOk collect h (ok g) p = tt
  samples-IsOk collect h (err x) p = tt
  samples-IsOk collect h panic p = p
  samples-IsOk collect h out_of_fuel p = p

  join-IsOk : (r r' : Result (Unit {0})) → IsOk r → IsOk r' → IsOk (Result.◌>>◌ r r')
  join-IsOk (ok u) r' p q = q
  join-IsOk (err x) r' p q = p
  join-IsOk panic r' p q = p
  join-IsOk out_of_fuel r' p q = p

  gather_computer-Answers :
      (config : Config) (h : HostCountersInfo Q T) (w : W)
      → config.use_wildcards_expansion ≡ false
      → is_open h.query ≡ true
      → let o = gather_computer_counters queries system config h w in
        IsOk (samples_of queries system o.0).0 × (is_open o.1.query ≡ true)
  unfolding gather_computer_counters
  gather_computer-Answers config h w single opened =
      let (returned, still) =
        gather_counters-Answers h.counters (no_groups queries system) h.query w opened in
      rw single (samples-IsOk config.has_collect h _ returned, still)

  pub gather_hosts-IsOk :
      (config : Config) (hosts : Hosts Q T) (w : W)
      → config.use_wildcards_expansion ≡ false
      → AllOpen is_open hosts
      → let o = gather_hosts queries system config hosts w in IsOk o.0.0 × AllOpen is_open o.1
  unfolding gather_hosts
  gather_hosts-IsOk config [] w single a = (tt, tt)
  gather_hosts-IsOk config ((k, h) ∷ hosts) w single a =
      let o = gather_computer_counters queries system config h w in
      let (good, still) = gather_computer-Answers config h w single a.0 in
      let (rest, others) = gather_hosts-IsOk config hosts o.2 single a.1 in
      (join-IsOk _ _ good rest, (still, others))
