-- ===== src/WinPerfCounters/Gathering/Samples.antt =====
-- What the function for the collected data is called with.
use win_perf_counters.Names
use win_perf_counters.Names.Sanitized.{IsKept}
use win_perf_counters.Prelude.{◌≡◌, ◌≢◌, refl, Bool, true, false, List, [], ◌∷◌, map, All}
use win_perf_counters.Result.{Result, ok, err, panic, out_of_fuel, OnOk}
use win_perf_counters.WinPerfCounters.Fields.Groups.{
  IsNamed, AreFields, AreGroups, Collected, after_value-Collected, after_raw_array-Collected,
  after_double_array-Collected,
}
use win_perf_counters.WinPerfCounters.Fields.{FieldGrouping, Gathering, over_result}
use win_perf_counters.WinPerfCounters.Gathering.Errors.{gather_counters-ok}
use win_perf_counters.WinPerfCounters.Gathering.{
  gather_by, gather_counters, no_groups, sample_of, samples_if, gather_computer_counters,
}
use win_perf_counters.WinPerfCounters.Model.{
  Config, HostCountersInfo, Sample, PerformanceQuery, System,
}

-- The sample has a measurement and a field, and all those names are clean.
abbrev pub IsSample : {T D : Type 0} → Sample T D → Type 0
IsSample s = All IsKept s.measurement × (s.measurement ≢ []) × AreFields s.fields

module _ {W Q T D : Type 0} (queries : PerformanceQuery W Q T D) (system : System W T) where
  pub gather_by-Collected :
      (expansion raw_value : Bool) (metric : Names.Counter) (g : Gathering D) (q : Q) (w : W)
      → IsNamed metric
      → AreGroups g.groups
      → Collected (gather_by queries system expansion raw_value metric g q w).0
  unfolding gather_by
  gather_by-Collected true true metric g q w m a = after_value-Collected metric g _ m a
  gather_by-Collected true false metric g q w m a = after_value-Collected metric g _ m a
  gather_by-Collected false true metric g q w m a = after_raw_array-Collected metric g _ m a
  gather_by-Collected false false metric g q w m a = after_double_array-Collected metric g _ m a

  -- The rounds that follow one round, given what they collect.
  gather_next-Collected :
      (expansion : Bool) (metric : Names.Counter) (metrics : List Names.Counter) (g : Gathering D)
      (q : Q) (w : W) (r : Result (Gathering D))
      → (gather_by queries system expansion metric.use_raw_value metric g q w).0 ≡ r
      → Collected r
      → ((g' : Gathering D) (q' : Q) (w' : W)
          → AreGroups g'.groups
          → Collected (gather_counters queries system expansion metrics g' q' w').0)
      → Collected (gather_counters queries system expansion (metric ∷ metrics) g q w).0
  unfolding gather_counters
  gather_next-Collected expansion metric metrics g q w (ok g') e a rest =
      rw (gather_counters-ok queries system expansion metric metrics g g' q w e) (rest g' _ _ a)
  gather_next-Collected expansion metric metrics g q w (err x) e a rest = rw (e, gather_counters) tt
  gather_next-Collected expansion metric metrics g q w panic e a rest = rw (e, gather_counters) tt
  gather_next-Collected expansion metric metrics g q w out_of_fuel e a rest =
      rw (e, gather_counters) tt

  gather_counters-Collected :
      (expansion : Bool) (metrics : List Names.Counter) (g : Gathering D) (q : Q) (w : W)
      → All IsNamed metrics
      → AreGroups g.groups
      → Collected (gather_counters queries system expansion metrics g q w).0
  gather_counters-Collected expansion [] g q w m a = unfold gather_counters in a
  gather_counters-Collected expansion (metric ∷ metrics) g q w m a =
      gather_next-Collected expansion metric metrics g q w _ refl
        (gather_by-Collected expansion metric.use_raw_value metric g q w m.0 a)
        (λ g' q' w' a'. gather_counters-Collected expansion metrics g' q' w' m.1 a')

  samples-IsSample :
      (h : HostCountersInfo Q T) (groups : FieldGrouping D)
      → AreGroups groups
      → All IsSample (map (sample_of queries system h) groups)
  unfolding sample_of
  samples-IsSample h [] a = tt
  samples-IsSample h (g ∷ groups) a = (a.0, samples-IsSample h groups a.1)

  pub samples_if-IsSample :
      (collects : Bool) (h : HostCountersInfo Q T) (r : Result (Gathering D))
      → Collected r
      → OnOk
          (All IsSample)
          (over_result (λ (g : Gathering D). samples_if queries system collects h (ok g)) r)
  samples_if-IsSample true h (ok g) a = samples-IsSample h g.groups a
  samples_if-IsSample false h (ok g) a = tt
  samples_if-IsSample collects h (err e) a = tt
  samples_if-IsSample collects h panic a = tt
  samples_if-IsSample collects h out_of_fuel a = tt

  -- If the measurements of a host's counters are not empty and clean, as `newCounter` makes them,
  -- then in each call that the collection from that host makes the measurement is not empty, there is
  -- a field, and neither the measurement nor the name of a field has a space, a percent sign or a
  -- backslash, whatever values and errors the system answers.
  pub gather_computer_counters-IsSample :
      (config : Config) (h : HostCountersInfo Q T) (w : W)
      → All IsNamed h.counters
      → OnOk (All IsSample) (gather_computer_counters queries system config h w).0
  unfolding gather_computer_counters
  gather_computer_counters-IsSample config h w m = samples_if-IsSample config.has_collect h _ (
      gather_counters-Collected config.use_wildcards_expansion h.counters (no_groups queries system)
        h.query w m tt)
