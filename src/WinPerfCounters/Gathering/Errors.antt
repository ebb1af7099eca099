-- ===== src/WinPerfCounters/Gathering/Errors.antt =====
-- How the errors of formatted arrays go through the loop of `gatherComputerCounters`.
use win_perf_counters.Errors.{is_known_counter_data_error}
use win_perf_counters.Names
use win_perf_counters.Prelude.{
  ℕ, ◌≡◌, refl, Bool, true, false, none, some, List, [], ◌∷◌, map, All, arith, sym, subst,
}
use win_perf_counters.Query.{NamedValue}
use win_perf_counters.Result.{Error, Result, ok, err, panic, out_of_fuel, Returns}
use win_perf_counters.WinPerfCounters.Fields.{
  Gathering, over_result, after_double_array, with_value, add_values,
}
use win_perf_counters.WinPerfCounters.Gathering.{gather_by, gather_counters}
use win_perf_counters.WinPerfCounters.Model.{Value, double, PerformanceQuery, System}

-- The counter is configured for a formatted value.
abbrev pub IsFormatted : Names.Counter → Type 0
IsFormatted metric = metric.use_raw_value ≡ false

module _ {W Q T D : Type 0} (queries : PerformanceQuery W Q T D) (system : System W T) where
  -- Every formatted array comes back, with a value or an error.
  abbrev pub ArraysReturn : Type 0
  ArraysReturn =
      (handle : ℕ) (q : Q) (w : W)
      → Returns (queries.get_formatted_counter_array_double handle q w).0

  -- Every formatted array fails.
  abbrev pub ArraysFail : Type 0
  ArraysFail =
      (handle : ℕ) (q : Q) (w : W)
      → (e : Error) × ((queries.get_formatted_counter_array_double handle q w).0 ≡ err e)

  pub gather_counters-ok :
      (expansion : Bool) (metric : Names.Counter) (metrics : List Names.Counter)
      (g g' : Gathering D) (q : Q) (w : W)
      → (gather_by queries system expansion metric.use_raw_value metric g q w).0 ≡ ok g'
      → let (r, q', w') = gather_by queries system expansion metric.use_raw_value metric g q w in
        gather_counters queries system expansion (metric ∷ metrics) g q w
        ≡ gather_counters queries system expansion metrics g' q' w'
  unfolding gather_counters
  gather_counters-ok expansion metric metrics g g' q w e = rw (e, gather_counters) refl

  stale_step :
      (metric : Names.Counter) (g : Gathering D) (e : Error)
      (r : Result (List (NamedValue (Value D))))
      → g.last_error ≡ some e
      → is_known_counter_data_error e ≡ true
      → Returns r
      → after_double_array metric g r ≡ ok g
  stale_step metric g e (ok vs) l k h = ground arith
  stale_step metric g e (err x) l k h = ground arith
  stale_step metric g e panic l k h = absurd h
  stale_step metric g e out_of_fuel l k h = absurd h

  over_result-Returns :
      {A B : Type 0} (f : A → B) (r : Result A) → Returns r → Returns (over_result f r)
  over_result-Returns f (ok a) h = tt
  over_result-Returns f (err e) h = tt
  over_result-Returns f panic h = h
  over_result-Returns f out_of_fuel h = h

  gather_by-stale :
      (metric : Names.Counter) (g : Gathering D) (e : Error) (q : Q) (w : W)
      → g.last_error ≡ some e
      → is_known_counter_data_error e ≡ true
      → ArraysReturn
      → (gather_by queries system false false metric g q w).0 ≡ ok g
  unfolding gather_by
  gather_by-stale metric g e q w l k returns =
      let r = (queries.get_formatted_counter_array_double metric.counter_handle q w).0 in
      stale_step metric g e (over_result (map (with_value double)) r) l k
        (over_result-Returns (map (with_value double)) r (returns metric.counter_handle q w))

  gather_counters-stale :
      (metrics : List Names.Counter) (g : Gathering D) (e : Error) (q : Q) (w : W)
      → g.last_error ≡ some e
      → is_known_counter_data_error e ≡ true
      → All IsFormatted metrics
      → ArraysReturn
      → (gather_counters queries system false metrics g q w).0 ≡ ok g
  gather_counters-stale [] g e q w l k f returns = unfold gather_counters in refl
  gather_counters-stale (metric ∷ metrics) g e q w l k f returns =
      let round = gather_by queries system false metric.use_raw_value metric g q w in
      let step : round.0 ≡ ok g =
        subst (λ b. (gather_by queries system false b metric g q w).0 ≡ ok g) (sym f.0)
          (gather_by-stale metric g e q w l k returns) in
      rw (gather_counters-ok false metric metrics g g q w step)
        (gather_counters-stale metrics g e round.1 round.2 l k f.1 returns)

  raw_step :
      (metric : Names.Counter) (g : Gathering D) (e : Error) (q : Q) (w : W)
      → metric.use_raw_value ≡ true
      → (queries.get_raw_counter_array metric.counter_handle q w).0 ≡ err e
      → is_known_counter_data_error e ≡ true
      → (gather_by queries system false metric.use_raw_value metric g q w).0
        ≡ ok (record g { last_error = some e })
  unfolding gather_by
  raw_step metric g e q w u failed k = rw u (rw (failed, k))

  -- Without wildcard expansion, if a raw array fails with one of the errors that are skipped, all
  -- counters behind it are for formatted values, and every call for a formatted array returns, with
  -- values or an error, then every counter behind it is skipped as well: the loop ends without an
  -- error and without a field from any of them, although their own calls may have succeeded.
  pub gather_counters_stale_error :
      (metric : Names.Counter) (metrics : List Names.Counter) (g : Gathering D) (e : Error) (q : Q)
      (w : W)
      → metric.use_raw_value ≡ true
      → (queries.get_raw_counter_array metric.counter_handle q w).0 ≡ err e
      → is_known_counter_data_error e ≡ true
      → All IsFormatted metrics
      → ArraysReturn
      → (gather_counters queries system false (metric ∷ metrics) g q w).0
        ≡ ok (record g { last_error = some e })
  gather_counters_stale_error metric metrics g e q w u failed k f returns =
      let g' : Gathering D = record g { last_error = some e } in
      let round = gather_by queries system false metric.use_raw_value metric g q w in
      rw (gather_counters-ok false metric metrics g g' q w (raw_step metric g e q w u failed k))
        (gather_counters-stale metrics g' e round.1 round.2 refl k f returns)

  silent_step :
      (metric : Names.Counter) (g : Gathering D) (q : Q) (w : W)
      → g.last_error ≡ none
      → ArraysFail
      → (gather_by queries system false false metric g q w).0 ≡ ok g
  unfolding gather_by add_values
  silent_step metric g q w l fails =
      let (e, failed) = fails metric.counter_handle q w in rw failed (ground arith)

  -- Without wildcard expansion, if every formatted array fails, with whatever error, the loop over
  -- formatted counters ends without an error and leaves the collected fields as they were: the errors
  -- are neither returned nor logged.
  pub gather_counters_silent :
      (metrics : List Names.Counter) (g : Gathering D) (q : Q) (w : W)
      → g.last_error ≡ none
      → All IsFormatted metrics
      → ArraysFail
      → (gather_counters queries system false metrics g q w).0 ≡ ok g
  gather_counters_silent [] g q w l f fails = unfold gather_counters in refl
  gather_counters_silent (metric ∷ metrics) g q w l f fails =
      let round = gather_by queries system false metric.use_raw_value metric g q w in
      let step : round.0 ≡ ok g =
        subst (λ b. (gather_by queries system false b metric g q w).0 ≡ ok g) (sym f.0)
          (silent_step metric g q w l fails) in
      rw (gather_counters-ok false metric metrics g g q w step)
        (gather_counters_silent metrics g round.1 round.2 l f.1 fails)
