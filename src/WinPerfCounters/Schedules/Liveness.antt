-- ===== src/WinPerfCounters/Schedules/Liveness.antt =====
-- The goroutines of `Gather` come to an end.
use mathlib.Core.List.{Perm}
use win_perf_counters.Names
use win_perf_counters.Prelude.{
  ℕ, zero, suc, ◌+◌, ◌≤◌, ◌≡◌, refl, sym, ◌∙◌, ap, subst, false, List, [], ◌∷◌, ◌++◌, map, length,
  All, arith,
}
use win_perf_counters.Result.{Result, ok, err, panic, out_of_fuel, Returns}
use win_perf_counters.WinPerfCounters.Fields.{Gathering, over_result}
use win_perf_counters.WinPerfCounters.Gathering.Errors.{gather_counters-ok}
use win_perf_counters.WinPerfCounters.Gathering.{
  gather_counters, no_groups, gather_computer_counters, gather_hosts, samples_of, join_samples,
}
use win_perf_counters.WinPerfCounters.Model.{
  Config, HostCountersInfo, Hosts, Sample, PerformanceQuery, System,
}
use win_perf_counters.WinPerfCounters.Schedules.Agreement.{
  IsFinished, pending, gather_one, gather_by_quiet, gather_counters_quiet, advance-pending,
  join_taken, taken, run-Perm,
}
use win_perf_counters.WinPerfCounters.Schedules.Budget.{turns, budget, Enough, advance_at-Enough}
use win_perf_counters.WinPerfCounters.Schedules.Quiet.{IsQuiet}
use win_perf_counters.WinPerfCounters.Schedules.{
  Goroutine, reading, passing, finished, panicked, looping, Pool, any_panicked, after_round,
  advance, advance_at, step, run, goroutine_of, start,
}

module _ {W Q T D : Type 0} (queries : PerformanceQuery W Q T D) (system : System W T)
    (config : Config) (quiet : IsQuiet queries) where
  -- By itself the goroutine neither panics nor stays in a call.
  IsCalm : Goroutine Q T D → W → Type 0
  IsCalm (reading h q metrics g) w =
      Returns (gather_counters queries system config.use_wildcards_expansion metrics g q w).0
  IsCalm (passing samples) w = Unit
  IsCalm finished w = Unit
  IsCalm panicked w = ⊥
  IsCalm looping w = ⊥

  round-IsCalm :
      (h : HostCountersInfo Q T) (metric : Names.Counter) (metrics : List Names.Counter)
      (g : Gathering D) (q : Q) (w : W) (r : Result (Gathering D))
      → (gather_one queries system config quiet metric g q w).0 ≡ r
      → IsCalm (reading h q (metric ∷ metrics) g) w
      → IsCalm
          (after_round queries system config h
            (gather_one queries system config quiet metric g q w).1
            metrics
            r)
          (gather_one queries system config quiet metric g q w).2
  unfolding IsCalm gather_counters
  round-IsCalm h metric metrics g q w (ok g') e c =
      subst (λ (o : Result (Gathering D) × Q × W). Returns o.0)
        (gather_counters-ok queries system config.use_wildcards_expansion metric metrics g g' q w e)
        c
  round-IsCalm h metric metrics g q w (err x) e c = tt
  round-IsCalm h metric metrics g q w panic e c =
      let stuck : (gather_counters queries system config.use_wildcards_expansion (metric ∷ metrics)
            g q w).0
          ≡ panic =
        rw (e, gather_counters) refl in
      subst (λ (o : Result (Gathering D)). Returns o) stuck c
  round-IsCalm h metric metrics g q w out_of_fuel e c =
      let stuck : (gather_counters queries system config.use_wildcards_expansion (metric ∷ metrics)
            g q w).0
          ≡ out_of_fuel =
        rw (e, gather_counters) refl in
      subst (λ (o : Result (Gathering D)). Returns o) stuck c

  advance-IsCalm :
      (k : ℕ) (t : Goroutine Q T D) (w : W)
      → IsCalm t w
      → IsCalm (advance queries system config k t w).0 w
  unfolding advance
  advance-IsCalm k (reading h q [] g) w c = unfold IsCalm in tt
  advance-IsCalm k (reading h q (metric ∷ metrics) g) w c =
      let (r, q', w') = gather_one queries system config quiet metric g q w in
      subst (IsCalm (after_round queries system config h q' metrics r))
        (gather_by_quiet queries system config quiet config.use_wildcards_expansion
          metric.use_raw_value metric g q w)
        (round-IsCalm h metric metrics g q w r refl c)
  advance-IsCalm k (passing []) w c = unfold IsCalm in tt
  advance-IsCalm k (passing (s ∷ samples)) w c = unfold IsCalm in tt
  advance-IsCalm k finished w c = c
  advance-IsCalm k panicked w c = c
  advance-IsCalm k looping w c = c

  AreCalm : List (Goroutine Q T D) → W → Type 0
  AreCalm ts w = All (λ t. IsCalm t w) ts

  advance_at-AreCalm :
      (i k : ℕ) (ts : List (Goroutine Q T D)) (w : W)
      → AreCalm ts w
      → AreCalm (advance_at queries system config i k ts w).0 w
        × ((advance_at queries system config i k ts w).1 ≡ w)
  unfolding advance_at AreCalm
  advance_at-AreCalm i k [] w c = (tt, refl)
  advance_at-AreCalm zero k (t ∷ ts) w c =
      ((advance-IsCalm k t w c.0, c.1), (advance-pending queries system config quiet k t w).0)
  advance_at-AreCalm (suc i) k (t ∷ ts) w c =
      let (calm, same) = advance_at-AreCalm i k ts w c.1 in ((c.0, calm), same)

  any_panicked-AreCalm :
      (ts : List (Goroutine Q T D)) (w : W) → AreCalm ts w → any_panicked ts ≡ false
  unfolding AreCalm IsCalm
  any_panicked-AreCalm [] w c = refl
  any_panicked-AreCalm (reading h q metrics g ∷ ts) w c = any_panicked-AreCalm ts w c.1
  any_panicked-AreCalm (passing samples ∷ ts) w c = any_panicked-AreCalm ts w c.1
  any_panicked-AreCalm (finished ∷ ts) w c = any_panicked-AreCalm ts w c.1
  any_panicked-AreCalm (panicked ∷ ts) w c = absurd c.0
  any_panicked-AreCalm (looping ∷ ts) w c = absurd c.0

  -- Without turns left none is needed.
  spent-IsFinished :
      (i : ℕ) (ts : List (Goroutine Q T D)) (w : W)
      → Enough queries system config quiet i [] ts w
      → AreCalm ts w
      → All IsFinished ts
  unfolding Enough AreCalm IsCalm budget
  spent-IsFinished i [] w e c = tt
  spent-IsFinished i (reading h q metrics g ∷ ts) w e c = let spent = e.0 in absurd (omega arith)
  spent-IsFinished i (passing samples ∷ ts) w e c = let spent = e.0 in absurd (omega arith)
  spent-IsFinished i (finished ∷ ts) w e c = (tt, spent-IsFinished (suc i) ts w e.1 c.1)
  spent-IsFinished i (panicked ∷ ts) w e c = absurd c.0
  spent-IsFinished i (looping ∷ ts) w e c = absurd c.0

  step_calm :
      (i k : ℕ) (p : Pool W Q T D)
      → any_panicked p.goroutines ≡ false
      → let (ts, w, out) = advance_at queries system config i k p.goroutines p.world in
        step queries system config (i, k) p
        ≡ record { goroutines = ts; world = w; emitted = p.emitted ++ out }
  unfolding step
  step_calm i k p e = rw e refl

  run-IsFinished :
      (schedule : List (ℕ × ℕ)) (p : Pool W Q T D)
      → Enough queries system config quiet 0 schedule p.goroutines p.world
      → AreCalm p.goroutines p.world
      → All IsFinished (run queries system config schedule p).goroutines
  unfolding run
  run-IsFinished [] p e c = spent-IsFinished 0 p.goroutines p.world e c
  run-IsFinished ((i, k) ∷ schedule) p e c =
      let (ts, w, out) = advance_at queries system config i k p.goroutines p.world in
      let (calm, same) = advance_at-AreCalm i k p.goroutines p.world c in
      let enough =
        advance_at-Enough queries system config quiet 0 i k schedule p.goroutines p.world (
          subst (λ m. Enough queries system config quiet 0 ((m, k) ∷ schedule) p.goroutines p.world)
            (omega arith) e) in
      subst (λ p'. All IsFinished (run queries system config schedule p').goroutines)
        (sym (step_calm i k p (any_panicked-AreCalm p.goroutines p.world c)))
        (run-IsFinished schedule (record { goroutines = ts; world = w; emitted = p.emitted ++ out })
          (subst (Enough queries system config quiet 0 schedule ts) (sym same) enough)
          (subst (AreCalm ts) (sym same) calm))

  -- The turns that the goroutines of the hosts need: one for each counter, one for each sample, and
  -- two to leave the loops; the first host of the list has the goroutine `i`.
  abbrev pub HasTurns : ℕ → List (ℕ × ℕ) → Hosts Q T → W → Type 0
  HasTurns i schedule [] w = Unit
  HasTurns i schedule ((k, h) ∷ hosts) w =
      (length h.counters + length (taken (gather_computer_counters queries system config h w).0) + 2
        ≤ turns i schedule)
      × HasTurns (suc i) schedule hosts w

  start-Enough :
      (i : ℕ) (schedule : List (ℕ × ℕ)) (hosts : Hosts Q T) (w : W)
      → HasTurns i schedule hosts w
      → Enough queries system config quiet i schedule
          (map (goroutine_of queries system config) hosts)
          w
  unfolding Enough budget pending gather_computer_counters
  start-Enough i schedule [] w e = tt
  start-Enough i schedule ((k, h) ∷ hosts) w e = (e.0, start-Enough (suc i) schedule hosts w e.1)

  join-Returns :
      (f : Gathering D → List (Sample T D)) (r : Result (Gathering D)) (went : Result (Unit {0}))
      (ys samples : List (Sample T D))
      → join_samples queries system (samples_of queries system (over_result f r)) (went, ys)
        ≡ (ok tt, samples)
      → Returns r
  join-Returns f (ok g) went ys samples e = tt
  join-Returns f (err x) went ys samples e = tt
  join-Returns f panic went ys samples e = absurd (ground arith)
  join-Returns f out_of_fuel went ys samples e = absurd (ground arith)

  start-AreCalm :
      (hosts : Hosts Q T) (w : W) (samples : List (Sample T D))
      → (gather_hosts queries system config hosts w).0 ≡ (ok tt, samples)
      → AreCalm (map (goroutine_of queries system config) hosts) w
  unfolding gather_hosts gather_computer_counters AreCalm IsCalm
  start-AreCalm [] w samples e = tt
  start-AreCalm ((k, h) ∷ hosts) w samples e =
      let (r, h', w') = gather_computer_counters queries system config h w in
      let same =
        gather_counters_quiet queries system config quiet h.counters (no_groups queries system)
          h.query w in
      let (went, ys) = (gather_hosts queries system config hosts w').0 in
      let (good, split) = join_taken queries system config quiet r went ys samples e in
      let rest : (gather_hosts queries system config hosts w').0 ≡ (ok tt, ys) =
        ap (λ (g : Result (Unit {0})). (g, ys)) good in
      (
        join-Returns _ _ went ys samples e,
        start-AreCalm hosts w ys
            (ap (λ v. (gather_hosts queries system config hosts v).0) (sym same) ∙ rest),
      )

  -- Suppose reading collected values leaves the system alone, and the goroutines one after the other
  -- return samples. Then every schedule that gives each goroutine a turn for each of its counters and
  -- each of its samples, and two more, in whatever order and mixed with any others, ends with all of
  -- them finished, and they have passed on the same samples, in some order.
  pub run_finishes :
      (schedule : List (ℕ × ℕ)) (hosts : Hosts Q T) (w : W) (samples : List (Sample T D))
      → (gather_hosts queries system config hosts w).0 ≡ (ok tt, samples)
      → HasTurns 0 schedule hosts w
      → let p = run queries system config schedule (start queries system config hosts w) in
        All IsFinished p.goroutines × Perm samples p.emitted
  run_finishes schedule hosts w samples e turns =
      let done =
        run-IsFinished schedule (start queries system config hosts w)
          (start-Enough 0 schedule hosts w turns) (start-AreCalm hosts w samples e) in
      (done, run-Perm queries system config quiet schedule hosts w samples e done)
