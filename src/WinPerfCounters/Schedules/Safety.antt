-- ===== src/WinPerfCounters/Schedules/Safety.antt =====
-- What the goroutines pass on, in every order of their steps.
use win_perf_counters.Names
use win_perf_counters.Prelude.{
  ℕ, zero, suc, Bool, true, false, List, [], ◌∷◌, map, All, All-append, if◌then◌else◌,
}
use win_perf_counters.Result.{Result, ok, err, panic, out_of_fuel}
use win_perf_counters.WinPerfCounters.Fields.Groups.{IsNamed, AreGroups, Collected}
use win_perf_counters.WinPerfCounters.Fields.{Gathering}
use win_perf_counters.WinPerfCounters.Gathering.Invariant.{HasNamed}
use win_perf_counters.WinPerfCounters.Gathering.Samples.{
  IsSample, gather_by-Collected, samples_if-IsSample,
}
use win_perf_counters.WinPerfCounters.Model.{
  Config, HostCountersInfo, Hosts, PerformanceQuery, System,
}
use win_perf_counters.WinPerfCounters.Schedules.{
  Goroutine, reading, passing, finished, panicked, looping, Pool, pick, any_panicked, after_round,
  advance, advance_at, step, run, goroutine_of, start,
}

-- What is still to come has names.
abbrev IsSound : {Q T D : Type 0} → Goroutine Q T D → Type 0
IsSound (reading h q metrics g) = All IsNamed metrics × AreGroups g.groups
IsSound (passing samples) = All IsSample samples
IsSound finished = Unit
IsSound panicked = Unit
IsSound looping = Unit

pick-All :
    {A : Type 0} (P : A → Type 0) (k : ℕ) (x : A) (xs : List A)
    → P x
    → All P xs
    → P (pick k x xs).0 × All P (pick k x xs).1
pick-All P zero x xs p a = (p, a)
pick-All P (suc k) x [] p a = (p, tt)
pick-All P (suc k) x (y ∷ ys) p a = let (q, b) = pick-All P k y ys a.0 a.1 in (q, (p, b))

module _ {W Q T D : Type 0} (queries : PerformanceQuery W Q T D) (system : System W T)
    (config : Config) where
  after_round-IsSound :
      (h : HostCountersInfo Q T) (q : Q) (metrics : List Names.Counter) (r : Result (Gathering D))
      → All IsNamed metrics
      → Collected r
      → IsSound (after_round queries system config h q metrics r)
  after_round-IsSound h q metrics (ok g) n a = (n, a)
  after_round-IsSound h q metrics (err e) n a = tt
  after_round-IsSound h q metrics panic n a = tt
  after_round-IsSound h q metrics out_of_fuel n a = tt

  advance-IsSound :
      (k : ℕ) (t : Goroutine Q T D) (w : W)
      → IsSound t
      → let (t', w', out) = advance queries system config k t w in IsSound t' × All IsSample out
  unfolding advance
  advance-IsSound k (reading h q [] g) w a =
      (samples_if-IsSample queries system config.has_collect h (ok g) a.1, tt)
  advance-IsSound k (reading h q (metric ∷ metrics) g) w a = (
    after_round-IsSound h _ metrics _ a.0.1 (
        gather_by-Collected queries system config.use_wildcards_expansion metric.use_raw_value
          metric g q w a.0.0 a.1),
    tt,
  )
  advance-IsSound k (passing []) w a = (tt, tt)
  advance-IsSound k (passing (s ∷ samples)) w a =
      let (first, rest) = pick-All IsSample k s samples a.0 a.1 in (rest, (first, tt))
  advance-IsSound k finished w a = (tt, tt)
  advance-IsSound k panicked w a = (tt, tt)
  advance-IsSound k looping w a = (tt, tt)

  advance_at-IsSound :
      (i k : ℕ) (ts : List (Goroutine Q T D)) (w : W)
      → All IsSound ts
      → let (ts', w', out) = advance_at queries system config i k ts w in
        All IsSound ts' × All IsSample out
  unfolding advance_at
  advance_at-IsSound i k [] w a = (tt, tt)
  advance_at-IsSound zero k (t ∷ ts) w a =
      let (now, out) = advance-IsSound k t w a.0 in ((now, a.1), out)
  advance_at-IsSound (suc i) k (t ∷ ts) w a =
      let (later, out) = advance_at-IsSound i k ts w a.1 in ((a.0, later), out)

  record IsSafe (p : Pool W Q T D) : Type 0 where
    running : All IsSound p.goroutines
    passed : All IsSample p.emitted

  if-IsSafe : (b : Bool) (p q : Pool W Q T D) → IsSafe p → IsSafe q → IsSafe (if b then p else q)
  if-IsSafe true p q s t = s
  if-IsSafe false p q s t = t

  run-IsSafe :
      (schedule : List (ℕ × ℕ)) (p : Pool W Q T D)
      → IsSafe p
      → IsSafe (run queries system config schedule p)
  unfolding run step
  run-IsSafe [] p s = s
  run-IsSafe ((i, k) ∷ schedule) p s =
      let (sound, out) = advance_at-IsSound i k p.goroutines p.world s.running in
      run-IsSafe schedule _ (
        if-IsSafe (any_panicked p.goroutines) p _ s
          (record { running = sound; passed = All-append IsSample p.emitted _ s.passed out }))

  start-IsSound :
      (hosts : Hosts Q T)
      → All (λ e. HasNamed e.1) hosts
      → All IsSound (map (goroutine_of queries system config) hosts)
  start-IsSound [] a = tt
  start-IsSound ((k, h) ∷ hosts) a = ((a.0, tt), start-IsSound hosts a.1)

  -- From hosts whose counters have the names that `newCounter` makes, in whatever order the
  -- goroutines take their steps and visit their groups, wherever they stand and whatever the system
  -- answers: every sample passed on so far has a measurement and at least one field, and neither the
  -- measurement nor the name of a field has a space, a percent sign or a backslash.
  pub run-IsSample :
      (schedule : List (ℕ × ℕ)) (hosts : Hosts Q T) (w : W)
      → All (λ e. HasNamed e.1) hosts
      → All IsSample
          (run queries system config schedule (start queries system config hosts w)).emitted
  run-IsSample schedule hosts w a =
      (run-IsSafe schedule (start queries system config hosts w)
        (record { running = start-IsSound hosts a; passed = tt })).passed
