-- ===== src/WinPerfCounters/Schedules.antt =====
-- The goroutines of `Gather` (win_perf_counters.go), one for each host, in every order of their
-- steps. A step is one round of the loop over the counters of a host, or one call of the function for
-- the collected data. A schedule says which goroutine takes the next step, and which of its groups a
-- range over the map of groups visits next.
pub mod Safety
pub mod Quiet
pub mod Agreement
pub mod Budget
pub mod Liveness
use win_perf_counters.Names
use win_perf_counters.Prelude.{
  ℕ, zero, suc, Bool, true, false, ◌||◌, List, [], ◌∷◌, ◌++◌, map, if◌then◌else◌,
}
use win_perf_counters.Result.{Result, ok, err, panic, out_of_fuel}
use win_perf_counters.Text.{Text}
use win_perf_counters.WinPerfCounters.Fields.{Gathering}
use win_perf_counters.WinPerfCounters.Gathering.{gather_by, no_groups, samples_if}
use win_perf_counters.WinPerfCounters.Model.{
  Config, HostCountersInfo, Hosts, Sample, PerformanceQuery, System,
}

-- Where the goroutine of a host stands: in the loop over its counters, of which these are left, in
-- the loop over its groups, of which these samples are left, or behind them. `looping` stands for a
-- call that does not come back.
pub data Goroutine (Q T D : Type 0) : Type 0 where
  reading : HostCountersInfo Q T → Q → List Names.Counter → Gathering D → Goroutine Q T D
  passing : List (Sample T D) → Goroutine Q T D
  finished panicked looping : Goroutine Q T D

-- `emitted` are the calls of the function for the collected data, the first one first.
pub record Pool (W Q T D : Type 0) : Type 0 where
  pub goroutines : List (Goroutine Q T D)
  pub world : W
  pub emitted : List (Sample T D)

-- An element of a list that is not empty, and the others.
abbrev pub pick : {A : Type 0} → ℕ → A → List A → A × List A
pick zero x xs = (x, xs)
pick (suc k) x [] = (x, [])
pick (suc k) x (y ∷ ys) = let (z, zs) = pick k y ys in (z, x ∷ zs)

abbrev pub is_panicked : {Q T D : Type 0} → Goroutine Q T D → Bool
is_panicked panicked = true
is_panicked _ = false

abbrev pub any_panicked : {Q T D : Type 0} → List (Goroutine Q T D) → Bool
any_panicked [] = false
any_panicked (t ∷ ts) = is_panicked t || any_panicked ts

module _ {W Q T D : Type 0} (queries : PerformanceQuery W Q T D) (system : System W T)
    (config : Config) where
  -- Where a round of the loop leaves its goroutine: an error ends it.
  abbrev pub after_round :
      HostCountersInfo Q T → Q → List Names.Counter → Result (Gathering D) → Goroutine Q T D
  after_round h q metrics (ok g) = reading h q metrics g
  after_round h q metrics (err e) = finished
  after_round h q metrics panic = panicked
  after_round h q metrics out_of_fuel = looping

  -- One step of a goroutine.
  unfoldable pub advance : ℕ → Goroutine Q T D → W → Goroutine Q T D × W × List (Sample T D)
  unfolding gather_by
  advance k (reading h q [] g) w =
      (passing (samples_if queries system config.has_collect h (ok g)), w, [])
  advance k (reading h q (metric ∷ metrics) g) w =
      let (r, q', w') =
        gather_by queries system config.use_wildcards_expansion metric.use_raw_value metric g q w in
      (after_round h q' metrics r, w', [])
  advance k (passing []) w = (finished, w, [])
  advance k (passing (s ∷ samples)) w =
      let (first, rest) = pick k s samples in (passing rest, w, first ∷ [])
  advance k finished w = (finished, w, [])
  advance k panicked w = (panicked, w, [])
  advance k looping w = (looping, w, [])

  unfoldable pub advance_at :
      ℕ → ℕ → List (Goroutine Q T D) → W → List (Goroutine Q T D) × W × List (Sample T D)
  unfolding advance
  advance_at i k [] w = ([], w, [])
  advance_at zero k (t ∷ ts) w = let (t', w', out) = advance k t w in (t' ∷ ts, w', out)
  advance_at (suc i) k (t ∷ ts) w = let (ts', w', out) = advance_at i k ts w in (t ∷ ts', w', out)

  -- A panic in any goroutine ends the process.
  unfoldable pub step : ℕ × ℕ → Pool W Q T D → Pool W Q T D
  unfolding advance_at
  step (i, k) p =
      let (ts, w, out) = advance_at i k p.goroutines p.world in
      if any_panicked p.goroutines
      then p
      else record { goroutines = ts; world = w; emitted = p.emitted ++ out }

  unfoldable pub run : List (ℕ × ℕ) → Pool W Q T D → Pool W Q T D
  unfolding step
  run [] p = p
  run (next ∷ schedule) p = run schedule (step next p)

  abbrev pub goroutine_of : Text × HostCountersInfo Q T → Goroutine Q T D
  goroutine_of (k, h) = reading h h.query h.counters (no_groups queries system)

  -- `go func(hostInfo *hostCountersInfo) {…}(hostCounterInfo)` for every host.
  abbrev pub start : Hosts Q T → W → Pool W Q T D
  start hosts w = record { goroutines = map goroutine_of hosts; world = w; emitted = [] }
