-- ===== src/WinPerfCounters/Schedules/Budget.antt =====
-- How many steps the goroutines need, and what a step leaves of them.
use win_perf_counters.Names
use win_perf_counters.Prelude.{
  ℕ, zero, suc, ◌+◌, ◌-◌, ◌≤◌, ◌<◌, ◌≡◌, refl, ◌∙◌, ap, subst, List, [], ◌∷◌, length, ◌==◌,
  if◌then◌else◌, arith,
}
use win_perf_counters.Result.{Result, ok, err, panic, out_of_fuel}
use win_perf_counters.WinPerfCounters.Fields.{Gathering}
use win_perf_counters.WinPerfCounters.Gathering.{gather_counters, samples_if}
use win_perf_counters.WinPerfCounters.Model.{Config, HostCountersInfo, PerformanceQuery, System}
use win_perf_counters.WinPerfCounters.Schedules.Agreement.{
  pending, gather_one, round-pending, gather_by_quiet,
}
use win_perf_counters.WinPerfCounters.Schedules.Quiet.{IsQuiet}
use win_perf_counters.WinPerfCounters.Schedules.{
  Goroutine, reading, passing, finished, panicked, looping, pick, after_round, advance, advance_at,
}

pick-length : {A : Type 0} (k : ℕ) (x : A) (xs : List A) → length (pick k x xs).1 ≡ length xs
pick-length zero x xs = refl
pick-length (suc k) x [] = refl
pick-length (suc k) x (y ∷ ys) = ap suc (pick-length k y ys)

-- The steps that a schedule has for a goroutine.
abbrev pub turns : ℕ → List (ℕ × ℕ) → ℕ
turns i [] = 0
turns i ((j, k) ∷ schedule) = (if j == i then 1 else 0) + turns i schedule

module _ {W Q T D : Type 0} (queries : PerformanceQuery W Q T D) (system : System W T)
    (config : Config) (quiet : IsQuiet queries) where
  -- The steps that a goroutine still needs, by itself.
  unfoldable pub budget : Goroutine Q T D → W → ℕ
  budget (reading h q metrics g) w =
      length metrics + length (pending queries system config quiet (reading h q metrics g) w) + 2
  budget (passing samples) w = length samples + 1
  budget finished w = 0
  budget panicked w = 0
  budget looping w = 0

  round-budget :
      (h : HostCountersInfo Q T) (q : Q) (metrics : List Names.Counter) (r : Result (Gathering D))
      (w : W)
      → budget (after_round queries system config h q metrics r) w
        ≤ length metrics
          + length (
              pending queries system config quiet
                (after_round queries system config h q metrics r)
                w)
          + 2
  unfolding budget
  round-budget h q metrics (ok g) w = omega arith
  round-budget h q metrics (err e) w = omega arith
  round-budget h q metrics panic w = omega arith
  round-budget h q metrics out_of_fuel w = omega arith

  -- A round leaves what is to come as it was.
  round_length :
      (h : HostCountersInfo Q T) (metric : Names.Counter) (metrics : List Names.Counter)
      (g : Gathering D) (q : Q) (w : W)
      → let (r, q', w') = gather_one queries system config quiet metric g q w in
        length (pending queries system config quiet (reading h q (metric ∷ metrics) g) w)
        ≡ length (
            pending queries system config quiet
              (after_round queries system config h q' metrics r)
              w)
  unfolding pending
  round_length h metric metrics g q w =
      let (r, q', w') = gather_one queries system config quiet metric g q w in
      ap length (
        round-pending queries system config quiet h metric metrics g q w r refl
        ∙ ap
            (pending queries system config quiet (after_round queries system config h q' metrics r))
            (gather_by_quiet queries system config quiet config.use_wildcards_expansion
              metric.use_raw_value metric g q w))

  read_length :
      (h : HostCountersInfo Q T) (g : Gathering D) (q : Q) (w : W)
      → length (pending queries system config quiet (reading h q [] g) w)
        ≡ length (samples_if queries system config.has_collect h (ok g))
  unfolding pending gather_counters
  read_length h g q w = refl

  advance-budget :
      (k : ℕ) (t : Goroutine Q T D) (w : W)
      → budget (advance queries system config k t w).0 w ≤ budget t w - 1
  unfolding advance budget
  advance-budget k (reading h q [] g) w = omega (arith, read_length h g q w)
  advance-budget k (reading h q (metric ∷ metrics) g) w =
      let (r, q', w') = gather_one queries system config quiet metric g q w in
      omega (arith, round_length h metric metrics g q w, round-budget h q' metrics r w)
  advance-budget k (passing []) w = omega arith
  advance-budget k (passing (s ∷ samples)) w = omega (arith, pick-length k s samples)
  advance-budget k finished w = omega arith
  advance-budget k panicked w = omega arith
  advance-budget k looping w = omega arith

  -- Each goroutine has as many turns as it needs; the first one of the list is goroutine `i`.
  unfoldable pub Enough : ℕ → List (ℕ × ℕ) → List (Goroutine Q T D) → W → Type 0
  Enough i schedule [] w = Unit
  Enough i schedule (t ∷ ts) w = (budget t w ≤ turns i schedule) × Enough (suc i) schedule ts w

  -- A turn of a goroutine before `i` is none of theirs.
  skip-Enough :
      (i j k : ℕ) (schedule : List (ℕ × ℕ)) (ts : List (Goroutine Q T D)) (w : W)
      → j < i
      → Enough i ((j, k) ∷ schedule) ts w
      → Enough i schedule ts w
  unfolding Enough
  skip-Enough i j k schedule [] w less e = tt
  skip-Enough i j k schedule (t ∷ ts) w less e =
      (ground arith, skip-Enough (suc i) j k schedule ts w (omega arith) e.1)

  pub advance_at-Enough :
      (i n k : ℕ) (schedule : List (ℕ × ℕ)) (ts : List (Goroutine Q T D)) (w : W)
      → Enough i ((i + n, k) ∷ schedule) ts w
      → Enough i schedule (advance_at queries system config n k ts w).0 w
  unfolding Enough advance_at
  advance_at-Enough i n k schedule [] w e = tt
  advance_at-Enough i zero k schedule (t ∷ ts) w e =
      let less = advance-budget k t w in
      (ground arith, skip-Enough (suc i) (i + 0) k schedule ts w (omega arith) e.1)
  advance_at-Enough i (suc n) k schedule (t ∷ ts) w e = (
    ground arith,
    advance_at-Enough (suc i) n k schedule ts w
        (subst (λ m. Enough (suc i) ((m, k) ∷ schedule) ts w) (omega arith) e.1),
  )
