-- ===== src/WinPerfCounters/Schedules/Agreement.antt =====
-- Every order of the goroutines' steps passes on the same samples as one goroutine after the other.
use mathlib.Core.List.{Perm, Permᴰ}
use mathlib.Core.List.Permᴰ
use win_perf_counters.Names
use win_perf_counters.Prelude.{
  ℕ, zero, suc, ◌≡◌, refl, sym, ◌∙◌, ap, subst, Bool, true, false, List, [], ◌∷◌, ◌++◌, map, All,
  append_assoc, append-nil, arith, equal-Perm, swap_front, if◌then◌else◌,
}
use win_perf_counters.Result.{Result, ok, err, panic, out_of_fuel}
use win_perf_counters.WinPerfCounters.Fields.{Gathering, over_result}
use win_perf_counters.WinPerfCounters.Gathering.{
  gather_by, gather_counters, no_groups, samples_if, gather_computer_counters, samples_of,
  join_samples, gather_hosts,
}
use win_perf_counters.WinPerfCounters.Model.{
  Config, HostCountersInfo, Hosts, Sample, PerformanceQuery, System,
}
use win_perf_counters.WinPerfCounters.Schedules.Quiet.{IsQuiet}
use win_perf_counters.WinPerfCounters.Schedules.{
  Goroutine, reading, passing, finished, panicked, looping, Pool, pick, any_panicked, after_round,
  advance, advance_at, step, run, goroutine_of, start,
}

pub pick-Perm :
    {A : Type 0} (k : ℕ) (x : A) (xs : List A) → Permᴰ (x ∷ xs) ((pick k x xs).0 ∷ (pick k x xs).1)
pick-Perm zero x xs = Permᴰ.refl (x ∷ xs)
pick-Perm (suc k) x [] = Permᴰ.refl (x ∷ [])
pick-Perm (suc k) x (y ∷ ys) =
    Permᴰ.trans (Permᴰ.cons refl (pick-Perm k y ys)) (Permᴰ.swap refl refl)

-- A value that a call gives, and nothing otherwise.
abbrev pub taken : {A : Type 0} → Result (List A) → List A
taken (ok xs) = xs
taken (err e) = []
taken panic = []
taken out_of_fuel = []

abbrev pub IsFinished : {Q T D : Type 0} → Goroutine Q T D → Type 0
IsFinished finished = Unit
IsFinished _ = ⊥

module _ {W Q T D : Type 0} (queries : PerformanceQuery W Q T D) (system : System W T)
    (config : Config) (quiet : IsQuiet queries) where
  pub gather_by_quiet :
      (expansion raw_value : Bool) (metric : Names.Counter) (g : Gathering D) (q : Q) (w : W)
      → (gather_by queries system expansion raw_value metric g q w).2 ≡ w
  unfolding gather_by
  gather_by_quiet true true metric g q w = quiet.raw_value _ q w
  gather_by_quiet true false metric g q w = quiet.double_value _ q w
  gather_by_quiet false true metric g q w = quiet.raw_array _ q w
  gather_by_quiet false false metric g q w = quiet.double_array _ q w

  abbrev pub gather_one : Names.Counter → Gathering D → Q → W → Result (Gathering D) × Q × W
  gather_one metric =
      gather_by queries system config.use_wildcards_expansion metric.use_raw_value metric

  abbrev pub samples_from : HostCountersInfo Q T → Result (Gathering D) → List (Sample T D)
  samples_from h r =
      taken
        (over_result (λ (g : Gathering D). samples_if queries system config.has_collect h (ok g)) r)

  -- What the goroutine would still pass on, by itself.
  unfoldable pub pending : Goroutine Q T D → W → List (Sample T D)
  pending (reading h q metrics g) w =
      samples_from h (gather_counters queries system config.use_wildcards_expansion metrics g q w).0
  pending (passing samples) w = samples
  pending finished w = []
  pending panicked w = []
  pending looping w = []

  all_pending : List (Goroutine Q T D) → W → List (Sample T D)
  all_pending [] w = []
  all_pending (t ∷ ts) w = pending t w ++ all_pending ts w

  pub round-pending :
      (h : HostCountersInfo Q T) (metric : Names.Counter) (metrics : List Names.Counter)
      (g : Gathering D) (q : Q) (w : W) (r : Result (Gathering D))
      → (gather_one metric g q w).0 ≡ r
      → samples_from h
          (gather_counters queries system config.use_wildcards_expansion (metric ∷ metrics) g q w).0
        ≡ pending
            (after_round queries system config h (gather_one metric g q w).1 metrics r)
            (gather_one metric g q w).2
  unfolding pending gather_counters
  round-pending h metric metrics g q w (ok g') e = rw (e, gather_counters) refl
  round-pending h metric metrics g q w (err x) e = rw (e, gather_counters) refl
  round-pending h metric metrics g q w panic e = rw (e, gather_counters) refl
  round-pending h metric metrics g q w out_of_fuel e = rw (e, gather_counters) refl

  pub advance-pending :
      (k : ℕ) (t : Goroutine Q T D) (w : W)
      → let (t', w', out) = advance queries system config k t w in
        (w' ≡ w) × Permᴰ (pending t w) (out ++ pending t' w)
  unfolding advance pending
  advance-pending k (reading h q [] g) w = (refl, unfold gather_counters in Permᴰ.refl _)
  advance-pending k (reading h q (metric ∷ metrics) g) w =
      let same = gather_by_quiet config.use_wildcards_expansion metric.use_raw_value metric g q w in
      let (r, q', w') = gather_one metric g q w in
      (
        same,
        equal-Perm (
            round-pending h metric metrics g q w r refl
            ∙ ap (pending (after_round queries system config h q' metrics r)) same),
      )
  advance-pending k (passing []) w = (refl, Permᴰ.nil)
  advance-pending k (passing (s ∷ samples)) w = (refl, pick-Perm k s samples)
  advance-pending k finished w = (refl, Permᴰ.nil)
  advance-pending k panicked w = (refl, Permᴰ.nil)
  advance-pending k looping w = (refl, Permᴰ.nil)

  advance_at-pending :
      (i k : ℕ) (ts : List (Goroutine Q T D)) (w : W)
      → let (ts', w', out) = advance_at queries system config i k ts w in
        (w' ≡ w) × Permᴰ (all_pending ts w) (out ++ all_pending ts' w)
  unfolding advance_at all_pending
  advance_at-pending i k [] w = (refl, Permᴰ.nil)
  advance_at-pending zero k (t ∷ ts) w =
      let (t', w', out) = advance queries system config k t w in
      let (same, moved) = advance-pending k t w in
      (
        same,
        Permᴰ.trans (Permᴰ.append_right (all_pending ts w) moved)
            (equal-Perm (append_assoc out (pending t' w) (all_pending ts w))),
      )
  advance_at-pending (suc i) k (t ∷ ts) w =
      let (ts', w', out) = advance_at queries system config i k ts w in
      let (same, moved) = advance_at-pending i k ts w in
      (
        same,
        Permᴰ.trans (Permᴰ.append_left (pending t w) moved)
            (swap_front (pending t w) out (all_pending ts' w)),
      )

  -- What has been passed on, and what is to come.
  total : Pool W Q T D → List (Sample T D)
  total p = p.emitted ++ all_pending p.goroutines p.world

  if-total :
      (b : Bool) (p p' : Pool W Q T D)
      → Permᴰ (total p) (total p')
      → Permᴰ (total p) (total (if b then p else p'))
  if-total true p p' m = Permᴰ.refl (total p)
  if-total false p p' m = m

  step-total :
      (next : ℕ × ℕ) (p : Pool W Q T D)
      → Permᴰ (total p) (total (step queries system config next p))
  unfolding step total
  step-total (i, k) p =
      let (ts, w, out) = advance_at queries system config i k p.goroutines p.world in
      let (same, moved) = advance_at-pending i k p.goroutines p.world in
      if-total (any_panicked p.goroutines) p
        (record { goroutines = ts; world = w; emitted = p.emitted ++ out })
        (Permᴰ.trans (Permᴰ.append_left p.emitted moved) (
          equal-Perm (
            sym (append_assoc p.emitted out (all_pending ts p.world))
            ∙ ap (λ v. (p.emitted ++ out) ++ all_pending ts v) (sym same))))

  run-total :
      (schedule : List (ℕ × ℕ)) (p : Pool W Q T D)
      → Permᴰ (total p) (total (run queries system config schedule p))
  unfolding run
  run-total [] p = Permᴰ.refl _
  run-total (next ∷ schedule) p =
      Permᴰ.trans (step-total next p) (run-total schedule (step queries system config next p))

  -- The sequential loop over the counters leaves the system alone, too.
  rest_quiet :
      (metric : Names.Counter) (metrics : List Names.Counter) (g : Gathering D) (q : Q) (w : W)
      (r : Result (Gathering D))
      → (gather_one metric g q w).0 ≡ r
      → ((g' : Gathering D) (q' : Q) (w' : W)
          → (gather_counters queries system config.use_wildcards_expansion metrics g' q' w').2 ≡ w')
      → (gather_counters queries system config.use_wildcards_expansion (metric ∷ metrics) g q w).2
        ≡ w
  unfolding gather_counters
  rest_quiet metric metrics g q w (ok g') e rest =
      rw (e, gather_counters)
        (rest _ _ _
          ∙ gather_by_quiet config.use_wildcards_expansion metric.use_raw_value metric g q w)
  rest_quiet metric metrics g q w (err x) e rest =
      rw (e, gather_counters)
        (gather_by_quiet config.use_wildcards_expansion metric.use_raw_value metric g q w)
  rest_quiet metric metrics g q w panic e rest =
      rw (e, gather_counters)
        (gather_by_quiet config.use_wildcards_expansion metric.use_raw_value metric g q w)
  rest_quiet metric metrics g q w out_of_fuel e rest =
      rw (e, gather_counters)
        (gather_by_quiet config.use_wildcards_expansion metric.use_raw_value metric g q w)

  pub gather_counters_quiet :
      (metrics : List Names.Counter) (g : Gathering D) (q : Q) (w : W)
      → (gather_counters queries system config.use_wildcards_expansion metrics g q w).2 ≡ w
  gather_counters_quiet [] g q w = unfold gather_counters in refl
  gather_counters_quiet (metric ∷ metrics) g q w =
      rest_quiet metric metrics g q w _ refl (λ g' q' w'. gather_counters_quiet metrics g' q' w')

  all_finished : (ts : List (Goroutine Q T D)) (w : W) → All IsFinished ts → all_pending ts w ≡ []
  unfolding all_pending pending
  all_finished [] w a = refl
  all_finished (finished ∷ ts) w a = all_finished ts w a.1
  all_finished (reading h q metrics g ∷ ts) w a = absurd a.0
  all_finished (passing samples ∷ ts) w a = absurd a.0
  all_finished (panicked ∷ ts) w a = absurd a.0
  all_finished (looping ∷ ts) w a = absurd a.0

  pub join_taken :
      (a : Result (List (Sample T D))) (r : Result (Unit {0})) (ys samples : List (Sample T D))
      → join_samples queries system (samples_of queries system a) (r, ys) ≡ (ok tt, samples)
      → (r ≡ ok tt) × (samples ≡ taken a ++ ys)
  join_taken (ok xs) r ys samples e = (ap (λ o. o.0) e, sym (ap (λ o. o.1) e))
  join_taken (err x) r ys samples e = (ap (λ o. o.0) e, sym (ap (λ o. o.1) e))
  join_taken panic r ys samples e = absurd (ground arith)
  join_taken out_of_fuel r ys samples e = absurd (ground arith)

  start-pending :
      (hosts : Hosts Q T) (w : W) (samples : List (Sample T D))
      → (gather_hosts queries system config hosts w).0 ≡ (ok tt, samples)
      → all_pending (map (goroutine_of queries system config) hosts) w ≡ samples
  unfolding gather_hosts gather_computer_counters all_pending pending
  start-pending [] w samples e = cc
  start-pending ((k, h) ∷ hosts) w samples e =
      let (r, h', w') = gather_computer_counters queries system config h w in
      let same = gather_counters_quiet h.counters (no_groups queries system) h.query w in
      let (went, ys) = (gather_hosts queries system config hosts w').0 in
      let (good, split) = join_taken r went ys samples e in
      let rest : (gather_hosts queries system config hosts w').0 ≡ (ok tt, ys) =
        ap (λ (g : Result (Unit {0})). (g, ys)) good in
      ap (λ l. taken r ++ l)
        (start-pending hosts w ys
          (ap (λ v. (gather_hosts queries system config hosts v).0) (sym same) ∙ rest))
      ∙ sym split

  -- Suppose reading collected values leaves the system alone, and the goroutines one after the other
  -- return samples. Then, in whatever order they take their steps and visit their groups, once all of
  -- them are finished they have passed on the same samples, in some order.
  pub run-Perm :
      (schedule : List (ℕ × ℕ)) (hosts : Hosts Q T) (w : W) (samples : List (Sample T D))
      → (gather_hosts queries system config hosts w).0 ≡ (ok tt, samples)
      → All IsFinished
          (run queries system config schedule (start queries system config hosts w)).goroutines
      → Perm samples
          (run queries system config schedule (start queries system config hosts w)).emitted
  unfolding total
  run-Perm schedule hosts w samples e f =
      let p = start queries system config hosts w in
      let p' = run queries system config schedule p in
      ∣ subst (λ l. Permᴰ l p'.emitted) (start-pending hosts w samples e)
        (Permᴰ.trans (run-total schedule p) (
          equal-Perm (
            ap (λ l. p'.emitted ++ l) (all_finished p'.goroutines p'.world f)
            ∙ append-nil p'.emitted))) ∣₁
