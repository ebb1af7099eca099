-- ===== src/WinPerfCounters/Gathering/Repeated.antt =====
-- What the loop over `Gather` keeps.
use win_perf_counters.Prelude.{ℕ, zero, suc}
use win_perf_counters.Result.{Result, ok, err, panic, out_of_fuel}
use win_perf_counters.WinPerfCounters.Ensures.{Preserves, keeping, bind-Preserves, pure-Preserves}
use win_perf_counters.WinPerfCounters.Gathering.{ignored, ignoring, gather, gathers}
use win_perf_counters.WinPerfCounters.Model.{State, PerformanceQuery, System}

module _ {W Q T D : Type 0} (queries : PerformanceQuery W Q T D) (system : System W T)
    (I : State W Q T D → Type 0) where
  pub ignored_keeps :
      (o : Result (Unit {0}) × State W Q T D) → I o.1 → I (ignored queries system o).1
  ignored_keeps (ok u, s) i = i
  ignored_keeps (err e, s) i = i
  ignored_keeps (panic, s) i = i
  ignored_keeps (out_of_fuel, s) i = i

  pub gathers-Preserves :
      Preserves I (gather queries system) → (n : ℕ) → Preserves I (gathers queries system n)
  unfolding gathers
  gathers-Preserves g zero = pure-Preserves I tt
  gathers-Preserves g (suc n) =
      bind-Preserves I (ignoring queries system (gather queries system))
        (λ u. gathers queries system n) (keeping I _ (λ s i. ignored_keeps _ (g.outcome s i).1))
        (λ u. gathers-Preserves g n)
