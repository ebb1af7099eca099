-- ===== src/Command/Runs.antt =====
-- What the command does over its whole run.
use win_perf_counters.Command.{call_init, run_decoded, run_main}
use win_perf_counters.Prelude.{ℕ, ◌≡◌, refl, true, Option, none, some, [], All}
use win_perf_counters.WinPerfCounters.Constructor.{default_config, new_win_perf_counters}
use win_perf_counters.WinPerfCounters.Ensures.{keeping, bind-Preserves}
use win_perf_counters.WinPerfCounters.Gathering.Invariant.{IsClean, fresh-IsClean, gathers-IsClean}
use win_perf_counters.WinPerfCounters.Gathering.Repeated.{ignored_keeps}
use win_perf_counters.WinPerfCounters.Gathering.Samples.{IsSample}
use win_perf_counters.WinPerfCounters.Gathering.{gathers, ignoring}
use win_perf_counters.WinPerfCounters.Model.{Config, State, PerformanceQuery, System}

module _ {W Q T D : Type 0} (queries : PerformanceQuery W Q T D) (system : System W T)
    (decode : Config → Option Config) where
  run_decoded-IsClean :
      (decoded : Option Config) (ticks : ℕ) (s : State W Q T D)
      → s.host_counters ≡ []
      → s.samples ≡ []
      → IsClean (run_decoded queries system decode decoded ticks s).1
  unfolding run_decoded
  run_decoded-IsClean none ticks s no_hosts no_samples =
      fresh-IsClean queries system s no_hosts no_samples
  run_decoded-IsClean (some config) ticks s no_hosts no_samples =
      ((bind-Preserves IsClean (ignoring queries system (call_init queries system decode))
          (λ u. gathers queries system ticks)
          (keeping IsClean _ (λ s' i. ignored_keeps queries system IsClean _ i))
          (λ u. gathers-IsClean queries system ticks)).outcome
        _ (fresh-IsClean queries system (record s { config = config }) no_hosts no_samples)).1

  -- Whatever is configured, however long the command runs and whatever the system answers, errors and
  -- panics included: every sample that it passes on, also those that other goroutines of a `Gather`
  -- pass on in which one panics, has a measurement and at least one field, and neither the measurement
  -- nor the name of a field has a space, a percent sign or a backslash. The goroutines of a `Gather`
  -- run one after another, and a panic ends the process when they have all run.
  pub run_main-IsSample :
      (ticks : ℕ) (w : W) → All IsSample (run_main queries system decode ticks w).1.samples
  unfolding run_main
  run_main-IsSample ticks w =
      (run_decoded-IsClean (decode (default_config true)) ticks (new_win_perf_counters true w) refl
        refl).passed
