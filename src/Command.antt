-- ===== src/Command.antt =====
-- The command (cmd/main.go): it configures a collector and calls `Gather` on every tick.
pub mod Runs
pub mod Handles
use win_perf_counters.Prelude.{
  ℕ, ◌≡◌, ◌≢◌, refl, true, false, Option, none, some, List, [], All, arith,
}
use win_perf_counters.Result.{Result, ok, err, panic, out_of_fuel}
use win_perf_counters.WinPerfCounters.Constructor.{default_config, new_win_perf_counters}
use win_perf_counters.WinPerfCounters.Gathering.Invariant.{IsClean, fresh-IsClean, gathers-IsClean}
use win_perf_counters.WinPerfCounters.Gathering.Samples.{IsSample}
use win_perf_counters.WinPerfCounters.Gathering.{gather, gathers, ignoring}
use win_perf_counters.WinPerfCounters.Init.{init}
use win_perf_counters.WinPerfCounters.Model.{
  PerfObject, Config, State, PerformanceQuery, System, Action, ◌>>◌, continue, ◌>>=◌,
}

module _ {W Q T D : Type 0} (queries : PerformanceQuery W Q T D) (system : System W T)
    (decode : Config → Option Config) where
  -- `winPerfCounters.Init()`
  abbrev call_init : Action W Q T D (Unit {0})
  call_init s = (init s.config, s)

  -- `toml.Decode` on the collector, then `main` as far as that many ticks. What `Init` and `Gather`
  -- return is not looked at.
  unfoldable run_decoded : Option Config → ℕ → Action W Q T D (Unit {0})
  unfolding init gathers
  run_decoded none ticks s = (panic, s)
  run_decoded (some config) ticks s =
      (ignoring queries system call_init >> gathers queries system ticks)
        (record s { config = config })

  -- `main`
  unfoldable pub run_main : ℕ → W → Result (Unit {0}) × State W Q T D
  unfolding run_decoded
  run_main ticks w =
      let fresh : State W Q T D = new_win_perf_counters true w in
      run_decoded (decode fresh.config) ticks fresh
