-- ===== src/NotWindows.antt =====
-- `WinPerfCounters` where the system is not Windows (win_perf_counters_notwindows.go).
use win_perf_counters.Logger.{Logger, warn, LogCall, log_message}
use win_perf_counters.Prelude.{List, [], ◌∷◌}
use win_perf_counters.Result.{Result, ok}
use win_perf_counters.Text.{Text, codes}

-- `WinPerfCounters`
pub record Unsupported : Type 0 where
  pub log : Logger

-- `Init`, with the calls of Go's package `log` that it makes.
unfoldable pub init_unsupported :
    {A : Type 0} → (Text → A) → Unsupported → List (LogCall A) × Result (Unit {0})
unfolding log_message
init_unsupported of_text w = (
  log_message of_text w.log (warn (of_text (codes "Current platform is not supported") ∷ [])),
  ok tt,
)
