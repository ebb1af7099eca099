-- ===== src/Tests/LogExamples.antt =====
-- A quiet logger.
use win_perf_counters.Logger.Levels.{severe, log_all_quiet}
use win_perf_counters.Logger.{Message, warn, info, errorf, log_all}
use win_perf_counters.Prelude.{◌≡◌, true, false, List, [], ◌∷◌}
use win_perf_counters.Text.{Text, codes}

abbrev messages : List (Message Text)
messages = warn (codes "w" ∷ []) ∷ info (codes "i" ∷ []) ∷ errorf (codes "%v") (codes "e" ∷ []) ∷ []

log_all_quiet_example :
    log_all (λ t. t) (record { name = codes "win"; quiet = true }) messages
    ≡ log_all (λ t. t) (record { name = codes "win"; quiet = false }) (severe messages)
log_all_quiet_example = log_all_quiet (λ t. t) (codes "win") messages
