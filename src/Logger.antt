-- ===== src/Logger.antt =====
-- The logger (log.go): which calls of Go's package `log` it makes.
pub mod Levels
use win_perf_counters.Prelude.{Bool, true, false, not, List, [], ◌∷◌, ◌++◌, if◌then◌else◌}
use win_perf_counters.Text.{Text, codes}

-- `Logger`
pub record Logger : Type 0 where
  pub name : Text
  pub quiet : Bool

-- `log.Printf(format, args…)` and `log.Print(args…)`; an argument is an `interface{}`.
pub data LogCall (A : Type 0) : Type 0 where
  printf : Text → List A → LogCall A
  print : List A → LogCall A

-- The methods of a logger, with what they are called with.
pub data Message (A : Type 0) : Type 0 where
  errorf warnf infof debugf tracef : Text → List A → Message A
  error warn info debug trace : List A → Message A

module _ {A : Type 0} (of_text : Text → A) (l : Logger) where
  abbrev formatted : Text → Text → List A → List (LogCall A)
  formatted level format args = printf (level ++ (l.name ++ (codes "] " ++ format))) args ∷ []

  abbrev plain : Text → List A → List (LogCall A)
  plain level args = print (of_text (level ++ (l.name ++ codes "] ")) ∷ args) ∷ []

  abbrev unless_quiet : List (LogCall A) → List (LogCall A)
  unless_quiet calls = if not l.quiet then calls else []

  -- `Errorf`, `Warnf`, `Infof`, `Debugf`, `Tracef`; `Error`, `Warn`, `Info`, `Debug`, `Trace`.
  unfoldable pub log_message : Message A → List (LogCall A)
  log_message (errorf format args) = formatted (codes "[ERROR] [") format args
  log_message (error args) = plain (codes "[ERROR] [") args
  log_message (warnf format args) = formatted (codes "[WARN] [") format args
  log_message (warn args) = plain (codes "[WARN] [") args
  log_message (infof format args) = unless_quiet (formatted (codes "[INFO] [") format args)
  log_message (info args) = unless_quiet (plain (codes "[INFO] [") args)
  log_message (debugf format args) = unless_quiet (formatted (codes "[DEBUG] [") format args)
  log_message (debug args) = unless_quiet (plain (codes "[DEBUG] [") args)
  log_message (tracef format args) = unless_quiet (formatted (codes "[TRACE] [") format args)
  log_message (trace args) = unless_quiet (plain (codes "[TRACE] [") args)

  -- One after the other.
  unfoldable pub log_all : List (Message A) → List (LogCall A)
  unfolding log_message
  log_all [] = []
  log_all (m ∷ ms) = log_message m ++ log_all ms
