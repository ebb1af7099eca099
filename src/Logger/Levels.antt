-- ===== src/Logger/Levels.antt =====
-- What a quiet logger keeps back.
use win_perf_counters.Logger.{
  Message, errorf, error, warnf, warn, infof, info, debugf, debug, tracef, trace, log_message,
  log_all,
}
use win_perf_counters.Prelude.{
  ◌≡◌, refl, Bool, true, false, Bool-cases, inl, inr, List, [], ◌∷◌, if◌then◌else◌,
}
use win_perf_counters.Text.{Text}

-- Errors and warnings.
abbrev pub is_severe : {A : Type 0} → Message A → Bool
is_severe (errorf format args) = true
is_severe (error args) = true
is_severe (warnf format args) = true
is_severe (warn args) = true
is_severe _ = false

abbrev pub severe : {A : Type 0} → List (Message A) → List (Message A)
severe [] = []
severe (m ∷ ms) = if is_severe m then m ∷ severe ms else severe ms

log_message_quiet :
    {A : Type 0} (of_text : Text → A) (name : Text) (m : Message A)
    → log_message of_text (record { name = name; quiet = true }) m
      ≡ (if is_severe m then log_message of_text (record { name = name; quiet = false }) m else [])
unfolding log_message
log_message_quiet of_text name (errorf format args) = refl
log_message_quiet of_text name (error args) = refl
log_message_quiet of_text name (warnf format args) = refl
log_message_quiet of_text name (warn args) = refl
log_message_quiet of_text name (infof format args) = refl
log_message_quiet of_text name (info args) = refl
log_message_quiet of_text name (debugf format args) = refl
log_message_quiet of_text name (debug args) = refl
log_message_quiet of_text name (tracef format args) = refl
log_message_quiet of_text name (trace args) = refl

-- A quiet logger passes on what another of its name passes on of the errors and the warnings alone,
-- in the same order.
pub log_all_quiet :
    {A : Type 0} (of_text : Text → A) (name : Text) (ms : List (Message A))
    → log_all of_text (record { name = name; quiet = true }) ms
      ≡ log_all of_text (record { name = name; quiet = false }) (severe ms)
unfolding log_all
log_all_quiet of_text name [] = refl
log_all_quiet of_text name (m ∷ ms) = elim (Bool-cases (is_severe m)) [
  | inl loud ↦ rw (log_message_quiet of_text name m, log_all_quiet of_text name ms, loud) refl
  | inr quiet ↦ rw (log_message_quiet of_text name m, log_all_quiet of_text name ms, quiet) refl
]
