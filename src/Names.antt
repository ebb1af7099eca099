-- ===== src/Names.antt =====
-- Measurement and field names: `sanitizedChars` (win_perf_counters.go), `newCounter` (utils.go).
pub mod Sanitized
pub mod Fixed
pub mod Counters
use win_perf_counters.Prelude.{
  ℕ, zero, suc, ◌-◌, Bool, Option, none, some, List, [], ◌∷◌, ◌++◌, if◌then◌else◌, length,
}
use win_perf_counters.Text.{Text, codes, text_eq, has_prefix}

-- A `strings.Replacer`: its pairs of an old and a new string.
abbrev pub Replacer : Type 0
Replacer = List (Text × Text)

-- The first pair, in argument order, whose old string stands at the front.
unfoldable pub first_match : Replacer → Text → Option (Text × Text)
first_match [] s = none
first_match ((old, new) ∷ r) s = if has_prefix s old then some (old, new) else first_match r s

-- `Replace`: left to right with no overlap; `skip` bytes of the last match are still to be passed.
unfoldable pub replace_from : Replacer → ℕ → Text → Text
replace_from r skip [] = []
replace_from r (suc k) (c ∷ cs) = replace_from r k cs
replace_from r zero (c ∷ cs) = elim (first_match r (c ∷ cs)) [
  | none ↦ c ∷ replace_from r 0 cs
  | some (old, new) ↦ new ++ replace_from r (length old - 1) cs
]

abbrev pub sanitized_chars : Replacer
sanitized_chars =
    (codes "/sec", codes "_persec")
    ∷ (codes "/Sec", codes "_persec")
    ∷ (codes " ", codes "_")
    ∷ (codes "%", codes "Percent")
    ∷ (codes "\\", [])
    ∷ []

-- `sanitizedChars.Replace`.
unfoldable pub sanitize : Text → Text
unfolding replace_from first_match has_prefix
sanitize = replace_from sanitized_chars 0

-- `counter`: the configuration and the state of one performance counter.
pub record Counter : Type 0 where
  pub counter_path : Text
  pub computer : Text
  pub object_name : Text
  pub counter : Text
  pub instance_name : Text
  pub measurement : Text
  pub include_total : Bool
  pub use_raw_value : Bool
  pub counter_handle : ℕ

unfoldable pub measurement_name : Text → Text
unfolding sanitize text_eq
measurement_name measurement =
    if text_eq (sanitize measurement) [] then codes "win_perf_counters" else sanitize measurement

unfoldable pub new_counter : ℕ → Text → Text → Text → Text → Text → Text → Bool → Bool → Counter
unfolding sanitize measurement_name
new_counter handle path computer object_name inst counter_name measurement include_total raw =
    record {
      counter_path = path;
      computer = computer;
      object_name = object_name;
      counter = (if raw then sanitize counter_name ++ codes "_Raw" else sanitize counter_name);
      instance_name = inst;
      measurement = measurement_name measurement;
      include_total = include_total;
      use_raw_value = raw;
      counter_handle = handle;
    }
