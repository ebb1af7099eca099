-- ===== src/Names/Counters.antt =====
-- The names that `newCounter` gives, and the second pass of the replacer in
-- `addCounterMeasurement`.
use win_perf_counters.Names.Fixed.{
  IsFixed, HasNoBackslash, first_match-none, first_match-slash, sanitize-IsFixed, sanitize_fixed,
  IsFixed-plain,
}
use win_perf_counters.Names.Sanitized.{IsKept, sanitize-All}
use win_perf_counters.Names.{sanitize, measurement_name, new_counter}
use win_perf_counters.Prelude.{
  All, All-append, ℕ, ◌≡◌, refl, ◌≢◌, inl, inr, Bool, Bool-cases, true, false, [], ◌∷◌, ◌++◌, arith,
}
use win_perf_counters.Text.{Text, codes, text_eq, has_prefix}
use win_perf_counters.Text.Equality.{text_eq_iff}

-- A measurement has a name, and it is clean.
pub measurement_name-All : (m : Text) → All IsKept (measurement_name m) × (measurement_name m ≢ [])
unfolding measurement_name
measurement_name-All m = elim (Bool-cases (text_eq (sanitize m) [])) [
  | inl empty ↦ rw empty (omega arith, λ e. cc)
  | inr named ↦ rw named (sanitize-All m, λ e. cc ((text_eq_iff (sanitize m) []).1 e, named))
]

-- Whatever the configuration says, the counter's name and the measurement's have no space, no
-- percent sign and no backslash, and the measurement's is not empty.
pub new_counter-All :
    (handle : ℕ) (path computer object inst name measurement : Text) (include_total raw : Bool)
    → let c = new_counter handle path computer object inst name measurement include_total raw in
      All IsKept c.counter × All IsKept c.measurement × (c.measurement ≢ [])
unfolding new_counter
new_counter-All handle path computer object inst name measurement include_total true = (
  All-append IsKept (sanitize name) (codes "_Raw") (sanitize-All name) (omega arith),
  (measurement_name-All measurement).0,
  (measurement_name-All measurement).1,
)
new_counter-All handle path computer object inst name measurement include_total false =
    (sanitize-All name, (measurement_name-All measurement).0, (measurement_name-All measurement).1)

-- A text without `_` stands at the front of a longer text only if it stands before the `_`.
has_prefix-before :
    (s rest t : Text)
    → All (λ x. x ≢ b'_') t
    → has_prefix (s ++ (b'_' ∷ rest)) t ≡ true
    → has_prefix s t ≡ true
unfolding has_prefix
has_prefix-before s rest [] n h = refl
has_prefix-before [] rest (x ∷ t) n h = ground arith
has_prefix-before (c ∷ s) rest (x ∷ t) n h = ground (arith, has_prefix-before s rest t n.1)

IsFixed-suffix :
    (s rest : Text)
    → All IsKept s
    → IsFixed s
    → IsFixed (b'_' ∷ rest)
    → IsFixed (s ++ (b'_' ∷ rest))
IsFixed-suffix [] rest k f g = g
IsFixed-suffix (c ∷ s) rest k f g =
    (first_match-none c (s ++ (b'_' ∷ rest)) k.0 (λ e. free e), IsFixed-suffix s rest k.1 f.1 g)
  where
    absent :
        (t : Text)
        → All (λ x. x ≢ b'_') t
        → has_prefix s t ≡ false
        → has_prefix (s ++ (b'_' ∷ rest)) t ≡ false
    absent t n h = elim (Bool-cases (has_prefix (s ++ (b'_' ∷ rest)) t)) [
      | inl there ↦ cc (has_prefix-before s rest t n there)
      | inr gone ↦ gone
    ]

    free :
        c ≡ b'/'
        → (has_prefix (s ++ (b'_' ∷ rest)) (codes "sec") ≡ false)
          × (has_prefix (s ++ (b'_' ∷ rest)) (codes "Sec") ≡ false)
    free e =
        let (lower, upper) = first_match-slash c s f.0 e in
        (absent (codes "sec") (omega arith) lower, absent (codes "Sec") (omega arith) upper)

-- The field that a value is stored under is the counter's name itself: the second pass of the
-- replacer changes nothing, if the configured name has no backslash.
pub sanitize-new_counter :
    (handle : ℕ) (path computer object inst name measurement : Text) (include_total raw : Bool)
    → HasNoBackslash name
    → let c = new_counter handle path computer object inst name measurement include_total raw in
      sanitize c.counter ≡ c.counter
unfolding new_counter
sanitize-new_counter handle path computer object inst name measurement include_total true b =
    sanitize_fixed (sanitize name ++ codes "_Raw") (
      IsFixed-suffix (sanitize name) (codes "Raw") (sanitize-All name) (sanitize-IsFixed name b)
        (IsFixed-plain (codes "_Raw") [] (omega arith) tt))
sanitize-new_counter handle path computer object inst name measurement include_total false b =
    sanitize_fixed (sanitize name) (sanitize-IsFixed name b)
