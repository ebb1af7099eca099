-- ===== src/Errors/Ignored.antt =====
-- What the list of ignored errors silences.
use win_perf_counters.Errors.{as_pdh, check_error}
use win_perf_counters.Pdh.Table.{pdh_errors, error_name}
use win_perf_counters.Prelude.{
  ℕ, ◌≡◌, refl, sym, ◌≢◌, ◌↔◌, ◌⊎◌, inl, inr, Bool, true, false, not, ◌&&◌, none, some, List, [],
  ◌∷◌, ◌==◌, if◌then◌else◌, arith,
}
use win_perf_counters.Result.{PdhError, Error}
use win_perf_counters.Text.Equality.{text_eq_iff}
use win_perf_counters.Text.{Text, text_eq}

-- The entry stands in the table.
abbrev pub Lists : List (ℕ × Text) → ℕ → Text → Type 0
Lists [] code name = ⊥
Lists ((c, n) ∷ table) code name = ((c ≡ code) × (n ≡ name)) ⊎ Lists table code name

-- A code, and a name, that is in no entry.
fresh_code : ℕ → List (ℕ × Text) → Bool
fresh_code code [] = true
fresh_code code ((c, n) ∷ table) = not (c == code) && fresh_code code table

fresh_name : Text → List (ℕ × Text) → Bool
fresh_name name [] = true
fresh_name name ((c, n) ∷ table) = not (text_eq n name) && fresh_name name table

-- Every code and every name stands in one entry, and no name is empty.
is_table : List (ℕ × Text) → Bool
is_table [] = true
is_table ((c, n) ∷ table) =
    not (text_eq n []) && fresh_code c table && fresh_name n table && is_table table

pdh_errors-is_table : is_table pdh_errors ≡ true
unfolding is_table pdh_errors fresh_code fresh_name text_eq
pdh_errors-is_table = refl

fresh_code-Lists :
    (code : ℕ) (name : Text) (t : List (ℕ × Text)) → Lists t code name → fresh_code code t ≡ false
unfolding fresh_code
fresh_code-Lists code name [] l = elim l [ ]
fresh_code-Lists code name ((c, n) ∷ t) (inl (e, f)) = ground arith
fresh_code-Lists code name ((c, n) ∷ t) (inr l) = ground (arith, fresh_code-Lists code name t l)

fresh_name-Lists :
    (code : ℕ) (name : Text) (t : List (ℕ × Text)) → Lists t code name → fresh_name name t ≡ false
unfolding fresh_name
fresh_name-Lists code name [] l = elim l [ ]
fresh_name-Lists code name ((c, n) ∷ t) (inl (e, f)) = ground (arith, text_eq_iff n name)
fresh_name-Lists code name ((c, n) ∷ t) (inr l) = ground (arith, fresh_name-Lists code name t l)

-- A name that is fresh and not empty is the name of no code.
fresh_name-error_name :
    (code : ℕ) (name : Text) (t : List (ℕ × Text))
    → fresh_name name t ≡ true
    → name ≢ []
    → error_name t code ≢ name
unfolding fresh_name error_name
fresh_name-error_name code name [] f ne e = ne (sym e)
fresh_name-error_name code name ((c, n) ∷ t) f ne e =
    ground (arith, text_eq_iff n name, fresh_name-error_name code name t)

error_name-Lists :
    (t : List (ℕ × Text)) (code : ℕ) (name : Text)
    → is_table t ≡ true
    → Lists t code name
    → error_name t code ≡ name
unfolding is_table error_name
error_name-Lists [] code name h l = elim l [ ]
error_name-Lists ((c, n) ∷ t) code name h (inl (e, f)) = ground arith
error_name-Lists ((c, n) ∷ t) code name h (inr l) =
    ground (arith, fresh_code-Lists code name t l, error_name-Lists t code name)

Lists-nonempty :
    (t : List (ℕ × Text)) (code : ℕ) (name : Text)
    → is_table t ≡ true
    → Lists t code name
    → name ≢ []
unfolding is_table
Lists-nonempty [] code name h l z = elim l [ ]
Lists-nonempty ((c, n) ∷ t) code name h (inl (e, f)) z = ground (arith, text_eq_iff n [])
Lists-nonempty ((c, n) ∷ t) code name h (inr l) z = ground (arith, Lists-nonempty t code name)

error_name_injective :
    (t : List (ℕ × Text)) (code other : ℕ) (name : Text)
    → is_table t ≡ true
    → Lists t code name
    → error_name t other ≡ name
    → other ≡ code
unfolding is_table error_name
error_name_injective [] code other name h l g = elim l [ ]
error_name_injective ((c, n) ∷ t) code other name h (inl (e, f)) g =
    ground (arith, fresh_name-error_name other n t, text_eq_iff n [])
error_name_injective ((c, n) ∷ t) code other name h (inr l) g =
    ground (arith, fresh_name-Lists code name t l, error_name_injective t code other name)

-- The table gives each of its codes its name, and the name to no other code.
pub error_name_iff :
    (code other : ℕ) (name : Text)
    → Lists pdh_errors code name
    → (error_name pdh_errors other ≡ name) ↔ (other ≡ code)
error_name_iff code other name l = (
  error_name_injective pdh_errors code other name pdh_errors-is_table l,
  λ e. rw e (error_name-Lists pdh_errors code name pdh_errors-is_table l),
)

-- With one name of the table in `IgnoredErrors`, an error that carries a status, wrapped or not, is
-- ignored exactly when that status has the code of the name; otherwise it is returned unchanged.
pub check_error_single :
    (code : ℕ) (name : Text) (e : Error) (p : PdhError)
    → Lists pdh_errors code name
    → as_pdh e ≡ some p
    → check_error (name ∷ []) e ≡ (if p.error_code == code then none else some e)
unfolding check_error
check_error_single code name e p l a =
    let same = error_name_iff code p.error_code name l in
    ground (arith, text_eq_iff name (error_name pdh_errors p.error_code), same)

-- An error that carries no status is never ignored.
pub check_error_other :
    (ignored : List Text) (e : Error) → as_pdh e ≡ none → check_error ignored e ≡ some e
unfolding check_error
check_error_other ignored e a = rw a
