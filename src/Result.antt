-- ===== src/Result.antt =====
-- The errors of the library and the outcome of a call (performance_query.go, utils.go).
use win_perf_counters.Prelude.{ℕ}
use win_perf_counters.Text.{Text}

-- `pdhError`: a status of the performance data helper, with the text that the system gives it.
pub record PdhError : Type 0 where
  pub error_code : ℕ
  pub error_text : Text

-- Every error value that the program makes. `wrapped` is `fmt.Errorf("… %q: %w", path, err)`.
pub data Error : Type 0 where
  pdh : PdhError → Error
  buffer_limit_reached uninitialized_query : Error
  cannot_parse_object cannot_parse_computer cannot_parse_instance : Text → Error
  buffer_size_too_small buffer_size_too_large wildcards_not_localized no_objects : Error
  wrapped : Text → Error → Error

-- `panic` is a Go run-time panic; `out_of_fuel` stands for a loop that has not ended.
pub data Result {ℓ} (A : Type ℓ) : Type ℓ where
  ok : A → Result A
  err : Error → Result A
  panic : Result A
  out_of_fuel : Result A

infixl 5 ◌>>=◌ ◌>>◌
abbrev pub ◌>>=◌ {ℓ κ} : {A : Type ℓ} {B : Type κ} → Result A → (A → Result B) → Result B
ok a >>= f = f a
err e >>= f = err e
panic >>= f = panic
out_of_fuel >>= f = out_of_fuel

abbrev pub ◌>>◌ {ℓ κ} : {A : Type ℓ} {B : Type κ} → Result A → Result B → Result B
m >> k = m >>= λ _. k

-- The call came back with a value or with an error.
abbrev pub Returns {ℓ} : {A : Type ℓ} → Result A → Type 0
Returns (ok a) = Unit
Returns (err e) = Unit
Returns panic = ⊥
Returns out_of_fuel = ⊥

-- The value, if there is one, is as described.
abbrev pub OnOk {ℓ κ} : {A : Type ℓ} → (A → Type κ) → Result A → Type κ
OnOk P (ok a) = P a
OnOk P (err e) = Unit
OnOk P panic = Unit
OnOk P out_of_fuel = Unit
