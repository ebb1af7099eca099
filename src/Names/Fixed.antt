-- ===== src/Names/Fixed.antt =====
-- Where the replacer of names changes nothing: on what it has itself written.
use win_perf_counters.Names.Sanitized.{
  IsKept, IsReplacement, persec, underscore, percent, replace, Step, keeps, swaps, drops,
  first_change, replace-none, replace-skip, replace-nil,
}
use win_perf_counters.Names.{first_match, sanitized_chars, sanitize}
use win_perf_counters.Prelude.{
  All, ℕ, zero, suc, ◌≡◌, refl, ◌≢◌, ◌⊎◌, inl, inr, Bool-cases, none, [], ◌∷◌, ◌++◌, arith, true,
  false, ap, ◌∙◌,
}
use win_perf_counters.Text.{Text, codes, has_prefix}

-- No old string of the replacer stands anywhere in the text.
abbrev pub IsFixed : Text → Type 0
IsFixed [] = Unit
IsFixed (c ∷ cs) = (first_match sanitized_chars (c ∷ cs) ≡ none) × IsFixed cs

replace-IsFixed : (t : Text) → IsFixed t → replace 0 t ≡ t
replace-IsFixed [] h = replace-nil 0
replace-IsFixed (c ∷ cs) h = replace-none c cs h.0 ∙ ap (◌∷◌ c) (replace-IsFixed cs h.1)

abbrev pub HasNoBackslash : Text → Type 0
HasNoBackslash = All (λ c. c ≢ b'\\')

-- The first bytes of the new strings.
abbrev IsNewHead : ℕ → Type 0
IsNewHead c = (c ≡ b'_') ⊎ (c ≡ b'P')

has_prefix-cons :
    (c x : ℕ) (s t : Text) → has_prefix (c ∷ s) (x ∷ t) ≡ true → (c ≡ x) × (has_prefix s t ≡ true)
unfolding has_prefix
has_prefix-cons c x s t h = ground arith

has_prefix-new :
    {new : Text} (x : ℕ) (s t : Text)
    → IsReplacement new
    → has_prefix (new ++ s) (x ∷ t) ≡ true
    → IsNewHead x
unfolding has_prefix
has_prefix-new x s t persec h = ground arith
has_prefix-new x s t underscore h = ground arith
has_prefix-new x s t percent h = ground arith

has_prefix-replace-Step :
    (c x : ℕ) (cs t : Text)
    → c ≢ b'\\'
    → ¬ IsNewHead x
    → (has_prefix (replace 0 cs) t ≡ true → has_prefix cs t ≡ true)
    → Step c cs
    → has_prefix (replace 0 (c ∷ cs)) (x ∷ t) ≡ true
    → has_prefix (c ∷ cs) (x ∷ t) ≡ true
unfolding has_prefix
has_prefix-replace-Step c x cs t b n ih (keeps m k e) h =
    let (same, front) = has_prefix-cons c x (replace 0 cs) t (rw e at h) in ground (arith, ih front)
has_prefix-replace-Step c x cs t b n ih (swaps new k r e) h =
    absurd (n (has_prefix-new x (replace k cs) t r (rw e at h)))
has_prefix-replace-Step c x cs t b n ih (drops d e) h = absurd (b d)

-- A text that no new string begins stands at the front of the result only if it stood there before.
has_prefix-replace :
    (s t : Text)
    → HasNoBackslash s
    → All (λ x. ¬ IsNewHead x) t
    → has_prefix (replace 0 s) t ≡ true
    → has_prefix s t ≡ true
has_prefix-replace s [] b n h = unfold has_prefix in refl
has_prefix-replace [] (x ∷ t) b n h = rw replace-nil at h
has_prefix-replace (c ∷ cs) (x ∷ t) b n h =
    has_prefix-replace-Step c x cs t b.0 n.0 (has_prefix-replace cs t b.1 n.1) (first_change c cs) h

-- What the replacer's first two pairs look for behind a slash.
abbrev pub IsRateFree : Text → Type 0
IsRateFree s = (has_prefix s (codes "sec") ≡ false) × (has_prefix s (codes "Sec") ≡ false)

pub first_match-none :
    (c : ℕ) (s : Text)
    → IsKept c
    → (c ≡ b'/' → IsRateFree s)
    → first_match sanitized_chars (c ∷ s) ≡ none
unfolding first_match has_prefix
first_match-none c s k h = ground arith

pub first_match-slash :
    (c : ℕ) (s : Text) → first_match sanitized_chars (c ∷ s) ≡ none → c ≡ b'/' → IsRateFree s
unfolding first_match has_prefix
first_match-slash c s m e = ground arith

pub IsFixed-plain :
    (new s : Text) → All (λ c. IsKept c × (c ≢ b'/')) new → IsFixed s → IsFixed (new ++ s)
IsFixed-plain [] s h f = f
IsFixed-plain (c ∷ cs) s h f =
    (first_match-none c (cs ++ s) h.0.0 (λ e. absurd (h.0.1 e)), IsFixed-plain cs s h.1 f)

IsReplacement-plain : {new : Text} → IsReplacement new → All (λ c. IsKept c × (c ≢ b'/')) new
IsReplacement-plain persec = omega arith
IsReplacement-plain underscore = omega arith
IsReplacement-plain percent = omega arith

IsRateFree-replace : (s : Text) → HasNoBackslash s → IsRateFree s → IsRateFree (replace 0 s)
IsRateFree-replace s b (lower, upper) =
    (absent (codes "sec") (omega arith) lower, absent (codes "Sec") (omega arith) upper)
  where
    absent :
        (t : Text)
        → All (λ x. ¬ IsNewHead x) t
        → has_prefix s t ≡ false
        → has_prefix (replace 0 s) t ≡ false
    absent t n h = elim (Bool-cases (has_prefix (replace 0 s) t)) [
      | inl there ↦ cc (has_prefix-replace s t b n there)
      | inr gone ↦ gone
    ]

replace-IsFixed-Step :
    (c : ℕ) (cs : Text)
    → HasNoBackslash (c ∷ cs)
    → ((k : ℕ) → IsFixed (replace k cs))
    → Step c cs
    → IsFixed (replace 0 (c ∷ cs))
replace-IsFixed-Step c cs b ih (keeps m k e) = rw e (
  first_match-none c (replace 0 cs) k
      (λ slash. IsRateFree-replace cs b.1 (first_match-slash c cs m slash)),
  ih 0,
)
replace-IsFixed-Step c cs b ih (swaps new k r e) =
    rw e (IsFixed-plain new (replace k cs) (IsReplacement-plain r) (ih k))
replace-IsFixed-Step c cs b ih (drops d e) = absurd (b.0 d)

replaced-IsFixed : (s : Text) (k : ℕ) → HasNoBackslash s → IsFixed (replace k s)
replaced-IsFixed [] k b = rw replace-nil tt
replaced-IsFixed (c ∷ cs) zero b =
    replace-IsFixed-Step c cs b (λ k. replaced-IsFixed cs k b.1) (first_change c cs)
replaced-IsFixed (c ∷ cs) (suc k) b = rw replace-skip (replaced-IsFixed cs k b.1)

pub sanitize-IsFixed : (s : Text) → HasNoBackslash s → IsFixed (sanitize s)
unfolding sanitize
sanitize-IsFixed s b = replaced-IsFixed s 0 b

pub sanitize_fixed : (s : Text) → IsFixed s → sanitize s ≡ s
unfolding sanitize
sanitize_fixed s f = replace-IsFixed s f

-- Sanitizing a name a second time changes nothing, if the name has no backslash.
pub sanitize_idem : (s : Text) → HasNoBackslash s → sanitize (sanitize s) ≡ sanitize s
sanitize_idem s b = sanitize_fixed (sanitize s) (sanitize-IsFixed s b)
