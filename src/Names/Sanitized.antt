-- ===== src/Names/Sanitized.antt =====
-- What the replacer of names leaves behind, and where it changes nothing.
use win_perf_counters.Names.{first_match, replace_from, sanitized_chars, sanitize}
use win_perf_counters.Prelude.{
  All, All-append, ℕ, zero, suc, ◌-◌, ◌≡◌, refl, ◌≢◌, inl, inr, Bool, Bool-cases, none, some, [],
  ◌∷◌, ◌++◌, arith, length, true, false,
}
use win_perf_counters.Text.{Text, codes, has_prefix}

-- The bytes that are always replaced.
abbrev pub IsKept : ℕ → Type 0
IsKept c = (c ≢ b' ') × (c ≢ b'%') × (c ≢ b'\\')

pub data IsReplacement : Text → Type 0 where
  persec : IsReplacement (codes "_persec")
  underscore : IsReplacement (codes "_")
  percent : IsReplacement (codes "Percent")

abbrev pub replace : ℕ → Text → Text
replace = replace_from sanitized_chars

-- What the replacer can do at one byte.
pub data Step (c : ℕ) (cs : Text) : Type 0 where
  keeps :
      first_match sanitized_chars (c ∷ cs) ≡ none
      → IsKept c
      → replace 0 (c ∷ cs) ≡ c ∷ replace 0 cs
      → Step c cs
  swaps :
      (new : Text) (k : ℕ)
      → IsReplacement new
      → replace 0 (c ∷ cs) ≡ new ++ replace k cs
      → Step c cs
  drops : c ≡ b'\\' → replace 0 (c ∷ cs) ≡ replace 0 cs → Step c cs

module _ (c : ℕ) (cs : Text) where
  abbrev matches : Text → Bool
  matches old = has_prefix (c ∷ cs) old

  unmatched_bytes :
      matches (codes " ") ≡ false
      → matches (codes "%") ≡ false
      → matches (codes "\\") ≡ false
      → IsKept c
  unfolding has_prefix
  unmatched_bytes a b d = ground arith

  dropped_byte : matches (codes "\\") ≡ true → c ≡ b'\\'
  unfolding has_prefix
  dropped_byte e = ground arith

  pub replace-none :
      first_match sanitized_chars (c ∷ cs) ≡ none → replace 0 (c ∷ cs) ≡ c ∷ replace 0 cs
  unfolding replace_from
  replace-none e = rw (e, replace_from)

  replace-some :
      (old new : Text)
      → first_match sanitized_chars (c ∷ cs) ≡ some (old, new)
      → replace 0 (c ∷ cs) ≡ new ++ replace (length old - 1) cs
  unfolding replace_from
  replace-some old new e = rw (e, replace_from)

  pub first_change : Step c cs
  unfolding first_match
  first_change = elim (Bool-cases (matches (codes "/sec"))) [
    | inl e ↦
        swaps (codes "_persec") 3 persec (replace-some (codes "/sec") (codes "_persec") (rw e))
    | inr a ↦ elim (Bool-cases (matches (codes "/Sec"))) [
      | inl e ↦
          swaps (codes "_persec") 3 persec
            (replace-some (codes "/Sec") (codes "_persec") (rw (a, e)))
      | inr b ↦ elim (Bool-cases (matches (codes " "))) [
        | inl e ↦
            swaps (codes "_") 0 underscore (replace-some (codes " ") (codes "_") (rw (a, b, e)))
        | inr d ↦ elim (Bool-cases (matches (codes "%"))) [
          | inl e ↦
              swaps (codes "Percent") 0 percent
                (replace-some (codes "%") (codes "Percent") (rw (a, b, d, e)))
          | inr f ↦ elim (Bool-cases (matches (codes "\\"))) [
            | inl e ↦ drops (dropped_byte e) (replace-some (codes "\\") [] (rw (a, b, d, f, e)))
            | inr g ↦
                keeps (rw (a, b, d, f, g)) (unmatched_bytes d f g)
                  (replace-none (rw (a, b, d, f, g)))
          ]
        ]
      ]
    ]
  ]

IsReplacement-All : {new : Text} → IsReplacement new → All IsKept new
IsReplacement-All persec = omega arith
IsReplacement-All underscore = omega arith
IsReplacement-All percent = omega arith

replace-All-Step :
    (c : ℕ) (cs : Text)
    → ((k : ℕ) → All IsKept (replace k cs))
    → Step c cs
    → All IsKept (replace 0 (c ∷ cs))
replace-All-Step c cs ih (keeps m h e) = rw e (h, ih 0)
replace-All-Step c cs ih (swaps new k r e) =
    rw e (All-append IsKept new (replace k cs) (IsReplacement-All r) (ih k))
replace-All-Step c cs ih (drops b e) = rw e (ih 0)

pub replace-skip : (k c : ℕ) (cs : Text) → replace (suc k) (c ∷ cs) ≡ replace k cs
unfolding replace_from
replace-skip k c cs = refl

pub replace-nil : (k : ℕ) → replace k [] ≡ []
unfolding replace_from
replace-nil k = refl

replace-All : (s : Text) (k : ℕ) → All IsKept (replace k s)
replace-All [] k = rw replace-nil tt
replace-All (c ∷ cs) zero = replace-All-Step c cs (replace-All cs) (first_change c cs)
replace-All (c ∷ cs) (suc k) = rw replace-skip (replace-All cs k)

-- A sanitized name has no space, no percent sign and no backslash.
pub sanitize-All : (s : Text) → All IsKept (sanitize s)
unfolding sanitize
sanitize-All s = replace-All s 0
