-- ===== src/Path/Scanning.antt =====
-- What the scan does on each piece of a path.
use win_perf_counters.Path.Brackets.{
  IsPlain, plain_nil, plain_byte, IsBalanced, balanced_nil, balanced_byte, balanced_group, IsName,
  name_nil, name_byte, name_group,
}
use win_perf_counters.Int.{pos}
use win_perf_counters.Path.{Scan, scan_backslash, scan_open, scan_close, scan_byte, scan}
use win_perf_counters.Prelude.{
  ℕ, suc, ◌+◌, ◌≡◌, refl, ◌≢◌, ◌⊎◌, inl, inr, none, [], ◌∷◌, ◌++◌, ◌∙◌, arith, length,
}
use win_perf_counters.Text.{Text}

-- The right part of a text is scanned first. The index `j` is a variable with an equation.
pub scan-append :
    (xs ys : Text) (i j : ℕ) (s : Scan)
    → j ≡ i + length xs
    → scan i (xs ++ ys) s ≡ scan i xs (scan j ys s)
unfolding scan
scan-append [] ys i j s e = let e' : j ≡ i = omega arith in rw e'
scan-append (x ∷ xs) ys i j s e = rw (scan-append xs ys (suc i) j s (omega arith))

pub scan-cons :
    (c : ℕ) (cs : Text) (i : ℕ) (s : Scan) → scan i (c ∷ cs) s ≡ scan_byte i c (scan (suc i) cs s)
unfolding scan
scan-cons c cs i s = refl

-- A byte that is no bracket changes nothing, if it is no backslash or stands inside a bracket.
scan_byte-neutral :
    (c i : ℕ) (s : Scan)
    → c ≢ b'('
    → c ≢ b')'
    → (c ≢ b'\\') ⊎ ((k : ℕ) × (s.bracket_level ≡ pos (suc k)))
    → scan_byte i c s ≡ s
unfolding scan_byte scan_backslash
scan_byte-neutral c i s x y h = ground arith

pub scan-IsPlain : {t : Text} (i : ℕ) (s : Scan) → IsPlain t → scan i t s ≡ s
unfolding scan scan_byte
scan-IsPlain i s plain_nil = refl
scan-IsPlain i s (plain_byte c t h p) = ground (arith, scan-IsPlain (suc i) s p)

-- A group is its closing bracket, then its inside, which changes nothing, then its opening bracket.
pub scan-group :
    (t u : Text) (i j : ℕ) (s : Scan)
    → j ≡ suc i + length t
    → scan (suc i) t (scan_close j (scan (suc j) u s)) ≡ scan_close j (scan (suc j) u s)
    → scan i (b'(' ∷ (t ++ (b')' ∷ u))) s ≡ scan_open i (scan_close j (scan (suc j) u s))
unfolding scan scan_byte
scan-group t u i j s e inside = rw (scan-append t (b')' ∷ u) (suc i) j s e, inside)

-- Inside a bracket a balanced text changes nothing.
pub scan-IsBalanced :
    {t : Text} (i k : ℕ) (s : Scan) → s.bracket_level ≡ pos (suc k) → IsBalanced t → scan i t s ≡ s
scan-IsBalanced i k s l balanced_nil = unfold scan in refl
scan-IsBalanced i k s l (balanced_byte c t x y b) =
    scan-cons c t i s
    ∙ rw (scan-IsBalanced (suc i) k s l b) (scan_byte-neutral c i s x y (inr (k, l)))
scan-IsBalanced i k s l (balanced_group t u b d) =
    let j : ℕ = suc i + length t in
    let after : scan (suc j) u s ≡ s = scan-IsBalanced (suc j) k s l d in
    let level : (scan_close j s).bracket_level ≡ pos (suc (suc k)) =
      unfold scan_close in ground arith in
    let inside : scan (suc i) t (scan_close j s) ≡ scan_close j s =
      scan-IsBalanced (suc i) (suc k) (scan_close j s) level b in
    scan-group t u i j s refl (rw after inside)
    ∙ rw after (unfold scan_open scan_close in ground arith)

-- Where a bracket leaves no border: before the counter's border, or after the instance's.
pub record IsSettled (s : Scan) : Type 0 where
  pub level_zero : s.bracket_level ≡ pos 0
  pub no_border : (s.left_counter ≡ none) ⊎ ((s.left_instance ≢ none) × (s.right_instance ≢ none))

-- There a name changes nothing, whatever brackets it has.
pub scan-IsName : {t : Text} (i : ℕ) (s : Scan) → IsSettled s → IsName t → scan i t s ≡ s
scan-IsName i s l name_nil = unfold scan in refl
scan-IsName i s l (name_byte c t h b) =
    scan-cons c t i s ∙ rw (scan-IsName (suc i) s l b) (scan_byte-neutral c i s h.1 h.2 (inl h.0))
scan-IsName i s l (name_group t u b d) =
    let j : ℕ = suc i + length t in
    let after : scan (suc j) u s ≡ s = scan-IsName (suc j) s l d in
    let level : (scan_close j s).bracket_level ≡ pos 1 = unfold scan_close in ground arith in
    let inside : scan (suc i) t (scan_close j s) ≡ scan_close j s =
      scan-IsBalanced (suc i) 0 (scan_close j s) level b in
    scan-group t u i j s refl (rw after inside)
    ∙ rw after (unfold scan_open scan_close in ground arith)
