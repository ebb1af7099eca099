-- ===== src/Query/Strings/Lines.antt =====
-- Lists of strings in a UTF-16 buffer.
use win_perf_counters.Prelude.{
  subst, ℕ, zero, suc, ◌+◌, ◌≤◌, ◌<◌, ◌≡◌, refl, ◌≢◌, ◌⊎◌, true, some, List, [], ◌∷◌, ◌++◌, ltb,
  length, length-append, drop-append, arith, append_assoc, ap, ◌∙◌,
}
use win_perf_counters.Query.Strings.{
  Runes, decode_utf16, rune_count, until_zero, decode_line, utf16_ptr_to_string, line_at,
  collect_lines,
}
use win_perf_counters.Result.{ok}

-- A unit that is a character by itself: not zero and no surrogate.
abbrev pub IsUnit16 : ℕ → Type 0
IsUnit16 u = (0 < u) × ((u < 0xD800) ⊎ (0xE000 ≤ u))

-- A string of such characters.
abbrev pub IsBmp : List ℕ → Type 0
IsBmp [] = Unit
IsBmp (u ∷ us) = IsUnit16 u × IsBmp us

-- Strings that are not empty, all of such characters.
abbrev pub AreBmp : List (List ℕ) → Type 0
AreBmp [] = Unit
AreBmp (s ∷ ss) = IsBmp s × (s ≢ []) × AreBmp ss

-- How Windows lays out a list of strings: each with its terminator.
abbrev pub multi_string : List (List ℕ) → List ℕ
multi_string [] = []
multi_string (s ∷ ss) = s ++ (0 ∷ multi_string ss)

pub decode_utf16-IsBmp : (s : List ℕ) → IsBmp s → decode_utf16 s ≡ s
unfolding decode_utf16
decode_utf16-IsBmp [] h = refl
decode_utf16-IsBmp (u ∷ []) h = ground arith
decode_utf16-IsBmp (u ∷ v ∷ us) h = ground (arith, decode_utf16-IsBmp (v ∷ us) h.1)

abbrev pub HasNoZero : List ℕ → Type 0
HasNoZero [] = Unit
HasNoZero (u ∷ us) = (0 < u) × HasNoZero us

pub IsBmp-HasNoZero : (s : List ℕ) → IsBmp s → HasNoZero s
IsBmp-HasNoZero [] h = tt
IsBmp-HasNoZero (u ∷ us) h = (h.0.0, IsBmp-HasNoZero us h.1)

pub until_zero-append : (s rest : List ℕ) → HasNoZero s → until_zero (s ++ (0 ∷ rest)) ≡ some s
unfolding until_zero
until_zero-append [] rest h = refl
until_zero-append (u ∷ s) rest h = ground (arith, until_zero-append s rest h.1)

-- A line that stands at an offset of the buffer.
pub line_at_lem :
    (before s rest : List ℕ) (start : ℕ)
    → start ≡ length before
    → HasNoZero s
    → line_at (before ++ (s ++ (0 ∷ rest))) start ≡ ok (decode_utf16 s)
unfolding line_at utf16_ptr_to_string decode_line
line_at_lem before s rest start at h =
    let size = length-append before (s ++ (0 ∷ rest)) in
    let more = length-append s (0 ∷ rest) in
    let inside : ltb start (length (before ++ (s ++ (0 ∷ rest)))) ≡ true = ground arith in
    rw (inside, drop-append before (s ++ (0 ∷ rest)) start at, until_zero-append s rest h)

pub line_at-IsBmp :
    (before s rest : List ℕ) (start : ℕ)
    → start ≡ length before
    → IsBmp s
    → line_at (before ++ (s ++ (0 ∷ rest))) start ≡ ok s
line_at-IsBmp before s rest start at h =
    line_at_lem before s rest start at (IsBmp-HasNoZero s h) ∙ ap ok (decode_utf16-IsBmp s h)

pub rune_count-IsBmp : (s : List ℕ) → IsBmp s → rune_count s ≡ length s
unfolding rune_count
rune_count-IsBmp [] h = refl
rune_count-IsBmp (u ∷ us) h = ground (arith, rune_count-IsBmp us h.1)

collect_lines-cons :
    (rounds start : ℕ) (buf : List ℕ) (s t : Runes) (lines : List Runes)
    → s ≢ []
    → line_at buf (start + rune_count s + 1) ≡ ok t
    → collect_lines (suc rounds) buf start s lines
      ≡ collect_lines rounds buf (start + rune_count s + 1) t (lines ++ (s ∷ []))
unfolding collect_lines
collect_lines-cons rounds start buf [] t lines ne e = absurd (ne refl)
collect_lines-cons rounds start buf (r ∷ rs) t lines ne e = rw e

pub collect_lines-step :
    (rounds start n : ℕ) (buf : List ℕ) (s t : Runes) (lines : List Runes)
    → s ≢ []
    → rune_count s ≡ n
    → line_at buf (start + n + 1) ≡ ok t
    → collect_lines (suc rounds) buf start s lines
      ≡ collect_lines rounds buf (start + n + 1) t (lines ++ (s ∷ []))
collect_lines-step rounds start n buf s t lines ne c =
    subst
      (λ m.
        line_at buf (start + m + 1) ≡ ok t
        → collect_lines (suc rounds) buf start s lines
          ≡ collect_lines rounds buf (start + m + 1) t (lines ++ (s ∷ [])))
      c (collect_lines-cons rounds start buf s t lines ne)

pub collect_lines-end :
    (rounds start : ℕ) (buf : List ℕ) (lines : List Runes)
    → collect_lines rounds buf start [] lines ≡ ok lines
unfolding collect_lines
collect_lines-end rounds start buf lines = refl

pub collect_lines-AreBmp :
    (ss : List (List ℕ)) (rounds start : ℕ) (buf before s junk : List ℕ) (lines : List Runes)
    → buf ≡ before ++ (s ++ (0 ∷ (multi_string ss ++ (0 ∷ junk))))
    → start ≡ length before
    → length ss < rounds
    → s ≢ []
    → rune_count s ≡ length s
    → AreBmp ss
    → collect_lines rounds buf start s lines ≡ ok (lines ++ (s ∷ ss))
collect_lines-AreBmp ss zero start buf before s junk lines e at enough ne c h = absurd (omega arith)
collect_lines-AreBmp [] (suc rounds) start buf before s junk lines e at enough ne c h =
    let next : line_at buf (start + length s + 1) ≡ ok [] = rw (e ∙ regroup) (
      line_at-IsBmp (before ++ (s ++ (0 ∷ []))) [] junk (start + length s + 1)
        (simp length-append (omega arith)) tt) in
    collect_lines-step rounds start (length s) buf s [] lines ne c next
    ∙ collect_lines-end rounds (start + length s + 1) buf (lines ++ (s ∷ []))
  where
    regroup : before ++ (s ++ (0 ∷ (0 ∷ junk))) ≡ (before ++ (s ++ (0 ∷ []))) ++ (0 ∷ junk)
    regroup = simp append_assoc
collect_lines-AreBmp (t ∷ ts) (suc rounds) start buf before s junk lines e at enough ne c h =
    let next : line_at buf (start + length s + 1) ≡ ok t = rw (e ∙ regroup) (
      line_at-IsBmp (before ++ (s ++ (0 ∷ []))) t (multi_string ts ++ (0 ∷ junk))
        (start + length s + 1) (simp length-append (omega arith)) h.0) in
    collect_lines-step rounds start (length s) buf s t lines ne c next
    ∙ collect_lines-AreBmp ts rounds (start + length s + 1) buf (before ++ (s ++ (0 ∷ []))) t junk
        (lines ++ (s ∷ [])) (e ∙ regroup) (simp length-append (omega arith)) (omega arith) h.1
        (rune_count-IsBmp t h.0) h.2
    ∙ simp append_assoc
  where
    regroup :
        before ++ (s ++ (0 ∷ ((t ++ (0 ∷ multi_string ts)) ++ (0 ∷ junk))))
        ≡ (before ++ (s ++ (0 ∷ []))) ++ (t ++ (0 ∷ (multi_string ts ++ (0 ∷ junk))))
    regroup = simp append_assoc
