-- ===== src/Query/Strings/Arrays.antt =====
-- `utf16ToStringArray`: what it reads back, and where it loses strings.
use win_perf_counters.Prelude.{
  ℕ, zero, suc, ◌+◌, ◌≤◌, ◌<◌, ◌≡◌, refl, ◌≢◌, true, List, [], ◌∷◌, ◌++◌, length, length-append,
  arith, append_assoc, ap, ◌∙◌,
}
use win_perf_counters.Query.Strings.Lines.{
  rune_count-IsBmp, IsBmp, AreBmp, HasNoZero, IsBmp-HasNoZero, multi_string, decode_utf16-IsBmp,
  line_at_lem, line_at-IsBmp, collect_lines-step, collect_lines-end, collect_lines-AreBmp,
}
use win_perf_counters.Query.Strings.{
  rune_count, Runes, is_high, is_low, paired, decode_utf16, line_at, collect_lines,
  utf16_to_string_array,
}
use win_perf_counters.Result.{ok}

utf16_to_string_array_by :
    (buf : List ℕ) (s : Runes)
    → line_at buf 0 ≡ ok s
    → utf16_to_string_array buf ≡ collect_lines (length buf) buf 0 s []
unfolding utf16_to_string_array
utf16_to_string_array_by buf s e = rw e

length-multi_string : (ss : List (List ℕ)) → AreBmp ss → length ss ≤ length (multi_string ss)
length-multi_string [] h = omega arith
length-multi_string (s ∷ ss) h = simp length-append (omega (arith, length-multi_string ss h.2))

-- A list of strings that are not empty and hold no zero and no surrogate is read back from the way
-- Windows lays it out, whatever stands behind it in the buffer.
pub utf16_to_string_array-multi_string :
    (ss : List (List ℕ)) (junk : List ℕ)
    → AreBmp ss
    → utf16_to_string_array (multi_string ss ++ (0 ∷ junk)) ≡ ok ss
utf16_to_string_array-multi_string [] junk h =
    utf16_to_string_array_by (0 ∷ junk) [] (line_at-IsBmp [] [] junk 0 refl tt)
    ∙ collect_lines-end (length (0 ∷ junk)) 0 (0 ∷ junk) []
utf16_to_string_array-multi_string (s ∷ ss) junk h =
    let buf : List ℕ = (s ++ (0 ∷ multi_string ss)) ++ (0 ∷ junk) in
    let layout : buf ≡ s ++ (0 ∷ (multi_string ss ++ (0 ∷ junk))) =
      append_assoc s (0 ∷ multi_string ss) (0 ∷ junk) in
    let first : line_at buf 0 ≡ ok s =
      rw layout (line_at-IsBmp [] s (multi_string ss ++ (0 ∷ junk)) 0 refl h.0) in
    let more : length ss ≤ length (multi_string ss) = length-multi_string ss h.2 in
    let enough : length ss < length buf = simp length-append (omega arith) in
    utf16_to_string_array_by buf s first
    ∙ collect_lines-AreBmp ss (length buf) 0 buf [] s junk [] layout refl enough h.1
        (rune_count-IsBmp s h.0) h.2

decode_utf16-pair :
    (us vs : List ℕ) (hi lo : ℕ)
    → IsBmp us
    → is_high hi ≡ true
    → is_low lo ≡ true
    → IsBmp vs
    → decode_utf16 (us ++ (hi ∷ lo ∷ vs)) ≡ us ++ (paired hi lo ∷ vs)
unfolding decode_utf16
decode_utf16-pair [] vs hi lo h x y k = ground (arith, decode_utf16-IsBmp vs k)
decode_utf16-pair (u ∷ []) vs hi lo h x y k = ground (arith, decode_utf16-pair [] vs hi lo tt x y k)
decode_utf16-pair (u ∷ v ∷ us) vs hi lo h x y k =
    ground (arith, decode_utf16-pair (v ∷ us) vs hi lo h.1 x y k)

HasNoZero-append : (xs ys : List ℕ) → HasNoZero xs → HasNoZero ys → HasNoZero (xs ++ ys)
HasNoZero-append [] ys h k = k
HasNoZero-append (x ∷ xs) ys h k = (h.0, HasNoZero-append xs ys h.1 k)

collect_lines-last :
    (rounds start : ℕ) (buf : List ℕ) (s : Runes) (lines : List Runes)
    → 0 < rounds
    → s ≢ []
    → rune_count s ≡ length s
    → line_at buf (start + length s + 1) ≡ ok []
    → collect_lines rounds buf start s lines ≡ ok (lines ++ (s ∷ []))
collect_lines-last zero start buf s lines h ne c e = absurd (omega arith)
collect_lines-last (suc rounds) start buf s lines h ne c e =
    collect_lines-step rounds start (length s) buf s [] lines ne c e
    ∙ collect_lines-end rounds (start + length s + 1) buf (lines ++ (s ∷ []))

append-ne-nil : (us vs : List ℕ) (u : ℕ) → us ++ (u ∷ vs) ≢ []
append-ne-nil [] vs u e = cc
append-ne-nil (x ∷ us) vs u e = cc

rune_count-pair :
    (us vs : List ℕ) (hi lo : ℕ)
    → IsBmp us
    → is_high hi ≡ true
    → is_low lo ≡ true
    → IsBmp vs
    → rune_count (us ++ (paired hi lo ∷ vs)) ≡ length (us ++ (paired hi lo ∷ vs))
unfolding rune_count
rune_count-pair [] vs hi lo h x y k = ground (arith, rune_count-IsBmp vs k)
rune_count-pair (u ∷ us) vs hi lo h x y k = ground (arith, rune_count-pair us vs hi lo h.1 x y k)

-- The offset of the next string counts runes, not units: behind a string with one surrogate pair it
-- points at that string's own terminator, and every string that follows is lost.
pub utf16_to_string_array_truncates :
    (us vs rest : List ℕ) (hi lo : ℕ)
    → IsBmp us
    → is_high hi ≡ true
    → is_low lo ≡ true
    → IsBmp vs
    → utf16_to_string_array ((us ++ (hi ∷ lo ∷ vs)) ++ (0 ∷ rest))
      ≡ ok ((us ++ (paired hi lo ∷ vs)) ∷ [])
utf16_to_string_array_truncates us vs rest hi lo h x y k =
    let s : List ℕ = us ++ (hi ∷ lo ∷ vs) in
    let runes : Runes = us ++ (paired hi lo ∷ vs) in
    let buf : List ℕ = s ++ (0 ∷ rest) in
    let units : HasNoZero s =
      HasNoZero-append us (hi ∷ lo ∷ vs) (IsBmp-HasNoZero us h)
        (ground arith, (ground arith, IsBmp-HasNoZero vs k)) in
    let first : line_at buf 0 ≡ ok runes =
      line_at_lem [] s rest 0 refl units ∙ ap ok (decode_utf16-pair us vs hi lo h x y k) in
    let at : 0 + length runes + 1 ≡ length s = simp length-append (omega arith) in
    let next : line_at buf (0 + length runes + 1) ≡ ok [] =
      line_at-IsBmp s [] rest (0 + length runes + 1) at tt in
    let rounds : 0 < length buf = simp length-append (omega arith) in
    utf16_to_string_array_by buf runes first
    ∙ collect_lines-last (length buf) 0 buf runes [] rounds (append-ne-nil us vs (paired hi lo))
        (rune_count-pair us vs hi lo h x y k) next
