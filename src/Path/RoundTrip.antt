-- ===== src/Path/RoundTrip.antt =====
-- `extractCounterInfoFromCounterPath` reads back what `formatPath` wrote.
use win_perf_counters.Path.Brackets.{IsPlain, IsBalanced, IsName}
use win_perf_counters.Path.Borders.{
  instance_scan, single_scan, scan-instance, scan-single, scan-computer,
}
use win_perf_counters.Int.{pos}
use win_perf_counters.Path.{
  Scan, start_scan, scan, slice, CounterInfo, object_border, extract_borders, extract_computer,
  extract_instance, extract_counter, extract_counter_info, empty_instance, localhost, format_local,
  format_path,
}
use win_perf_counters.Prelude.{
  ℕ, suc, ◌+◌, ◌-◌, ◌≡◌, refl, ◌≢◌, inl, inr, ◌||◌, Option, none, some, [], ◌∷◌, ◌++◌, ◌∙◌, sym, ap,
  arith, leb, if◌then◌else◌, length, length-append, take-append, drop-append, append_assoc,
  append-nil, Bool-cases, true,
}
use win_perf_counters.Result.{ok}
use win_perf_counters.Text.Equality.{text_eq_iff, text_eq_ne}
use win_perf_counters.Text.{Text, text_eq}

abbrev pub info : Text → Text → Text → Text → CounterInfo
info computer object inst counter = record {
  computer = computer;
  object = object;
  instance_name = inst;
  counter_name = counter;
}

slice_lem :
    (a b c : Text) (path : Text) (lo hi : ℕ)
    → path ≡ a ++ (b ++ c)
    → lo ≡ length a
    → hi ≡ lo + length b
    → slice lo hi path ≡ ok b
unfolding slice
slice_lem a b c path lo hi p l h =
    let size : length path ≡ length a + (length b + length c) =
      ap length p ∙ length-append a (b ++ c) ∙ omega (arith, length-append b c) in
    let inside : leb lo hi ≡ true = ground arith in
    let under : leb hi (length path) ≡ true = ground arith in
    rw (inside, under, p, drop-append a (b ++ c) lo l, take-append b c (hi - lo) (omega arith))

-- A slice up to the end of the path.
extract_counter_lem :
    (a counter path : Text) (border : ℕ)
    → path ≡ a ++ counter
    → suc border ≡ length a
    → extract_counter path (some border) ≡ ok counter
unfolding extract_counter
extract_counter_lem a counter path border e at =
    let size : length path ≡ length a + length counter = ap length e ∙ length-append a counter in
    slice_lem a counter [] path (suc border) (length path) (rw (append-nil counter) e) at
      (omega arith)

module _ (pre object counter : Text) (k : ℕ) (at : k ≡ length pre) where
  slice-object :
      (rest path : Text)
      → path ≡ pre ++ (b'\\' ∷ (object ++ rest))
      → slice (suc k) (suc k + length object) path ≡ ok object
  slice-object rest path e =
      slice_lem (pre ++ (b'\\' ∷ [])) object rest path (suc k) (suc k + length object)
        (e ∙ sym (append_assoc pre (b'\\' ∷ []) (object ++ rest)))
        (simp length-append (omega arith)) refl

  extract_borders-single :
      (computer path : Text) (lc : Option ℕ)
      → path ≡ pre ++ (b'\\' ∷ (object ++ (b'\\' ∷ counter)))
      → extract_computer path lc k ≡ ok computer
      → let s = record (single_scan k object) { left_computer = lc } in
        extract_borders path s (object_border s) s.left_object
        ≡ ok (info computer object [] counter)
  unfolding extract_borders extract_instance
  extract_borders-single computer path lc e c = rw (
    c,
    slice-object (b'\\' ∷ counter) path e,
    extract_counter_lem (pre ++ (b'\\' ∷ (object ++ (b'\\' ∷ [])))) counter path
        (suc k + length object) (e ∙ simp append_assoc) (simp length-append (omega arith)),
  )

  extract_borders-instance :
      (computer inst path : Text) (lc : Option ℕ)
      → path ≡ pre ++ (b'\\' ∷ (object ++ (b'(' ∷ (inst ++ (b')' ∷ b'\\' ∷ counter)))))
      → extract_computer path lc k ≡ ok computer
      → let s = record (instance_scan k object inst) { left_computer = lc } in
        extract_borders path s (object_border s) s.left_object
        ≡ ok (info computer object inst counter)
  unfolding extract_borders extract_instance
  extract_borders-instance computer inst path lc e c =
      let j : ℕ = suc k + length object in
      let m : ℕ = suc j + length inst in
      rw (
        c,
        slice_lem (pre ++ (b'\\' ∷ (object ++ (b'(' ∷ [])))) inst (b')' ∷ b'\\' ∷ counter) path
            (suc j) m (e ∙ simp append_assoc) (simp length-append (omega arith)) refl,
        slice-object (b'(' ∷ (inst ++ (b')' ∷ b'\\' ∷ counter))) path e,
        extract_counter_lem (pre ++ (b'\\' ∷ (object ++ (b'(' ∷ (inst ++ (b')' ∷ b'\\' ∷ []))))))
            counter path (suc m) (e ∙ simp append_assoc) (simp length-append (omega arith)),
      )

-- Instances that a path can name: any with balanced brackets, or none, for an object without any.
pub data FitsInstance : Text → Text → Type 0 where
  named :
      (object inst : Text)
      → IsName object
      → IsBalanced inst
      → inst ≢ empty_instance
      → FitsInstance object inst
  single : (object inst : Text) → IsPlain object → inst ≡ empty_instance → FitsInstance object inst

-- What a path says of the computer and of the instance.
abbrev pub shown_computer : Text → Text
shown_computer c = if text_eq c [] || text_eq c localhost then [] else c

abbrev pub shown_instance : Text → Text
shown_instance i = if text_eq i empty_instance then [] else i

-- What stands before the local part, the computer read from it and the border of that computer.
data Head (pre computer : Text) (lc : Option ℕ) : Type 0 where
  nothing : pre ≡ [] → computer ≡ [] → lc ≡ none → Head pre computer lc
  remote :
      (c : ℕ)
      → c ≢ b'('
      → c ≢ b')'
      → pre ≡ c ∷ b'\\' ∷ computer
      → IsPlain computer
      → computer ≢ []
      → lc ≡ some 1
      → Head pre computer lc

Head-scan :
    (pre computer path : Text) (lc : Option ℕ) (s : Scan)
    → Head pre computer lc
    → scan (length pre) path start_scan ≡ s
    → s.bracket_level ≡ pos 0
    → s.left_counter ≢ none
    → s.left_object ≢ none
    → s.left_computer ≡ none
    → scan 0 (pre ++ path) start_scan ≡ record s { left_computer = lc }
Head-scan pre computer path lc s (nothing p c l) read level counter object unset =
    let local : scan 0 path start_scan ≡ s = rw p at read in
    let same : s ≡ record s { left_computer = none } =
      ap (λ (b : Option ℕ). record s { left_computer = b }) unset in
    rw (p, l) (local ∙ same)
Head-scan pre computer path lc s (remote x opens closes p plain ne l) read level counter object
      unset =
    rw (p, l)
      (scan-computer x computer path s (length pre) opens closes plain (omega (arith, ap length p))
        read level counter object unset)

extract_computer-nonempty :
    (x : ℕ) (computer path : Text)
    → computer ≢ []
    → extract_computer (x ∷ b'\\' ∷ (computer ++ path)) (some 1) (2 + length computer) ≡ ok computer
unfolding extract_computer
extract_computer-nonempty x [] path ne = absurd (ne refl)
extract_computer-nonempty x (c ∷ cs) path ne = ground (
  arith,
  slice_lem (x ∷ b'\\' ∷ []) (c ∷ cs) path (x ∷ b'\\' ∷ ((c ∷ cs) ++ path)) 2 (2 + length (c ∷ cs))
      refl refl refl,
)

Head-extract_computer :
    (pre computer path : Text) (lc : Option ℕ)
    → Head pre computer lc
    → extract_computer (pre ++ path) lc (length pre) ≡ ok computer
Head-extract_computer pre computer path lc (nothing p c l) =
    rw (l, c) (unfold extract_computer in refl)
Head-extract_computer pre computer path lc (remote x opens closes p plain ne l) =
    let size : length pre ≡ 2 + length computer = ap length p ∙ omega arith in
    rw (size, p, l) (extract_computer-nonempty x computer path ne)

-- The local part behind any such head.
extract-format_local :
    (pre computer object inst counter : Text) (lc : Option ℕ)
    → Head pre computer lc
    → FitsInstance object inst
    → IsName counter
    → extract_counter_info (pre ++ format_local object inst counter)
      ≡ ok (info computer object (shown_instance inst) counter)
unfolding extract_counter_info format_local
extract-format_local pre computer object inst counter lc h (named _ _ o b ne) n =
    let path : Text = b'\\' ∷ (object ++ (b'(' ∷ (inst ++ (b')' ∷ b'\\' ∷ counter)))) in
    rw
      (
        text_eq_ne inst empty_instance ne,
        Head-scan pre computer path lc (instance_scan (length pre) object inst) h
            (scan-instance (length pre) object inst counter o b n) refl (λ e. cc) (λ e. cc) refl,
      )
      (extract_borders-instance pre object counter (length pre) refl computer inst (pre ++ path) lc
        refl (Head-extract_computer pre computer path lc h))
extract-format_local pre computer object inst counter lc h (single _ _ o e) n =
    let path : Text = b'\\' ∷ (object ++ (b'\\' ∷ counter)) in
    rw
      (
        e,
        Head-scan pre computer path lc (single_scan (length pre) object) h
            (scan-single (length pre) object counter o n) refl (λ e. cc) (λ e. cc) refl,
      )
      (extract_borders-single pre object counter (length pre) refl computer (pre ++ path) lc refl
        (Head-extract_computer pre computer path lc h))

-- Formatting a path and taking it apart gives the object, the instance and the counter back; an
-- absent instance is read as empty, and so are the computers that no path names, "" and "localhost".
-- The computer has no bracket and no backslash; the counter's brackets are balanced with every
-- backslash inside them, and so are the object's if there is an instance, whose own brackets are
-- balanced; without an instance the object has no bracket and no backslash.
pub extract-format_path :
    (computer object inst counter : Text)
    → IsPlain computer
    → FitsInstance object inst
    → IsName counter
    → extract_counter_info (format_path computer object inst counter)
      ≡ ok (info (shown_computer computer) object (shown_instance inst) counter)
unfolding format_path
extract-format_path computer object inst counter p f n = elim (Bool-cases (text_eq computer [])) [
  | inl nobody ↦
      rw nobody (extract-format_local [] [] object inst counter none (nothing refl refl refl) f n)
  | inr somebody ↦ elim (Bool-cases (text_eq computer localhost)) [
    | inl local ↦
        rw (somebody, local)
          (extract-format_local [] [] object inst counter none (nothing refl refl refl) f n)
    | inr other ↦
        rw (somebody, other)
          (extract-format_local (b'\\' ∷ b'\\' ∷ computer) computer object inst counter (some 1)
            (remote b'\\' (omega arith) (omega arith) refl p
              (λ e. cc ((text_eq_iff computer []).1 e, somebody)) refl)
            f n)
  ]
]

-- The first of the two leading backslashes is not looked at: any byte but a bracket in its place
-- gives the same computer, object, instance and counter.
pub extract_first_byte :
    (c : ℕ) (computer object inst counter : Text)
    → c ≢ b'('
    → c ≢ b')'
    → IsPlain computer
    → computer ≢ []
    → FitsInstance object inst
    → IsName counter
    → extract_counter_info (c ∷ b'\\' ∷ (computer ++ format_local object inst counter))
      ≡ ok (info computer object (shown_instance inst) counter)
extract_first_byte c computer object inst counter opens closes p ne f n =
    extract-format_local (c ∷ b'\\' ∷ computer) computer object inst counter (some 1)
      (remote c opens closes refl p ne refl) f n
