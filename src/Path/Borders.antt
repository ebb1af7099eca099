-- ===== src/Path/Borders.antt =====
-- The borders that the scan finds in a path that `formatPath` wrote.
use win_perf_counters.Path.Brackets.{IsPlain, IsBalanced, IsName}
use win_perf_counters.Path.Scanning.{
  scan-append, scan-cons, scan-IsPlain, scan-IsBalanced, scan-IsName, scan-group,
}
use win_perf_counters.Int.{pos}
use win_perf_counters.Path.{
  Scan, start_scan, scan_backslash, scan_open, scan_close, scan_byte, scan,
}
use win_perf_counters.Prelude.{
  ℕ, suc, ◌+◌, ◌≡◌, refl, ◌≢◌, inl, inr, none, some, ◌∷◌, ◌++◌, ◌∙◌, arith, length,
}
use win_perf_counters.Text.{Text}

-- The borders of a path whose local part begins at `k`, with an instance and without.
abbrev pub instance_scan : ℕ → Text → Text → Scan
instance_scan k object inst = record {
  bracket_level = pos 0;
  left_computer = none;
  right_object = some (suc k + length object);
  left_object = some k;
  left_counter = some (suc (suc (suc k + length object) + length inst));
  right_instance = some (suc (suc k + length object) + length inst);
  left_instance = some (suc k + length object);
}

abbrev pub single_scan : ℕ → Text → Scan
single_scan k object = record start_scan {
  left_object = some k;
  left_counter = some (suc k + length object);
}

-- The scan behind the border of the counter, and behind the whole instance.
abbrev after_counter : ℕ → Scan
after_counter m = record start_scan { left_counter = some (suc m) }

abbrev after_group : ℕ → ℕ → Scan
after_group j m = record (after_counter m) {
  right_object = some j;
  right_instance = some m;
  left_instance = some j;
}

scan-counter :
    (m : ℕ) (counter : Text)
    → IsName counter
    → scan (suc m) (b'\\' ∷ counter) start_scan ≡ after_counter m
scan-counter m counter n =
    scan-cons b'\\' counter (suc m) start_scan
    ∙ rw
        (scan-IsName (suc (suc m)) start_scan (record { level_zero = refl; no_border = inl refl })
          n)
        (unfold scan_byte scan_backslash in refl)

pub scan-instance :
    (k : ℕ) (object inst counter : Text)
    → IsName object
    → IsBalanced inst
    → IsName counter
    → scan k (b'\\' ∷ (object ++ (b'(' ∷ (inst ++ (b')' ∷ b'\\' ∷ counter))))) start_scan
      ≡ instance_scan k object inst
scan-instance k object inst counter o b n =
    let j : ℕ = suc k + length object in
    let m : ℕ = suc j + length inst in
    let tail_read : scan (suc m) (b'\\' ∷ counter) start_scan ≡ after_counter m =
      scan-counter m counter n in
    let level : (scan_close m (after_counter m)).bracket_level ≡ pos 1 =
      unfold scan_close in refl in
    let group_read : scan j (b'(' ∷ (inst ++ (b')' ∷ b'\\' ∷ counter))) start_scan
        ≡ after_group j m =
      scan-group inst (b'\\' ∷ counter) j m start_scan refl
        (rw tail_read (scan-IsBalanced (suc j) 0 (scan_close m (after_counter m)) level b))
      ∙ rw tail_read (unfold scan_open scan_close in refl) in
    scan-cons b'\\' (object ++ (b'(' ∷ (inst ++ (b')' ∷ b'\\' ∷ counter)))) k start_scan
    ∙ rw
        (
          scan-append object (b'(' ∷ (inst ++ (b')' ∷ b'\\' ∷ counter))) (suc k) j start_scan refl,
          group_read,
          scan-IsName (suc k) (after_group j m)
              (record { level_zero = refl; no_border = inr (λ e. cc, λ e. cc) }) o,
        )
        (unfold scan_byte scan_backslash in refl)

pub scan-single :
    (k : ℕ) (object counter : Text)
    → IsPlain object
    → IsName counter
    → scan k (b'\\' ∷ (object ++ (b'\\' ∷ counter))) start_scan ≡ single_scan k object
scan-single k object counter o n =
    let j : ℕ = suc k + length object in
    let counter_read : scan (suc j) counter start_scan ≡ start_scan =
      scan-IsName (suc j) start_scan (record { level_zero = refl; no_border = inl refl }) n in
    scan-cons b'\\' (object ++ (b'\\' ∷ counter)) k start_scan
    ∙ rw
        (
          scan-append object (b'\\' ∷ counter) (suc k) j start_scan refl,
          scan-cons b'\\' counter j start_scan,
          counter_read,
          scan-IsPlain (suc k) (scan_byte j b'\\' start_scan) o,
        )
        (unfold scan_byte scan_backslash in refl)

-- What a computer in front adds. The byte before its border plays no part, unless it is a bracket.
pub scan-computer :
    (c : ℕ) (computer path : Text) (s : Scan) (k : ℕ)
    → c ≢ b'('
    → c ≢ b')'
    → IsPlain computer
    → k ≡ 2 + length computer
    → scan k path start_scan ≡ s
    → s.bracket_level ≡ pos 0
    → s.left_counter ≢ none
    → s.left_object ≢ none
    → s.left_computer ≡ none
    → scan 0 (c ∷ b'\\' ∷ (computer ++ path)) start_scan ≡ record s { left_computer = some 1 }
scan-computer c computer path s k opens closes p e read level counter object unset =
    scan-cons c (b'\\' ∷ (computer ++ path)) 0 start_scan
    ∙ rw
        (
          scan-cons b'\\' (computer ++ path) 1 start_scan,
          scan-append computer path 2 k start_scan e,
          read,
          scan-IsPlain 2 s p,
        )
        (unfold scan_byte scan_backslash in ground arith)
