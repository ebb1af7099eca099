-- ===== src/Path/Safety.antt =====
-- The borders that the scan finds are in order, so that no slice of the path panics.
use win_perf_counters.Int.{ℤ, pos}
use win_perf_counters.Path.{
  Scan, start_scan, scan_backslash, scan_open, scan_close, scan_byte, scan, object_border,
  extract_borders, extract_counter_info,
}
use win_perf_counters.Prelude.{
  ℕ, suc, ◌+◌, ◌≤◌, ◌<◌, ◌≡◌, Option, none, some, [], ◌∷◌, arith, length,
}
use win_perf_counters.Result.{Returns}
use win_perf_counters.Text.{Text}

-- A border that is set lies in the part of the path that has been scanned.
abbrev pub Within : ℕ → ℕ → Option ℕ → Type 0
Within i n none = Unit
Within i n (some b) = (i ≤ b) × (b < n)

-- If the left border is set, so is the right one, further to the right.
abbrev pub Precedes : Option ℕ → Option ℕ → Type 0
Precedes none b = Unit
Precedes (some a) none = ⊥
Precedes (some a) (some b) = a < b

-- Two borders that are both set are in this order.
abbrev pub Apart : Option ℕ → Option ℕ → Type 0
Apart none b = Unit
Apart (some a) none = Unit
Apart (some a) (some b) = a < b

-- Between the counter and the closing bracket of the instance the level is not positive.
abbrev pub Unopened : Option ℕ → Option ℕ → ℤ → Type 0
Unopened (some c) none (pos n) = n ≡ 0
Unopened _ _ _ = Unit

pub record BordersInOrder (i n : ℕ) (s : Scan) : Type 0 where
  pub computer_within : Within i n s.left_computer
  pub object_within : Within i n s.left_object
  pub counter_within : Within i n s.left_counter
  pub left_within : Within i n s.left_instance
  pub right_within : Within i n s.right_instance
  pub computer_object : Precedes s.left_computer s.left_object
  pub object_counter : Precedes s.left_object s.left_counter
  pub left_right : Precedes s.left_instance s.right_instance
  pub object_left : Apart s.left_object s.left_instance
  pub right_object_is : s.right_object ≡ s.left_instance
  pub unopened : Unopened s.left_counter s.right_instance s.bracket_level

module _ (i n : ℕ) (s : Scan) (below : i < n) (v : BordersInOrder (suc i) n s) where
  scan_backslash-BordersInOrder : BordersInOrder i n (scan_backslash i s)
  unfolding scan_backslash
  scan_backslash-BordersInOrder = ground arith

  scan_open-BordersInOrder : BordersInOrder i n (scan_open i s)
  unfolding scan_open
  scan_open-BordersInOrder = ground arith

  scan_close-BordersInOrder : BordersInOrder i n (scan_close i s)
  unfolding scan_close
  scan_close-BordersInOrder = ground arith

  scan_byte-BordersInOrder : (c : ℕ) → BordersInOrder i n (scan_byte i c s)
  unfolding scan_byte
  scan_byte-BordersInOrder c =
      ground
        (arith, scan_backslash-BordersInOrder, scan_open-BordersInOrder, scan_close-BordersInOrder)

start-BordersInOrder : (i n : ℕ) → BordersInOrder i n start_scan
start-BordersInOrder i n = ground arith

pub scan-BordersInOrder :
    (path : Text) (i n : ℕ) → i + length path ≡ n → BordersInOrder i n (scan i path start_scan)
unfolding scan
scan-BordersInOrder [] i n e = start-BordersInOrder i n
scan-BordersInOrder (c ∷ cs) i n e =
    scan_byte-BordersInOrder i n (scan (suc i) cs start_scan) (omega arith)
      (scan-BordersInOrder cs (suc i) n (omega arith)) c

extract_borders-Returns :
    (path : Text) (s : Scan)
    → BordersInOrder 0 (length path) s
    → Returns (extract_borders path s (object_border s) s.left_object)
unfolding extract_borders
extract_borders-Returns path s v = ground arith

-- For every text whatever the extraction comes back: no slice of the path is out of range.
pub extract_counter_info-Returns : (path : Text) → Returns (extract_counter_info path)
unfolding extract_counter_info
extract_counter_info-Returns path =
    extract_borders-Returns path (scan 0 path start_scan)
      (scan-BordersInOrder path 0 (length path) (omega arith))
