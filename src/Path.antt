-- ===== src/Path.antt =====
-- Counter paths (utils.go): `formatPath` and `extractCounterInfoFromCounterPath`.
-- A path is scanned from its right end; an index that is -1 in the source is `none` here.
pub mod Safety
pub mod Borders
pub mod RoundTrip
pub mod Brackets
pub mod Scanning
use win_perf_counters.Int.{ℤ, pos, increment, decrement, is_zero}
use win_perf_counters.Prelude.{
  ℕ, zero, suc, ◌+◌, ◌-◌, ◌≡◌, refl, Bool, true, false, not, ◌&&◌, ◌||◌, Option, none, some, List,
  [], ◌∷◌, ◌++◌, ◌==◌, leb, if◌then◌else◌, length, take, drop,
}
use win_perf_counters.Result.{
  Error, cannot_parse_object, cannot_parse_computer, cannot_parse_instance, Result, ok, err, panic,
  ◌>>=◌,
}
use win_perf_counters.Text.{Text, codes, text_eq}

abbrev pub is_none : Option ℕ → Bool
is_none none = true
is_none (some i) = false

-- The local variables of `extractCounterInfoFromCounterPath`.
pub record Scan : Type 0 where
  pub bracket_level : ℤ
  pub left_computer : Option ℕ
  pub right_object : Option ℕ
  pub left_object : Option ℕ
  pub left_counter : Option ℕ
  pub right_instance : Option ℕ
  pub left_instance : Option ℕ

abbrev pub start_scan : Scan
start_scan = record {
  bracket_level = pos 0;
  left_computer = none;
  right_object = none;
  left_object = none;
  left_counter = none;
  right_instance = none;
  left_instance = none;
}

-- `case '\\'`
unfoldable pub scan_backslash : ℕ → Scan → Scan
scan_backslash i s =
    if is_zero s.bracket_level
    then (if is_none s.left_counter
        then record s { left_counter = some i }
        else if is_none s.left_object
        then record s { left_object = some i }
        else if is_none s.left_computer
        then record s { left_computer = some i }
        else s)
    else s

-- `case '('`: the level falls first, and the test is on the new level.
unfoldable pub scan_open : ℕ → Scan → Scan
scan_open i s =
    let level = decrement s.bracket_level in
    if is_none s.left_instance
      && is_zero level
      && is_none s.left_object
      && not (is_none s.left_counter)
    then record s { bracket_level = level; left_instance = some i; right_object = some i }
    else record s { bracket_level = level }

-- `case ')'`: the test is on the level before it rises.
unfoldable pub scan_close : ℕ → Scan → Scan
scan_close i s =
    let level = increment s.bracket_level in
    if is_none s.right_instance && is_zero s.bracket_level && not (is_none s.left_counter)
    then record s { bracket_level = level; right_instance = some i }
    else record s { bracket_level = level }

-- The `switch` on one byte.
unfoldable pub scan_byte : ℕ → ℕ → Scan → Scan
unfolding scan_backslash scan_open scan_close
scan_byte i c s =
    if c == b'\\'
    then scan_backslash i s
    else if c == b'('
    then scan_open i s
    else if c == b')'
    then scan_close i s
    else s

-- `for i := len(counterPath) - 1; i >= 0; i--`, on the part of the path that begins at `i`.
unfoldable pub scan : ℕ → Text → Scan → Scan
scan i [] s = s
scan i (c ∷ cs) s = scan_byte i c (scan (suc i) cs s)

-- `path[lo:hi]`, which panics unless `lo <= hi <= len(path)`.
unfoldable pub slice : ℕ → ℕ → Text → Result Text
slice lo hi path =
    if leb lo hi && leb hi (length path) then ok (take (hi - lo) (drop lo path)) else panic

pub record CounterInfo : Type 0 where
  pub computer : Text
  pub object : Text
  pub instance_name : Text
  pub counter_name : Text

-- The computer: empty without a third border; otherwise the border must be at index 1 and the name
-- not empty. `left_object_border` is not -1 here.
unfoldable pub extract_computer : Text → Option ℕ → ℕ → Result Text
unfolding slice
extract_computer path none left_object_border = ok []
extract_computer path (some b) left_object_border =
    if not (b == 1) || suc b == left_object_border
    then err (cannot_parse_computer path)
    else slice (suc b) left_object_border path

unfoldable pub extract_instance : Text → Option ℕ → Option ℕ → Result Text
unfolding slice
extract_instance path (some l) (some r) = slice (suc l) r path
extract_instance path none (some r) = err (cannot_parse_instance path)
extract_instance path (some l) none = err (cannot_parse_instance path)
extract_instance path none none = ok []

-- `rightObjectBorderIndex`, set to the border of the counter if no instance was found.
abbrev pub object_border : Scan → Option ℕ
object_border s = if is_none s.right_object then s.left_counter else s.right_object

-- `counterPath[leftCounterBorderIndex+1:]`; at -1 that is the whole path.
unfoldable pub extract_counter : Text → Option ℕ → Result Text
unfolding slice
extract_counter path none = slice 0 (length path) path
extract_counter path (some b) = slice (suc b) (length path) path

unfoldable pub extract_borders : Text → Scan → Option ℕ → Option ℕ → Result CounterInfo
unfolding extract_computer extract_instance extract_counter slice
extract_borders path s (some right) (some left) = do
  computer ← extract_computer path s.left_computer left
  instance_name ← extract_instance path s.left_instance s.right_instance
  object ← slice (suc left) right path
  counter_name ← extract_counter path s.left_counter
  ok (record {
    computer = computer;
    object = object;
    instance_name = instance_name;
    counter_name = counter_name;
  })
extract_borders path s none left = err (cannot_parse_object path)
extract_borders path s (some right) none = err (cannot_parse_object path)

-- `extractCounterInfoFromCounterPath`.
unfoldable pub extract_counter_info : Text → Result CounterInfo
unfolding scan scan_byte extract_borders
extract_counter_info path =
    let s = scan 0 path start_scan in extract_borders path s (object_border s) s.left_object

abbrev pub empty_instance : Text
empty_instance = codes "------"

abbrev pub localhost : Text
localhost = codes "localhost"

-- `\object\counter` or `\object(instance)\counter`.
unfoldable pub format_local : Text → Text → Text → Text
unfolding text_eq
format_local object instance_name counter_name =
    if text_eq instance_name empty_instance
    then b'\\' ∷ (object ++ (b'\\' ∷ counter_name))
    else b'\\' ∷ (object ++ (b'(' ∷ (instance_name ++ (b')' ∷ b'\\' ∷ counter_name))))

-- `formatPath`.
unfoldable pub format_path : Text → Text → Text → Text → Text
unfolding format_local
format_path computer object instance_name counter_name =
    let path = format_local object instance_name counter_name in
    if not (text_eq computer []) && not (text_eq computer localhost)
    then b'\\' ∷ b'\\' ∷ (computer ++ path)
    else path
