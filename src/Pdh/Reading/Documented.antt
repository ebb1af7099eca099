-- ===== src/Pdh/Reading/Documented.antt =====
-- The memory as the documentation of PDH has it, for the alignment of the C compiler: the union of a
-- value has the alignment of its 64-bit members on every architecture.
use win_perf_counters.Pdh.Memory.{Bytes, bytes_of}
use win_perf_counters.Prelude.{ℕ, ◌-◌, ◌^◌, ◌<◌, List, [], ◌∷◌, ◌++◌}

-- `PDH_FMT_COUNTERVALUE`: a status, the padding, the 64 bits of the value.
pub record Value : Type 0 where
  pub status : ℕ
  pub padding : ℕ
  pub word : ℕ

abbrev pub IsValue : Value → Type 0
IsValue v = (v.status < 2 ^ 32) × (v.padding < 2 ^ 32) × (v.word < 2 ^ 64)

-- What follows the status.
abbrev pub value_tail : Value → Bytes → Bytes
value_tail v rest = bytes_of 4 v.padding ++ (bytes_of 8 v.word ++ rest)

abbrev pub value_bytes : Value → Bytes → Bytes
value_bytes v rest = bytes_of 4 v.status ++ value_tail v rest

-- `PDH_RAW_COUNTER`: a status, the time, the padding, the first and the second value, the count.
pub record Raw : Type 0 where
  pub status : ℕ
  pub time_stamp : ℕ
  pub padding : ℕ
  pub first_value : ℕ
  pub second_value : ℕ
  pub multi_count : ℕ

abbrev pub IsRaw : Raw → Type 0
IsRaw r = (r.status < 2 ^ 32) × (r.padding < 2 ^ 32) × (r.first_value < 2 ^ 64)

-- What follows the first value, and what follows the status.
abbrev pub raw_last : Raw → Bytes → Bytes
raw_last r rest = bytes_of 8 r.second_value ++ (bytes_of 8 r.multi_count ++ rest)

abbrev pub raw_tail : Raw → Bytes → Bytes
raw_tail r rest =
    bytes_of 8 r.time_stamp
    ++ (bytes_of 4 r.padding ++ (bytes_of 8 r.first_value ++ raw_last r rest))

abbrev pub raw_bytes : Raw → Bytes → Bytes
raw_bytes r rest = bytes_of 4 r.status ++ raw_tail r rest

-- An item of an array: the address of its name, and the value at the next multiple of 8.
pub record Entry (V : Type 0) : Type 0 where
  pub name : ℕ
  pub gap : ℕ
  pub content : V

-- With pointers of that many bytes.
abbrev pub entry_bytes : {V : Type 0} → (V → Bytes → Bytes) → ℕ → Entry V → Bytes → Bytes
entry_bytes content pointer e rest =
    bytes_of pointer e.name ++ (bytes_of (8 - pointer) e.gap ++ content e.content rest)

-- The items one behind the other, then their names.
abbrev pub array_bytes : {V : Type 0} → (V → Bytes → Bytes) → ℕ → List (Entry V) → Bytes → Bytes
array_bytes content pointer [] rest = rest
array_bytes content pointer (e ∷ es) rest =
    entry_bytes content pointer e (array_bytes content pointer es rest)
