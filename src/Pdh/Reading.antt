-- ===== src/Pdh/Reading.antt =====
-- What Go's structs make of the memory that pdh.dll has written (performance_query.go, pdh_386.go,
-- pdh_amd64.go, pdh_arm64.go).
pub mod Documented
pub mod Arrays
pub mod Misplaced
use win_perf_counters.Int.{ℤ}
use win_perf_counters.Pdh.Api.{CounterData, Item}
use win_perf_counters.Pdh.Layout.{Struct, struct, Layouts, offset, offset_from}
use win_perf_counters.Pdh.Memory.{Bytes, read_at, signed}
use win_perf_counters.Prelude.{
  ℕ, zero, suc, Option, none, some, List, [], ◌∷◌, drop, ◌==◌, if◌then◌else◌,
}
use win_perf_counters.Text.{Text, codes, text_eq}

-- What a call leaves in the memory behind a pointer, and the UTF-16 units from each address on.
pub record Memory : Type 0 where
  pub behind : Bytes
  pub units_at : ℕ → List ℕ

-- A pointer that was read, to a string: nil is 0.
abbrev pub string_at : (ℕ → List ℕ) → ℕ → Option (List ℕ)
string_at units_at address = if address == 0 then none else some (units_at address)

module _ (layouts : Layouts) where
  -- The status and the value of a struct, a word of that many bytes.
  unfoldable pub read_data : {V : Type 0} → Struct → Text → ℕ → (ℕ → V) → Bytes → CounterData V
  unfolding offset_from text_eq
  read_data fields name width value memory = record {
    c_status = read_at 4 (offset (codes "CStatus") fields) memory;
    value = value (read_at width (offset name fields) memory);
  }

  abbrev pub read_long : Bytes → CounterData ℤ
  read_long = read_data layouts.value_long (codes "LongValue") 4 (signed 32)

  abbrev pub read_large : Bytes → CounterData ℤ
  read_large = read_data layouts.value_large (codes "LargeValue") 8 (signed 64)

  -- `float64_of_bits`: the number with these bits.
  abbrev pub read_double : {D : Type 0} → (ℕ → D) → Bytes → CounterData D
  read_double float64_of_bits =
      read_data layouts.value_double (codes "DoubleValue") 8 float64_of_bits

  abbrev pub read_raw : Bytes → CounterData ℤ
  read_raw = read_data layouts.raw_counter (codes "FirstValue") 8 (signed 64)

  -- An item: its name, and the struct in it.
  unfoldable pub read_item :
      {V : Type 0} → Struct → Text → (Bytes → CounterData V) → Memory → Item V
  unfolding offset_from text_eq
  read_item fields name value memory = record {
    sz_name =
        string_at memory.units_at
          (read_at layouts.pointer_size (offset (codes "SzName") fields) memory.behind);
    fmt_value = value (drop (offset name fields) memory.behind);
  }

  -- `(*[1 << 20]item)(unsafe.Pointer(&buf[0]))[:itemCount]`: items of the struct's size, one behind
  -- the other.
  unfoldable pub read_items :
      {V : Type 0} → Struct → Text → (Bytes → CounterData V) → ℕ → Memory → List (Item V)
  unfolding read_item
  read_items fields name value zero memory = []
  read_items fields name value (suc n) memory =
      read_item fields name value memory
      ∷ read_items fields name value n
          (record memory { behind = drop (struct fields).size memory.behind })

  -- `(*pdhCounterInfo)(unsafe.Pointer(&buf[0])).SzFullPath`
  unfoldable pub read_full_path : Memory → Option (List ℕ)
  unfolding offset_from text_eq
  read_full_path memory = string_at memory.units_at (
      read_at layouts.pointer_size (offset (codes "SzFullPath") layouts.counter_info) memory.behind)
