-- ===== src/Pdh/Reading/Arrays.antt =====
-- The arrays that pdh.dll writes, read back by Go's structs.
use win_perf_counters.Int.{ℤ}
use win_perf_counters.Pdh.Api.{CounterData, Item}
use win_perf_counters.Pdh.Layout.{Struct, struct, Layouts, offset_from}
use win_perf_counters.Pdh.Layout.Amd64
use win_perf_counters.Pdh.Layout.Arm64
use win_perf_counters.Pdh.Layout.I386
use win_perf_counters.Pdh.Memory.{Bytes, signed, bytes_of, read4-bytes_of, read8-bytes_of}
use win_perf_counters.Pdh.Reading.Documented.{
  Value, IsValue, value_bytes, value_tail, Raw, IsRaw, raw_bytes, raw_tail, raw_last, Entry,
  entry_bytes, array_bytes,
}
use win_perf_counters.Pdh.Reading.{
  Memory, string_at, read_data, read_large, read_double, read_raw, read_item, read_items,
}
use win_perf_counters.Prelude.{
  ℕ, ◌^◌, ◌<◌, ◌≡◌, ◌⊎◌, inl, inr, subst, sym, refl, List, [], ◌∷◌, ◌++◌, map, length, All, drop,
  ap, ◌∙◌,
}
use win_perf_counters.Text.{Text, codes, text_eq}

-- The item that an entry stands for.
abbrev pub item_of : {V : Type 0} → (ℕ → List ℕ) → (ℕ → V) → ℕ → ℕ → ℕ → Item V
item_of units_at value name status word = record {
  sz_name = string_at units_at name;
  fmt_value = record { c_status = status; value = value word };
}

abbrev pub value_item : {V : Type 0} → (ℕ → List ℕ) → (ℕ → V) → Entry Value → Item V
value_item units_at value e = item_of units_at value e.name e.content.status e.content.word

abbrev pub raw_item : (ℕ → List ℕ) → Entry Raw → Item ℤ
raw_item units_at e = item_of units_at (signed 64) e.name e.content.status e.content.first_value

abbrev pub memory_of : (ℕ → List ℕ) → Bytes → Memory
memory_of units_at bs = record { behind = bs; units_at = units_at }

cong_cons : {A : Type 0} {x y : A} {xs ys : List A} → x ≡ y → xs ≡ ys → x ∷ xs ≡ y ∷ ys
cong_cons p q = λ i. p i ∷ q i

module _ {U V : Type 0} (layouts : Layouts) (fields : Struct) (name : Text)
    (value : Bytes → CounterData V) (units_at : ℕ → List ℕ) (content : U → Bytes → Bytes)
    (P : Entry U → Type 0) (item : Entry U → Item V) where
  -- An item of the struct `fields` is the entry that stands at the start, and ends where that does.
  record Reads : Type 0 where
    one :
        (e : Entry U) (rest : Bytes)
        → P e
        → read_item layouts fields name value
            (memory_of units_at (entry_bytes content layouts.pointer_size e rest))
          ≡ item e
    next :
        (e : Entry U) (rest : Bytes)
        → drop (struct fields).size (entry_bytes content layouts.pointer_size e rest) ≡ rest

  read_items-Reads :
      (reads : Reads) (es : List (Entry U)) (rest : Bytes)
      → All P es
      → read_items layouts fields name value
          (length es)
          (memory_of units_at (array_bytes content layouts.pointer_size es rest))
        ≡ map item es
  unfolding read_items
  read_items-Reads reads [] rest a = refl
  read_items-Reads reads (e ∷ es) rest a =
      let bs = array_bytes content layouts.pointer_size es rest in
      cong_cons (reads.one e bs a.0) (
        ap (λ b. read_items layouts fields name value (length es) (memory_of units_at b))
          (reads.next e bs)
        ∙ read_items-Reads reads es rest a.1)

-- An entry whose parts fit into their words, with pointers of that many bytes.
abbrev pub IsEntry : {U : Type 0} → ℕ → (U → Type 0) → Entry U → Type 0
IsEntry bits P e = (e.name < 2 ^ bits) × P e.content

module _ {D : Type 0} (float64_of_bits : ℕ → D) (units_at : ℕ → List ℕ) where
  amd64_double-Reads :
      Reads Amd64.layouts Amd64.layouts.item_double
        (codes "FmtValue")
        (read_double Amd64.layouts float64_of_bits)
        units_at
        value_bytes
        (IsEntry 64 IsValue)
        (value_item units_at float64_of_bits)
  unfolding read_item read_data offset_from text_eq
  amd64_double-Reads = record {
    one = λ e rest p i.
        item_of units_at float64_of_bits (read8-bytes_of e.name (value_bytes e.content rest) p.0 i)
          (read4-bytes_of e.content.status (value_tail e.content rest) p.1.0 i)
          (read8-bytes_of e.content.word rest p.1.2 i);
    next = λ e rest. refl;
  }

  i386_double-Reads :
      Reads I386.layouts I386.layouts.item_double
        (codes "FmtValue")
        (read_double I386.layouts float64_of_bits)
        units_at
        value_bytes
        (IsEntry 32 IsValue)
        (value_item units_at float64_of_bits)
  unfolding read_item read_data offset_from text_eq
  i386_double-Reads = record {
    one = λ e rest p i.
        item_of units_at float64_of_bits
          (read4-bytes_of e.name (bytes_of 4 e.gap ++ value_bytes e.content rest) p.0 i)
          (read4-bytes_of e.content.status (value_tail e.content rest) p.1.0 i)
          (read8-bytes_of e.content.word rest p.1.2 i);
    next = λ e rest. refl;
  }

amd64_large-Reads :
    (units_at : ℕ → List ℕ)
    → Reads Amd64.layouts Amd64.layouts.item_large
        (codes "FmtValue")
        (read_large Amd64.layouts)
        units_at
        value_bytes
        (IsEntry 64 IsValue)
        (value_item units_at (signed 64))
unfolding read_item read_data offset_from text_eq
amd64_large-Reads units_at = record {
  one = λ e rest p i.
      item_of units_at (signed 64) (read8-bytes_of e.name (value_bytes e.content rest) p.0 i)
        (read4-bytes_of e.content.status (value_tail e.content rest) p.1.0 i)
        (read8-bytes_of e.content.word rest p.1.2 i);
  next = λ e rest. refl;
}

amd64_first-Reads :
    (units_at : ℕ → List ℕ)
    → Reads Amd64.layouts Amd64.layouts.raw_counter_item
        (codes "RawValue")
        (read_raw Amd64.layouts)
        units_at
        raw_bytes
        (IsEntry 64 IsRaw)
        (raw_item units_at)
unfolding read_item read_data offset_from text_eq
amd64_first-Reads units_at = record {
  one = λ e rest p i.
      item_of units_at (signed 64) (read8-bytes_of e.name (raw_bytes e.content rest) p.0 i)
        (read4-bytes_of e.content.status (raw_tail e.content rest) p.1.0 i)
        (read8-bytes_of e.content.first_value (raw_last e.content rest) p.1.2 i);
  next = λ e rest. refl;
}

abbrev ReadsBack : {D : Type 0} → (ℕ → D) → (ℕ → List ℕ) → Bytes → Layouts → Type 0
ReadsBack float64_of_bits units_at rest layouts =
    (es : List (Entry Value)) (rs : List (Entry Raw))
    → All (IsEntry 64 IsValue) es
    → All (IsEntry 64 IsRaw) rs
    → (read_items layouts layouts.item_double (codes "FmtValue")
          (read_double layouts float64_of_bits) (length es)
          (memory_of units_at (array_bytes value_bytes 8 es rest))
        ≡ map (value_item units_at float64_of_bits) es)
      × (read_items layouts layouts.item_large (codes "FmtValue") (read_large layouts) (length es)
            (memory_of units_at (array_bytes value_bytes 8 es rest))
          ≡ map (value_item units_at (signed 64)) es)
      × (read_items layouts layouts.raw_counter_item (codes "RawValue") (read_raw layouts)
            (length rs) (memory_of units_at (array_bytes raw_bytes 8 rs rest))
          ≡ map (raw_item units_at) rs)

amd64-ReadsBack :
    {D : Type 0} (float64_of_bits : ℕ → D) (units_at : ℕ → List ℕ) (rest : Bytes)
    → ReadsBack float64_of_bits units_at rest Amd64.layouts
amd64-ReadsBack float64_of_bits units_at rest es rs p q = (
  read_items-Reads Amd64.layouts Amd64.layouts.item_double (codes "FmtValue")
      (read_double Amd64.layouts float64_of_bits) units_at value_bytes (IsEntry 64 IsValue)
      (value_item units_at float64_of_bits) (amd64_double-Reads float64_of_bits units_at) es rest p,
  read_items-Reads Amd64.layouts Amd64.layouts.item_large (codes "FmtValue")
      (read_large Amd64.layouts) units_at value_bytes (IsEntry 64 IsValue)
      (value_item units_at (signed 64)) (amd64_large-Reads units_at) es rest p,
  read_items-Reads Amd64.layouts Amd64.layouts.raw_counter_item (codes "RawValue")
      (read_raw Amd64.layouts) units_at raw_bytes (IsEntry 64 IsRaw) (raw_item units_at)
      (amd64_first-Reads units_at) rs rest q,
)

-- On amd64 and on arm64, what PDH documents to write for an array is read back item by item,
-- whatever follows it: the name, the status and the value of each formatted value as `float64` or
-- `int64`, and of each raw value its first one.
pub read_items-Documented :
    {D : Type 0} (float64_of_bits : ℕ → D) (units_at : ℕ → List ℕ) (rest : Bytes)
    (layouts : Layouts) (es : List (Entry Value)) (rs : List (Entry Raw))
    → (layouts ≡ Amd64.layouts) ⊎ (layouts ≡ Arm64.layouts)
    → All (IsEntry 64 IsValue) es
    → All (IsEntry 64 IsRaw) rs
    → (read_items layouts layouts.item_double
          (codes "FmtValue")
          (read_double layouts float64_of_bits)
          (length es)
          (memory_of units_at (array_bytes value_bytes 8 es rest))
        ≡ map (value_item units_at float64_of_bits) es)
      × (read_items layouts layouts.item_large
            (codes "FmtValue")
            (read_large layouts)
            (length es)
            (memory_of units_at (array_bytes value_bytes 8 es rest))
          ≡ map (value_item units_at (signed 64)) es)
      × (read_items layouts layouts.raw_counter_item
            (codes "RawValue")
            (read_raw layouts)
            (length rs)
            (memory_of units_at (array_bytes raw_bytes 8 rs rest))
          ≡ map (raw_item units_at) rs)
read_items-Documented float64_of_bits units_at rest layouts es rs (inl e) p q =
    subst (ReadsBack float64_of_bits units_at rest) (sym e)
      (amd64-ReadsBack float64_of_bits units_at rest) es rs p q
read_items-Documented float64_of_bits units_at rest layouts es rs (inr e) p q =
    subst (ReadsBack float64_of_bits units_at rest) (sym e)
      (amd64-ReadsBack float64_of_bits units_at rest) es rs p q

-- On 386, where a pointer has four bytes, the same holds of the formatted values as `float64`.
pub read_items-Documented_386 :
    {D : Type 0} (float64_of_bits : ℕ → D) (units_at : ℕ → List ℕ) (rest : Bytes)
    (es : List (Entry Value))
    → All (IsEntry 32 IsValue) es
    → read_items I386.layouts I386.layouts.item_double
        (codes "FmtValue")
        (read_double I386.layouts float64_of_bits)
        (length es)
        (memory_of units_at (array_bytes value_bytes 4 es rest))
      ≡ map (value_item units_at float64_of_bits) es
read_items-Documented_386 float64_of_bits units_at rest es p =
    read_items-Reads I386.layouts I386.layouts.item_double (codes "FmtValue")
      (read_double I386.layouts float64_of_bits) units_at value_bytes (IsEntry 32 IsValue)
      (value_item units_at float64_of_bits) (i386_double-Reads float64_of_bits units_at) es rest p
