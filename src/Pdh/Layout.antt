-- ===== src/Pdh/Layout.antt =====
-- How Go lays out a struct, and the structs that are laid over what pdh.dll writes
-- (pdh_386.go, pdh_amd64.go, pdh_arm64.go).
pub mod I386
pub mod Amd64
pub mod Arm64
use win_perf_counters.Prelude.{ℕ, ◌+◌, ◌-◌, ◌*◌, ◌/◌, List, [], ◌∷◌, ltb, if◌then◌else◌}
use win_perf_counters.Text.{Text, text_eq}

-- The size and the alignment of a type.
pub record Kind : Type 0 where
  pub size : ℕ
  pub align : ℕ

-- The fields of a struct, in their order.
abbrev pub Struct : Type 0
Struct = List (Text × Kind)

abbrev pub aligned : ℕ → ℕ → ℕ
aligned align n = (n + (align - 1)) / align * align

-- `unsafe.Offsetof`: each field stands at the next multiple of its alignment.
unfoldable pub offset_from : ℕ → Text → Struct → ℕ
unfolding text_eq
offset_from start name [] = 0
offset_from start name ((n, kind) ∷ fields) =
    let at = aligned kind.align start in
    let later = offset_from (at + kind.size) name fields in if text_eq n name then at else later

abbrev pub offset : Text → Struct → ℕ
offset name fields = offset_from 0 name fields

abbrev pub end_from : ℕ → Struct → ℕ
end_from start [] = start
end_from start ((n, kind) ∷ fields) = end_from (aligned kind.align start + kind.size) fields

abbrev pub greatest_align : ℕ → Struct → ℕ
greatest_align most [] = most
greatest_align most ((n, kind) ∷ fields) =
    greatest_align (if ltb most kind.align then kind.align else most) fields

-- The struct as the type of a field: its size is a multiple of its alignment.
abbrev pub struct : Struct → Kind
struct fields =
    let most = greatest_align 1 fields in
    record { size = aligned most (end_from 0 fields); align = most }

-- `uint32`, `int32`; `[n]byte`.
abbrev pub word32 : Kind
word32 = record { size = 4; align = 4 }

abbrev pub bytes : ℕ → Kind
bytes n = record { size = n; align = 1 }

-- `fileTime` (kernel32.go)
abbrev pub file_time : Kind
file_time = record { size = 8; align = 4 }

-- A file's structs, and the size of a pointer.
pub record Layouts : Type 0 where
  pub pointer_size : ℕ
  pub value_long : Struct
  pub item_long : Struct
  pub value_large : Struct
  pub item_large : Struct
  pub value_double : Struct
  pub item_double : Struct
  pub counter_info : Struct
  pub raw_counter : Struct
  pub raw_counter_item : Struct
