-- ===== src/Pdh/Layout/Arm64.antt =====
-- The structs of pdh_arm64.go.
use win_perf_counters.Pdh.Layout.{Layouts, Struct, struct, word32, Kind, file_time}
use win_perf_counters.Prelude.{[], ◌∷◌}
use win_perf_counters.Text.{codes}

-- `int64`, `float64`; a pointer.
abbrev word64 : Kind
word64 = record { size = 8; align = 8 }

abbrev pointer : Kind
pointer = record { size = 8; align = 8 }

abbrev pub pdh_fmt_counter_value_long : Struct
pdh_fmt_counter_value_long = (codes "CStatus", word32) ∷ (codes "LongValue", word32) ∷ []

abbrev pub pdh_fmt_counter_value_item_long : Struct
pdh_fmt_counter_value_item_long =
    (codes "SzName", pointer) ∷ (codes "FmtValue", struct pdh_fmt_counter_value_long) ∷ []

abbrev pub pdh_fmt_counter_value_large : Struct
pdh_fmt_counter_value_large = (codes "CStatus", word32) ∷ (codes "LargeValue", word64) ∷ []

abbrev pub pdh_fmt_counter_value_item_large : Struct
pdh_fmt_counter_value_item_large =
    (codes "SzName", pointer) ∷ (codes "FmtValue", struct pdh_fmt_counter_value_large) ∷ []

abbrev pub pdh_fmt_counter_value_double : Struct
pdh_fmt_counter_value_double = (codes "CStatus", word32) ∷ (codes "DoubleValue", word64) ∷ []

abbrev pub pdh_fmt_counter_value_item_double : Struct
pdh_fmt_counter_value_item_double =
    (codes "SzName", pointer) ∷ (codes "FmtValue", struct pdh_fmt_counter_value_double) ∷ []

abbrev pub pdh_counter_info : Struct
pdh_counter_info =
    (codes "DwLength", word32)
    ∷ (codes "DwType", word32)
    ∷ (codes "CVersion", word32)
    ∷ (codes "CStatus", word32)
    ∷ (codes "LScale", word32)
    ∷ (codes "LDefaultScale", word32)
    ∷ (codes "DwUserData", pointer)
    ∷ (codes "DwQueryUserData", pointer)
    ∷ (codes "SzFullPath", pointer)
    ∷ (codes "SzMachineName", pointer)
    ∷ (codes "SzObjectName", pointer)
    ∷ (codes "SzInstanceName", pointer)
    ∷ (codes "SzParentInstance", pointer)
    ∷ (codes "DwInstanceIndex", word32)
    ∷ (codes "SzCounterName", pointer)
    ∷ (codes "SzExplainText", pointer)
    ∷ (codes "DataBuffer", word32)
    ∷ []

abbrev pub pdh_raw_counter : Struct
pdh_raw_counter =
    (codes "CStatus", word32)
    ∷ (codes "TimeStamp", file_time)
    ∷ (codes "FirstValue", word64)
    ∷ (codes "SecondValue", word64)
    ∷ (codes "MultiCount", word32)
    ∷ []

abbrev pub pdh_raw_counter_item : Struct
pdh_raw_counter_item = (codes "SzName", pointer) ∷ (codes "RawValue", struct pdh_raw_counter) ∷ []

abbrev pub layouts : Layouts
layouts = record {
  pointer_size = 8;
  value_long = pdh_fmt_counter_value_long;
  item_long = pdh_fmt_counter_value_item_long;
  value_large = pdh_fmt_counter_value_large;
  item_large = pdh_fmt_counter_value_item_large;
  value_double = pdh_fmt_counter_value_double;
  item_double = pdh_fmt_counter_value_item_double;
  counter_info = pdh_counter_info;
  raw_counter = pdh_raw_counter;
  raw_counter_item = pdh_raw_counter_item;
}
