-- ===== src/Errors.antt =====
-- Which errors are ignored (utils.go): `checkError` and `isKnownCounterDataError`.
pub mod Ignored
use win_perf_counters.Pdh.Codes.{
  pdh_invalid_data, pdh_calc_negative_denominator, pdh_calc_negative_value,
  pdh_cstatus_invalid_data, pdh_cstatus_no_instance, pdh_no_data,
}
use win_perf_counters.Pdh.Table.{pdh_errors, error_name}
use win_perf_counters.Prelude.{
  ℕ, Bool, true, false, ◌||◌, Option, none, some, List, ◌==◌, if◌then◌else◌,
}
use win_perf_counters.Result.{
  PdhError, Error, pdh, buffer_limit_reached, uninitialized_query, cannot_parse_object,
  cannot_parse_computer, cannot_parse_instance, buffer_size_too_small, buffer_size_too_large,
  wildcards_not_localized, no_objects, wrapped,
}
use win_perf_counters.Text.{Text, contains_text}

-- `errors.As(err, &pdhErr)`: the first status in the chain of wrapped errors.
abbrev pub as_pdh : Error → Option PdhError
as_pdh (pdh e) = some e
as_pdh (wrapped path e) = as_pdh e
as_pdh _ = none

-- `checkError`, with the list `IgnoredErrors`; `none` is a nil error.
unfoldable pub check_pdh : List Text → Option PdhError → Error → Option Error
unfolding contains_text
check_pdh ignored none e = some e
check_pdh ignored (some p) e =
    if contains_text ignored (error_name pdh_errors p.error_code) then none else some e

unfoldable pub check_error : List Text → Error → Option Error
unfolding check_pdh
check_error ignored e = check_pdh ignored (as_pdh e) e

abbrev pub is_data_code : ℕ → Bool
is_data_code code =
    code == pdh_invalid_data
    || code == pdh_calc_negative_denominator
    || code == pdh_calc_negative_value
    || code == pdh_cstatus_invalid_data
    || code == pdh_cstatus_no_instance
    || code == pdh_no_data

abbrev pub is_data_status : Option PdhError → Bool
is_data_status none = false
is_data_status (some p) = is_data_code p.error_code

-- `isKnownCounterDataError`.
unfoldable pub is_known_counter_data_error : Error → Bool
is_known_counter_data_error e = is_data_status (as_pdh e)
