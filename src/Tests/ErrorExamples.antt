-- ===== src/Tests/ErrorExamples.antt =====
-- Errors that a configuration ignores.
use win_perf_counters.Errors.Ignored.{Lists, error_name_iff, check_error_single}
use win_perf_counters.Errors.{check_error}
use win_perf_counters.Pdh.Codes.{pdh_no_data}
use win_perf_counters.Pdh.Table.{pdh_errors, error_name}
use win_perf_counters.Prelude.{◌≡◌, refl, ◌↔◌, inl, inr, none, some, [], ◌∷◌, ◌==◌, if◌then◌else◌}
use win_perf_counters.Result.{PdhError, Error, pdh, wrapped}
use win_perf_counters.Text.{codes}

no_data-Lists : Lists pdh_errors pdh_no_data (codes "PDH_NO_DATA")
unfolding pdh_errors
no_data-Lists = inr (inr (inr (inr (inr (inr (inr (inl (refl, refl))))))))

abbrev no_data : PdhError
no_data = record { error_code = pdh_no_data; error_text = codes "No data" }

abbrev no_data_at : Error
no_data_at = wrapped (codes "\\Memory\\Pages") (pdh no_data)

error_name_iff_example : (error_name pdh_errors 3 ≡ codes "PDH_NO_DATA") ↔ (3 ≡ pdh_no_data)
error_name_iff_example = error_name_iff pdh_no_data 3 (codes "PDH_NO_DATA") no_data-Lists

check_error_single_example :
    check_error (codes "PDH_NO_DATA" ∷ []) no_data_at
    ≡ (if no_data.error_code == pdh_no_data then none else some no_data_at)
check_error_single_example =
    check_error_single pdh_no_data (codes "PDH_NO_DATA") no_data_at no_data no_data-Lists refl
