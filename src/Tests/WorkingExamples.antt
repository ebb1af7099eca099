-- ===== src/Tests/WorkingExamples.antt =====
-- A pdh.dll that opens every query, and formats no counter.
use win_perf_counters.Pdh.Api.{Pdh}
use win_perf_counters.Pdh.Codes.{error_success}
use win_perf_counters.Prelude.{ℕ, [], ◌∷◌}
use win_perf_counters.Tests.Machine.{Machine, machine}

abbrev open_door : Pdh Machine ℕ ℕ
open_door = record machine {
  open_query = λ w. ((error_success, 1), 1 ∷ w);
  close_query = λ h w. (error_success, []);
}
