-- ===== src/Tests/GatherExamples.antt =====
-- Runs of the command.
use win_perf_counters.Command.Runs.{run_main-IsSample}
use win_perf_counters.Command.{run_main}
use win_perf_counters.Prelude.{ℕ, some, All}
use win_perf_counters.Query.{Query}
use win_perf_counters.Tests.Machine.{Machine, machine, buffer_of, valid, clock, memory}
use win_perf_counters.Pdh.Api.{Item, Pdh}
use win_perf_counters.WinPerfCounters.Implementation.{performance_query}
use win_perf_counters.WinPerfCounters.Gathering.Samples.{IsSample}
use win_perf_counters.WinPerfCounters.Model.{Config, PerformanceQuery}
use win_perf_counters.Prelude.{[], ◌∷◌}

-- Objects are configured, and nothing else.
abbrev with_memory : Config → Config
with_memory m = record m { object = memory ∷ [] }

-- One instance has data.
abbrev idle_item : Item ℕ
idle_item = record { sz_name = some (b'a' ∷ 0 ∷ []); fmt_value = valid 3 }

abbrev pub busy_machine : Pdh Machine ℕ ℕ
busy_machine = record machine { get_array_double = λ counter. buffer_of 24 (idle_item ∷ []) [] }

abbrev pub busy : PerformanceQuery Machine Query ℕ ℕ
busy = performance_query busy_machine

run_main-IsSample_example :
    All IsSample (run_main busy clock (λ m. some (with_memory m)) 2 []).1.samples
run_main-IsSample_example = run_main-IsSample busy clock (λ m. some (with_memory m)) 2 []
