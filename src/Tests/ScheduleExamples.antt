-- ===== src/Tests/ScheduleExamples.antt =====
-- Two goroutines of `Gather`, in an order of their steps.
use mathlib.Core.List.{Perm}
use win_perf_counters.Names
use win_perf_counters.Names.{sanitize}
use win_perf_counters.Dict.{insert, lookup}
use win_perf_counters.Query.Values.{get_formatted_counter_array_double}
use win_perf_counters.WinPerfCounters.Fields.{
  add_values, should_include_metric, value_name, add_counter_measurement,
}
use win_perf_counters.Path.{localhost}
use win_perf_counters.Prelude.{ℕ, ◌≡◌, refl, false, true, List, [], ◌∷◌, All, arith}
use win_perf_counters.Query.{Query}
use win_perf_counters.Result.{ok}
use win_perf_counters.Tests.GatherExamples.{busy, busy_machine}
use win_perf_counters.Tests.Machine.{clock}
use win_perf_counters.Text.{codes}
use win_perf_counters.WinPerfCounters.Constructor.{default_config}
use win_perf_counters.WinPerfCounters.Gathering.Invariant.{HasNamed}
use win_perf_counters.WinPerfCounters.Gathering.Samples.{IsSample}
use win_perf_counters.WinPerfCounters.Gathering.{gather_hosts, gather_computer_counters}
use win_perf_counters.WinPerfCounters.Model.{HostCountersInfo, Hosts, Sample, double}
use win_perf_counters.WinPerfCounters.Schedules.Agreement.{IsFinished}
use win_perf_counters.WinPerfCounters.Schedules.Liveness.{HasTurns, run_finishes}
use win_perf_counters.WinPerfCounters.Schedules.Quiet.{IsQuiet, performance_query-IsQuiet}
use win_perf_counters.WinPerfCounters.Schedules.Safety.{run-IsSample}
use win_perf_counters.WinPerfCounters.Schedules.{run, start}

abbrev pages : Names.Counter
pages = record {
  counter_path = codes "\\Memory\\Pages";
  computer = localhost;
  object_name = codes "Memory";
  counter = codes "Pages";
  instance_name = codes "------";
  measurement = codes "win_mem";
  include_total = false;
  use_raw_value = false;
  counter_handle = 7;
}

abbrev host : HostCountersInfo Query ℕ
host = record {
  computer = localhost;
  tag = codes "box";
  counters = pages ∷ [];
  query = record { max_buffer_size = 2048; query_handle = 1 };
  timestamp = 5;
}

abbrev hosts : Hosts Query ℕ
hosts = (codes "a", host) ∷ (codes "b", host) ∷ []

abbrev sample : Sample ℕ ℕ
sample = record {
  measurement = codes "win_mem";
  fields = (codes "Pages", double 3) ∷ [];
  tags =
      (codes "objectname", codes "Memory")
      ∷ (codes "instance", codes "a")
      ∷ (codes "source", codes "box")
      ∷ [];
  timestamp = 5;
}

-- The two take turns.
abbrev turn_by_turn : List (ℕ × ℕ)
turn_by_turn = (0, 0) ∷ (1, 0) ∷ (1, 0) ∷ (0, 0) ∷ (0, 0) ∷ (1, 0) ∷ (1, 0) ∷ (0, 0) ∷ []

busy-IsQuiet : IsQuiet busy
busy-IsQuiet = performance_query-IsQuiet busy_machine (record {
  raw_value = λ c w. refl;
  double_value = λ c w. refl;
  raw_array = λ c size w. refl;
  double_array = λ c size w. ground arith;
})

host_named : HasNamed host
host_named = ground arith

one_by_one :
    (gather_hosts busy clock (default_config true) hosts []).0 ≡ (ok tt, sample ∷ sample ∷ [])
unfolding gather_hosts gather_computer_counters get_formatted_counter_array_double add_values
    should_include_metric value_name add_counter_measurement insert lookup sanitize
one_by_one = refl

enough_turns : HasTurns busy clock (default_config true) busy-IsQuiet 0 turn_by_turn hosts []
unfolding gather_hosts gather_computer_counters get_formatted_counter_array_double add_values
    should_include_metric value_name add_counter_measurement insert lookup sanitize
enough_turns = (omega arith, (omega arith, tt))

run_finishes_example :
    let p =
      run busy clock
        (default_config true)
        turn_by_turn
        (start busy clock (default_config true) hosts []) in
    All IsFinished p.goroutines × Perm (sample ∷ sample ∷ []) p.emitted
run_finishes_example =
    run_finishes busy clock (default_config true) busy-IsQuiet turn_by_turn hosts []
      (sample ∷ sample ∷ []) one_by_one enough_turns

run-IsSample_example :
    All IsSample
      (run busy clock
        (default_config true)
        turn_by_turn
        (start busy clock (default_config true) hosts [])).emitted
run-IsSample_example =
    run-IsSample busy clock (default_config true) turn_by_turn hosts []
      (host_named, (host_named, tt))
