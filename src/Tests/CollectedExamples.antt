-- ===== src/Tests/CollectedExamples.antt =====
-- Collecting from one host where every call succeeds.
use win_perf_counters.Names
use win_perf_counters.Names.{sanitize, measurement_name}
use win_perf_counters.Prelude.{ℕ, ◌≡◌, refl, false, List, [], ◌∷◌, map}
use win_perf_counters.Query.{Query, NamedValue}
use win_perf_counters.Result.{ok}
use win_perf_counters.Tests.Machine.{Machine, machine_queries, clock, config, unopened_host}
use win_perf_counters.Text.{Text, codes, text_eq, contains, has_prefix}
use win_perf_counters.WinPerfCounters.Fields.Assignments.{Assignment, latest, field_at}
use win_perf_counters.WinPerfCounters.Fields.Unique.{NodupFields}
use win_perf_counters.WinPerfCounters.Fields.{InstanceGrouping, FieldGrouping, value_name}
use win_perf_counters.WinPerfCounters.Gathering.Collected.{
  read_all, gather_computer_counters-latest,
}
use win_perf_counters.WinPerfCounters.Gathering.{sample_of, gather_computer_counters}
use win_perf_counters.WinPerfCounters.Model.{Config, HostCountersInfo, double, PerformanceQuery}

abbrev pub idle_time : Names.Counter
idle_time = record {
  counter_path = codes "\\Processor(*)\\% Idle Time";
  computer = codes "localhost";
  object_name = codes "Processor";
  counter = codes "% Idle Time";
  instance_name = codes "*";
  measurement = codes "win_cpu";
  include_total = false;
  use_raw_value = false;
  counter_handle = 7;
}

-- Two processors and their total.
abbrev processors : List (NamedValue ℕ)
processors =
    record { name = codes "0"; value = 97 }
    ∷ record { name = codes "1"; value = 95 }
    ∷ record { name = codes "_Total"; value = 96 }
    ∷ []

abbrev processor_queries : PerformanceQuery Machine Query ℕ ℕ
processor_queries = record machine_queries {
  get_formatted_counter_array_double = λ handle q w. (ok processors, q, w);
}

abbrev pub arrays : Config
arrays = record config { use_wildcards_expansion = false }

abbrev pub processor_host : HostCountersInfo Query ℕ
processor_host = record unopened_host {
  counters = idle_time ∷ [];
  query = record { max_buffer_size = 2048; query_handle = 1 };
}

abbrev on_processor : Text → InstanceGrouping
on_processor name = record {
  name = codes "win_cpu";
  instance_name = name;
  object_name = codes "Processor";
}

abbrev idle_of : Text → ℕ → Assignment ℕ
idle_of name value = record {
  group = on_processor name;
  field = codes "Percent_Idle_Time";
  value = double value;
}

abbrev idles : List (Assignment ℕ)
idles = idle_of (codes "0") 97 ∷ idle_of (codes "1") 95 ∷ []

processors_read :
    read_all processor_queries clock false processor_host.counters processor_host.query []
    ≡ (ok idles, processor_host.query, [])
unfolding read_all sanitize text_eq contains has_prefix value_name
processors_read = refl

gather_computer_counters-latest_example :
    (groups : FieldGrouping ℕ) × (gather_computer_counters processor_queries clock arrays
        processor_host []
      ≡ (ok (map (sample_of processor_queries clock processor_host) groups), processor_host, []))
    × NodupFields groups
    × ((group : InstanceGrouping) (field : Text)
        → field_at group field groups ≡ latest group field idles)
gather_computer_counters-latest_example =
    gather_computer_counters-latest processor_queries clock arrays processor_host [] idles
      processor_host.query [] refl processors_read
