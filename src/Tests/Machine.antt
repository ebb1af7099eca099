-- ===== src/Tests/Machine.antt =====
-- A small system to run the library on: its state is the list of the queries that are open.
use win_perf_counters.Pdh.Api.{Reply, CounterData, Pdh}
use win_perf_counters.Pdh.Codes.{
  error_success, pdh_invalid_handle, pdh_memory_allocation_failure, pdh_more_data, pdh_no_data,
  pdh_cstatus_valid_data,
}
use win_perf_counters.Prelude.{
  ℕ, suc, true, false, none, some, List, [], ◌∷◌, ltb, ◌==◌, if◌then◌else◌, length,
}
use win_perf_counters.Query.{Query}
use win_perf_counters.Text.{codes}
use win_perf_counters.WinPerfCounters.Implementation.{performance_query}
use win_perf_counters.WinPerfCounters.Model.{
  PerfObject, Config, HostCountersInfo, State, PerformanceQuery, System,
}
use win_perf_counters.Int.{pos}

abbrev pub Machine : Type 0
Machine = List ℕ

-- At most two queries at a time.
abbrev pub open_slot : Machine → (ℕ × ℕ) × Machine
open_slot w =
    if ltb (length w) 2
    then ((error_success, suc (length w)), suc (length w) ∷ w)
    else ((pdh_memory_allocation_failure, 0), w)

-- Only the query that was opened last can be closed.
abbrev pub close_slot : ℕ → Machine → ℕ × Machine
close_slot h [] = (pdh_invalid_handle, [])
close_slot h (x ∷ w) = if x == h then (error_success, w) else (pdh_invalid_handle, x ∷ w)

abbrev pub buffer_of : {P : Type 0} → ℕ → P → P → ℕ → Machine → Reply P × Machine
buffer_of need content junk buflen w = (
  if ltb buflen need
      then record { status = pdh_more_data; size = need; content = junk }
      else record { status = error_success; size = need; content = content },
  w,
)

abbrev pub no_buffer : {P : Type 0} → P → ℕ → Machine → Reply P × Machine
no_buffer junk buflen w = (record { status = pdh_no_data; size = 0; content = junk }, w)

abbrev pub valid : {V : Type 0} → V → CounterData V
valid v = record { c_status = pdh_cstatus_valid_data; value = v }

abbrev pub machine : Pdh Machine ℕ ℕ
machine = record {
  open_query = open_slot;
  close_query = close_slot;
  add_counter = λ q path w. ((error_success, 7), w);
  add_english_counter = none;
  collect_query_data = λ q w. (error_success, w);
  collect_query_data_with_time = λ q w. ((error_success, 5), w);
  get_counter_info = λ c. buffer_of 2 (some (b'x' ∷ 0 ∷ [])) none;
  expand_wild_card_path = λ path. buffer_of 3 (b'x' ∷ 0 ∷ 0 ∷ []) [];
  get_formatted_long = λ c w. ((error_success, valid (pos 1)), w);
  get_formatted_large = λ c w. ((error_success, valid (pos 2)), w);
  get_formatted_double = λ c w. ((error_success, valid 3), w);
  get_raw_value = λ c w. ((error_success, valid (pos 4)), w);
  get_array_long = λ c. no_buffer [];
  get_array_large = λ c. no_buffer [];
  get_array_double = λ c. no_buffer [];
  get_raw_array = λ c. no_buffer [];
  format_message = λ code. codes "failed";
  now = λ w. (6, w);
}

abbrev pub clock : System Machine ℕ
clock = record {
  now = λ w. (6, w);
  zero_time = 0;
  passed = λ last interval now. true;
  sleep = λ w. w;
  os_hostname = λ w. none;
}

abbrev pub machine_queries : PerformanceQuery Machine Query ℕ ℕ
machine_queries = performance_query machine

abbrev pub memory : PerfObject
memory = record {
  sources = [];
  object_name = codes "Memory";
  counters = codes "Pages/sec" ∷ [];
  instances = codes "------" ∷ [];
  measurement = codes "win_mem";
  warn_on_missing = false;
  fail_on_missing = false;
  include_total = false;
  use_raw_values = false;
}

abbrev pub config : Config
config = record {
  use_perf_counter_time = false;
  object = memory ∷ [];
  counters_refresh_interval = pos 0;
  use_wildcards_expansion = true;
  localize_wildcards_expansion = false;
  ignored_errors = [];
  max_buffer_size = pos 2048;
  sources = [];
  has_collect = true;
}

abbrev pub unopened_host : HostCountersInfo Query ℕ
unopened_host = record {
  computer = codes "box";
  tag = codes "box";
  counters = [];
  query = record { max_buffer_size = 2048; query_handle = 0 };
  timestamp = 0;
}

-- Two queries are open elsewhere, so that none could be opened for the host "box".
abbrev pub stuck : State Machine Query ℕ ℕ
stuck = record {
  config = config;
  last_refreshed = none;
  host_counters = (codes "box", unopened_host) ∷ [];
  cached_hostname = [];
  samples = [];
  world = 2 ∷ 1 ∷ [];
}
