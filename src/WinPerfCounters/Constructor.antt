-- ===== src/WinPerfCounters/Constructor.antt =====
-- `NewWinPerfCounters` (win_perf_counters.go).
use win_perf_counters.Int.{pos}
use win_perf_counters.Prelude.{ℕ, ◌*◌, ◌^◌, Bool, true, false, none, []}
use win_perf_counters.WinPerfCounters.Model.{Config, State}

-- `defaultMaxBufferSize`
abbrev pub default_max_buffer_size : ℕ
default_max_buffer_size = 100 * 1024 * 1024

-- What can be configured, with its defaults; a duration is in nanoseconds.
abbrev pub default_config : Bool → Config
default_config has_collect = record {
  use_perf_counter_time = false;
  object = [];
  counters_refresh_interval = pos (60 * 10 ^ 9);
  use_wildcards_expansion = false;
  localize_wildcards_expansion = true;
  ignored_errors = [];
  max_buffer_size = pos default_max_buffer_size;
  sources = [];
  has_collect = has_collect;
}

-- `NewWinPerfCounters`, in a system.
abbrev pub new_win_perf_counters : {W Q T D : Type 0} → Bool → W → State W Q T D
new_win_perf_counters has_collect w = record {
  config = default_config has_collect;
  last_refreshed = none;
  host_counters = [];
  cached_hostname = [];
  samples = [];
  world = w;
}
