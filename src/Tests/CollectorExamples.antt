-- ===== src/Tests/CollectorExamples.antt =====
-- The collector on a small system.
use win_perf_counters.Errors.{is_known_counter_data_error}
use win_perf_counters.Names
use win_perf_counters.Pdh.Codes.{pdh_no_data}
use win_perf_counters.Prelude.{ℕ, ◌≡◌, refl, ◌≢◌, ◌↔◌, inl, true, false, none, some, List, [], ◌∷◌}
use win_perf_counters.Query.{Query, NamedValue}
use win_perf_counters.Result.{Error, pdh, Result, ok, err}
use win_perf_counters.Tests.Machine.{Machine, machine, machine_queries, clock, config, stuck}
use win_perf_counters.Text.{codes}
use win_perf_counters.WinPerfCounters.Fields.Totals.{NoTotals, add_values-NoTotals}
use win_perf_counters.WinPerfCounters.Fields.{Gathering, add_values}
use win_perf_counters.WinPerfCounters.Gathering.Errors.{
  gather_counters_stale_error, gather_counters_silent,
}
use win_perf_counters.WinPerfCounters.Gathering.Wedged.{IsWedged, gather_never_succeeds}
use win_perf_counters.WinPerfCounters.Gathering.{gathers, gather_counters, gather}
use win_perf_counters.WinPerfCounters.Hosts.Cleaning.{keys, HasUnopened, clean_queries-HasUnopened}
use win_perf_counters.WinPerfCounters.Hosts.{clean_queries}
use win_perf_counters.WinPerfCounters.Implementation.{
  QueryLaws, performance_query, has_handle, performance_query-QueryLaws,
}
use win_perf_counters.WinPerfCounters.Init.Accepted.{IsBufferSize, NoWildcards, init_iff}
use win_perf_counters.WinPerfCounters.Init.{init}
use win_perf_counters.WinPerfCounters.Model.{Value, double, PerformanceQuery}

performance_query-QueryLaws_example : QueryLaws (performance_query machine) has_handle
performance_query-QueryLaws_example = performance_query-QueryLaws machine

abbrev laws : QueryLaws machine_queries has_handle
laws = performance_query-QueryLaws machine

init_iff_example : (init config ≡ ok tt) ↔ (
    IsBufferSize config.max_buffer_size
    × (config.use_wildcards_expansion ≡ true
        → config.localize_wildcards_expansion ≡ false
        → NoWildcards config.object))
init_iff_example = init_iff config

clean_queries-HasUnopened_example :
    let (r, s') = clean_queries machine_queries clock stuck in
    (r ≢ ok tt)
    × HasUnopened machine_queries clock has_handle laws s'.host_counters
    × (keys s'.host_counters ≡ keys stuck.host_counters)
    × (s'.last_refreshed ≡ stuck.last_refreshed)
clean_queries-HasUnopened_example =
    clean_queries-HasUnopened machine_queries clock has_handle laws stuck (inl refl)

stuck-IsWedged : IsWedged machine_queries clock has_handle laws stuck
stuck-IsWedged = record { not_refreshed = refl; unopened = inl refl }

gather_never_succeeds_example :
    let s' = (gathers machine_queries clock 3 stuck).1 in
    ((gather machine_queries clock s').0 ≢ ok tt)
    × HasUnopened machine_queries clock has_handle laws s'.host_counters
    × (keys s'.host_counters ≡ keys stuck.host_counters)
gather_never_succeeds_example =
    gather_never_succeeds machine_queries clock has_handle laws 3 stuck stuck-IsWedged

-- Counters of every instance of an object, raw or formatted.
abbrev every_instance : Names.Counter
every_instance = record {
  counter_path = codes "\\Processor(*)\\% Idle Time";
  computer = codes "localhost";
  object_name = codes "Processor";
  counter = codes "Percent_Idle_Time";
  instance_name = codes "*";
  measurement = codes "win_cpu";
  include_total = false;
  use_raw_value = false;
  counter_handle = 7;
}

abbrev every_raw_instance : Names.Counter
every_raw_instance = record every_instance { use_raw_value = true }

abbrev idle : List (NamedValue (Value ℕ))
idle =
    record { name = codes "0"; value = double 97 }
    ∷ record { name = codes "_Total"; value = double 96 }
    ∷ record { name = codes "0,_Total"; value = double 95 }
    ∷ []

add_values-NoTotals_example : NoTotals (add_values every_instance idle [])
add_values-NoTotals_example = add_values-NoTotals every_instance refl idle [] refl tt

abbrev no_data : Error
no_data = pdh (record { error_code = pdh_no_data; error_text = codes "failed" })

abbrev one_value : Query → Machine → Result (List (NamedValue ℕ)) × Query × Machine
one_value q w = (ok (record { name = codes "0"; value = 97 } ∷ []), q, w)

-- Raw arrays have no data, formatted ones have.
abbrev half_queries : PerformanceQuery Machine Query ℕ ℕ
half_queries = record machine_queries {
  get_raw_counter_array = λ handle q w. (err no_data, q, w);
  get_formatted_counter_array_double = λ handle. one_value;
}

abbrev nothing_yet : Gathering ℕ
nothing_yet = record { last_error = none; groups = [] }

abbrev opened_query : Query
opened_query = record { max_buffer_size = 2048; query_handle = 1 }

gather_counters_stale_error_example :
    (gather_counters half_queries clock false
      (every_raw_instance ∷ every_instance ∷ [])
      nothing_yet
      opened_query
      (1 ∷ [])).0
    ≡ ok (record nothing_yet { last_error = some no_data })
unfolding is_known_counter_data_error
gather_counters_stale_error_example =
    gather_counters_stale_error half_queries clock every_raw_instance (every_instance ∷ [])
      nothing_yet no_data opened_query (1 ∷ []) refl refl refl (refl, tt) (λ handle q w. tt)

-- Formatted arrays have no data.
abbrev failing_queries : PerformanceQuery Machine Query ℕ ℕ
failing_queries = record machine_queries {
  get_formatted_counter_array_double = λ handle q w. (err no_data, q, w);
}

gather_counters_silent_example :
    (gather_counters failing_queries clock false
      (every_instance ∷ every_instance ∷ [])
      nothing_yet
      opened_query
      (1 ∷ [])).0
    ≡ ok nothing_yet
gather_counters_silent_example =
    gather_counters_silent failing_queries clock (every_instance ∷ every_instance ∷ []) nothing_yet
      opened_query (1 ∷ []) refl (refl, (refl, tt)) (λ handle q w. (no_data, refl))
