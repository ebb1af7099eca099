-- ===== src/Tests/ItemExamples.antt =====
-- Adding counters on a small system that opens no more queries.
use win_perf_counters.Dict.{lookup}
use win_perf_counters.Pdh.Codes.{pdh_memory_allocation_failure}
use win_perf_counters.Prelude.{ℕ, ◌≡◌, ◌≢◌, refl, true, false, []}
use win_perf_counters.Query.{Query, open_query, open_fresh}
use win_perf_counters.Result.{Error, pdh, err, ok}
use win_perf_counters.Tests.Machine.{Machine, machine, machine_queries, clock, stuck, memory}
use win_perf_counters.Text.{codes, text_eq}
use win_perf_counters.WinPerfCounters.Gathering.First.{first_open_failure_lasts}
use win_perf_counters.WinPerfCounters.Gathering.{gather, gathers}
use win_perf_counters.WinPerfCounters.Hosts.First.{IsFirst}
use win_perf_counters.WinPerfCounters.Implementation.{
  QueryLaws, has_handle, performance_query-QueryLaws,
}
use win_perf_counters.WinPerfCounters.Items.Others.{add_item_others}
use win_perf_counters.WinPerfCounters.Items.Unopened.{IsUnopened, new_query, add_item_failed_open}
use win_perf_counters.WinPerfCounters.Items.{ItemArgs, add_item}
use win_perf_counters.WinPerfCounters.Model.{State}

abbrev laws : QueryLaws machine_queries has_handle
laws = performance_query-QueryLaws machine

abbrev pages : ItemArgs
pages = record {
  object_name = codes "Memory";
  instance_name = codes "------";
  counter_name = codes "Pages";
  measurement = codes "win_mem";
  include_total = false;
  use_raw_value = true;
}

add_item_others_example :
    let o =
      add_item machine_queries clock (codes "\\Memory\\Pages") (codes "localhost") pages stuck in
    lookup text_eq (codes "box") o.1.host_counters
    ≡ lookup text_eq (codes "box") stuck.host_counters
add_item_others_example =
    add_item_others machine_queries clock (codes "box") (codes "localhost") (λ e. cc)
      (codes "\\Memory\\Pages") pages stuck

abbrev no_hosts : State Machine Query ℕ ℕ
no_hosts = record stuck { host_counters = [] }

abbrev no_memory : Error
no_memory = pdh (record { error_code = pdh_memory_allocation_failure; error_text = codes "failed" })

add_item_failed_open_example :
    let o = add_item machine_queries clock (codes "\\Memory\\Pages") (codes "box") pages no_hosts in
    (o.0 ≡ err no_memory)
    × IsUnopened machine_queries clock has_handle laws (codes "box") o.1.host_counters
unfolding lookup open_query open_fresh
add_item_failed_open_example =
    add_item_failed_open machine_queries clock has_handle laws (codes "\\Memory\\Pages")
      (codes "box") pages no_hosts no_memory refl refl

-- The first item of the configuration is for this machine.
localhost-IsFirst :
    IsFirst machine_queries clock has_handle laws no_hosts.config (codes "localhost")
unfolding text_eq
localhost-IsFirst = record {
  object = memory;
  objects = [];
  computer = codes "localhost";
  computers = [];
  counter = codes "Pages/sec";
  counters = [];
  inst = codes "------";
  insts = [];
  has_object = refl;
  has_computer = refl;
  has_counter = refl;
  has_inst = refl;
  names = refl;
}

localhost_failed :
    (machine_queries.open_query
      (new_query machine_queries clock has_handle laws (codes "localhost") no_hosts)
      no_hosts.world).0
    ≡ err no_memory
unfolding open_query open_fresh
localhost_failed = refl

first_open_failure_lasts_example :
    (gather machine_queries clock
      (gathers machine_queries clock 3 (gather machine_queries clock no_hosts).1).1).0
    ≢ ok tt
first_open_failure_lasts_example =
    first_open_failure_lasts machine_queries clock has_handle laws 3 (codes "localhost") no_hosts
      no_memory refl refl localhost-IsFirst localhost_failed
