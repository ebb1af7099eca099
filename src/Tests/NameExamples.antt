-- ===== src/Tests/NameExamples.antt =====
-- Names of counters and measurements.
use win_perf_counters.Names.Counters.{sanitize-new_counter}
use win_perf_counters.Names.{sanitize, new_counter}
use win_perf_counters.Prelude.{◌≡◌, true, false, arith}
use win_perf_counters.Text.{codes}

sanitize-new_counter_example :
    let c =
      new_counter 7
        (codes "\\Memory\\% Free/sec")
        (codes "localhost")
        (codes "Memory")
        (codes "------")
        (codes "% Free/sec")
        (codes " \\")
        false
        true in
    sanitize c.counter ≡ c.counter
sanitize-new_counter_example =
    sanitize-new_counter 7 (codes "\\Memory\\% Free/sec") (codes "localhost") (codes "Memory")
      (codes "------") (codes "% Free/sec") (codes " \\") false true (omega arith)
