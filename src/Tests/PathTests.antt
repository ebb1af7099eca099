-- ===== src/Tests/PathTests.antt =====
-- Counter paths as Windows writes them.
use win_perf_counters.Prelude.{◌≡◌, refl}
use win_perf_counters.Path.{extract_counter_info, format_path}
use win_perf_counters.Result.{ok, err, cannot_parse_computer}
use win_perf_counters.Text.{codes}

extract_remote :
    extract_counter_info (codes "\\\\box\\Net (x)(a(b)/c\\d#1)\\Bytes (n)/sec")
    ≡ ok (record {
      computer = codes "box";
      object = codes "Net (x)";
      instance_name = codes "a(b)/c\\d#1";
      counter_name = codes "Bytes (n)/sec";
    })
unfolding extract_counter_info
extract_remote = refl

extract_no_computer :
    extract_counter_info (codes "\\\\\\Memory\\Pages")
    ≡ err (cannot_parse_computer (codes "\\\\\\Memory\\Pages"))
unfolding extract_counter_info
extract_no_computer = refl

format_single :
    format_path (codes "localhost") (codes "Memory") (codes "------") (codes "Pages")
    ≡ codes "\\Memory\\Pages"
unfolding format_path
format_single = refl
