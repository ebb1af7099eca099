-- ===== src/Query/Times.antt =====
-- The time that `CollectDataWithTime` gives, over the procedures of the libraries.
use win_perf_counters.Int.{pos}
use win_perf_counters.Pdh.Calls.{pdh_dll, pdh_collect_query_data_with_time, convert_file_time}
use win_perf_counters.Pdh.Dll.{Dll, Runtime}
use win_perf_counters.Pdh.FileTime.{
  FileTime, IsFileTime, intervals, first_interval, last_interval, micros_since_1970,
  unix_nanos-signed,
}
use win_perf_counters.Pdh.Layout.{Layouts}
use win_perf_counters.Prelude.{ℕ, ◌*◌, ◌%◌, ◌^◌, ◌≤◌, ◌≡◌, ◌≢◌, refl, false, ◌==◌, arith}
use win_perf_counters.Query.{Query, collect_data_with_time}
use win_perf_counters.Result.{ok}

==_false : (a : ℕ) → a ≢ 0 → (a == 0) ≡ false
==_false a h = ground arith

module _ {W T D : Type 0} (layouts : Layouts) (go : Runtime W T D) (dll : Dll W) where
  -- If the query is open, PDH collects, and Kernel32 converts the local time into a file time between
  -- 1970 and 2262, then `CollectDataWithTime` succeeds, with the `time.Unix` of 1000 times the whole
  -- microseconds from 1970 to that file time.
  pub collect_data_with_time-unix :
      (q : Query) (w w' w'' : W) (local utc : FileTime) (converted : ℕ)
      → q.query_handle ≢ 0
      → dll.collect_query_data_with_time q.query_handle w ≡ ((0, local), w')
      → dll.local_file_time_to_file_time local w' ≡ ((converted, utc), w'')
      → converted ≢ 0
      → IsFileTime utc
      → first_interval ≤ intervals utc
      → intervals utc ≤ last_interval
      → collect_data_with_time (pdh_dll layouts go dll) q w
        ≡ ((go.unix (pos (micros_since_1970 utc * 1000)), ok tt), q, w'')
  unfolding collect_data_with_time pdh_collect_query_data_with_time convert_file_time
  collect_data_with_time-unix q w w' w'' local utc converted opened collected convert done t first
        last =
      let (joined, whole, micros, below, nanos) = unix_nanos-signed utc t first last in
      let open_handle = ==_false q.query_handle opened in
      let succeeded = ==_false converted done in
      rw (open_handle, collected, convert, succeeded, nanos) refl

  -- A word whose lower half is 0 and whose upper half is not: `CollectDataWithTime` succeeds, but the
  -- time is that of the clock and not that of the counters.
  pub collect_data_with_time-clock :
      (q : Query) (w w' : W) (local : FileTime) (upper : ℕ)
      → q.query_handle ≢ 0
      → dll.collect_query_data_with_time q.query_handle w ≡ ((upper * 2 ^ 32, local), w')
      → upper ≢ 0
      → collect_data_with_time (pdh_dll layouts go dll) q w
        ≡ (((go.now w').0, ok tt), q, (go.now w').1)
  unfolding collect_data_with_time pdh_collect_query_data_with_time
  collect_data_with_time-clock q w w' local upper opened collected odd =
      let open_handle = ==_false q.query_handle opened in
      let not_zero = ==_false (upper * 2 ^ 32) (λ e. odd (omega arith)) in
      let lower : upper * 2 ^ 32 % 2 ^ 32 ≡ 0 = omega arith in
      rw (open_handle, collected, not_zero, lower) refl
