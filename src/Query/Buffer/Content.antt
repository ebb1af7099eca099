-- ===== src/Query/Buffer/Content.antt =====
-- What the contents of all calls have in common, the buffer loop of performance_query.go returns.
use win_perf_counters.Pdh.Api.{Reply}
use win_perf_counters.Pdh.Codes.{error_success, pdh_more_data}
use win_perf_counters.Prelude.{ℕ, zero, suc, not, leb, ◌==◌, either_branch}
use win_perf_counters.Query.Buffer.{Round, done, retry, conclude, judge, fill_buffer, double32}
use win_perf_counters.Result.{Result, OnOk}
use win_perf_counters.Text.{Text}

module _ {W C : Type 0} (P : C → Type 0) (format_message : ℕ → Text) (call : ℕ → W → Reply C × W)
    (good : (size : ℕ) (w : W) → P (call size w).0.content) where
  abbrev OnDone : Round C → Type 0
  OnDone (done r) = OnOk P r
  OnDone (retry size) = Unit

  judge-OnDone : (buflen : ℕ) (w : W) → OnDone (judge format_message buflen (call buflen w).0)
  unfolding judge
  judge-OnDone buflen w =
      either_branch {A = Round C} OnDone ((call buflen w).0.status == error_success) (good buflen w)
        (either_branch {A = Round C} OnDone ((call buflen w).0.status == pdh_more_data) tt tt)

  conclude-OnOk :
      (r : Round C) (w : W) (next : ℕ → W → Result C × W)
      → OnDone r
      → ((size : ℕ) (v : W) → OnOk P (next size v).0)
      → OnOk P (conclude r w next).0
  conclude-OnOk (done r) w next d h = d
  conclude-OnOk (retry size) w next d h = h size w

  pub fill_buffer-OnOk :
      (rounds limit buflen : ℕ) (w : W)
      → OnOk P (fill_buffer format_message call rounds limit buflen w).0
  unfolding fill_buffer
  fill_buffer-OnOk zero limit buflen w = tt
  fill_buffer-OnOk (suc rounds) limit buflen w =
      either_branch {A = Result C × W} (λ o. OnOk P o.0) (not (leb buflen limit)) tt
        (either_branch {A = Result C × W} (λ o. OnOk P o.0) (buflen == 0) tt
          (conclude-OnOk (judge format_message buflen (call buflen w).0) (call buflen w).1
            (λ size v. fill_buffer format_message call rounds limit (double32 size) v)
            (judge-OnDone buflen w) (λ size v. fill_buffer-OnOk rounds limit (double32 size) v)))
