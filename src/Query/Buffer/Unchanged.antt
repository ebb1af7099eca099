-- ===== src/Query/Buffer/Unchanged.antt =====
-- What the calls of the system leave as it is, the buffer loop of performance_query.go leaves too.
use win_perf_counters.Pdh.Api.{Reply}
use win_perf_counters.Prelude.{ℕ, zero, suc, ◌≡◌, refl, ◌∙◌, not, leb, ◌==◌, either_branch}
use win_perf_counters.Query.Buffer.{Round, done, retry, conclude, judge, fill_buffer, double32}
use win_perf_counters.Result.{Result}
use win_perf_counters.Text.{Text}

module _ {W S P : Type 0} (seen : W → S) (format_message : ℕ → Text) (call : ℕ → W → Reply P × W)
    (unchanged : (size : ℕ) (w : W) → seen (call size w).1 ≡ seen w) where
  conclude_unchanged :
      (r : Round P) (w w' : W) (next : ℕ → W → Result P × W)
      → seen w' ≡ seen w
      → ((size : ℕ) (v : W) → seen (next size v).1 ≡ seen v)
      → seen (conclude r w' next).1 ≡ seen w
  conclude_unchanged (done result) w w' next e h = e
  conclude_unchanged (retry size) w w' next e h = h size w' ∙ e

  pub fill_buffer_unchanged :
      (rounds max_buffer_size buflen : ℕ) (w : W)
      → seen (fill_buffer format_message call rounds max_buffer_size buflen w).1 ≡ seen w
  unfolding fill_buffer
  fill_buffer_unchanged zero max_buffer_size buflen w = refl
  fill_buffer_unchanged (suc rounds) max_buffer_size buflen w =
      either_branch {A = Result P × W} (λ o. seen o.1 ≡ seen w) (not (leb buflen max_buffer_size))
        refl
        (either_branch {A = Result P × W} (λ o. seen o.1 ≡ seen w) (buflen == 0) refl
          (conclude_unchanged (judge format_message buflen (call buflen w).0) w (call buflen w).1
            (λ size w'. fill_buffer format_message call rounds max_buffer_size (double32 size) w')
            (unchanged buflen w)
            (λ size v. fill_buffer_unchanged rounds max_buffer_size (double32 size) v)))
