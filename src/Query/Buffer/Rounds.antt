-- ===== src/Query/Buffer/Rounds.antt =====
-- How many rounds the buffer loop takes, and how it ends.
use win_perf_counters.Pdh.Api.{Reply}
use win_perf_counters.Pdh.Codes.{error_success, pdh_more_data}
use win_perf_counters.Prelude.{
  ℕ, zero, suc, ◌*◌, ◌^◌, ◌≤◌, ◌<◌, ◌≡◌, ◌⊎◌, refl, ap, ◌∙◌, inl, inr, ◌==◌, leb, Bool-cases, arith,
}
use win_perf_counters.Query.Buffer.{
  initial_buffer_size, double32, buffer_rounds, new_pdh_error, done, retry, hinted, judge,
  fill_buffer,
}
use win_perf_counters.Result.{pdh, buffer_limit_reached, Result, ok, err, panic, Returns}
use win_perf_counters.Text.{Text}

-- `n` doubled that many times.
abbrev doubled : ℕ → ℕ → ℕ
doubled zero n = n
doubled (suc k) n = doubled k (n * 2)

doubled_mono : (k m n : ℕ) → m ≤ n → doubled k m ≤ doubled k n
doubled_mono zero m n h = h
doubled_mono (suc k) m n h = doubled_mono k (m * 2) (n * 2) (omega arith)

-- What one reply makes of the loop.
data Judged {P : Type 0} (format_message : ℕ → Text) (buflen : ℕ) (r : Reply P) : Type 0 where
  ends :
      (result : Result P)
      → judge format_message buflen r ≡ done result
      → Returns result
      → Judged format_message buflen r
  grows :
      judge format_message buflen r ≡ retry (hinted buflen r.size) → Judged format_message buflen r

judged :
    {P : Type 0} (format_message : ℕ → Text) (buflen : ℕ) (r : Reply P)
    → Judged format_message buflen r
unfolding judge
judged format_message buflen r = elim (Bool-cases (r.status == error_success)) [
  | inl success ↦ ends (ok r.content) (rw success) tt
  | inr failure ↦ elim (Bool-cases (r.status == pdh_more_data)) [
    | inl more ↦ grows (rw (failure, more))
    | inr other ↦ ends (err (pdh (new_pdh_error format_message r.status))) (rw (failure, other)) tt
  ]
]

module _ {W P : Type 0} (format_message : ℕ → Text) (call : ℕ → W → Reply P × W) where
  fill_buffer-done :
      (k limit b : ℕ) (w : W) (result : Result P)
      → b ≤ limit
      → 0 < b
      → judge format_message b (call b w).0 ≡ done result
      → (fill_buffer format_message call (suc k) limit b w).0 ≡ result
  unfolding fill_buffer
  fill_buffer-done k limit b w result below positive e = ground arith

  fill_buffer-retry :
      (k limit b size : ℕ) (w : W)
      → b ≤ limit
      → 0 < b
      → judge format_message b (call b w).0 ≡ retry size
      → fill_buffer format_message call (suc k) limit b w
        ≡ fill_buffer format_message call k limit (double32 size) (call b w).1
  unfolding fill_buffer
  fill_buffer-retry k limit b size w below positive e = ground arith

  fill_buffer-above :
      (k limit b : ℕ) (w : W)
      → limit < b
      → fill_buffer format_message call (suc k) limit b w ≡ (err buffer_limit_reached, w)
  unfolding fill_buffer
  fill_buffer-above k limit b w above = ground arith

  fill_buffer-Returns_from :
      (k limit b : ℕ) (w : W)
      → limit < 2 ^ 31
      → ((n : ℕ) (v : W) → (call n v).0.size < 2 ^ 31)
      → 0 < b
      → 2 ^ 31 ≤ doubled k b
      → Returns (fill_buffer format_message call (suc k) limit b w).0
  fill_buffer-Returns_from zero limit b w small sizes positive enough =
      rw (fill_buffer-above 0 limit b w (omega arith)) tt
  fill_buffer-Returns_from (suc k) limit b w small sizes positive enough =
      elim (Bool-cases (leb b limit)) [
        | inr above ↦ rw (fill_buffer-above (suc k) limit b w (ground arith)) tt
        | inl below ↦ elim (judged format_message b (call b w).0) [
          | ends result e r ↦
              rw (fill_buffer-done (suc k) limit b w result (ground arith) positive e) r
          | grows e ↦
              let size : ℕ = hinted b (call b w).0.size in
              let fits : b ≤ limit = ground arith in
              let known : (call b w).0.size < 2 ^ 31 = sizes b w in
              let exact : double32 size ≡ size * 2 = ground arith in
              let larger : b * 2 ≤ double32 size = ground arith in
              rw (fill_buffer-retry (suc k) limit b size w fits positive e) (
                fill_buffer-Returns_from k limit (double32 size) (call b w).1 small sizes
                  (omega arith) (omega (arith, doubled_mono k (b * 2) (double32 size) larger)))
        ]
      ]

  -- The rounds given are enough: if the limit and all sizes that the system answers are below 2 ^ 31
  -- (half of what a `uint32` holds), the loop ends with a value or an error and does not panic.
  pub fill_buffer-Returns :
      (limit : ℕ) (w : W)
      → limit < 2 ^ 31
      → ((n : ℕ) (v : W) → (call n v).0.size < 2 ^ 31)
      → Returns (fill_buffer format_message call buffer_rounds limit initial_buffer_size w).0
  fill_buffer-Returns limit w small sizes =
      fill_buffer-Returns_from 21 limit 1024 w small sizes (omega arith) (omega arith)

  -- A hint of exactly 2 ^ 31 doubles to 0 on `uint32`; under any limit that lets the loop begin the
  -- next round takes the address of an empty buffer and panics.
  pub fill_buffer_wraps :
      (limit : ℕ) (w : W)
      → initial_buffer_size ≤ limit
      → (call initial_buffer_size w).0.status ≡ pdh_more_data
      → (call initial_buffer_size w).0.size ≡ 2 ^ 31
      → (fill_buffer format_message call buffer_rounds limit initial_buffer_size w).0 ≡ panic
  unfolding fill_buffer judge
  fill_buffer_wraps limit w fits more size = ground arith

-- A call that behaves as documented on a buffer for content of the size `need`: any buffer that is
-- large enough gets the content. Of one that is too small nothing but that is said: the size that is
-- written back is not to be relied on.
pub record IsDocumented {W P : Type 0} (call : ℕ → W → Reply P × W) (need : ℕ) (content : P)
    : Type 0 where
  pub too_small : (b : ℕ) (w : W) → b < need → (call b w).0.status ≡ pdh_more_data
  pub succeeds : (b : ℕ) (w : W) → need ≤ b → (call b w).0.status ≡ error_success
  pub fills : (b : ℕ) (w : W) → need ≤ b → (call b w).0.content ≡ content

module _ {W P : Type 0} (format_message : ℕ → Text) (call : ℕ → W → Reply P × W) {need : ℕ}
    {content : P} (d : IsDocumented call need content) where
  judge-large : (b : ℕ) (w : W) → need ≤ b → judge format_message b (call b w).0 ≡ done (ok content)
  unfolding judge
  judge-large b w h = ground (arith, d.succeeds b w h, d.fills b w h)

  judge-small :
      (b : ℕ) (w : W)
      → b < need
      → judge format_message b (call b w).0 ≡ retry (hinted b (call b w).0.size)
  unfolding judge
  judge-small b w h = ground (arith, d.too_small b w h)

  module _ (limit : ℕ) (small : limit < 2 ^ 31)
      (sizes : (n : ℕ) (v : W) → (call n v).0.size < 2 ^ 31) where
    -- What is kept by the sizes of the buffers decides how the loop ends.
    fill_buffer-induction :
        (I : ℕ → Type 0) (M : Result P → Type 0)
        → ((b : ℕ) → I b → limit < b → M (err buffer_limit_reached))
        → ((b : ℕ) → I b → b ≤ limit → need ≤ b → M (ok content))
        → ((b : ℕ) (v : W) → I b → b ≤ limit → b < need → I (hinted b (call b v).0.size * 2))
        → (k b : ℕ) (w : W) → 0 < b
        → 2 ^ 31 ≤ doubled k b
        → I b
        → M (fill_buffer format_message call (suc k) limit b w).0
    fill_buffer-induction I M above large next zero b w positive enough i =
        rw (fill_buffer-above format_message call 0 limit b w (omega arith))
          (above b i (omega arith))
    fill_buffer-induction I M above large next (suc k) b w positive enough i =
        elim (Bool-cases (leb b limit)) [
          | inr over ↦
              rw (fill_buffer-above format_message call (suc k) limit b w (ground arith))
                (above b i (ground arith))
          | inl below ↦
              let fits : b ≤ limit = ground arith in
              elim (Bool-cases (leb need b)) [
                | inl wide ↦
                    rw
                      (fill_buffer-done format_message call (suc k) limit b w (ok content) fits
                        positive (judge-large b w (ground arith)))
                      (large b i fits (ground arith))
                | inr narrow ↦
                    let size : ℕ = hinted b (call b w).0.size in
                    let less : b < need = ground arith in
                    let known : (call b w).0.size < 2 ^ 31 = sizes b w in
                    let exact : double32 size ≡ size * 2 = ground arith in
                    let larger : b * 2 ≤ size * 2 = ground arith in
                    rw
                      (
                        fill_buffer-retry format_message call (suc k) limit b size w fits positive
                            (judge-small b w less),
                        exact,
                      )
                      (fill_buffer-induction I M above large next k (size * 2) (call b w).1
                        (omega arith) (omega (arith, doubled_mono k (b * 2) (size * 2) larger))
                        (next b w i fits less))
              ]
        ]

    abbrev returned : W → Result P
    returned w = (fill_buffer format_message call buffer_rounds limit initial_buffer_size w).0

    from_first :
        (I : ℕ → Type 0) (M : Result P → Type 0)
        → ((b : ℕ) → I b → limit < b → M (err buffer_limit_reached))
        → ((b : ℕ) → I b → b ≤ limit → need ≤ b → M (ok content))
        → ((b : ℕ) (v : W) → I b → b ≤ limit → b < need → I (hinted b (call b v).0.size * 2))
        → (w : W) → I initial_buffer_size
        → M (returned w)
    from_first I M above large next w i =
        fill_buffer-induction I M above large next 21 initial_buffer_size w (omega arith)
          (omega arith) i

    refused_hint :
        (w : W)
        → initial_buffer_size < need
        → initial_buffer_size ≤ (call initial_buffer_size w).0.size
        → limit < 2 * (call initial_buffer_size w).0.size
        → returned w ≡ err buffer_limit_reached
    refused_hint w less hint over = elim (Bool-cases (leb initial_buffer_size limit)) [
      | inr above ↦
          ap (λ o. o.0)
            (fill_buffer-above format_message call 21 limit initial_buffer_size w (ground arith))
      | inl below ↦
          let size : ℕ = (call initial_buffer_size w).0.size in
          let known : size < 2 ^ 31 = sizes initial_buffer_size w in
          let exact : double32 (hinted initial_buffer_size size) ≡ size * 2 = ground arith in
          ap (λ o. o.0)
            (fill_buffer-retry format_message call 21 limit initial_buffer_size
                (hinted initial_buffer_size size) w (ground arith) (omega arith)
                (judge-small initial_buffer_size w less)
              ∙ fill_buffer-above format_message call 20 limit
                  (double32 (hinted initial_buffer_size size)) (call initial_buffer_size w).1
                  (omega arith))
    ]

    -- Of a call that behaves as documented, whatever sizes below 2 ^ 31 it writes back where a buffer
    -- is too small, and with a limit below 2 ^ 31: the buffer loop ends with the content or with the
    -- error that the limit is reached. It is the error if the limit is below the first buffer or the
    -- content. It is the content if the limit allows the first buffer and either that is large enough,
    -- or the limit allows twice the size of the content and twice every size that is written back. If
    -- the first buffer is too small, and the size written back for it is not below that of the buffer
    -- and the limit does not allow twice as much, it is the error, even if the content is within the
    -- limit.
    pub fill_buffer-documented :
        (w : W)
        → ((returned w ≡ ok content) ⊎ (returned w ≡ err buffer_limit_reached))
          × ((limit < initial_buffer_size) ⊎ (limit < need) → returned w ≡ err buffer_limit_reached)
          × (initial_buffer_size ≤ limit → need ≤ initial_buffer_size → returned w ≡ ok content)
          × (initial_buffer_size ≤ limit
              → 2 * need ≤ limit
              → ((n : ℕ) (v : W) → 2 * (call n v).0.size ≤ limit)
              → returned w ≡ ok content)
          × (initial_buffer_size < need
              → initial_buffer_size ≤ (call initial_buffer_size w).0.size
              → limit < 2 * (call initial_buffer_size w).0.size
              → returned w ≡ err buffer_limit_reached)
    fill_buffer-documented w = (
      from_first (λ b. Unit {0}) (λ r. (r ≡ ok content) ⊎ (r ≡ err buffer_limit_reached))
          (λ b i over. inr refl) (λ b i below wide. inl refl) (λ b v i below narrow. tt) w tt,
      (λ short. elim short [
        | inl first ↦
            ap (λ o. o.0)
              (fill_buffer-above format_message call 21 limit initial_buffer_size w first)
        | inr less ↦
            from_first (λ b. Unit {0}) (λ r. r ≡ err buffer_limit_reached) (λ b i over. refl)
              (λ b i below wide. absurd (omega arith)) (λ b v i below narrow. tt) w tt
      ]),
      (λ first wide.
          fill_buffer-done format_message call 21 limit initial_buffer_size w (ok content) first
            (omega arith) (judge-large initial_buffer_size w wide)),
      (λ first twice hints.
          from_first (λ b. b ≤ limit) (λ r. r ≡ ok content) (λ b i over. absurd (omega arith))
            (λ b i below wide. refl)
            (λ b v i below narrow.
              let hint : 2 * (call b v).0.size ≤ limit = hints b v in ground arith)
            w first),
      refused_hint w,
    )
