-- ===== src/Pdh/Paths.antt =====
-- Strings that were read from pdh.dll and are passed to it again (pdh.go, performance_query.go).
use win_perf_counters.Pdh.Calls.{
  utf16_ptr_from_string, pdh_add_counter, pdh_expand_wild_card_path, reply32, with_uint32, same,
}
use win_perf_counters.Pdh.Dll.{Dll, Runtime, has_nul}
use win_perf_counters.Pdh.Layout.{Layouts}
use win_perf_counters.Prelude.{
  ℕ, ◌<◌, ◌≡◌, ◌≢◌, refl, ap, ◌∙◌, false, ◌&&◌, some, List, [], ◌∷◌, ◌++◌, All, Bool-cases, inl,
  inr, arith,
}
use win_perf_counters.Query.Strings.Encode.{encode-decode_utf16, decode_pair, decode_single}
use win_perf_counters.Query.Strings.{decode_utf16, is_high, is_low, paired, utf8, utf8_rune}
use win_perf_counters.Text.{Text}

has_nul-append : (s t : Text) → has_nul s ≡ false → has_nul t ≡ false → has_nul (s ++ t) ≡ false
has_nul-append [] t e f = f
has_nul-append (b ∷ s) t e f = ground (arith, has_nul-append s t)

has_nul-utf8_rune : (r : ℕ) → r ≢ 0 → has_nul (utf8_rune r) ≡ false
has_nul-utf8_rune r h = ground arith

has_nul-utf8 :
    (r : ℕ) (rs : List ℕ) → r ≢ 0 → has_nul (utf8 rs) ≡ false → has_nul (utf8 (r ∷ rs)) ≡ false
unfolding utf8
has_nul-utf8 r rs h e = has_nul-append (utf8_rune r) (utf8 rs) (has_nul-utf8_rune r h) e

-- A unit of a string that a zero ends.
abbrev pub IsUnit : ℕ → Type 0
IsUnit u = (u < 0x10000) × (u ≢ 0)

nothing_has_nul : has_nul (utf8 (decode_utf16 [])) ≡ false
unfolding utf8 decode_utf16
nothing_has_nul = refl

last_has_nul : (u : ℕ) → u ≢ 0 → has_nul (utf8 (decode_utf16 (u ∷ []))) ≡ false
unfolding decode_utf16 utf8
last_has_nul u h = has_nul-utf8 u [] h refl

has_nul-decoded : (us : List ℕ) → All IsUnit us → has_nul (utf8 (decode_utf16 us)) ≡ false
has_nul-decoded [] h = nothing_has_nul
has_nul-decoded (u ∷ []) h = last_has_nul u h.0.1
has_nul-decoded (u ∷ v ∷ us) h =
    let whole = has_nul-decoded us h.1.1 in
    let later = has_nul-decoded (v ∷ us) h.1 in
    elim (Bool-cases (is_high u && is_low v)) [
      | inl pair ↦
          ap (λ rs. has_nul (utf8 rs)) (decode_pair u v us pair)
          ∙ has_nul-utf8 (paired u v) (decode_utf16 us) (λ e. omega (arith, e)) whole
      | inr lone ↦
          ap (λ rs. has_nul (utf8 rs)) (decode_single u v us lone)
          ∙ has_nul-utf8 u (decode_utf16 (v ∷ us)) h.0.1 later
    ]

unit_bounds : (us : List ℕ) → All IsUnit us → All (λ u. u < 0x10000) us
unit_bounds [] h = tt
unit_bounds (u ∷ us) h = (h.0.0, unit_bounds us h.1)

module _ {W T D : Type 0} (layouts : Layouts) (go : Runtime W T D) (dll : Dll W) where
  utf16_ptr_lem :
      (us : List ℕ)
      → All IsUnit us
      → utf16_ptr_from_string layouts go dll (utf8 (decode_utf16 us)) ≡ some (us ++ (0 ∷ []))
  unfolding utf16_ptr_from_string
  utf16_ptr_lem us h =
      rw (has_nul-decoded us h)
        (ap (λ (l : List ℕ). some (l ++ (0 ∷ []))) (encode-decode_utf16 us (unit_bounds us h)))

  -- A string of units without a zero that was read from pdh.dll, lone surrogates included, reaches
  -- PdhAddCounterW and PdhExpandWildCardPathW as the same units with a zero behind them, when it is
  -- passed on. With it PdhExpandWildCardPathW gets the address of a variable for its flags, and not
  -- their value 0.
  pub pdh_calls-decoded :
      (us : List ℕ) (query size : ℕ) (w : W)
      → All IsUnit us
      → (pdh_add_counter layouts go dll query (utf8 (decode_utf16 us)) w
          ≡ with_uint32 layouts go dll
              (same layouts go dll)
              (dll.add_counter_w query (some (us ++ (0 ∷ []))) 0 w))
        × (pdh_expand_wild_card_path layouts go dll (utf8 (decode_utf16 us)) size w
            ≡ reply32 layouts go dll
                (dll.expand_wild_card_path_w 0 (some (us ++ (0 ∷ []))) size (go.flags_address w) w))
  unfolding pdh_add_counter pdh_expand_wild_card_path
  pdh_calls-decoded us query size w h = rw (utf16_ptr_lem us h) (refl, refl)
