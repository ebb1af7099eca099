-- ===== src/Query/Strings/Encode.antt =====
-- Go strings as UTF-16, the way `syscall.UTF16FromString` encodes them: a lone surrogate that a string
-- holds in three bytes is kept.
use win_perf_counters.Prelude.{
  ℕ, zero, suc, ◌+◌, ◌-◌, ◌*◌, ◌/◌, ◌%◌, ◌<◌, ◌≤◌, ◌≡◌, refl, ap, ◌∙◌, Bool, true, false, ◌&&◌,
  List, [], ◌∷◌, ◌++◌, All, ltb, ◌==◌, if◌then◌else◌, Bool-cases, inl, inr, arith,
}
use win_perf_counters.Query.Strings.{decode_utf16, is_high, is_low, paired, within, utf8, utf8_rune}
use win_perf_counters.Text.{Text}

-- The byte at an index; 0, which continues no rune, behind the end.
abbrev byte_at : ℕ → Text → ℕ
byte_at i [] = 0
byte_at zero (b ∷ bs) = b
byte_at (suc i) (b ∷ bs) = byte_at i bs

abbrev is_tail : ℕ → Bool
is_tail = within 0x80 0xC0

-- The first rune of a string, with the number of its further bytes; a byte that begins none is the
-- replacement character.
abbrev first_rune : ℕ → Text → ℕ × ℕ
first_rune b bs =
    let b1 = byte_at 0 bs in
    let b2 = byte_at 1 bs in
    let b3 = byte_at 2 bs in
    if ltb b 0x80
    then (b, 0)
    else if within 0xC2 0xE0 b && is_tail b1
    then ((b - 0xC0) * 0x40 + (b1 - 0x80), 1)
    else if within 0xE0 0xF0 b && within (if b == 0xE0 then 0xA0 else 0x80) 0xC0 b1 && is_tail b2
    then ((b - 0xE0) * 0x1000 + (b1 - 0x80) * 0x40 + (b2 - 0x80), 2)
    else if within 0xF0 0xF5 b
        && within (if b == 0xF0 then 0x90 else 0x80) (if b == 0xF4 then 0x90 else 0xC0) b1
        && is_tail b2
        && is_tail b3
    then ((b - 0xF0) * 0x40000 + (b1 - 0x80) * 0x1000 + (b2 - 0x80) * 0x40 + (b3 - 0x80), 3)
    else (0xFFFD, 0)

-- The units of a rune.
abbrev units_of : ℕ → List ℕ
units_of r =
    if ltb r 0x10000
    then r ∷ []
    else (0xD800 + (r - 0x10000) / 0x400) ∷ (0xDC00 + (r - 0x10000) % 0x400) ∷ []

-- The units of a string, behind that many bytes.
unfoldable pub encode_from : ℕ → Text → List ℕ
encode_from skipped [] = []
encode_from (suc k) (b ∷ bs) = encode_from k bs
encode_from zero (b ∷ bs) =
    let (r, more) = first_rune b bs in let rest = encode_from more bs in units_of r ++ rest

abbrev pub encode_utf16 : Text → List ℕ
encode_utf16 s = encode_from 0 s

-- The bytes of a rune are taken for it, by their number.
one_byte : (r : ℕ) (rest : Text) → r < 0x80 → first_rune r rest ≡ (r, 0)
one_byte r rest h = ground arith

two_bytes :
    (r : ℕ) (rest : Text)
    → 0x80 ≤ r
    → r < 0x800
    → first_rune (0xC0 + r / 0x40) ((0x80 + r % 0x40) ∷ rest) ≡ (r, 1)
two_bytes r rest l h = ground arith

three_bytes :
    (r : ℕ) (rest : Text)
    → 0x800 ≤ r
    → r < 0x10000
    → first_rune (0xE0 + r / 0x1000) ((0x80 + r / 0x40 % 0x40) ∷ (0x80 + r % 0x40) ∷ rest) ≡ (r, 2)
three_bytes r rest l h = ground arith

four_bytes :
    (r : ℕ) (rest : Text)
    → 0x10000 ≤ r
    → r < 0x110000
    → first_rune
        (0xF0 + r / 0x40000)
        ((0x80 + r / 0x1000 % 0x40) ∷ (0x80 + r / 0x40 % 0x40) ∷ (0x80 + r % 0x40) ∷ rest)
      ≡ (r, 3)
four_bytes r rest l h = ground arith

encode_step :
    (b : ℕ) (bs : Text) (r k : ℕ)
    → first_rune b bs ≡ (r, k)
    → encode_from 0 (b ∷ bs) ≡ units_of r ++ encode_from k bs
unfolding encode_from
encode_step b bs r k e = ap (λ (f : ℕ × ℕ). units_of f.0 ++ encode_from f.1 bs) e

encode_bytes :
    (r : ℕ) (bytes rest : Text)
    → utf8_rune r ≡ bytes
    → encode_from 0 (bytes ++ rest) ≡ units_of r ++ encode_from 0 rest
    → encode_from 0 (utf8_rune r ++ rest) ≡ units_of r ++ encode_from 0 rest
encode_bytes r bytes rest e h = ap (λ bs. encode_from 0 (bs ++ rest)) e ∙ h

-- A rune is read back from its bytes, whatever follows them.
encode-utf8_rune :
    (r : ℕ) (rest : Text)
    → r < 0x110000
    → encode_from 0 (utf8_rune r ++ rest) ≡ units_of r ++ encode_from 0 rest
unfolding encode_from
encode-utf8_rune r rest h = elim (Bool-cases (ltb r 0x80)) [
  | inl one ↦
      encode_bytes r (r ∷ []) rest (rw (utf8_rune, one) refl)
        (encode_step r rest r 0 (one_byte r rest (ground arith)))
  | inr more ↦ elim (Bool-cases (ltb r 0x800)) [
    | inl two ↦
        encode_bytes r ((0xC0 + r / 0x40) ∷ (0x80 + r % 0x40) ∷ []) rest
          (rw (utf8_rune, more, two) refl)
          (encode_step (0xC0 + r / 0x40) ((0x80 + r % 0x40) ∷ rest) r 1
            (two_bytes r rest (ground arith) (ground arith)))
    | inr more' ↦ elim (Bool-cases (ltb r 0x10000)) [
      | inl three ↦
          encode_bytes r ((0xE0 + r / 0x1000) ∷ (0x80 + r / 0x40 % 0x40) ∷ (0x80 + r % 0x40) ∷ [])
            rest (rw (utf8_rune, more, more', three) refl)
            (encode_step (0xE0 + r / 0x1000) ((0x80 + r / 0x40 % 0x40) ∷ (0x80 + r % 0x40) ∷ rest) r
              2 (three_bytes r rest (ground arith) (ground arith)))
      | inr four ↦
          encode_bytes r
            ((0xF0 + r / 0x40000)
              ∷ (0x80 + r / 0x1000 % 0x40)
              ∷ (0x80 + r / 0x40 % 0x40)
              ∷ (0x80 + r % 0x40)
              ∷ [])
            rest (rw (utf8_rune, more, more', four) refl)
            (encode_step (0xF0 + r / 0x40000)
              ((0x80 + r / 0x1000 % 0x40) ∷ (0x80 + r / 0x40 % 0x40) ∷ (0x80 + r % 0x40) ∷ rest) r 3
              (four_bytes r rest (ground arith) h))
    ]
  ]
]

units_of-paired : (u v : ℕ) → (is_high u && is_low v) ≡ true → units_of (paired u v) ≡ u ∷ v ∷ []
units_of-paired u v h = ground arith

units_of_unit : (u : ℕ) → u < 0x10000 → units_of u ≡ u ∷ []
units_of_unit u h = ground arith

paired_bound : (u v : ℕ) → (is_high u && is_low v) ≡ true → paired u v < 0x110000
paired_bound u v h = ground arith

encode_rune :
    (r : ℕ) (rs us units : List ℕ)
    → r < 0x110000
    → units_of r ≡ units
    → encode_utf16 (utf8 rs) ≡ us
    → encode_utf16 (utf8 (r ∷ rs)) ≡ units ++ us
unfolding utf8
encode_rune r rs us units h e f =
    encode-utf8_rune r (utf8 rs) h
    ∙ (ap (λ l. l ++ encode_utf16 (utf8 rs)) e ∙ ap (λ l. units ++ l) f)

pub decode_pair :
    (u v : ℕ) (us : List ℕ)
    → (is_high u && is_low v) ≡ true
    → decode_utf16 (u ∷ v ∷ us) ≡ paired u v ∷ decode_utf16 us
unfolding decode_utf16
decode_pair u v us e = rw (e, decode_utf16) refl

pub decode_single :
    (u v : ℕ) (us : List ℕ)
    → (is_high u && is_low v) ≡ false
    → decode_utf16 (u ∷ v ∷ us) ≡ u ∷ decode_utf16 (v ∷ us)
unfolding decode_utf16
decode_single u v us e = rw (e, decode_utf16) refl

encode_nothing : encode_utf16 (utf8 (decode_utf16 [])) ≡ []
unfolding decode_utf16 utf8 encode_from
encode_nothing = refl

encode_last : (u : ℕ) → u < 0x10000 → encode_utf16 (utf8 (decode_utf16 (u ∷ []))) ≡ u ∷ []
unfolding decode_utf16
encode_last u h = encode_rune u [] [] (u ∷ []) (omega arith) (units_of_unit u h) encode_nothing

-- Units are read back from the string that they were decoded to, lone surrogates included.
pub encode-decode_utf16 :
    (us : List ℕ) → All (λ u. u < 0x10000) us → encode_utf16 (utf8 (decode_utf16 us)) ≡ us
encode-decode_utf16 [] h = encode_nothing
encode-decode_utf16 (u ∷ []) h = encode_last u h.0
encode-decode_utf16 (u ∷ v ∷ us) h =
    let whole = encode-decode_utf16 us h.1.1 in
    let later = encode-decode_utf16 (v ∷ us) h.1 in
    elim (Bool-cases (is_high u && is_low v)) [
      | inl pair ↦
          ap (λ rs. encode_utf16 (utf8 rs)) (decode_pair u v us pair)
          ∙ encode_rune (paired u v) (decode_utf16 us) us (u ∷ v ∷ []) (paired_bound u v pair)
              (units_of-paired u v pair) whole
      | inr lone ↦
          ap (λ rs. encode_utf16 (utf8 rs)) (decode_single u v us lone)
          ∙ encode_rune u (decode_utf16 (v ∷ us)) (v ∷ us) (u ∷ []) (omega (arith, h.0))
              (units_of_unit u h.0) later
    ]
