-- ===== src/Strlib/Escape.antt =====
-- What the escapes look like, and what a round of the decoder makes of each.
use ew_base.Prelude.{
  ℕ, suc, ◌+◌, ◌*◌, ◌/◌, ◌%◌, ◌^◌, ◌≤◌, ◌<◌, ◌≡◌, refl, ◌∙◌, ap, true, false, some, [], ◌∷◌, ◌++◌,
  bit_and, ltb, leb, ◌==◌, if◌then◌else◌, arith, append-nil,
}
use ew_base.Prelude.Bits.{every_below, equal_below, and_shift4, and_shift8, and_shift12, and_nibble}
use ew_base.Prelude.Run.{ok}
use ew_base.Codecvt.{Bytes, unicode_to_utf8}
use ew_base.Codecvt.Shape.{utf8}
use ew_base.Codecvt.RoundTrip.{unicode_to_utf8-encoding}
use ew_base.Strlib.{
  number16b, hex_char, need_escape, encode_byte, escape_unit, hex4, wide_bytes, decode_wide,
  decode_round,
}

hex_table : every_below 16 (λ d. number16b (hex_char d) == d) ≡ true
unfolding every_below number16b hex_char
hex_table = refl

pub number16b-hex_char : (d : ℕ) → d < 16 → number16b (hex_char d) ≡ d
number16b-hex_char = equal_below 16 (λ d. number16b (hex_char d)) (λ d. d) hex_table

mask4 : (a : ℕ) → bit_and a 0xF0 / 2 ^ 4 ≡ a / 16 % 16
mask4 a = omega (arith, and_shift4 a 0xF0 0xF refl, and_nibble (a / 16))

mask8 : (a : ℕ) → bit_and a 0xF00 / 2 ^ 8 ≡ a / 256 % 16
mask8 a = omega (arith, and_shift8 a 0xF00 0xF refl, and_nibble (a / 256))

mask12 : (a : ℕ) → bit_and a 0xF000 / 2 ^ 12 ≡ a / 4096 % 16
mask12 a = omega (arith, and_shift12 a 0xF000 0xF refl, and_nibble (a / 4096))

pub encode_byte-digits :
    (c : ℕ)
    → encode_byte c
      ≡ (if need_escape c then b'%' ∷ hex_char (c / 16 % 16) ∷ hex_char (c % 16) ∷ [] else c ∷ [])
unfolding encode_byte
encode_byte-digits c = rw (mask4 c, and_nibble c)

nibble_byte : (a : ℕ) → a % 16 % 256 ≡ a % 16
nibble_byte a = omega arith

pub escape_unit-digits :
    (u : ℕ)
    → 256 ≤ u
    → escape_unit u
      ≡ b'%'
        ∷ b'u'
        ∷ hex_char (u / 4096 % 16)
        ∷ hex_char (u / 256 % 16)
        ∷ hex_char (u / 16 % 16)
        ∷ hex_char (u % 16)
        ∷ []
unfolding escape_unit
escape_unit-digits u h =
    let wide : leb 256 u ≡ true = ground arith in
    rw (wide, mask4 u, mask8 u, mask12 u, and_nibble u)
      (rw (nibble_byte (u / 4096), nibble_byte (u / 256), nibble_byte (u / 16), nibble_byte u) refl)

pub plain-ne-percent : (c : ℕ) → need_escape c ≡ false → (c == b'%') ≡ false
unfolding need_escape
plain-ne-percent c h = ground arith

-- An escaped byte is decoded to the byte.
pub decode_round-digits :
    (c : ℕ) (rest : Bytes)
    → c < 256
    → decode_round b'%' (hex_char (c / 16 % 16) ∷ hex_char (c % 16) ∷ rest) ≡ ok (c ∷ [], rest)
unfolding decode_round
decode_round-digits c rest h =
    let high : number16b (hex_char (c / 16 % 16)) ≡ c / 16 % 16 =
      number16b-hex_char (c / 16 % 16) (omega arith) in
    let low : number16b (hex_char (c % 16)) ≡ c % 16 = number16b-hex_char (c % 16) (omega arith) in
    let high_digit : ltb (c / 16 % 16) 16 ≡ true = ground arith in
    let low_digit : ltb (c % 16) 16 ≡ true = ground arith in
    let value : c / 16 % 16 * 16 + c % 16 ≡ c = omega arith in
    rw (high, high_digit, low, low_digit, value) refl

pub decode_round-plain :
    (c : ℕ) (rest : Bytes) → (c == b'%') ≡ false → decode_round c rest ≡ ok (c ∷ [], rest)
unfolding decode_round
decode_round-plain c rest h = rw h refl

hex4-digit :
    (n d : ℕ) (p : Bytes) (vv : ℕ)
    → d < 16
    → hex4 (suc n) (hex_char d ∷ p) vv ≡ hex4 n p (vv * 16 + d)
unfolding hex4
hex4-digit n d p vv h =
    let value : number16b (hex_char d) ≡ d = number16b-hex_char d h in
    let digit : leb 16 (number16b (hex_char d)) ≡ false = ground (arith, value) in
    rw (hex4, digit) (ap (hex4 n p) (omega (arith, value)))

hex4-end : (p : Bytes) {vv v : ℕ} → vv ≡ v → hex4 0 p vv ≡ ok v
unfolding hex4
hex4-end p e = ap ok e

hex4-digits :
    (u : ℕ) (rest : Bytes)
    → u < 65536
    → hex4 4
        (hex_char (u / 4096 % 16)
          ∷ hex_char (u / 256 % 16)
          ∷ hex_char (u / 16 % 16)
          ∷ hex_char (u % 16)
          ∷ rest)
        0
      ≡ ok u
hex4-digits u rest h =
    let value : (((0 * 16 + u / 4096 % 16) * 16 + u / 256 % 16) * 16 + u / 16 % 16) * 16 + u % 16
        ≡ u =
      omega arith in
    hex4-digit 3 (u / 4096 % 16) _ 0 (omega arith)
    ∙ hex4-digit 2 (u / 256 % 16) _ (0 * 16 + u / 4096 % 16) (omega arith)
    ∙ hex4-digit 1 (u / 16 % 16) _ ((0 * 16 + u / 4096 % 16) * 16 + u / 256 % 16) (omega arith)
    ∙ hex4-digit 0 (u % 16) rest (((0 * 16 + u / 4096 % 16) * 16 + u / 256 % 16) * 16 + u / 16 % 16)
        (omega arith)
    ∙ hex4-end rest (cc value)

wide_bytes-utf8 : (u : ℕ) → u < 65536 → wide_bytes u ≡ utf8 u
unfolding wide_bytes
wide_bytes-utf8 u h =
    let encoded : unicode_to_utf8 (u ∷ []) ≡ some (utf8 u ++ []) =
      unicode_to_utf8-encoding (u ∷ []) (omega arith, tt) in
    rw (wide_bytes, encoded) (append-nil (utf8 u))

-- An escaped unit is decoded to its UTF-8 encoding.
pub decode_wide-digits :
    (u : ℕ) (rest : Bytes)
    → u < 65536
    → decode_round b'%' (
        b'u'
        ∷ hex_char (u / 4096 % 16)
        ∷ hex_char (u / 256 % 16)
        ∷ hex_char (u / 16 % 16)
        ∷ hex_char (u % 16)
        ∷ rest)
      ≡ ok (utf8 u, rest)
unfolding decode_round decode_wide number16b
decode_wide-digits u rest h = rw (decode_wide, hex4-digits u rest h, wide_bytes-utf8 u h) refl
