-- ===== src/Codecvt/Shape.antt =====
-- The encodings in the arithmetic form of RFC 3629, and what the decoder makes of each of them.
use ew_base.Prelude.{
  ℕ, ◌+◌, ◌/◌, ◌%◌, ◌^◌, ◌<◌, true, none, some, [], ◌∷◌, ◌++◌, ◌≡◌, refl, arith, bit_and, bit_or,
  ltb, ◌==◌, if◌then◌else◌,
}
use ew_base.Prelude.Bits.{every_below, equal_below, continuation_byte}
use ew_base.Prelude.Run.{ok}
use ew_base.Codecvt.{Bytes, encode_unit, decode_unit}

abbrev pub cont : ℕ → ℕ
cont a = 0x80 + a % 64

abbrev pub utf8 : ℕ → Bytes
utf8 c =
    if ltb c 0x80
    then c ∷ []
    else if ltb c 0x800
    then (0xC0 + c / 64) ∷ cont c ∷ []
    else if ltb c 0x10000
    then (0xE0 + c / 4096) ∷ cont (c / 64) ∷ cont c ∷ []
    else (0xF0 + c / 262144) ∷ cont (c / 4096) ∷ cont (c / 64) ∷ cont c ∷ []

table_C0 : every_below 32 (λ x. bit_or x 0xC0 % 256 == 0xC0 + x) ≡ true
unfolding every_below
table_C0 = refl

table_E0 : every_below 16 (λ x. bit_or x 0xE0 % 256 == 0xE0 + x) ≡ true
unfolding every_below
table_E0 = refl

table_F0 : every_below 8 (λ x. bit_or x 0xF0 % 256 == 0xF0 + x) ≡ true
unfolding every_below
table_F0 = refl

table_low6 : every_below 256 (λ x. bit_and x 0x3F == x % 64) ≡ true
unfolding every_below
table_low6 = refl

lead_C0 : (x : ℕ) → x < 32 → bit_or x 0xC0 % 256 ≡ 0xC0 + x
lead_C0 = equal_below 32 (λ x. bit_or x 0xC0 % 256) (λ x. 0xC0 + x) table_C0

lead_E0 : (x : ℕ) → x < 16 → bit_or x 0xE0 % 256 ≡ 0xE0 + x
lead_E0 = equal_below 16 (λ x. bit_or x 0xE0 % 256) (λ x. 0xE0 + x) table_E0

lead_F0 : (x : ℕ) → x < 8 → bit_or x 0xF0 % 256 ≡ 0xF0 + x
lead_F0 = equal_below 8 (λ x. bit_or x 0xF0 % 256) (λ x. 0xF0 + x) table_F0

pub low6_byte : (x : ℕ) → x < 256 → bit_and x 0x3F ≡ x % 64
low6_byte = equal_below 256 (λ x. bit_and x 0x3F) (λ x. x % 64) table_low6

-- A unit below 0x110000 is encoded by the table of RFC 3629; any other is refused.
pub encode_unit-utf8 : (c : ℕ) → encode_unit c ≡ (if ltb c 0x110000 then some (utf8 c) else none)
unfolding encode_unit
encode_unit-utf8 c = ground (
  arith,
  continuation_byte c,
  continuation_byte (c / 2 ^ 6),
  continuation_byte (c / 2 ^ 6 / 2 ^ 6),
  λ (h : c < 0x800). lead_C0 (c / 2 ^ 6) (omega arith),
  λ (h : c < 0x10000). lead_E0 (c / 2 ^ 6 / 2 ^ 6) (omega arith),
  λ (h : c < 0x110000). lead_F0 (c / 2 ^ 6 / 2 ^ 6 / 2 ^ 6) (omega arith),
)

-- The decoder keeps six bits of every lead byte, so it adds this to a code of 3 or 4 bytes.
abbrev pub excess : ℕ → ℕ
excess c = if ltb c 0x800 then 0 else if ltb c 0x10000 then 0x20000 else 0xC00000

-- The unit of `w` bits that the decoder stores for the encoding of `c`.
abbrev pub stored : ℕ → ℕ → ℕ
stored w c = if ltb c 0x80 then c else (c + excess c) % 2 ^ w

abbrev pub tail_of : ℕ → Bytes
tail_of c =
    if ltb c 0x80
    then []
    else if ltb c 0x800
    then cont c ∷ []
    else if ltb c 0x10000
    then cont (c / 64) ∷ cont c ∷ []
    else cont (c / 4096) ∷ cont (c / 64) ∷ cont c ∷ []

abbrev pub lead_of : ℕ → ℕ
lead_of c =
    if ltb c 0x80
    then c
    else if ltb c 0x800
    then 0xC0 + c / 64
    else if ltb c 0x10000
    then 0xE0 + c / 4096
    else 0xF0 + c / 262144

pub utf8-lead-tail : (c : ℕ) (rest : Bytes) → utf8 c ++ rest ≡ lead_of c ∷ (tail_of c ++ rest)
utf8-lead-tail c rest = ground arith

pub decode_unit-utf8 :
    (w c : ℕ) (rest : Bytes)
    → c < 0x110000
    → decode_unit w (lead_of c) (tail_of c ++ rest) ≡ ok (stored w c, rest)
unfolding decode_unit
decode_unit-utf8 w c rest h = ground (
  arith,
  low6_byte (lead_of c) (ground arith),
  low6_byte (cont c) (omega arith),
  low6_byte (cont (c / 64)) (omega arith),
  low6_byte (cont (c / 4096)) (omega arith),
)
