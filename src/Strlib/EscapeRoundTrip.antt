-- ===== src/Strlib/EscapeRoundTrip.antt =====
-- What `string_unescape` makes of the text that `string_escape` writes.
use ew_base.Prelude.{
  ℕ, ◌<◌, ◌≤◌, ◌≡◌, refl, [], ◌∷◌, ◌++◌, All, arith, false, Bool-cases, inl, inr, leb,
  if◌then◌else◌, ◌==◌, length,
}
use ew_base.Prelude.Run.{ok}
use ew_base.Codecvt.{Bytes}
use ew_base.Codecvt.Shape.{utf8}
use ew_base.Strlib.{encode_byte, escape_unit, string_escape, string_unescape}
use ew_base.Strlib.Escape.{escape_unit-digits, decode_wide-digits}
use ew_base.Strlib.Decode.{
  coded, length-coded, encode_byte-nonempty, encode_byte-Reads, unescape_loop-coded, Reads,
  round-Reads,
}

abbrev pub IsWide : ℕ → Type 0
IsWide u = (0 < u) × (u < 65536)

-- A unit below 256 comes back as one byte, any other as its UTF-8 encoding.
unfoldable pub read_back : ℕ → Bytes
read_back u = if leb 256 u then utf8 u else u ∷ []

pub string_escape-coded :
    (us m : Bytes) → All IsWide us → string_escape (us ++ 0 ∷ m) ≡ ok (coded escape_unit us)
unfolding string_escape coded
string_escape-coded [] m h = refl
string_escape-coded (u ∷ us) m ((h, e), hs) =
    let not_end : (u == 0) ≡ false = ground arith in rw (string_escape-coded us m hs, not_end) refl

escape_unit-byte : (u : ℕ) → leb 256 u ≡ false → escape_unit u ≡ encode_byte u
unfolding escape_unit
escape_unit-byte u h = rw h refl

escape_unit-nonempty : (u : ℕ) → 1 ≤ length (escape_unit u)
unfolding escape_unit
escape_unit-nonempty u = ground (arith, encode_byte-nonempty u)

escape_unit-Reads : (u : ℕ) → 0 < u → u < 65536 → Reads escape_unit read_back u
unfolding Reads read_back
escape_unit-Reads u h e rest fuel = elim (Bool-cases (leb 256 u)) [
  | inl t ↦
      rw (escape_unit-digits u (ground arith), t)
        (round-Reads b'%' _ fuel refl (decode_wide-digits u rest e))
  | inr t ↦ rw (escape_unit-byte u t, t) (encode_byte-Reads u h (ground arith) rest fuel)
]

pub units_read : (us : Bytes) → All IsWide us → All (Reads escape_unit read_back) us
units_read [] h = tt
units_read (u ∷ us) ((h, e), hs) = (escape_unit-Reads u h e, units_read us hs)

pub string_unescape-coded :
    (us n : Bytes)
    → All IsWide us
    → string_unescape (coded escape_unit us ++ 0 ∷ n) ≡ ok (coded read_back us)
unfolding string_unescape
string_unescape-coded us n h =
    unescape_loop-coded escape_unit read_back us n _ (units_read us h)
      (length-coded escape_unit us (0 ∷ n) escape_unit-nonempty)

-- Units from 1 to 0xFFFF, with anything behind the zero unit, are escaped; the escaped text, with
-- anything behind its end, is decoded to one byte for each unit below 256, and to the UTF-8 encoding
-- of any other unit.
pub string_unescape-string_escape :
    (us m n : Bytes)
    → All IsWide us
    → (e : Bytes) × (string_escape (us ++ 0 ∷ m) ≡ ok e)
      × (string_unescape (e ++ 0 ∷ n) ≡ ok (coded read_back us))
string_unescape-string_escape us m n h =
    (coded escape_unit us, string_escape-coded us m h, string_unescape-coded us n h)
