-- ===== src/Strlib.antt =====
-- src/ewa_base/util/strlib.cpp: percent encoding of texts. A pointer into a text is the suffix of the
-- memory from there on, in which the text ends with a zero byte; a read past the memory is a fault.
-- The log lines for malformed escapes are left out.
pub mod Escape
pub mod Decode
pub mod UrlRoundTrip
pub mod EscapeRoundTrip
pub mod Split
pub mod Case
pub mod Trim
pub mod Lines
pub mod Strencode
use ew_base.Prelude.{
  ℕ, zero, suc, ◌+◌, ◌-◌, ◌*◌, ◌/◌, ◌%◌, ◌^◌, Bool, true, false, not, ◌&&◌, ◌||◌, Option, none,
  some, List, [], ◌∷◌, ◌++◌, bit_and, ltb, leb, ◌==◌, if◌then◌else◌, length, get_elem?, drop,
}
use ew_base.Prelude.Run.{Run, ok, fault, no_fuel, ◌>>=◌, reads}
use ew_base.Codecvt.{Bytes, unicode_to_utf8}

abbrev pub within : ℕ → ℕ → ℕ → Bool
within lo hi c = leb lo c && leb c hi

-- inc/ewa_base/basic/lookuptable.h: `lkt_number16b`, the value of a hexadecimal digit or 0xFF.
unfoldable pub number16b : ℕ → ℕ
number16b n =
    let up = if within b'a' b'z' n then n + b'A' - b'a' else n in
    if within b'A' b'F' up then up + 10 - b'A' else if within b'0' b'9' n then n - b'0' else 0xFF

-- `lkt_10b_to_16b_char`
unfoldable pub hex_char : ℕ → ℕ
hex_char n = if ltb n 10 then b'0' + n else if ltb n 16 then b'A' + n - 10 else 0xFF

-- `lkt_need_escape`
unfoldable pub need_escape : ℕ → Bool
need_escape n = not (
    within b'0' b'9' n
    || within b'a' b'z' n
    || within b'A' b'Z' n
    || (n == b'_' || n == b'@' || n == b'+' || n == b'-' || n == b'.' || n == b'/' || n == b'*'))

-- One byte below 256, as `string_urlencode` and `string_escape` write it.
unfoldable pub encode_byte : ℕ → Bytes
encode_byte c =
    if need_escape c
    then b'%' ∷ hex_char (bit_and c 0xF0 / 2 ^ 4) ∷ hex_char (bit_and c 0xF) ∷ []
    else c ∷ []

unfoldable pub string_urlencode : Bytes → Run Bytes
unfolding encode_byte
string_urlencode [] = fault
string_urlencode (c ∷ p) =
    let rest = string_urlencode p in
    if c == 0 then ok [] else (rest >>= λ out. ok (encode_byte c ++ out))

-- One unit of the wide buffer of `string_escape`. A table is indexed by an `unsigned char`.
unfoldable pub escape_unit : ℕ → Bytes
unfolding encode_byte
escape_unit u =
    if leb 256 u
    then b'%'
      ∷ b'u'
      ∷ hex_char (bit_and u 0xF000 / 2 ^ 12 % 256)
      ∷ hex_char (bit_and u 0xF00 / 2 ^ 8 % 256)
      ∷ hex_char (bit_and u 0xF0 / 2 ^ 4 % 256)
      ∷ hex_char (bit_and u 0xF % 256)
      ∷ []
    else encode_byte u

-- `string_escape` from the wide buffer on, which ends with a zero unit.
pub string_escape : List ℕ → Run Bytes
unfolding escape_unit
string_escape [] = fault
string_escape (u ∷ p) =
    let rest = string_escape p in
    if u == 0 then ok [] else (rest >>= λ out. ok (escape_unit u ++ out))

-- The loop over the four digits behind `%u`, which stops at the first that is none.
pub hex4 : ℕ → Bytes → ℕ → Run ℕ
hex4 zero p vv = ok vv
hex4 (suc n) [] vv = fault
hex4 (suc n) (d ∷ p) vv = elim (leb 16 (number16b d)) [
  | true ↦ ok vv
  | false ↦ hex4 n p (vv * 2 ^ 4 + number16b d)
]

-- The bytes of the buffer `wb`.
pub wide_bytes : ℕ → Bytes
wide_bytes vv = elim (unicode_to_utf8 (vv ∷ [])) [ none ↦ [] | some bs ↦ bs ]

-- `%u` and what follows it: `rest` starts behind `%`. The pointer moves on by six bytes in any case.
pub decode_wide : Bytes → Run (Bytes × Bytes)
unfolding hex4 wide_bytes
decode_wide rest = hex4 4 (drop 1 rest) 0 >>= λ vv. ok (wide_bytes vv, drop 5 rest)

-- One round of `string_unescape` at the byte `c`: the bytes that are written, and the new pointer.
unfoldable pub decode_round : ℕ → Bytes → Run (Bytes × Bytes)
unfolding decode_wide
decode_round c rest =
    if not (c == b'%')
    then ok (c ∷ [], rest)
    else (reads (get_elem? rest 0) >>= λ p1.
        if ltb (number16b p1) 16
        then (reads (get_elem? rest 1) >>= λ p2.
            if ltb (number16b p2) 16
            then ok ((number16b p1 * 16 + number16b p2) ∷ [], drop 2 rest)
            else ok (c ∷ p1 ∷ [], drop 1 rest))
        else if not (p1 == b'u')
        then ok (c ∷ [], rest)
        else decode_wide rest)

unfoldable pub unescape_loop : ℕ → Bytes → Run Bytes
unescape_loop zero p = no_fuel
unescape_loop (suc fuel) [] = fault
unescape_loop (suc fuel) (c ∷ rest) = elim (c == 0) [
  | true ↦ ok []
  | false ↦ decode_round c rest >>= λ r. unescape_loop fuel (r.1) >>= λ out. ok (r.0 ++ out)
]

-- Every round moves the pointer on, so one round for each byte and one for the end are enough.
unfoldable pub string_unescape : Bytes → Run Bytes
unfolding unescape_loop decode_round
string_unescape p = unescape_loop (suc (length p)) p

-- The text of this function is that of `string_unescape`.
unfoldable pub string_urldecode : Bytes → Run Bytes
unfolding unescape_loop decode_round
string_urldecode p = unescape_loop (suc (length p)) p
