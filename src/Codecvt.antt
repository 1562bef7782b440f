-- ===== src/Codecvt.antt =====
-- src/ewa_base/basic/codecvt.cpp: `IConv`, the conversions between UTF-8 bytes and the units of a
-- `StringBuffer`, and the test whether bytes are UTF-8. A unit has 16 bits (`uint16_t`) or 32
-- (`uint32_t`); a pointer into a buffer is the suffix that starts there.
pub mod Shape
pub mod Bounds
pub mod RoundTrip
pub mod Detect
use ew_base.Prelude.{
  ℕ, zero, suc, ◌+◌, ◌-◌, ◌*◌, ◌/◌, ◌%◌, ◌^◌, Bool, true, false, ◌||◌, Option, none, some, List, [],
  ◌∷◌, ◌++◌, bit_and, bit_or, ltb, leb, ◌==◌, if◌then◌else◌, length, get_elem?, drop, ◌>>=◌ as opt,
}
use ew_base.Prelude.Run.{Run, ok, fault, no_fuel, ◌>>=◌, reads}

abbrev pub Bytes : Type 0
Bytes = List ℕ

-- The bytes that `IConv_unicode_to_utf8` writes for one unit; `none` is the error return. What is
-- stored in a `uint8_t` is reduced to a byte.
unfoldable pub encode_unit : ℕ → Option Bytes
encode_unit code =
    if ltb code 0x80
    then some (code % 256 ∷ [])
    else if ltb code 0x800
    then some (bit_or (code / 2 ^ 6) 0xC0 % 256 ∷ bit_and (bit_or code 0x80) 0xBF % 256 ∷ [])
    else if ltb code 0x10000
    then some (
        bit_or (code / 2 ^ 6 / 2 ^ 6) 0xE0 % 256
        ∷ bit_and (bit_or (code / 2 ^ 6) 0x80) 0xBF % 256
        ∷ bit_and (bit_or code 0x80) 0xBF % 256
        ∷ [])
    else if ltb code 0x110000
    then some (
        bit_or (code / 2 ^ 6 / 2 ^ 6 / 2 ^ 6) 0xF0 % 256
        ∷ bit_and (bit_or (code / 2 ^ 6 / 2 ^ 6) 0x80) 0xBF % 256
        ∷ bit_and (bit_or (code / 2 ^ 6) 0x80) 0xBF % 256
        ∷ bit_and (bit_or code 0x80) 0xBF % 256
        ∷ [])
    else none

-- The whole buffer: the loop stops with an error at the first unit that has no encoding.
unfoldable pub unicode_to_utf8 : List ℕ → Option Bytes
unicode_to_utf8 [] = some []
unicode_to_utf8 (u ∷ us) = opt (encode_unit u) λ b. opt (unicode_to_utf8 us) λ bs. some (b ++ bs)

abbrev low6 : ℕ → ℕ
low6 b = bit_and b 0x3F

-- One round of `IConv_utf8_to_unicode` for units of `w` bits at the byte `uc`, with the bytes behind
-- it: the unit that is stored, and the bytes that are left.
unfoldable pub decode_unit : ℕ → ℕ → Bytes → Run (ℕ × Bytes)
decode_unit w uc rest =
    if ltb uc 0x80
    then ok (uc, rest)
    else if ltb uc 0xC0
    then ok (uc, rest)
    else if ltb uc 0xE0
    then reads (get_elem? rest 0) >>= (λ b1. ok ((low6 uc * 2 ^ 6 + low6 b1) % 2 ^ w, drop 1 rest))
    else if ltb uc 0xF0
    then reads (get_elem? rest 0) >>= (λ b1.
      reads (get_elem? rest 1)
      >>= (λ b2. ok ((low6 uc * 2 ^ 12 + low6 b1 * 2 ^ 6 + low6 b2) % 2 ^ w, drop 2 rest)))
    else reads (get_elem? rest 0) >>= (λ b1. reads (get_elem? rest 1) >>= (λ b2.
      reads (get_elem? rest 2) >>= (λ b3.
        ok (
          (low6 uc * 2 ^ 18 + low6 b1 * 2 ^ 12 + low6 b2 * 2 ^ 6 + low6 b3) % 2 ^ w,
          drop 3 rest,
        ))))

-- `while(pa_<pa2)`
unfoldable pub decode_loop : ℕ → ℕ → Bytes → Run (List ℕ)
unfolding decode_unit
decode_loop fuel w [] = ok []
decode_loop zero w (b ∷ bs) = no_fuel
decode_loop (suc fuel) w (b ∷ bs) =
    decode_unit w b bs >>= (λ r. decode_loop fuel w (r.1) >>= (λ us. ok (r.0 ∷ us)))

-- Each round takes at least one byte, so as many rounds as bytes are enough.
unfoldable pub utf8_to_unicode : ℕ → Bytes → Run (List ℕ)
unfolding decode_loop
utf8_to_unicode w bs = decode_loop (length bs) w bs

-- The result of `str_type`: 0, 1 and -1.
pub data StrType : Type 0 where
  ascii utf8 gbk : StrType

-- `for (n = 0; ((c <<= 1) & 0x80)>0; n++);` on a 32-bit `c`, which is 0 after 32 shifts.
pub lead_bits : ℕ → ℕ → ℕ
lead_bits zero c = 0
lead_bits (suc fuel) c =
    let c' = c * 2 % 2 ^ 32 in
    elim (ltb 0 (bit_and c' 0x80)) [ true ↦ suc (lead_bits fuel c') | false ↦ 0 ]

-- The inner loop: are the next `n` bytes continuation bytes?
pub continues : ℕ → Bytes → Run Bool
continues zero p = ok true
continues (suc n) [] = fault
continues (suc n) (b ∷ p) = elim (bit_and b 0xC0 == 0x80) [
  | true ↦ continues n p
  | false ↦ ok false
]

-- The loop of `str_type` at the pointer `p + i`, with `left = nz - i` bytes to go.
pub str_type_loop : ℕ → ℕ → Bytes → StrType → Run StrType
str_type_loop fuel zero p t = ok t
str_type_loop zero (suc left) p t = no_fuel
str_type_loop (suc fuel) (suc left) [] t = fault
str_type_loop (suc fuel) (suc left) (c ∷ p) t =
    let plain = str_type_loop fuel left p t in
    let n = lead_bits 32 c in
    let next = str_type_loop fuel (left - n) (drop n p) utf8 in
    if ltb c 0x80
    then plain
    else if ltb 3 n || n == 0
    then ok gbk
    else if leb (suc left) n
    then ok gbk
    else (continues n p >>= (λ good. elim good [ true ↦ next | false ↦ ok gbk ]))

pub strlen : Bytes → Run ℕ
strlen [] = fault
strlen (c ∷ p) = elim (c == 0) [ true ↦ ok 0 | false ↦ strlen p >>= (λ n. ok (suc n)) ]

-- `IConv::str_type(s,nz)` on the memory from `s` on.
unfoldable pub str_type : Bytes → ℕ → Run StrType
unfolding str_type_loop strlen lead_bits continues
str_type s nz = (if nz == 0 then strlen s else ok nz) >>= (λ n. str_type_loop n n s ascii)
