-- ===== src/Codecvt/Detect.antt =====
-- `str_type` on text that is UTF-8.
use mathlib.Core.Path.{ap₂}
use ew_base.Prelude.{
  suc-ne-zero, Bool-cases, inl, inr, ℕ, zero, suc, ◌+◌, ◌-◌, ◌/◌, ◌%◌, ◌≤◌, ◌<◌, Bool, true, false,
  some, List, [], ◌∷◌, ◌++◌, ◌≡◌, refl, ◌∙◌, arith, ltb, if◌then◌else◌, length, All, length-append,
  append_assoc, not, ◌||◌, bit_and, ◌==◌, drop,
}
use ew_base.Prelude.Bits.{every_below, equal_below}
use ew_base.Prelude.Run.{ok}
use ew_base.Codecvt.{
  Bytes, StrType, ascii, utf8 as utf8_text, lead_bits, continues, str_type_loop, str_type,
  unicode_to_utf8,
}
use ew_base.Codecvt.Shape.{utf8, cont, lead_of, tail_of, utf8-lead-tail}
use ew_base.Codecvt.RoundTrip.{IsCode, encoding, unicode_to_utf8_iff}

table_lead1 : every_below 32 (λ x. lead_bits 32 (0xC0 + x) == 1) ≡ true
unfolding every_below lead_bits
table_lead1 = refl

table_lead2 : every_below 16 (λ x. lead_bits 32 (0xE0 + x) == 2) ≡ true
unfolding every_below lead_bits
table_lead2 = refl

table_lead3 : every_below 8 (λ x. lead_bits 32 (0xF0 + x) == 3) ≡ true
unfolding every_below lead_bits
table_lead3 = refl

table_cont : every_below 64 (λ x. bit_and (0x80 + x) 0xC0 == 0x80) ≡ true
unfolding every_below
table_cont = refl

lead_bits-lead : (c : ℕ) → IsCode c → 0x80 ≤ c → lead_bits 32 (lead_of c) ≡ length (tail_of c)
lead_bits-lead c h wide = ground (
  arith,
  λ (p : c < 0x800).
      equal_below 32 (λ x. lead_bits 32 (0xC0 + x)) (λ _. 1) table_lead1 (c / 64) (omega arith),
  λ (p : c < 0x10000).
      equal_below 16 (λ x. lead_bits 32 (0xE0 + x)) (λ _. 2) table_lead2 (c / 4096) (omega arith),
  λ (p : c < 0x110000).
      equal_below 8 (λ x. lead_bits 32 (0xF0 + x)) (λ _. 3) table_lead3 (c / 262144) (omega arith),
)

cont_mask : (a : ℕ) → bit_and (cont a) 0xC0 ≡ 0x80
cont_mask a =
    equal_below 64 (λ x. bit_and (0x80 + x) 0xC0) (λ _. 0x80) table_cont (a % 64) (omega arith)

continues-tail : (c : ℕ) (p : Bytes) → continues (length (tail_of c)) (tail_of c ++ p) ≡ ok true
unfolding continues
continues-tail c p = ground (arith, cont_mask c, cont_mask (c / 64), cont_mask (c / 4096))

drop-tail : (c : ℕ) (p : Bytes) → drop (length (tail_of c)) (tail_of c ++ p) ≡ p
drop-tail c p = ground arith

length-tail : (c : ℕ) → 0x80 ≤ c → (0 < length (tail_of c)) × (length (tail_of c) ≤ 3)
length-tail c h = ground arith

-- The loop takes a lead byte with its continuation bytes in one round.
str_type_loop-lead :
    (fuel left n x : ℕ) (q p : Bytes) (t : StrType)
    → 0x80 ≤ x
    → lead_bits 32 x ≡ n
    → 0 < n
    → n ≤ 3
    → continues n (q ++ p) ≡ ok true
    → drop n (q ++ p) ≡ p
    → str_type_loop (suc fuel) (suc (n + left)) (x ∷ (q ++ p)) t
      ≡ str_type_loop fuel left p utf8_text
unfolding str_type_loop
str_type_loop-lead fuel left n x q p t wide e pos small good rest =
    let back : n + left - n ≡ left = omega arith in ground arith

lead-wide : (c : ℕ) → 0x80 ≤ c → 0x80 ≤ lead_of c
lead-wide c h = ground arith

str_type_loop-byte :
    (fuel left c : ℕ) (p : Bytes) (t : StrType)
    → ltb c 0x80 ≡ true
    → str_type_loop (suc fuel) (suc (length (tail_of c) + left)) (lead_of c ∷ (tail_of c ++ p)) t
      ≡ str_type_loop fuel left p (if ltb c 0x80 then t else utf8_text)
unfolding str_type_loop
str_type_loop-byte fuel left c p t h =
    let e : 0 + left ≡ left = omega arith in rw h (rw h (rw e refl))

-- One encoded unit.
str_type_loop-unit :
    (fuel left c : ℕ) (p : Bytes) (t : StrType)
    → IsCode c
    → str_type_loop (suc fuel) (suc (length (tail_of c) + left)) (lead_of c ∷ (tail_of c ++ p)) t
      ≡ str_type_loop fuel left p (if ltb c 0x80 then t else utf8_text)
str_type_loop-unit fuel left c p t h = elim (Bool-cases (ltb c 0x80)) [
  | inl narrow ↦ str_type_loop-byte fuel left c p t narrow
  | inr wide ↦
      let w : 0x80 ≤ c = ground arith in
      let (pos, small) = length-tail c w in
      str_type_loop-lead fuel left (length (tail_of c)) (lead_of c) (tail_of c) p t (lead-wide c w)
        (lead_bits-lead c h w) pos small (continues-tail c p) (drop-tail c p)
      ∙ rw wide
]

abbrev pub any_wide : List ℕ → Bool
any_wide [] = false
any_wide (c ∷ us) = not (ltb c 0x80) || any_wide us

length-unit : (c : ℕ) (bs : Bytes) → length (utf8 c ++ bs) ≡ suc (length (tail_of c) + length bs)
length-unit c bs = rw (utf8-lead-tail c bs, length-append (tail_of c) bs) refl

unit_before : (c : ℕ) (bs p : Bytes) → (utf8 c ++ bs) ++ p ≡ lead_of c ∷ (tail_of c ++ (bs ++ p))
unit_before c bs p = rw (append_assoc (utf8 c) bs p) (utf8-lead-tail c (bs ++ p))

str_type_loop-encoding :
    (fuel : ℕ) (us : List ℕ) (p : Bytes) (t : StrType)
    → length (encoding us) ≤ fuel
    → All IsCode us
    → str_type_loop fuel (length (encoding us)) (encoding us ++ p) t
      ≡ ok (if any_wide us then utf8_text else t)
str_type_loop-encoding fuel [] p t h hs = unfold str_type_loop in refl
str_type_loop-encoding zero (c ∷ us) p t h hs = absurd (omega (arith, length-unit c (encoding us)))
str_type_loop-encoding (suc fuel) (c ∷ us) p t h (hc, hs) =
    ap₂ (λ n q. str_type_loop (suc fuel) n q t) (length-unit c (encoding us))
      (unit_before c (encoding us) p)
    ∙ str_type_loop-unit fuel (length (encoding us)) c (encoding us ++ p) t hc
    ∙ str_type_loop-encoding fuel us p (if ltb c 0x80 then t else utf8_text)
        (omega (arith, length-unit c (encoding us))) hs
    ∙ ground arith

str_type-sized : (s : Bytes) (n : ℕ) → 0 < n → str_type s n ≡ str_type_loop n n s ascii
unfolding str_type
str_type-sized s zero h = absurd (omega arith)
str_type-sized s (suc n) h = rw (suc-ne-zero n)

str_type-encoding :
    (us : List ℕ) (mem : Bytes)
    → All IsCode us
    → str_type (encoding us ++ 0 ∷ mem) (length (encoding us))
      ≡ ok (if any_wide us then utf8_text else ascii)
str_type-encoding [] mem h = unfold str_type in refl
str_type-encoding (c ∷ us) mem h =
    str_type-sized _ _ (omega (arith, length-unit c (encoding us)))
    ∙ str_type_loop-encoding _ (c ∷ us) (0 ∷ mem) ascii (omega arith) h

-- Text that the encoder wrote is never taken for GBK: `str_type` says ASCII if every unit is below
-- 0x80, and UTF-8 if not. The memory behind the text starts with the terminating zero.
pub str_type-unicode_to_utf8 :
    (us : List ℕ) (bs mem : Bytes)
    → unicode_to_utf8 us ≡ some bs
    → str_type (bs ++ 0 ∷ mem) (length bs) ≡ ok (if any_wide us then utf8_text else ascii)
str_type-unicode_to_utf8 us bs mem e =
    let (codes, enc) = (unicode_to_utf8_iff us bs).0 e in rw enc (str_type-encoding us mem codes)
