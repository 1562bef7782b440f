-- ===== src/Codecvt/RoundTrip.antt =====
-- Whole buffers: encoding, decoding, and one after the other.
use mathlib.Core.Path.{ap₂}
use ew_base.Prelude.{
  Option-cases, inl, inr, ℕ, zero, suc, ◌+◌, ◌^◌, ◌≤◌, ◌<◌, some, List, [], ◌∷◌, ◌++◌, ◌≡◌, refl,
  ◌∙◌, ap, arith, lt→ltb, map, length, All, length-append, ◌↔◌,
}
use ew_base.Prelude.Run.{ok}
use ew_base.Codecvt.{Bytes, unicode_to_utf8, decode_loop, utf8_to_unicode}
use ew_base.Codecvt.Shape.{utf8, stored, excess, utf8-lead-tail, decode_unit-utf8, encode_unit-utf8}

abbrev pub IsCode : ℕ → Type 0
IsCode c = c < 0x110000

abbrev pub encoding : List ℕ → Bytes
encoding [] = []
encoding (c ∷ us) = utf8 c ++ encoding us

pub unicode_to_utf8-encoding :
    (us : List ℕ) → All IsCode us → unicode_to_utf8 us ≡ some (encoding us)
unfolding unicode_to_utf8
unicode_to_utf8-encoding [] h = refl
unicode_to_utf8-encoding (c ∷ us) (h, hs) =
    rw (encode_unit-utf8 c, lt→ltb c 0x110000 h, unicode_to_utf8-encoding us hs) refl

unicode_to_utf8-IsCode : (us : List ℕ) {bs : Bytes} → unicode_to_utf8 us ≡ some bs → All IsCode us
unfolding unicode_to_utf8
unicode_to_utf8-IsCode [] h = tt
unicode_to_utf8-IsCode (c ∷ us) h = elim (Option-cases (unicode_to_utf8 us)) [
  | inl e ↦ absurd (ground (arith, encode_unit-utf8 c))
  | inr (bs', e) ↦ (ground (arith, encode_unit-utf8 c), unicode_to_utf8-IsCode us e)
]

-- The encoder succeeds exactly on buffers whose units are all code points below 0x110000, and
-- then writes the encodings of RFC 3629 one after the other.
pub unicode_to_utf8_iff :
    (us : List ℕ) (bs : Bytes)
    → (unicode_to_utf8 us ≡ some bs) ↔ (All IsCode us × (bs ≡ encoding us))
unicode_to_utf8_iff us bs = (
  λ e. let h = unicode_to_utf8-IsCode us e in (h, cc (unicode_to_utf8-encoding us h)),
  λ (h, e). cc (unicode_to_utf8-encoding us h),
)

pub encoding-length : (us : List ℕ) → length us ≤ length (encoding us)
encoding-length [] = omega arith
encoding-length (c ∷ us) =
    rw (utf8-lead-tail c (encoding us), length-append) (omega (arith, encoding-length us))

decode_loop-encoding :
    (w fuel : ℕ) (us : List ℕ)
    → length us ≤ fuel
    → All IsCode us
    → decode_loop fuel w (encoding us) ≡ ok (map (stored w) us)
unfolding decode_loop
decode_loop-encoding w fuel [] h p = refl
decode_loop-encoding w zero (c ∷ us) h p = absurd (omega arith)
decode_loop-encoding w (suc fuel) (c ∷ us) h (hc, hs) =
    rw
      (
        utf8-lead-tail c (encoding us),
        decode_unit-utf8 w c (encoding us) hc,
        decode_loop-encoding w fuel us (omega arith) hs,
      )
      refl

-- What comes back for units of `w` bits.
pub decode-encode :
    (w : ℕ) (us : List ℕ)
    → All IsCode us
    → (bs : Bytes) × (unicode_to_utf8 us ≡ some bs)
      × (utf8_to_unicode w bs ≡ ok (map (stored w) us))
unfolding utf8_to_unicode
decode-encode w us h = (
  encoding us,
  unicode_to_utf8-encoding us h,
  decode_loop-encoding w (length (encoding us)) us (encoding-length us) h,
)

abbrev IsUnit16 : ℕ → Type 0
IsUnit16 c = c < 2 ^ 16

map-stored16 : (us : List ℕ) → All IsUnit16 us → map (stored 16) us ≡ us
map-stored16 [] h = refl
map-stored16 (c ∷ us) (h, hs) = ap₂ ◌∷◌ (ground arith) (map-stored16 us hs)

IsUnit16-IsCode : (us : List ℕ) → All IsUnit16 us → All IsCode us
IsUnit16-IsCode [] h = tt
IsUnit16-IsCode (c ∷ us) (h, hs) = (omega arith, IsUnit16-IsCode us hs)

-- 16-bit units, whatever their values, survive encoding to UTF-8 and decoding.
pub utf8_to_unicode-unicode_to_utf8_16 :
    (us : List ℕ)
    → All IsUnit16 us
    → (bs : Bytes) × (unicode_to_utf8 us ≡ some bs) × (utf8_to_unicode 16 bs ≡ ok us)
utf8_to_unicode-unicode_to_utf8_16 us h =
    let (bs, e, d) = decode-encode 16 us (IsUnit16-IsCode us h) in
    (bs, e, d ∙ ap ok (map-stored16 us h))

map-stored32 : (us : List ℕ) → All IsCode us → map (stored 32) us ≡ map (λ c. c + excess c) us
map-stored32 [] h = refl
map-stored32 (c ∷ us) (h, hs) = ap₂ ◌∷◌ (ground arith) (map-stored32 us hs)

-- 32-bit units: a code point below 0x800 comes back, one of three bytes comes back 0x20000 too
-- large, one of four bytes 0xC00000 too large.
pub utf8_to_unicode-unicode_to_utf8_32 :
    (us : List ℕ)
    → All IsCode us
    → (bs : Bytes) × (unicode_to_utf8 us ≡ some bs)
      × (utf8_to_unicode 32 bs ≡ ok (map (λ c. c + excess c) us))
utf8_to_unicode-unicode_to_utf8_32 us h =
    let (bs, e, d) = decode-encode 32 us h in (bs, e, d ∙ ap ok (map-stored32 us h))
