-- ===== src/Tests/CodecvtTests.antt =====
-- UTF-8 text: "aé水" in 16-bit units, and a code point of four bytes.
use ew_base.Prelude.{
  ℕ, ◌+◌, List, [], ◌∷◌, ◌++◌, ◌≡◌, ◌↔◌, refl, some, arith, length, map, All, if◌then◌else◌,
}
use ew_base.Prelude.Run.{ok, fault}
use ew_base.Codecvt.{
  Bytes, encode_unit, unicode_to_utf8, utf8_to_unicode, str_type, ascii, utf8, gbk,
}
use ew_base.Codecvt.Shape.{excess}
use ew_base.Codecvt.Bounds.{Fits, utf8_to_unicode-Fits}
use ew_base.Codecvt.RoundTrip.{
  encoding, IsCode, unicode_to_utf8_iff, utf8_to_unicode-unicode_to_utf8_16,
  utf8_to_unicode-unicode_to_utf8_32,
}
use ew_base.Codecvt.Detect.{any_wide, str_type-unicode_to_utf8}

abbrev sample : List ℕ
sample = 0x61 ∷ 0xE9 ∷ 0x6C34 ∷ []

abbrev sample_bytes : Bytes
sample_bytes = 0x61 ∷ 0xC3 ∷ 0xA9 ∷ 0xE6 ∷ 0xB0 ∷ 0xB4 ∷ []

encode_sample : unicode_to_utf8 sample ≡ some sample_bytes
unfolding unicode_to_utf8 encode_unit
encode_sample = refl

decode_sample : utf8_to_unicode 16 sample_bytes ≡ ok sample
unfolding utf8_to_unicode
decode_sample = refl

-- A lead byte of four with nothing behind it is read past the end of the buffer.
decode_truncated : utf8_to_unicode 16 (0x61 ∷ 0xF0 ∷ []) ≡ fault
unfolding utf8_to_unicode
decode_truncated = refl

detect_sample : str_type (sample_bytes ++ 0 ∷ []) 6 ≡ ok utf8
unfolding str_type
detect_sample = refl

detect_gbk : str_type (0xC4 ∷ 0xE3 ∷ 0 ∷ []) 0 ≡ ok gbk
unfolding str_type
detect_gbk = refl

round_trip_16_example :
    (bs : Bytes) × (unicode_to_utf8 sample ≡ some bs) × (utf8_to_unicode 16 bs ≡ ok sample)
round_trip_16_example = utf8_to_unicode-unicode_to_utf8_16 sample (omega arith)

round_trip_32_example :
    (bs : Bytes) × (unicode_to_utf8 (0x61 ∷ 0x6C34 ∷ 0x1F600 ∷ []) ≡ some bs)
    × (utf8_to_unicode 32 bs ≡ ok (map (λ c. c + excess c) (0x61 ∷ 0x6C34 ∷ 0x1F600 ∷ [])))
round_trip_32_example =
    utf8_to_unicode-unicode_to_utf8_32 (0x61 ∷ 0x6C34 ∷ 0x1F600 ∷ []) (omega arith)

detect_example :
    str_type (sample_bytes ++ 0 ∷ 7 ∷ []) (length sample_bytes)
    ≡ ok (if any_wide sample then utf8 else ascii)
detect_example = str_type-unicode_to_utf8 sample sample_bytes (7 ∷ []) encode_sample

iff_example :
    (unicode_to_utf8 sample ≡ some sample_bytes)
    ↔ (All IsCode sample × (sample_bytes ≡ encoding sample))
iff_example = unicode_to_utf8_iff sample sample_bytes

abbrev truncated : Bytes
truncated = 0x61 ∷ 0xF0 ∷ []

ends_example : Fits (length truncated) (utf8_to_unicode 16 truncated)
ends_example = utf8_to_unicode-Fits 16 truncated
