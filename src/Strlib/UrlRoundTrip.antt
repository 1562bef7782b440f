-- ===== src/Strlib/UrlRoundTrip.antt =====
-- `string_urldecode` inverts `string_urlencode`.
use ew_base.Prelude.{ℕ, ◌<◌, ◌≡◌, refl, ◌∙◌, ap, [], ◌∷◌, ◌++◌, All, arith, false, ◌==◌}
use ew_base.Prelude.Run.{ok}
use ew_base.Codecvt.{Bytes}
use ew_base.Strlib.{encode_byte, string_urlencode, string_urldecode}
use ew_base.Strlib.Decode.{
  coded, length-coded, encode_byte-nonempty, encode_byte-Reads, unescape_loop-coded, Reads,
}

abbrev pub IsChar : ℕ → Type 0
IsChar c = (0 < c) × (c < 256)

string_urlencode-coded :
    (s m : Bytes) → All IsChar s → string_urlencode (s ++ 0 ∷ m) ≡ ok (coded encode_byte s)
unfolding string_urlencode coded
string_urlencode-coded [] m h = refl
string_urlencode-coded (c ∷ s) m ((h, e), hs) =
    let not_end : (c == 0) ≡ false = ground arith in
    rw (string_urlencode-coded s m hs, not_end) refl

chars_read : (s : Bytes) → All IsChar s → All (Reads encode_byte (λ u. u ∷ [])) s
chars_read [] h = tt
chars_read (c ∷ s) ((h, e), hs) = (encode_byte-Reads c h e, chars_read s hs)

coded_self : (s : Bytes) → coded (λ u. u ∷ []) s ≡ s
unfolding coded
coded_self [] = refl
coded_self (c ∷ s) = ap (c ∷◌) (coded_self s)

-- A text of bytes other than zero, with anything behind its end, is encoded, and the encoding, with
-- anything behind its end, is decoded to the text.
pub string_urldecode-string_urlencode :
    (s m n : Bytes)
    → All IsChar s
    → (e : Bytes) × (string_urlencode (s ++ 0 ∷ m) ≡ ok e) × (string_urldecode (e ++ 0 ∷ n) ≡ ok s)
unfolding string_urldecode
string_urldecode-string_urlencode s m n h =
    let enough = length-coded encode_byte s (0 ∷ n) encode_byte-nonempty in
    (
      coded encode_byte s,
      string_urlencode-coded s m h,
      unescape_loop-coded encode_byte (λ u. u ∷ []) s n _ (chars_read s h) enough
          ∙ ap ok (coded_self s),
    )
