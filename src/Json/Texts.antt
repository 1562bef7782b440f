-- ===== src/Json/Texts.antt =====
-- `read_string`, with `unescape_value`, reads back what the writer makes of a text or a name.
use ew_base.Prelude.{
  ℕ, zero, suc, ◌≤◌, ◌<◌, ◌≡◌, refl, ap, Bool, true, false, not, ◌&&◌, some, [], ◌∷◌, ◌++◌, ltb,
  leb, ◌==◌, length, length-append, All, All-append, arith,
}
use ew_base.Prelude.Bits.{every_below, every_below_sound}
use ew_base.Prelude.Run.{ok}
use ew_base.Codecvt.{Bytes, decode_unit, decode_loop, utf8_to_unicode}
use ew_base.Strlib.{
  hex_char, need_escape, encode_byte, escape_unit, string_unescape, unescape_loop, decode_round,
}
use ew_base.Strlib.Decode.{coded}
use ew_base.Strlib.EscapeRoundTrip.{IsWide, read_back, string_escape-coded, string_unescape-coded}
use ew_base.Json.Lexer.{◌>>?◌, match_char, scan_string}
use ew_base.Json.Strings.{name_of, quoted, read_string}
use ew_base.Json.Reads.{skip_blank_solid}
use ew_base.Json.Printed.{scan_plain, scan_mark, Opening, quoted_other, is_blank_mark}
use ew_base.Json.Writer.{escape_text}

-- A byte of a string that is written as it is.
unfoldable pub is_inner : ℕ → Bool
is_inner c = not (c == b'"') && not (c == b'\\') && not (c == 0)

abbrev pub IsInner : ℕ → Type 0
IsInner c = is_inner c ≡ true

unfoldable all_inner : Bytes → Bool
unfolding is_inner
all_inner [] = true
all_inner (c ∷ s) = is_inner c && all_inner s

all_inner-IsInner : (s : Bytes) → all_inner s ≡ true → All IsInner s
unfolding all_inner
all_inner-IsInner [] h = tt
all_inner-IsInner (c ∷ s) h = (ground arith, all_inner-IsInner s (ground arith))

-- The escapes of ASCII.
escape_table : every_below 128 (λ u. all_inner (escape_unit u)) ≡ true
unfolding every_below all_inner is_inner escape_unit encode_byte need_escape hex_char
escape_table = refl

-- A character of ASCII other than zero.
abbrev pub IsAscii : ℕ → Type 0
IsAscii c = (0 < c) × (c < 128)

coded-IsInner : (s : Bytes) → All IsAscii s → All IsInner (coded escape_unit s)
unfolding coded
coded-IsInner [] h = tt
coded-IsInner (c ∷ s) ((z, a), h) =
    All-append _ (escape_unit c) (coded escape_unit s)
      (all_inner-IsInner (escape_unit c)
        (every_below_sound 128 (λ u. all_inner (escape_unit u)) c escape_table a))
      (coded-IsInner s h)

ascii-IsWide : (s : Bytes) → All IsAscii s → All IsWide s
ascii-IsWide [] h = tt
ascii-IsWide (c ∷ s) ((z, a), h) = ((z, omega arith), ascii-IsWide s h)

coded-read_back : (s : Bytes) → All IsAscii s → coded read_back s ≡ s
unfolding coded read_back
coded-read_back [] h = refl
coded-read_back (c ∷ s) ((z, a), h) =
    let low : leb 256 c ≡ false = ground arith in rw low (ap (λ x. c ∷ x) (coded-read_back s h))

decode_loop_ascii :
    (fuel w : ℕ) (s : Bytes) → All IsAscii s → length s ≤ fuel → decode_loop fuel w s ≡ ok s
unfolding decode_loop decode_unit
decode_loop_ascii fuel w [] h l = refl
decode_loop_ascii zero w (c ∷ s) h l = absurd (omega arith)
decode_loop_ascii (suc fuel) w (c ∷ s) ((z, a), h) l =
    let low : ltb c 0x80 ≡ true = ground arith in
    rw (low, decode_loop_ascii fuel w s h (omega arith)) refl

pub escape_text-coded :
    (w : ℕ) (s : Bytes) → All IsAscii s → escape_text w s ≡ ok (coded escape_unit s)
unfolding escape_text utf8_to_unicode
escape_text-coded w s h =
    rw (decode_loop_ascii (length s) w s h (omega arith))
      (string_escape-coded s [] (ascii-IsWide s h))

unescape_ascii :
    (s : Bytes) → All IsAscii s → string_unescape (coded escape_unit s ++ 0 ∷ []) ≡ ok s
unescape_ascii s h = rw (string_unescape-coded s [] (ascii-IsWide s h), coded-read_back s h) refl

-- A byte of a name that is read as it is written.
abbrev pub IsName : ℕ → Type 0
IsName c = IsInner c × ((c == b'%') ≡ false)

unescape_name_loop :
    (fuel : ℕ) (s : Bytes)
    → All IsName s
    → length s < fuel
    → unescape_loop fuel (s ++ 0 ∷ []) ≡ ok s
unfolding unescape_loop decode_round is_inner
unescape_name_loop zero s h l = absurd (omega arith)
unescape_name_loop (suc fuel) [] h l = refl
unescape_name_loop (suc fuel) (c ∷ s) ((i, p), h) l =
    let z : (c == 0) ≡ false = ground arith in
    rw (unescape_loop, z, p, unescape_name_loop fuel s h (omega arith)) refl

unescape_name : (s : Bytes) → All IsName s → string_unescape (s ++ 0 ∷ []) ≡ ok s
unfolding string_unescape
unescape_name s h =
    unescape_name_loop (suc (length (s ++ 0 ∷ []))) s h (omega (arith, length-append s (0 ∷ [])))

name-IsInner : (s : Bytes) → All IsName s → All IsInner s
name-IsInner [] h = tt
name-IsInner (c ∷ s) ((i, p), h) = (i, name-IsInner s h)

scan_inner :
    (e r : Bytes)
    → All IsInner e
    → scan_string (e ++ b'"' ∷ r) ≡ ok (some (record { raw = e; flag = false; mark = b'"' ∷ r }))
unfolding is_inner
scan_inner [] r h = scan_mark r
scan_inner (c ∷ e) r (i, h) =
    scan_plain c (e ++ b'"' ∷ r) e (b'"' ∷ r) false (ground arith) (ground arith) (ground arith)
      (scan_inner e r h)

inner-Opening : (c : ℕ) (q : Bytes) → IsInner c → Opening (c ∷ q)
unfolding is_inner
inner-Opening c q h = ground arith

name_of_inner :
    (w : ℕ) (e s m : Bytes)
    → string_unescape (e ++ 0 ∷ []) ≡ ok s
    → name_of w true e false m ≡ ok (some s)
unfolding name_of
name_of_inner w e s m h = rw h refl

quoted_empty :
    (w : ℕ) (s : Bytes) (d : ℕ) (r : Bytes)
    → string_unescape (0 ∷ []) ≡ ok s
    → (d == b'"') ≡ false
    → quoted w true (b'"' ∷ d ∷ r) ≡ ok (some (s, d ∷ r))
unfolding quoted scan_string name_of ◌>>?◌
quoted_empty w s d r u h = rw h (rw u refl)

quoted_inner :
    (w : ℕ) (e s : Bytes) (d : ℕ) (r : Bytes)
    → All IsInner e
    → string_unescape (e ++ 0 ∷ []) ≡ ok s
    → (d == b'"') ≡ false
    → quoted w true (e ++ b'"' ∷ d ∷ r) ≡ ok (some (s, d ∷ r))
quoted_inner w [] s d r h u other = quoted_empty w s d r u other
quoted_inner w (c ∷ e) s d r h u other =
    quoted_other w true ((c ∷ e) ++ b'"' ∷ d ∷ r) _ s (inner-Opening c (e ++ b'"' ∷ d ∷ r) (h.0))
      (scan_inner (c ∷ e) (d ∷ r) h) (name_of_inner w (c ∷ e) s (b'"' ∷ d ∷ r) u)

read_string_inner :
    (w : ℕ) (e s : Bytes) (d : ℕ) (r : Bytes)
    → All IsInner e
    → string_unescape (e ++ 0 ∷ []) ≡ ok s
    → (d == b'"') ≡ false
    → read_string w true (b'"' ∷ (e ++ b'"' ∷ d ∷ r)) ≡ ok (some (s, d ∷ r))
unfolding read_string match_char
read_string_inner w e s d r h u other =
    rw (skip_blank_solid b'"' (e ++ b'"' ∷ d ∷ r) is_blank_mark refl)
      (quoted_inner w e s d r h u other)

pub read_string_text :
    (w : ℕ) (s : Bytes) (d : ℕ) (r : Bytes)
    → All IsAscii s
    → (d == b'"') ≡ false
    → read_string w true (b'"' ∷ (coded escape_unit s ++ b'"' ∷ d ∷ r)) ≡ ok (some (s, d ∷ r))
read_string_text w s d r h other =
    read_string_inner w (coded escape_unit s) s d r (coded-IsInner s h) (unescape_ascii s h) other

pub read_string_name :
    (w : ℕ) (s : Bytes) (d : ℕ) (r : Bytes)
    → All IsName s
    → (d == b'"') ≡ false
    → read_string w true (b'"' ∷ (s ++ b'"' ∷ d ∷ r)) ≡ ok (some (s, d ∷ r))
read_string_name w s d r h other =
    read_string_inner w s s d r (name-IsInner s h) (unescape_name s h) other
