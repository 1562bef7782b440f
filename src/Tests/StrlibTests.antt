-- ===== src/Tests/StrlibTests.antt =====
-- Percent encoding at concrete texts.
use ew_base.Prelude.{All, none, List, [], ◌∷◌, ◌++◌, ◌≡◌, refl, arith}
use ew_base.Prelude.Run.{ok, fault}
use ew_base.Codecvt.{Bytes}
use ew_base.Strlib.{
  string_urlencode, string_urldecode, string_escape, string_unescape, need_escape, hex_char,
  number16b,
}
use ew_base.Strlib.Split.{strstr, string_split}
use ew_base.Strlib.Split.Join.{join, string_split-join}
use ew_base.Prelude.{true, false}
use ew_base.Prelude.Int.{negsuc}
use ew_base.Strlib.Case.{string_compare_no_case, string_to_lower, lowercase}
use ew_base.Strlib.Case.Compare.{dictionary_order, string_compare_no_case-order}
use ew_base.Strlib.Trim.{string_trim}
use ew_base.Strlib.Lines.{line_end, string_lines, string_lines-join}
use ew_base.Strlib.Decode.{coded}
use ew_base.Strlib.UrlRoundTrip.{string_urldecode-string_urlencode}
use ew_base.Strlib.EscapeRoundTrip.{read_back, string_unescape-string_escape}

-- "a b%", and behind the end a byte that is not read.
encode_text :
    string_urlencode (b'a' ∷ b' ' ∷ b'b' ∷ b'%' ∷ 0 ∷ 9 ∷ [])
    ≡ ok (b'a' ∷ b'%' ∷ b'2' ∷ b'0' ∷ b'b' ∷ b'%' ∷ b'2' ∷ b'5' ∷ [])
unfolding string_urlencode need_escape hex_char
encode_text = refl

-- A `%` that no digits follow stays.
decode_stray :
    string_urldecode (b'%' ∷ b'z' ∷ b'%' ∷ b'4' ∷ b'z' ∷ 0 ∷ [])
    ≡ ok (b'%' ∷ b'z' ∷ b'%' ∷ b'4' ∷ b'z' ∷ [])
unfolding string_urldecode number16b
decode_stray = refl

-- `%u` with too few characters behind it: the pointer passes the end of the text.
decode_short : string_unescape (b'%' ∷ b'u' ∷ b'4' ∷ 0 ∷ []) ≡ fault
unfolding string_unescape number16b
decode_short = refl

urldecode_example :
    (e : Bytes) × (string_urlencode ((0x61 ∷ 0x20 ∷ 0xE9 ∷ []) ++ 0 ∷ 9 ∷ []) ≡ ok e)
    × (string_urldecode (e ++ 0 ∷ []) ≡ ok (0x61 ∷ 0x20 ∷ 0xE9 ∷ []))
urldecode_example =
    string_urldecode-string_urlencode (0x61 ∷ 0x20 ∷ 0xE9 ∷ []) (9 ∷ []) [] (omega arith)

unescape_example :
    (e : Bytes) × (string_escape ((0x61 ∷ 0xE9 ∷ 0x6C34 ∷ []) ++ 0 ∷ 9 ∷ []) ≡ ok e)
    × (string_unescape (e ++ 0 ∷ []) ≡ ok (coded read_back (0x61 ∷ 0xE9 ∷ 0x6C34 ∷ [])))
unescape_example =
    string_unescape-string_escape (0x61 ∷ 0xE9 ∷ 0x6C34 ∷ []) (9 ∷ []) [] (omega arith)

-- "a,,b" at the commas.
abbrev fields : Bytes
fields = 0x61 ∷ 0x2C ∷ 0x2C ∷ 0x62 ∷ []

split_fields : string_split fields (0x2C ∷ []) ≡ ok ((0x61 ∷ []) ∷ [] ∷ (0x62 ∷ []) ∷ [])
unfolding string_split
split_fields = refl

split_example :
    (ps : List Bytes) × (string_split fields (0x2C ∷ []) ≡ ok ps)
    × (join (0x2C ∷ []) ps ≡ fields)
    × All (λ p. strstr (0x2C ∷ []) p ≡ none) ps
split_example = string_split-join fields (0x2C ∷ []) (omega arith)

-- "Ab" and "aC"
compare_example :
    string_compare_no_case ((b'A' ∷ b'b' ∷ []) ++ 0 ∷ []) ((b'a' ∷ b'C' ∷ []) ++ 0 ∷ 9 ∷ [])
    ≡ ok
        (dictionary_order (string_to_lower (b'A' ∷ b'b' ∷ [])) (string_to_lower (b'a' ∷ b'C' ∷ [])))
compare_example =
    string_compare_no_case-order (b'A' ∷ b'b' ∷ []) (b'a' ∷ b'C' ∷ []) [] (9 ∷ []) (omega arith)
      (omega arith)

compared : string_compare_no_case (b'A' ∷ b'b' ∷ 0 ∷ []) (b'a' ∷ b'C' ∷ 0 ∷ []) ≡ ok (negsuc 0)
unfolding string_compare_no_case lowercase
compared = refl

trimmed : string_trim true true false b' ' (b' ' ∷ b' ' ∷ b'x' ∷ b' ' ∷ []) ≡ b'x' ∷ []
unfolding string_trim
trimmed = refl

lines_example :
    string_lines (join (line_end true) ((b'a' ∷ []) ∷ [] ∷ (b'b' ∷ []) ∷ []) ++ 0 ∷ [])
    ≡ ok ((b'a' ∷ []) ∷ [] ∷ (b'b' ∷ []) ∷ [])
lines_example = string_lines-join true (b'a' ∷ []) ([] ∷ (b'b' ∷ []) ∷ []) [] (omega arith)
