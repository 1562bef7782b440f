-- ===== src/Tests/JsonTests.antt =====
-- The theorems on the parser of JSON texts, at concrete texts.
use ew_base.Prelude.{
  ◌≡◌, ◌≢◌, refl, arith, ℕ, ◌+◌, ◌-◌, All, ◌%◌, true, false, [], ◌∷◌, ◌++◌, inl, inr, Option, some,
  none,
}
use ew_base.Prelude.Run.{ok, fault}
use ew_base.Codecvt.{Bytes, unicode_to_utf8, encode_unit}
use ew_base.Cmdline.{same}
use ew_base.Json.Lexer.{is_blank, ◌>>?◌, is_word}
use ew_base.Json.Parser.{
  Platform, Value, null, number, text, array, table, value, empty, member, no_more, parse_json,
  set_member,
}
use ew_base.Json.Strings.{read_string}
use ew_base.Json.Reads.{IsText}
use ew_base.Json.Printed.{read_string-string_strencode}
use ew_base.Strlib.Strencode.{string_strencode}
use ew_base.Json.Total.{parse_json-returns}
use ew_base.Json.Writer.{Printer, to_json}
use ew_base.Json.ReadsBack.{PrintsNumber}
use ew_base.Json.Entries.{add_members}
use ew_base.Json.Texts.{is_inner, IsName, IsAscii}
use ew_base.Json.RoundTrip.{IsPrintable, parse_json-to_json}

-- Numbers of one digit.
abbrev one_digit : Bytes → Option ℕ
one_digit [] = none
one_digit (d ∷ []) = some (d - b'0')
one_digit (d ∷ e ∷ w) = none

abbrev small : Platform ℕ
small = record { to_number = one_digit; wchar_bits = 32 }

-- `["\n",7]`
abbrev array_text : Bytes
array_text = b'[' ∷ b'"' ∷ b'\\' ∷ b'n' ∷ b'"' ∷ b',' ∷ b'7' ∷ b']' ∷ 0 ∷ []

other : {c : ℕ} {A : Type 0} → c ≢ b'\\' → c ≡ b'\\' → A
other n e = absurd (n e)

array_text-IsText : IsText array_text
array_text-IsText = inr (
  other (λ e. absurd (omega arith)),
  inr (
    other (λ e. absurd (omega arith)),
    inr (
      (λ e z. absurd (omega arith)),
      inr (
        other (λ e. absurd (omega arith)),
        inr (
          other (λ e. absurd (omega arith)),
          inr (
            other (λ e. absurd (omega arith)),
            inr (
              other (λ e. absurd (omega arith)),
              inr (other (λ e. absurd (omega arith)), inl refl),
            ),
          ),
        ),
      ),
    ),
  ),
)

parse_json_example : (v : Value ℕ) × (parse_json small false array_text ≡ ok v)
parse_json_example = parse_json-returns small array_text array_text-IsText

parsed :
    parse_json small false array_text
    ≡ ok (array (value (text (b'\n' ∷ [])) (value (number 7) empty)))
unfolding parse_json is_blank ◌>>?◌ is_word unicode_to_utf8 encode_unit
parsed = refl

-- A backslash at the end of the text takes the pointer behind it.
behind_the_end : parse_json small false (b'"' ∷ b'\\' ∷ 0 ∷ []) ≡ fault
unfolding parse_json is_blank ◌>>?◌ is_word unicode_to_utf8 encode_unit
behind_the_end = refl

-- A negative number is no value.
no_negative : parse_json small false (b'-' ∷ b'7' ∷ 0 ∷ []) ≡ ok null
unfolding parse_json is_blank ◌>>?◌ is_word unicode_to_utf8 encode_unit
no_negative = refl

-- `{a:1;"a":2}`
last_wins :
    parse_json small false
      (b'{' ∷ b'a' ∷ b':' ∷ b'1' ∷ b';' ∷ b'"' ∷ b'a' ∷ b'"' ∷ b':' ∷ b'2' ∷ b'}' ∷ 0 ∷ [])
    ≡ ok (table (member (b'a' ∷ []) (number 2) no_more))
unfolding parse_json is_blank ◌>>?◌ is_word unicode_to_utf8 encode_unit set_member same
last_wins = refl

-- `a"\`, and a comma behind it.
strencode_example :
    (e : Bytes) × (string_strencode ((b'a' ∷ b'"' ∷ b'\\' ∷ []) ++ 0 ∷ []) ≡ ok e)
    × (read_string 32 false (b'"' ∷ (e ++ b'"' ∷ b',' ∷ []))
        ≡ ok (some (b'a' ∷ b'"' ∷ b'\\' ∷ [], b',' ∷ [])))
strencode_example =
    read_string-string_strencode 32 (b'a' ∷ b'"' ∷ b'\\' ∷ []) [] b',' [] (omega arith)
      (omega arith)

-- A tab stays a tab behind the backslash, which `read_string` refuses.
strencode_tab : string_strencode (b'\t' ∷ 0 ∷ []) ≡ ok (b'\\' ∷ b'\t' ∷ [])
unfolding string_strencode
strencode_tab = refl

refused_tab : read_string 32 false (b'"' ∷ b'\\' ∷ b'\t' ∷ b'"' ∷ 0 ∷ []) ≡ ok none
unfolding read_string is_blank ◌>>?◌
refused_tab = refl

abbrev digits : Printer ℕ
digits = record { print_number = λ n. (b'0' + n % 10) ∷ []; wchar_bits = 32 }

seven-PrintsNumber : PrintsNumber small digits 7
seven-PrintsNumber = record {
  first = b'7';
  others = [];
  printed = refl;
  begins = refl;
  words = tt;
  reads_back = refl;
}

-- `{"a":[7,null],"b":"\n"}`
abbrev nested : Value ℕ
nested = table (
    member (b'a' ∷ []) (array (value (number 7) (value null empty)))
      (member (b'b' ∷ []) (text (b'\n' ∷ [])) no_more))

nested-IsPrintable : IsPrintable small digits nested
unfolding IsPrintable add_members same is_inner
nested-IsPrintable =
    let a : All IsName (b'a' ∷ []) = ((refl, refl), tt) in
    let b : All IsName (b'b' ∷ []) = ((refl, refl), tt) in
    let line : All IsAscii (b'\n' ∷ []) = ((omega arith, omega arith), tt) in
    ((a, (seven-PrintsNumber, (tt, tt)), (b, line, tt)), refl)

parse_json-to_json_example :
    (e : Bytes) × (to_json digits nested ≡ ok e) × (parse_json small true (e ++ 0 ∷ []) ≡ ok nested)
parse_json-to_json_example = parse_json-to_json small digits nested [] nested-IsPrintable

-- The name is written as it is, and its quotation mark ends it.
unescaped_name :
    to_json digits (table (member (b'"' ∷ []) null no_more))
    ≡ ok (
        b'{' ∷ b'\r' ∷ b'\n' ∷ b'\t' ∷ b'"' ∷ b'"' ∷ b'"' ∷ b':' ∷ b'n' ∷ b'u' ∷ b'l' ∷ b'l' ∷ b'\r'
        ∷ b'\n' ∷ b'}' ∷ [])
unfolding to_json
unescaped_name = refl
