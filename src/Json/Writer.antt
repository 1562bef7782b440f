-- ===== src/Json/Writer.antt =====
-- src/ewa_base/util/json.cpp: `JsonWriter`, and `WriteArray` of inc/ewa_base/util/json.h.
use ew_base.Prelude.{ℕ, [], ◌∷◌, ◌++◌, if◌then◌else◌}
use ew_base.Prelude.Run.{Run, ok, ◌>>=◌}
use ew_base.Codecvt.{Bytes, utf8_to_unicode}
use ew_base.Strlib.{string_escape}
use ew_base.Json.Parser.{
  Value, null, boolean, number, text, array, table, Values, empty, value, Members, no_more, member,
  null_word, true_word, false_word,
}

-- What the writer takes from elsewhere: `operator<<` for `double`, and the width of `wchar_t`.
pub record Printer (N : Type 0) : Type 0 where
  pub print_number : N → Bytes
  pub wchar_bits : ℕ

-- `string_escape` from the text on: the wide buffer ends with a zero unit.
unfoldable pub escape_text : ℕ → Bytes → Run Bytes
unfolding utf8_to_unicode
escape_text w s = utf8_to_unicode w s >>= λ us. string_escape (us ++ 0 ∷ [])

-- `WriteValue(const String&)`
unfoldable pub write_text : ℕ → Bytes → Run Bytes
unfolding escape_text
write_text w s = escape_text w s >>= λ e. ok (b'"' ∷ (e ++ b'"' ∷ []))

-- `WriteName` behind the tabs.
unfoldable pub write_name : Bytes → Bytes
write_name name = b'"' ∷ (name ++ b'"' ∷ b':' ∷ [])

abbrev pub crlf : Bytes
crlf = b'\r' ∷ b'\n' ∷ []

module _ {N : Type 0} where
  -- `if(i+1<n) sb<<","; sb<<"\r\n";`
  unfoldable pub end_value : Values N → Bytes
  end_value empty = crlf
  end_value (value v vs) = b',' ∷ crlf

  unfoldable pub end_member : Members N → Bytes
  end_member no_more = crlf
  end_member (member n v ms) = b',' ∷ crlf

  -- `WriteValue`, the loop of `WriteArray` and that of `WriteValue(const VariantTable&)`, where the
  -- tabs in `tb` are those of the field `tb`.
  unfoldable mutual
    unfolding write_text write_name end_value end_member

    pub write_value : Printer N → Bytes → Value N → Run Bytes
    write_value print tb null = ok null_word
    write_value print tb (boolean b) = ok (if b then true_word else false_word)
    write_value print tb (number n) = ok (print.print_number n)
    write_value print tb (text s) = write_text print.wchar_bits s
    write_value print tb (array vs) = write_values print (tb ++ b'\t' ∷ []) vs >>= λ out.
        ok (b'[' ∷ (crlf ++ out ++ tb ++ b']' ∷ []))
    write_value print tb (table ms) = write_members print (tb ++ b'\t' ∷ []) ms >>= λ out.
        ok (b'{' ∷ (crlf ++ out ++ tb ++ b'}' ∷ []))

    pub write_values : Printer N → Bytes → Values N → Run Bytes
    write_values print tb empty = ok []
    write_values print tb (value v vs) = write_value print tb v >>= λ a.
        write_values print tb vs >>= λ b. ok (tb ++ a ++ end_value vs ++ b)

    pub write_members : Printer N → Bytes → Members N → Run Bytes
    write_members print tb no_more = ok []
    write_members print tb (member n v ms) = write_value print tb v >>= λ a.
        write_members print tb ms >>= λ b. ok (tb ++ write_name n ++ a ++ end_member ms ++ b)

  -- `to_json`
  unfoldable pub to_json : Printer N → Value N → Run Bytes
  unfolding write_value
  to_json print v = write_value print [] v
