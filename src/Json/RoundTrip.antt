-- ===== src/Json/RoundTrip.antt =====
-- What `to_json` makes of a value, and `parse` on it.
use ew_base.Prelude.{
  suc, ◌≡◌, refl, ap, true, [], ◌∷◌, ◌++◌, append_assoc, append-nil, length, length-append, All,
  All-append, arith,
}
use ew_base.Prelude.Run.{ok}
use ew_base.Codecvt.{Bytes}
use ew_base.Strlib.{escape_unit}
use ew_base.Strlib.Decode.{coded}
use ew_base.Json.Lexer.{is_blank, is_word}
use ew_base.Json.Parser.{
  Platform, Value, Values, Members, null, boolean, number, text, array, table, value, empty,
  no_more, member, parse_json,
}
use ew_base.Json.Writer.{
  Printer, crlf, write_text, write_name, end_value, end_member, write_value, write_values,
  write_members, to_json,
}
use ew_base.Json.Blanks.{IsBlank}
use ew_base.Json.Texts.{IsAscii, IsName, escape_text-coded}
use ew_base.Json.ReadsBack.{
  Stops, ReadsBack, null_back, boolean_back, number_back, text_back, PrintsNumber,
}
use ew_base.Json.Items.{ItemsBack, items_last, items_more, array_empty, array_items}
use ew_base.Json.Entries.{
  add_members, EntriesBack, entries_last, entries_more, table_empty, table_entries,
}

module _ {N : Type 0} (platform : Platform N) (print : Printer N) where
  -- A value whose numbers are read as they are printed, whose texts are ASCII, whose names stand for
  -- themselves between quotation marks, and whose tables hold no name twice: setting the entries
  -- one by one gives the table again.
  unfoldable mutual
    unfolding add_members

    pub IsPrintable : Value N → Type 0
    IsPrintable null = Unit
    IsPrintable (boolean b) = Unit
    IsPrintable (number n) = PrintsNumber platform print n
    IsPrintable (text s) = All IsAscii s
    IsPrintable (array vs) = ArePrintable vs
    IsPrintable (table ms) = HasPrintable ms × (add_members no_more ms ≡ ms)

    ArePrintable : Values N → Type 0
    ArePrintable empty = Unit
    ArePrintable (value v vs) = IsPrintable v × ArePrintable vs

    HasPrintable : Members N → Type 0
    HasPrintable no_more = Unit
    HasPrintable (member name v ms) = All IsName name × IsPrintable v × HasPrintable ms

  record Written (tb : Bytes) (v : Value N) : Type 0 where
    out : Bytes
    writes : write_value print tb v ≡ ok out
    back : ReadsBack platform v out

  text-Written : (tb s : Bytes) → All IsAscii s → Written tb (text s)
  unfolding write_value write_text
  text-Written tb s h = record {
    out = b'"' ∷ (coded escape_unit s ++ b'"' ∷ []);
    writes = rw (escape_text-coded print.wchar_bits s h) refl;
    back = text_back platform s h;
  }

  record ItemsWritten (tb : Bytes) (vs : Values N) : Type 0 where
    body : Bytes
    writes : write_values print tb vs ≡ ok (tb ++ body)
    back : ItemsBack platform vs body

  unfoldable ValuesWritten : Bytes → Values N → Type 0
  ValuesWritten tb empty = Unit
  ValuesWritten tb (value v vs) = ItemsWritten tb (value v vs)

  values_step :
      (tb : Bytes) (v : Value N) (vs : Values N)
      → All IsBlank tb
      → Written tb v
      → ValuesWritten tb vs
      → ItemsWritten tb (value v vs)
  unfolding write_value end_value ValuesWritten
  values_step tb v empty tabs item rest =
      let record { out = a; writes = e; back = reads } = item in
      record {
        body = a ++ crlf;
        writes = rw e (ap ok (simp (append_assoc, append-nil)));
        back = items_last platform v a reads;
      }
  values_step tb v (value v' vs) tabs item rest =
      let record { out = a; writes = e; back = reads } = item in
      let record { body = b; writes = e'; back = later } = rest in
      record {
        body = a ++ b',' ∷ (crlf ++ (tb ++ b));
        writes = rw (e, e') (ap ok (simp append_assoc));
        back = items_more platform v a (value v' vs) tb b reads tabs later;
      }

  array-Written :
      (tb : Bytes) (vs : Values N)
      → All IsBlank tb
      → ValuesWritten (tb ++ b'\t' ∷ []) vs
      → Written tb (array vs)
  unfolding write_value ValuesWritten is_blank
  array-Written tb empty tabs items = record {
    out = b'[' ∷ ((crlf ++ tb) ++ b']' ∷ []);
    writes = refl;
    back = array_empty platform tb tabs;
  }
  array-Written tb (value v vs) tabs items =
      let record { body = b; writes = e; back = inside } = items in
      record {
        out = b'[' ∷ ((crlf ++ (tb ++ b'\t' ∷ [])) ++ (b ++ (tb ++ b']' ∷ [])));
        writes = rw e (ap ok (simp append_assoc));
        back =
            array_items platform (value v vs) tb (tb ++ b'\t' ∷ []) b tabs
              (All-append _ tb (b'\t' ∷ []) tabs (refl, tt)) inside;
      }

  record EntriesWritten (tb : Bytes) (ms : Members N) : Type 0 where
    body : Bytes
    writes : write_members print tb ms ≡ ok (tb ++ body)
    back : EntriesBack platform ms body

  unfoldable MembersWritten : Bytes → Members N → Type 0
  MembersWritten tb no_more = Unit
  MembersWritten tb (member name v ms) = EntriesWritten tb (member name v ms)

  members_step :
      (tb name : Bytes) (v : Value N) (ms : Members N)
      → All IsBlank tb
      → All IsName name
      → Written tb v
      → MembersWritten tb ms
      → EntriesWritten tb (member name v ms)
  unfolding write_value write_name end_member MembersWritten
  members_step tb name v no_more tabs h item rest =
      let record { out = a; writes = e; back = reads } = item in
      record {
        body = b'"' ∷ (name ++ b'"' ∷ b':' ∷ (a ++ crlf));
        writes = rw e (ap ok (simp (append_assoc, append-nil)));
        back = entries_last platform name v a h reads;
      }
  members_step tb name v (member name' v' ms) tabs h item rest =
      let record { out = a; writes = e; back = reads } = item in
      let record { body = b; writes = e'; back = later } = rest in
      record {
        body = b'"' ∷ (name ++ b'"' ∷ b':' ∷ (a ++ b',' ∷ (crlf ++ (tb ++ b))));
        writes = rw (e, e') (ap ok (simp append_assoc));
        back = entries_more platform name v a (member name' v' ms) tb b h reads tabs later;
      }

  table-Written :
      (tb : Bytes) (ms : Members N)
      → All IsBlank tb
      → MembersWritten (tb ++ b'\t' ∷ []) ms
      → add_members no_more ms ≡ ms
      → Written tb (table ms)
  unfolding write_value MembersWritten is_blank
  table-Written tb no_more tabs entries again = record {
    out = b'{' ∷ ((crlf ++ tb) ++ b'}' ∷ []);
    writes = refl;
    back = table_empty platform tb tabs;
  }
  table-Written tb (member name v ms) tabs entries again =
      let record { body = b; writes = e; back = inside } = entries in
      record {
        out = b'{' ∷ ((crlf ++ (tb ++ b'\t' ∷ [])) ++ (b ++ (tb ++ b'}' ∷ [])));
        writes = rw e (ap ok (simp append_assoc));
        back =
            table_entries platform (member name v ms) tb (tb ++ b'\t' ∷ []) b tabs
              (All-append _ tb (b'\t' ∷ []) tabs (refl, tt)) inside again;
      }

  mutual
    unfolding IsPrintable ValuesWritten MembersWritten write_value is_blank

    value-Written : (tb : Bytes) (v : Value N) → All IsBlank tb → IsPrintable v → Written tb v
    value-Written tb null tabs h = record { out = _; writes = refl; back = null_back platform }
    value-Written tb (boolean b) tabs h = record {
      out = _;
      writes = refl;
      back = boolean_back platform b;
    }
    value-Written tb (number n) tabs h = record {
      out = _;
      writes = refl;
      back = number_back platform print n h;
    }
    value-Written tb (text s) tabs h = text-Written tb s h
    value-Written tb (array vs) tabs h =
        array-Written tb vs tabs
          (values_written (tb ++ b'\t' ∷ []) vs (All-append _ tb (b'\t' ∷ []) tabs (refl, tt)) h)
    value-Written tb (table ms) tabs h =
        table-Written tb ms tabs
          (members_written (tb ++ b'\t' ∷ []) ms (All-append _ tb (b'\t' ∷ []) tabs (refl, tt))
            (h.0))
          (h.1)

    values_written :
        (tb : Bytes) (vs : Values N) → All IsBlank tb → ArePrintable vs → ValuesWritten tb vs
    values_written tb empty tabs h = tt
    values_written tb (value v vs) tabs h =
        values_step tb v vs tabs (value-Written tb v tabs (h.0)) (values_written tb vs tabs (h.1))

    members_written :
        (tb : Bytes) (ms : Members N) → All IsBlank tb → HasPrintable ms → MembersWritten tb ms
    members_written tb no_more tabs h = tt
    members_written tb (member name v ms) tabs h =
        members_step tb name v ms tabs (h.0) (value-Written tb v tabs (h.1))
          (members_written tb ms tabs (h.2))

  end-Stops : Stops 0
  unfolding is_word
  end-Stops = record { no_word = refl; no_quote = refl }

  read_whole :
      (v : Value N) (e n : Bytes)
      → ReadsBack platform v e
      → parse_json platform true (e ++ 0 ∷ n) ≡ ok v
  unfolding parse_json
  read_whole v e n reads =
      let size = length-append e (0 ∷ n) in
      rw (reads.back (suc (length (e ++ 0 ∷ n))) 0 n (omega arith) end-Stops) refl

  -- A value that is printable is written by to_json, and parse_json with unescape_value reads the text,
  -- with a zero byte behind it, as that value. Printable means: every number is printed as a word that
  -- starts with a digit or a point and that ToNumber reads as that number; every text is of ASCII
  -- characters other than zero; no name of a table has a quotation mark, a backslash, a percent sign
  -- or a zero; and no table has a name twice, so that setting its entries one by one gives it again.
  pub parse_json-to_json :
      (v : Value N) (n : Bytes)
      → IsPrintable v
      → (e : Bytes) × (to_json print v ≡ ok e) × (parse_json platform true (e ++ 0 ∷ n) ≡ ok v)
  unfolding to_json
  parse_json-to_json v n h =
      let record { out = e; writes = w; back = reads } = value-Written [] v tt h in
      (e, w, read_whole v e n reads)
