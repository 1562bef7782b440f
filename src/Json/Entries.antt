-- ===== src/Json/Entries.antt =====
-- What `WriteValue(const VariantTable&)` makes of the entries, and the loop of `parse_object` on it.
use ew_base.Prelude.{
  ℕ, zero, suc, ◌<◌, ◌≡◌, refl, ap, ◌∙◌, Bool, true, false, some, [], ◌∷◌, ◌++◌, append_assoc, ◌==◌,
  length, length-append, All, arith,
}
use ew_base.Prelude.Run.{ok}
use ew_base.Codecvt.{Bytes}
use ew_base.Json.Lexer.{Parsed, match_char, is_blank}
use ew_base.Json.Strings.{read_name}
use ew_base.Json.Parser.{
  Platform, Value, Members, table, no_more, member, set_member, parse_member, parse_object,
  object_loop, value_at, parse_value,
}
use ew_base.Json.Blanks.{IsBlank, IsSolid, match_hit, match_miss, skip_blank_over}
use ew_base.Json.Texts.{IsName, read_string_name}
use ew_base.Json.Steps.{
  parse_member_comma, parse_object_empty, parse_object_items, object_loop_last, object_loop_more,
}
use ew_base.Json.ReadsBack.{Stops, comma-Stops, return-Stops, ReadsBack, from_switch}
use ew_base.Json.Items.{comma-IsSolid, crlf-IsBlank}
use ew_base.Json.Writer.{crlf}

close-IsSolid : IsSolid b'}'
unfolding is_blank
close-IsSolid = record { no_blank = refl; no_slash = refl }

open-IsSolid : IsSolid b'{'
unfolding is_blank
open-IsSolid = record { no_blank = refl; no_slash = refl }

mark-IsSolid : IsSolid b'"'
unfolding is_blank
mark-IsSolid = record { no_blank = refl; no_slash = refl }

colon-IsSolid : IsSolid b':'
unfolding is_blank
colon-IsSolid = record { no_blank = refl; no_slash = refl }

read_name_mark :
    (w : ℕ) (s : Bytes) (d : ℕ) (r : Bytes)
    → All IsName s
    → (d == b'"') ≡ false
    → read_name w true (b'"' ∷ (s ++ b'"' ∷ d ∷ r)) ≡ ok (some (s, d ∷ r))
unfolding read_name
read_name_mark w s d r h other =
    rw (skip_blank_over [] b'"' (s ++ b'"' ∷ d ∷ r) tt mark-IsSolid)
      (read_string_name w s d r h other)

module _ {N : Type 0} where
  -- The table `obj` after `obj[name]=v` for every entry in turn.
  unfoldable pub add_members : Members N → Members N → Members N
  unfolding set_member
  add_members obj no_more = obj
  add_members obj (member name v ms) = add_members (set_member obj name v) ms

module _ {N : Type 0} (platform : Platform N) where
  -- The entries `ms`, written as `body`, are read in front of blanks and the closing brace.
  pub record EntriesBack (ms : Members N) (body : Bytes) : Type 0 where
    pub behind : Bytes
    pub shape : body ≡ b'"' ∷ behind
    pub back :
        (f fuel : ℕ) (obj : Members N) (close r : Bytes)
        → All IsBlank close
        → length body < f
        → length body < fuel
        → object_loop platform.wchar_bits true
            (parse_value f platform true)
            fuel
            obj
            (body ++ (close ++ b'}' ∷ r))
          ≡ ok (some (add_members obj ms, r))

  -- A name in front of `rest`, as `WriteName` leaves it.
  abbrev named : Bytes → Bytes → Bytes
  named name rest = b'"' ∷ (name ++ b'"' ∷ b':' ∷ rest)

  entry_read :
      (name : Bytes) (v : Value N) (a : Bytes)
      → All IsName name
      → ReadsBack platform v a
      → (f : ℕ) (obj : Members N) (d : ℕ) (q q3 q4 : Bytes) (comma : Bool) → length a < f
      → Stops d
      → match_char b';' (d ∷ q) ≡ ok (false, q3)
      → match_char b',' q3 ≡ ok (comma, q4)
      → parse_member platform.wchar_bits true
          (parse_value f platform true)
          obj
          (named name (a ++ d ∷ q))
        ≡ ok (some (set_member obj name v, comma, q4))
  entry_read name v a h item f obj d q q3 q4 comma l stop miss sep =
      parse_member_comma platform.wchar_bits true (parse_value f platform true) obj
        (named name (a ++ d ∷ q)) (b':' ∷ (a ++ d ∷ q)) (a ++ d ∷ q) (d ∷ q) q3 q4 name v comma
        (read_name_mark platform.wchar_bits name b':' (a ++ d ∷ q) h refl)
        (match_hit b':' [] (a ++ d ∷ q) tt colon-IsSolid) (item.back f d q l stop) miss sep

  entries_last_back :
      (name : Bytes) (v : Value N) (a : Bytes)
      → All IsName name
      → ReadsBack platform v a
      → (f fuel : ℕ) (obj : Members N) (close r : Bytes) → All IsBlank close
      → length (named name (a ++ crlf)) < f
      → length (named name (a ++ crlf)) < fuel
      → object_loop platform.wchar_bits true
          (parse_value f platform true)
          fuel
          obj
          (named name (a ++ crlf) ++ (close ++ b'}' ∷ r))
        ≡ ok (some (add_members obj (member name v no_more), r))
  unfolding add_members
  entries_last_back name v a h item f zero obj close r blanks l k = absurd (omega arith)
  entries_last_back name v a h item f (suc fuel) obj close r blanks l k =
      let split : named name (a ++ crlf) ++ (close ++ b'}' ∷ r)
          ≡ named name (a ++ (crlf ++ (close ++ b'}' ∷ r))) =
        simp append_assoc in
      let size = length-append a crlf in
      let size' = length-append name (b'"' ∷ b':' ∷ (a ++ crlf)) in
      rw split (
        object_loop_last platform.wchar_bits true (parse_value f platform true) fuel obj
          (set_member obj name v) (named name (a ++ (crlf ++ (close ++ b'}' ∷ r)))) (b'}' ∷ r) r
          false
          (entry_read name v a h item f obj b'\r' (b'\n' ∷ (close ++ b'}' ∷ r)) (b'}' ∷ r)
            (b'}' ∷ r) false (omega arith) return-Stops
            (match_miss b';' (crlf ++ close) b'}' r (crlf-IsBlank close blanks) close-IsSolid refl)
            (match_miss b',' [] b'}' r tt close-IsSolid refl))
          (match_hit b'}' [] r tt close-IsSolid))

  pub entries_last :
      (name : Bytes) (v : Value N) (a : Bytes)
      → All IsName name
      → ReadsBack platform v a
      → EntriesBack (member name v no_more) (named name (a ++ crlf))
  entries_last name v a h item = record {
    behind = name ++ b'"' ∷ b':' ∷ (a ++ crlf);
    shape = refl;
    back = entries_last_back name v a h item;
  }

  -- What stands behind the value of an entry that is not the last.
  abbrev followed : Bytes → Bytes → Bytes
  followed tb body = b',' ∷ (crlf ++ (tb ++ body))

  entries_more_back :
      (name : Bytes) (v : Value N) (a : Bytes) (ms : Members N) (tb body : Bytes)
      → All IsName name
      → ReadsBack platform v a
      → All IsBlank tb
      → EntriesBack ms body
      → (f fuel : ℕ) (obj : Members N) (close r : Bytes) → All IsBlank close
      → length (named name (a ++ followed tb body)) < f
      → length (named name (a ++ followed tb body)) < fuel
      → object_loop platform.wchar_bits true
          (parse_value f platform true)
          fuel
          obj
          (named name (a ++ followed tb body) ++ (close ++ b'}' ∷ r))
        ≡ ok (some (add_members obj (member name v ms), r))
  unfolding add_members
  entries_more_back name v a ms tb body h item tabs entries f zero obj close r blanks l k =
      absurd (omega arith)
  entries_more_back name v a ms tb body h item tabs entries f (suc fuel) obj close r blanks l k =
      let record { behind = w; shape = e; back = later } = entries in
      let rest : Bytes = body ++ (close ++ b'}' ∷ r) in
      let split : named name (a ++ followed tb body) ++ (close ++ b'}' ∷ r)
          ≡ named name (a ++ b',' ∷ ((crlf ++ tb) ++ rest)) =
        simp append_assoc in
      let size = length-append a (followed tb body) in
      let size' = length-append tb body in
      let size'' = length-append name (b'"' ∷ b':' ∷ (a ++ followed tb body)) in
      rw split (
        object_loop_more platform.wchar_bits true (parse_value f platform true) fuel obj
          (set_member obj name v) (add_members (set_member obj name v) ms)
          (named name (a ++ b',' ∷ ((crlf ++ tb) ++ rest))) ((crlf ++ tb) ++ rest) rest r
          (entry_read name v a h item f obj b',' ((crlf ++ tb) ++ rest)
            (b',' ∷ ((crlf ++ tb) ++ rest)) ((crlf ++ tb) ++ rest) true (omega arith) comma-Stops
            (match_miss b';' [] b',' ((crlf ++ tb) ++ rest) tt comma-IsSolid refl)
            (match_hit b',' [] ((crlf ++ tb) ++ rest) tt comma-IsSolid))
          (rw e (
            match_miss b'}' (crlf ++ tb) b'"' (w ++ (close ++ b'}' ∷ r)) (crlf-IsBlank tb tabs)
              mark-IsSolid refl))
          (later f fuel (set_member obj name v) close r blanks (omega arith) (omega arith)))

  pub entries_more :
      (name : Bytes) (v : Value N) (a : Bytes) (ms : Members N) (tb body : Bytes)
      → All IsName name
      → ReadsBack platform v a
      → All IsBlank tb
      → EntriesBack ms body
      → EntriesBack (member name v ms) (named name (a ++ followed tb body))
  entries_more name v a ms tb body h item tabs entries = record {
    behind = name ++ b'"' ∷ b':' ∷ (a ++ followed tb body);
    shape = refl;
    back = entries_more_back name v a ms tb body h item tabs entries;
  }

  value_at_open :
      (parse : Bytes → Parsed (Value N × Bytes)) (p : Bytes)
      → value_at platform true parse b'{' p ≡ parse_object platform.wchar_bits true parse p
  unfolding value_at
  value_at_open parse p = refl

  pub table_empty :
      (tb : Bytes)
      → All IsBlank tb
      → ReadsBack platform (table no_more) (b'{' ∷ ((crlf ++ tb) ++ b'}' ∷ []))
  table_empty tb tabs =
      from_switch platform (table no_more) b'{' ((crlf ++ tb) ++ b'}' ∷ []) open-IsSolid refl
        (λ fuel d r l stop. rw (append_assoc (crlf ++ tb) (b'}' ∷ []) (d ∷ r)) (
          value_at_open (parse_value fuel platform true) (b'{' ∷ ((crlf ++ tb) ++ b'}' ∷ d ∷ r))
          ∙ parse_object_empty platform.wchar_bits true (parse_value fuel platform true)
              (b'{' ∷ ((crlf ++ tb) ++ b'}' ∷ d ∷ r)) ((crlf ++ tb) ++ b'}' ∷ d ∷ r) (d ∷ r)
              (match_hit b'{' [] ((crlf ++ tb) ++ b'}' ∷ d ∷ r) tt open-IsSolid)
              (match_hit b'}' (crlf ++ tb) (d ∷ r) (crlf-IsBlank tb tabs) close-IsSolid)))

  table_entries_at :
      (ms : Members N) (tb tb' body : Bytes)
      → All IsBlank tb
      → All IsBlank tb'
      → EntriesBack ms body
      → add_members no_more ms ≡ ms
      → (fuel d : ℕ) (r : Bytes) → length ((crlf ++ tb') ++ (body ++ (tb ++ b'}' ∷ []))) < fuel
      → Stops d
      → value_at platform true
          (parse_value fuel platform true)
          b'{'
          (b'{' ∷ (((crlf ++ tb') ++ (body ++ (tb ++ b'}' ∷ []))) ++ d ∷ r))
        ≡ ok (some (table ms, d ∷ r))
  table_entries_at ms tb tb' body tabs tabs' entries again fuel d r l stop =
      let record { behind = w; shape = e; back = inside } = entries in
      let rest : Bytes = body ++ (tb ++ b'}' ∷ d ∷ r) in
      let split : ((crlf ++ tb') ++ (body ++ (tb ++ b'}' ∷ []))) ++ d ∷ r ≡ (crlf ++ tb') ++ rest =
        simp append_assoc in
      let size = length-append (crlf ++ tb') (body ++ (tb ++ b'}' ∷ [])) in
      let size' = length-append body (tb ++ b'}' ∷ []) in
      let size'' = length-append (crlf ++ tb') rest in
      let size''' = length-append body (tb ++ b'}' ∷ d ∷ r) in
      rw split (
        value_at_open (parse_value fuel platform true) (b'{' ∷ ((crlf ++ tb') ++ rest))
        ∙ parse_object_items platform.wchar_bits true (parse_value fuel platform true)
            (b'{' ∷ ((crlf ++ tb') ++ rest)) ((crlf ++ tb') ++ rest) rest (d ∷ r) ms
            (match_hit b'{' [] ((crlf ++ tb') ++ rest) tt open-IsSolid)
            (rw e (
              match_miss b'}' (crlf ++ tb') b'"' (w ++ (tb ++ b'}' ∷ d ∷ r))
                (crlf-IsBlank tb' tabs') mark-IsSolid refl))
            (inside fuel (suc (length (b'{' ∷ ((crlf ++ tb') ++ rest)))) no_more tb (d ∷ r) tabs
                (omega arith) (omega arith)
              ∙ ap (λ x. ok (some (x, d ∷ r))) again))

  pub table_entries :
      (ms : Members N) (tb tb' body : Bytes)
      → All IsBlank tb
      → All IsBlank tb'
      → EntriesBack ms body
      → add_members no_more ms ≡ ms
      → ReadsBack platform (table ms) (b'{' ∷ ((crlf ++ tb') ++ (body ++ (tb ++ b'}' ∷ []))))
  table_entries ms tb tb' body tabs tabs' entries again =
      from_switch platform (table ms) b'{' ((crlf ++ tb') ++ (body ++ (tb ++ b'}' ∷ [])))
        open-IsSolid refl (table_entries_at ms tb tb' body tabs tabs' entries again)
