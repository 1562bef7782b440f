-- ===== src/Json/Parser.antt =====
-- src/ewa_base/util/json.cpp: the values.
use ew_base.Prelude.{
  ℕ, zero, suc, Bool, true, false, not, ◌||◌, Option, none, some, [], ◌∷◌, ◌==◌, if◌then◌else◌,
  length, get_elem?,
}
use ew_base.Prelude.Run.{Run, ok, no_fuel, ◌>>=◌, reads}
use ew_base.Codecvt.{Bytes}
use ew_base.Cmdline.{same}
use ew_base.Strlib.{within}
use ew_base.Json.Lexer.{Parsed, ◌>>?◌, skip_blank, match_char, read_chunk}
use ew_base.Json.Strings.{read_string, read_name}

-- What the code computes with `double`, and the width of `wchar_t`. `to_number` is
-- `String::ToNumber(double*)`.
pub record Platform (N : Type 0) : Type 0 where
  pub to_number : Bytes → Option N
  pub wchar_bits : ℕ

mutual
  pub data Value (N : Type 0) : Type 0 where
    null : Value N
    boolean : Bool → Value N
    number : N → Value N
    text : Bytes → Value N
    array : Values N → Value N
    table : Members N → Value N

  pub data Values (N : Type 0) : Type 0 where
    empty : Values N
    value : Value N → Values N → Values N

  -- The entries of a `VariantTable`, in the order of their insertion.
  pub data Members (N : Type 0) : Type 0 where
    no_more : Members N
    member : Bytes → Value N → Members N → Members N

abbrev pub null_word : Bytes
null_word = b'n' ∷ b'u' ∷ b'l' ∷ b'l' ∷ []

abbrev pub true_word : Bytes
true_word = b't' ∷ b'r' ∷ b'u' ∷ b'e' ∷ []

abbrev pub false_word : Bytes
false_word = b'f' ∷ b'a' ∷ b'l' ∷ b's' ∷ b'e' ∷ []

module _ {N : Type 0} where
  -- `obj[name]=v`
  unfoldable pub set_member : Members N → Bytes → Value N → Members N
  set_member no_more name v = member name v no_more
  set_member (member name' v' ms) name v =
      let rest = set_member ms name v in
      if same name' name then member name' v ms else member name' v' rest

  -- The loop of `parse_array`, where `parse` is `parse_value`.
  unfoldable pub array_loop :
      (Bytes → Parsed (Value N × Bytes)) → ℕ → Bytes → Parsed (Values N × Bytes)
  unfolding match_char
  array_loop parse zero p = no_fuel
  array_loop parse (suc fuel) p = parse p >>? λ r. match_char b',' (r.1) >>= λ m.
      match_char b']' (m.1) >>= λ e. elim (e.0) [
        | true ↦ ok (some (value (r.0) empty, e.1))
        | false ↦ elim (m.0) [
          | true ↦ array_loop parse fuel (e.1) >>? λ s. ok (some (value (r.0) (s.0), s.1))
          | false ↦ ok none
        ]
      ]

  unfoldable pub parse_array : (Bytes → Parsed (Value N × Bytes)) → Bytes → Parsed (Value N × Bytes)
  unfolding array_loop match_char
  parse_array parse p = match_char b'[' p >>= λ m.
      if not (m.0)
      then ok none
      else (match_char b']' (m.1) >>= λ e.
          if e.0
          then ok (some (array empty, e.1))
          else (array_loop parse (suc (length p)) (e.1) >>? λ r. ok (some (array (r.0), r.1))))

  -- A round of the loop of `parse_object`, up to the separator: the table, whether there is a
  -- separator, and the place behind it.
  unfoldable pub parse_member :
      ℕ
      → Bool
      → (Bytes → Parsed (Value N × Bytes))
      → Members N
      → Bytes
      → Parsed (Members N × Bool × Bytes)
  unfolding read_name match_char
  parse_member w unescape_value parse obj p = read_name w unescape_value p >>? λ n.
      match_char b':' (n.1) >>= λ m.
      if not (m.0)
      then ok none
      else (parse (m.1) >>? λ r. match_char b';' (r.1) >>= λ s.
          if s.0
          then ok (some (set_member obj (n.0) (r.0), true, s.1))
          else (match_char b',' (s.1) >>= λ c. ok (some (set_member obj (n.0) (r.0), c.0, c.1))))

  unfoldable pub object_loop :
      ℕ
      → Bool
      → (Bytes → Parsed (Value N × Bytes))
      → ℕ
      → Members N
      → Bytes
      → Parsed (Members N × Bytes)
  unfolding parse_member match_char
  object_loop w unescape_value parse zero obj p = no_fuel
  object_loop w unescape_value parse (suc fuel) obj p =
      parse_member w unescape_value parse obj p >>? λ r. match_char b'}' (r.2) >>= λ e. elim (e.0) [
        | true ↦ ok (some (r.0, e.1))
        | false ↦ elim (r.1) [
          | true ↦ object_loop w unescape_value parse fuel (r.0) (e.1)
          | false ↦ ok none
        ]
      ]

  unfoldable pub parse_object :
      ℕ → Bool → (Bytes → Parsed (Value N × Bytes)) → Bytes → Parsed (Value N × Bytes)
  unfolding object_loop match_char
  parse_object w unescape_value parse p = match_char b'{' p >>= λ m.
      if not (m.0)
      then ok none
      else (match_char b'}' (m.1) >>= λ e.
          if e.0
          then ok (some (table no_more, e.1))
          else (object_loop w unescape_value parse (suc (length p)) no_more (e.1) >>? λ r.
              ok (some (table (r.0), r.1))))

  -- `parse_value` where the text is at a word: a constant, or a number.
  unfoldable pub parse_constant : Bytes → Option (Value N)
  parse_constant word =
      if same word null_word
      then some null
      else if same word true_word
      then some (boolean true)
      else if same word false_word
      then some (boolean false)
      else none

  unfoldable pub parse_number : Platform N → Bytes → Option (Value N)
  parse_number platform word = elim (platform.to_number word) [
    | none ↦ none
    | some d ↦ some (number d)
  ]

  -- What `parse_value` makes of a word, which `make` interprets.
  unfoldable pub parse_word : (Bytes → Option (Value N)) → Bytes → Parsed (Value N × Bytes)
  unfolding read_chunk
  parse_word make p =
      read_chunk p >>= λ r. elim (make (r.0)) [ none ↦ ok none | some v ↦ ok (some (v, r.1)) ]

  -- The `switch` of `parse_value` at the character `c`, where `parse` is `parse_value` for what is inside.
  unfoldable pub value_at :
      Platform N → Bool → (Bytes → Parsed (Value N × Bytes)) → ℕ → Bytes → Parsed (Value N × Bytes)
  unfolding parse_constant parse_number parse_word parse_array parse_object read_string
  value_at platform unescape_value parse c p =
      if c == b'n' || c == b't' || c == b'f'
      then parse_word parse_constant p
      else if c == b'"'
      then (read_string platform.wchar_bits unescape_value p >>? λ r. ok (some (text (r.0), r.1)))
      else if c == b'{'
      then parse_object platform.wchar_bits unescape_value parse p
      else if c == b'['
      then parse_array parse p
      else if within b'0' b'9' c || c == b'.'
      then parse_word (parse_number platform) p
      else ok none

  unfoldable pub parse_value : ℕ → Platform N → Bool → Bytes → Parsed (Value N × Bytes)
  unfolding value_at skip_blank
  parse_value zero platform unescape_value p = no_fuel
  parse_value (suc fuel) platform unescape_value p = skip_blank p >>= λ q.
      reads (get_elem? q 0) >>= λ c.
      value_at platform unescape_value (parse_value fuel platform unescape_value) c q

  -- `parse`: what is behind the value is not read. Every level takes a bracket.
  unfoldable pub parse_json : Platform N → Bool → Bytes → Run (Value N)
  unfolding parse_value
  parse_json platform unescape_value json =
      parse_value (suc (length json)) platform unescape_value json >>= λ o. elim o [
        | none ↦ ok null
        | some r ↦ ok (r.0)
      ]
