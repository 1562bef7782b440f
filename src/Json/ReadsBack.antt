-- ===== src/Json/ReadsBack.antt =====
-- What the writer makes of a value, and `parse_value` on it.
use ew_base.Prelude.{
  ℕ, zero, suc, ◌<◌, ◌≡◌, refl, ◌∙◌, Bool, true, false, ◌||◌, Option, some, [], ◌∷◌, ◌++◌,
  append_assoc, ◌==◌, if◌then◌else◌, length, All, arith,
}
use ew_base.Prelude.Run.{ok}
use ew_base.Codecvt.{Bytes}
use ew_base.Strlib.{within, escape_unit}
use ew_base.Cmdline.{same}
use ew_base.Strlib.Decode.{coded}
use ew_base.Json.Lexer.{Parsed, ◌>>?◌, is_blank, is_word}
use ew_base.Json.Parser.{
  Platform, Value, null, boolean, number, text, null_word, true_word, false_word, parse_constant,
  parse_number, parse_word, value_at, parse_value,
}
use ew_base.Json.Blanks.{IsSolid, IsWord, word-IsSolid, read_chunk_over}
use ew_base.Json.Texts.{IsAscii, read_string_text}
use ew_base.Json.Steps.{parse_value_solid}
use ew_base.Json.Writer.{Printer}

-- A character that ends a word and does not follow a quotation mark to make a third.
pub record Stops (d : ℕ) : Type 0 where
  pub no_word : is_word d ≡ false
  pub no_quote : (d == b'"') ≡ false

pub comma-Stops : Stops b','
unfolding is_word
comma-Stops = record { no_word = refl; no_quote = refl }

pub return-Stops : Stops b'\r'
unfolding is_word
return-Stops = record { no_word = refl; no_quote = refl }

module _ {N : Type 0} (platform : Platform N) where
  -- The text `e` is read as `v` in front of whatever ends a word, on fuel above its length.
  pub record ReadsBack (v : Value N) (e : Bytes) : Type 0 where
    pub start : ℕ
    pub behind : Bytes
    pub shape : e ≡ start ∷ behind
    pub solid : IsSolid start
    pub no_close : (start == b']') ≡ false
    pub back :
        (fuel d : ℕ) (r : Bytes)
        → length e < fuel
        → Stops d
        → parse_value fuel platform true (e ++ d ∷ r) ≡ ok (some (v, d ∷ r))

  at_switch :
      (v : Value N) (c : ℕ) (w : Bytes) (fuel d : ℕ) (r : Bytes)
      → IsSolid c
      → ((fuel d : ℕ) (r : Bytes)
          → length w < fuel
          → Stops d
          → value_at platform true (parse_value fuel platform true) c (c ∷ (w ++ d ∷ r))
            ≡ ok (some (v, d ∷ r)))
      → suc (length w) < fuel
      → Stops d
      → parse_value fuel platform true (c ∷ (w ++ d ∷ r)) ≡ ok (some (v, d ∷ r))
  at_switch v c w zero d r s h l stop = absurd (omega arith)
  at_switch v c w (suc fuel) d r s h l stop =
      parse_value_solid platform true fuel c (w ++ d ∷ r) s ∙ h fuel d r (omega arith) stop

  -- A value whose text starts with `c`, from what the `switch` makes of it.
  pub from_switch :
      (v : Value N) (c : ℕ) (w : Bytes)
      → IsSolid c
      → (c == b']') ≡ false
      → ((fuel d : ℕ) (r : Bytes)
          → length w < fuel
          → Stops d
          → value_at platform true (parse_value fuel platform true) c (c ∷ (w ++ d ∷ r))
            ≡ ok (some (v, d ∷ r)))
      → ReadsBack v (c ∷ w)
  from_switch v c w s n h = record {
    start = c;
    behind = w;
    shape = refl;
    solid = s;
    no_close = n;
    back = λ fuel d r l stop. at_switch v c w fuel d r s h l stop;
  }

  word_back :
      (make : Bytes → Option (Value N)) (c : ℕ) (w : Bytes) (v : Value N) (d : ℕ) (r : Bytes)
      → All IsWord (c ∷ w)
      → make (c ∷ w) ≡ some v
      → Stops d
      → parse_word make (c ∷ (w ++ d ∷ r)) ≡ ok (some (v, d ∷ r))
  unfolding parse_word
  word_back make c w v d r h m stop = rw (read_chunk_over c w d r h stop.no_word) (rw m refl)

  pub null_back : ReadsBack null null_word
  unfolding value_at parse_constant same is_word
  null_back = from_switch null b'n' _ (word-IsSolid b'n' refl) refl (λ fuel d r l stop.
      word_back parse_constant b'n' (b'u' ∷ b'l' ∷ b'l' ∷ []) null d r
        (refl, (refl, (refl, (refl, tt)))) refl stop)

  pub boolean_back : (b : Bool) → ReadsBack (boolean b) (if b then true_word else false_word)
  unfolding value_at parse_constant same is_word
  boolean_back true =
      from_switch (boolean true) b't' _ (word-IsSolid b't' refl) refl (λ fuel d r l stop.
        word_back parse_constant b't' (b'r' ∷ b'u' ∷ b'e' ∷ []) (boolean true) d r
          (refl, (refl, (refl, (refl, tt)))) refl stop)
  boolean_back false =
      from_switch (boolean false) b'f' _ (word-IsSolid b'f' refl) refl (λ fuel d r l stop.
        word_back parse_constant b'f' (b'a' ∷ b'l' ∷ b's' ∷ b'e' ∷ []) (boolean false) d r
          (refl, (refl, (refl, (refl, (refl, tt))))) refl stop)

  -- A number is printed as a word that starts with a digit or a point and is read as that number.
  pub record PrintsNumber (print : Printer N) (n : N) : Type 0 where
    pub first : ℕ
    pub others : Bytes
    pub printed : print.print_number n ≡ first ∷ others
    pub begins : (within b'0' b'9' first || first == b'.') ≡ true
    pub words : All IsWord others
    pub reads_back : platform.to_number (first ∷ others) ≡ some n

  number_first :
      (c : ℕ)
      → (within b'0' b'9' c || c == b'.') ≡ true
      → IsWord c
        × ((c == b']') ≡ false)
        × ((c == b'n' || c == b't' || c == b'f') ≡ false)
        × ((c == b'"') ≡ false)
        × ((c == b'{') ≡ false)
        × ((c == b'[') ≡ false)
  unfolding is_word
  number_first c h =
      (ground arith, ground arith, ground arith, ground arith, ground arith, ground arith)

  value_at_number :
      (parse : Bytes → Parsed (Value N × Bytes)) (c : ℕ) (p : Bytes)
      → (within b'0' b'9' c || c == b'.') ≡ true
      → value_at platform true parse c p ≡ parse_word (parse_number platform) p
  unfolding value_at
  value_at_number parse c p h = let (w, _, n, q, t, a) = number_first c h in rw (n, q, t, a, h) refl

  pub number_back :
      (print : Printer N) (n : N)
      → PrintsNumber print n
      → ReadsBack (number n) (print.print_number n)
  unfolding parse_number
  number_back print n p =
      let record { first = c; others = w; printed = e; begins = b; words = h; reads_back = t } =
        p in
      let (word, close, _, _, _, _) = number_first c b in
      let makes : parse_number platform (c ∷ w) ≡ some (number n) = rw (parse_number, t) refl in
      rw e (
        from_switch (number n) c w (word-IsSolid c word) close (λ fuel d r l stop.
          value_at_number (parse_value fuel platform true) c (c ∷ (w ++ d ∷ r)) b
          ∙ word_back (parse_number platform) c w (number n) d r (word, h) makes stop))

  pub text_back :
      (s : Bytes) → All IsAscii s → ReadsBack (text s) (b'"' ∷ (coded escape_unit s ++ b'"' ∷ []))
  unfolding value_at ◌>>?◌ is_blank
  text_back s h =
      from_switch (text s) b'"' (coded escape_unit s ++ b'"' ∷ [])
        (record { no_blank = refl; no_slash = refl }) refl
        (λ fuel d r l stop.
          rw (append_assoc (coded escape_unit s) (b'"' ∷ []) (d ∷ r))
            (rw (read_string_text platform.wchar_bits s d r h stop.no_quote) refl))
