-- ===== src/Json/Steps.antt =====
-- Rounds of the parser's loops, from what the calls in them return.
use ew_base.Prelude.{ℕ, suc, ◌≡◌, refl, Bool, true, false, some, [], ◌∷◌, length, get_elem?}
use ew_base.Prelude.Run.{Run, ok, ◌>>=◌, reads}
use ew_base.Codecvt.{Bytes}
use ew_base.Json.Lexer.{Parsed, ◌>>?◌, match_char, skip_blank}
use ew_base.Json.Parser.{
  Platform, Value, Values, Members, value, empty, array, table, no_more, set_member, array_loop,
  parse_array, parse_member, object_loop, parse_object, value_at, parse_value,
}
use ew_base.Json.Strings.{read_name}
use ew_base.Json.Blanks.{IsSolid, skip_blank_over}

goes_on :
    {A : Type 0} (f : ℕ → Bytes → Run A) (run : Run Bytes) (c : ℕ) (p : Bytes)
    → run ≡ ok (c ∷ p)
    → (run >>= λ q. reads (get_elem? q 0) >>= λ c. f c q) ≡ f c (c ∷ p)
goes_on f run c p e = rw e refl

module _ {N : Type 0} where
  pub array_loop_last :
      (parse : Bytes → Parsed (Value N × Bytes)) (fuel : ℕ) (p q q' r : Bytes) (v : Value N)
      → parse p ≡ ok (some (v, q))
      → match_char b',' q ≡ ok (false, q')
      → match_char b']' q' ≡ ok (true, r)
      → array_loop parse (suc fuel) p ≡ ok (some (value v empty, r))
  unfolding array_loop ◌>>?◌
  array_loop_last parse fuel p q q' r v a b c = rw (a, b, c) refl

  pub array_loop_more :
      (parse : Bytes → Parsed (Value N × Bytes)) (fuel : ℕ) (p q q' q'' r : Bytes) (v : Value N)
      (vs : Values N)
      → parse p ≡ ok (some (v, q))
      → match_char b',' q ≡ ok (true, q')
      → match_char b']' q' ≡ ok (false, q'')
      → array_loop parse fuel q'' ≡ ok (some (vs, r))
      → array_loop parse (suc fuel) p ≡ ok (some (value v vs, r))
  unfolding array_loop ◌>>?◌
  array_loop_more parse fuel p q q' q'' r v vs a b c d = rw (array_loop, a, b, c) (rw d refl)

  pub parse_array-empty :
      (parse : Bytes → Parsed (Value N × Bytes)) (p q r : Bytes)
      → match_char b'[' p ≡ ok (true, q)
      → match_char b']' q ≡ ok (true, r)
      → parse_array parse p ≡ ok (some (array empty, r))
  unfolding parse_array
  parse_array-empty parse p q r a b = rw (a, b) refl

  pub parse_array_items :
      (parse : Bytes → Parsed (Value N × Bytes)) (p q q' r : Bytes) (vs : Values N)
      → match_char b'[' p ≡ ok (true, q)
      → match_char b']' q ≡ ok (false, q')
      → array_loop parse (suc (length p)) q' ≡ ok (some (vs, r))
      → parse_array parse p ≡ ok (some (array vs, r))
  unfolding parse_array ◌>>?◌
  parse_array_items parse p q q' r vs a b c = rw (a, b, c) refl

  pub parse_member_comma :
      (w : ℕ) (u : Bool) (parse : Bytes → Parsed (Value N × Bytes)) (obj : Members N)
      (p q q' q'' q3 q4 : Bytes) (name : Bytes) (v : Value N) (comma : Bool)
      → read_name w u p ≡ ok (some (name, q))
      → match_char b':' q ≡ ok (true, q')
      → parse q' ≡ ok (some (v, q''))
      → match_char b';' q'' ≡ ok (false, q3)
      → match_char b',' q3 ≡ ok (comma, q4)
      → parse_member w u parse obj p ≡ ok (some (set_member obj name v, comma, q4))
  unfolding parse_member ◌>>?◌
  parse_member_comma w u parse obj p q q' q'' q3 q4 name v comma a b c d e = rw (a, b, c, d, e) refl

  pub object_loop_last :
      (w : ℕ) (u : Bool) (parse : Bytes → Parsed (Value N × Bytes)) (fuel : ℕ)
      (obj obj' : Members N) (p q r : Bytes) (comma : Bool)
      → parse_member w u parse obj p ≡ ok (some (obj', comma, q))
      → match_char b'}' q ≡ ok (true, r)
      → object_loop w u parse (suc fuel) obj p ≡ ok (some (obj', r))
  unfolding object_loop ◌>>?◌
  object_loop_last w u parse fuel obj obj' p q r comma a b = rw (a, b) refl

  pub object_loop_more :
      (w : ℕ) (u : Bool) (parse : Bytes → Parsed (Value N × Bytes)) (fuel : ℕ)
      (obj obj' ms : Members N) (p q q' r : Bytes)
      → parse_member w u parse obj p ≡ ok (some (obj', true, q))
      → match_char b'}' q ≡ ok (false, q')
      → object_loop w u parse fuel obj' q' ≡ ok (some (ms, r))
      → object_loop w u parse (suc fuel) obj p ≡ ok (some (ms, r))
  unfolding object_loop ◌>>?◌
  object_loop_more w u parse fuel obj obj' ms p q q' r a b c = rw (object_loop, a, b) c

  pub parse_object_empty :
      (w : ℕ) (u : Bool) (parse : Bytes → Parsed (Value N × Bytes)) (p q r : Bytes)
      → match_char b'{' p ≡ ok (true, q)
      → match_char b'}' q ≡ ok (true, r)
      → parse_object w u parse p ≡ ok (some (table no_more, r))
  unfolding parse_object
  parse_object_empty w u parse p q r a b = rw (a, b) refl

  pub parse_object_items :
      (w : ℕ) (u : Bool) (parse : Bytes → Parsed (Value N × Bytes)) (p q q' r : Bytes)
      (ms : Members N)
      → match_char b'{' p ≡ ok (true, q)
      → match_char b'}' q ≡ ok (false, q')
      → object_loop w u parse (suc (length p)) no_more q' ≡ ok (some (ms, r))
      → parse_object w u parse p ≡ ok (some (table ms, r))
  unfolding parse_object ◌>>?◌
  parse_object_items w u parse p q q' r ms a b c = rw (a, b, c) refl

  -- At a character that is no blank `parse_value` goes on with the `switch`.
  pub parse_value_solid :
      (platform : Platform N) (u : Bool) (fuel c : ℕ) (p : Bytes)
      → IsSolid c
      → parse_value (suc fuel) platform u (c ∷ p)
        ≡ value_at platform u (parse_value fuel platform u) c (c ∷ p)
  unfolding parse_value
  parse_value_solid platform u fuel c p s =
      goes_on (value_at platform u (parse_value fuel platform u)) (skip_blank (c ∷ p)) c p
        (skip_blank_over [] c p tt s)
