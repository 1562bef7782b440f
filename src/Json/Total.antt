-- ===== src/Json/Total.antt =====
-- The parser returns on every text: it neither reads past the end nor runs out of rounds.
use ew_base.Prelude.{
  ℕ, zero, suc, ◌≤◌, ◌<◌, ◌≡◌, refl, Bool, true, false, not, ◌||◌, Option, none, some, [], ◌∷◌,
  ◌==◌, length, get_elem?, arith,
}
use ew_base.Prelude.Run.{Run, ok, fault, no_fuel, ◌>>=◌, reads}
use ew_base.Codecvt.{Bytes}
use ew_base.Strlib.{within}
use ew_base.Json.Lexer.{Parsed, is_word}
use ew_base.Json.Parser.{
  Platform, Value, Members, null, no_more, array_loop, parse_array, parse_member, object_loop,
  parse_object, parse_constant, parse_number, parse_word, value_at, parse_value, parse_json,
}
use ew_base.Json.Reads.{
  Succeeds, IfTrue, Succeeds-then, Succeeds-try, Succeeds-imp, Succeeds-if, Succeeds-elim, IsText,
  From, Behind, RestFrom, RestBehind, Matched, skip_blank-Succeeds, match_char-Succeeds,
}
use ew_base.Json.Scans.{read_chunk-Behind}
use ew_base.Json.Unquote.{read_string-Succeeds, read_name-Succeeds, IfTrue-behind}

not-false : (b : Bool) → not b ≡ false → b ≡ true
not-false true h = refl
not-false false h = absurd (ground arith)

constant_word : (c : ℕ) → (c == b'n' || c == b't' || c == b'f') ≡ true → is_word c ≡ true
unfolding is_word
constant_word c h = ground arith

number_word : (c : ℕ) → (within b'0' b'9' c || c == b'.') ≡ true → is_word c ≡ true
unfolding is_word
number_word c h = ground arith

result_of : {A : Type 0} (run : Run A) → Succeeds (λ a. Unit) run → (a : A) × (run ≡ ok a)
result_of {A} (no_fuel) h = absurd h
result_of {A} (fault) h = absurd h
result_of {A} (ok a) h = (a, refl)

module _ {N : Type 0} where
  -- `parse` returns on the texts with less than `n` bytes.
  abbrev Inner : (Bytes → Parsed (Value N × Bytes)) → ℕ → Type 0
  Inner parse n = (p : Bytes) → IsText p → length p < n → Succeeds (IfTrue (RestBehind p)) (parse p)

  array_loop-Succeeds :
      (parse : Bytes → Parsed (Value N × Bytes)) (n : ℕ)
      → Inner parse n
      → (fuel : ℕ) (p : Bytes) → IsText p
      → length p < fuel
      → length p < n
      → Succeeds (IfTrue (RestFrom p)) (array_loop parse fuel p)
  unfolding array_loop
  array_loop-Succeeds parse n inner zero p t f l = absurd (omega arith)
  array_loop-Succeeds parse n inner (suc fuel) p t f l =
      Succeeds-try (RestBehind p) (RestFrom p) (parse p) _ (inner p t l) (λ r h.
        Succeeds-then (Matched (r.1)) (IfTrue (RestFrom p)) _ _
          (match_char-Succeeds b',' (r.1) refl (h.0))
          (λ m hm.
            Succeeds-then (Matched (m.1)) (IfTrue (RestFrom p)) _ _
              (match_char-Succeeds b']' (m.1) refl (hm.0.0))
              (λ e he.
                Succeeds-elim (IfTrue (RestFrom p)) (e.0) _ _
                  (λ end. (he.0.0, omega (arith, h.1, hm.0.1, he.0.1)))
                  (λ on.
                    Succeeds-elim (IfTrue (RestFrom p)) (m.0) _ _
                      (λ comma.
                        Succeeds-try (RestFrom (e.1)) (RestFrom p) _ _
                          (array_loop-Succeeds parse n inner fuel (e.1) (he.0.0)
                            (omega (arith, h.1, hm.0.1, he.0.1))
                            (omega (arith, h.1, hm.0.1, he.0.1)))
                          (λ s hs. (hs.0, omega (arith, hs.1, h.1, hm.0.1, he.0.1))))
                      (λ stop. tt)))))

  parse_array-Succeeds :
      (parse : Bytes → Parsed (Value N × Bytes)) (n : ℕ)
      → Inner parse n
      → (p : Bytes) → IsText p
      → length p < suc n
      → Succeeds (IfTrue (RestBehind p)) (parse_array parse p)
  unfolding parse_array
  parse_array-Succeeds parse n inner p t l =
      Succeeds-then (Matched p) (IfTrue (RestBehind p)) _ _ (match_char-Succeeds b'[' p refl t)
        (λ m hm.
          Succeeds-if (IfTrue (RestBehind p)) (not (m.0)) _ _ (λ no_bracket. tt)
            (λ bracket.
              let (mt, ml) = hm.1 (not-false (m.0) bracket) in
              Succeeds-then (Matched (m.1)) (IfTrue (RestBehind p)) _ _
                (match_char-Succeeds b']' (m.1) refl mt)
                (λ e he.
                  Succeeds-if (IfTrue (RestBehind p)) (e.0) _ _
                    (λ end. (he.0.0, omega (arith, he.0.1)))
                    (λ on.
                      Succeeds-try (RestFrom (e.1)) (RestBehind p) _ _
                        (array_loop-Succeeds parse n inner (suc (length p)) (e.1) (he.0.0)
                          (omega (arith, he.0.1)) (omega (arith, he.0.1)))
                        (λ s hs. (hs.0, omega (arith, hs.1, he.0.1)))))))

  abbrev MemberBehind : Bytes → Members N × Bool × Bytes → Type 0
  MemberBehind p r = Behind p (r.2)

  IfTrue-from :
      (p q : Bytes)
      → length p ≤ length q
      → (o : Option (Members N × Bytes)) → IfTrue (RestFrom p) o
      → IfTrue (RestFrom q) o
  IfTrue-from p q l none h = tt
  IfTrue-from p q l (some r) (t, m) = (t, omega arith)

  made :
      (o : Option (Value N)) (p : Bytes) (q : Bytes)
      → Behind p q
      → Succeeds
          (IfTrue (RestBehind p))
          (elim o as (λ k. Parsed (Value N × Bytes)) [ none ↦ ok none | some v ↦ ok (some (v, q)) ])
  made none p q h = tt
  made (some v) p q h = h

  parse_member-Succeeds :
      (w : ℕ) (parse : Bytes → Parsed (Value N × Bytes)) (n : ℕ)
      → Inner parse n
      → (obj : Members N) (p : Bytes) → IsText p
      → length p < suc n
      → Succeeds (IfTrue (MemberBehind p)) (parse_member w false parse obj p)
  unfolding parse_member
  parse_member-Succeeds w parse n inner obj p t l =
      Succeeds-try (RestFrom p) (MemberBehind p) _ _ (read_name-Succeeds w p t) (λ a ha.
        Succeeds-then (Matched (a.1)) (IfTrue (MemberBehind p)) _ _
          (match_char-Succeeds b':' (a.1) refl (ha.0))
          (λ m hm.
            Succeeds-if (IfTrue (MemberBehind p)) (not (m.0)) _ _ (λ no_colon. tt)
              (λ colon.
                let (mt, ml) = hm.1 (not-false (m.0) colon) in
                Succeeds-try (RestBehind (m.1)) (MemberBehind p) _ _
                  (inner (m.1) mt (omega (arith, ha.1)))
                  (λ r h.
                    Succeeds-then (Matched (r.1)) (IfTrue (MemberBehind p)) _ _
                      (match_char-Succeeds b';' (r.1) refl (h.0))
                      (λ s hs.
                        Succeeds-if (IfTrue (MemberBehind p)) (s.0) _ _
                          (λ semicolon. (hs.0.0, omega (arith, ha.1, h.1, hs.0.1)))
                          (λ other.
                            Succeeds-then (Matched (s.1)) (IfTrue (MemberBehind p)) _ _
                              (match_char-Succeeds b',' (s.1) refl (hs.0.0))
                              (λ c hc. (hc.0.0, omega (arith, ha.1, h.1, hs.0.1, hc.0.1)))))))))

  object_loop-Succeeds :
      (w : ℕ) (parse : Bytes → Parsed (Value N × Bytes)) (n : ℕ)
      → Inner parse n
      → (fuel : ℕ) (obj : Members N) (p : Bytes) → IsText p
      → length p < fuel
      → length p < suc n
      → Succeeds (IfTrue (RestFrom p)) (object_loop w false parse fuel obj p)
  unfolding object_loop
  object_loop-Succeeds w parse n inner zero obj p t f l = absurd (omega arith)
  object_loop-Succeeds w parse n inner (suc fuel) obj p t f l =
      Succeeds-try (MemberBehind p) (RestFrom p) _ _
        (parse_member-Succeeds w parse n inner obj p t l)
        (λ r h.
          Succeeds-then (Matched (r.2)) (IfTrue (RestFrom p)) _ _
            (match_char-Succeeds b'}' (r.2) refl (h.0))
            (λ e he.
              Succeeds-elim (IfTrue (RestFrom p)) (e.0) _ _
                (λ end. (he.0.0, omega (arith, h.1, he.0.1)))
                (λ on.
                  Succeeds-elim (IfTrue (RestFrom p)) (r.1) _ _
                    (λ separated.
                      Succeeds-imp (IfTrue (RestFrom (e.1))) (IfTrue (RestFrom p)) _
                        (object_loop-Succeeds w parse n inner fuel (r.0) (e.1) (he.0.0)
                          (omega (arith, h.1, he.0.1)) (omega (arith, h.1, he.0.1)))
                        (IfTrue-from (e.1) p (omega (arith, h.1, he.0.1))))
                    (λ stop. tt))))

  parse_object-Succeeds :
      (w : ℕ) (parse : Bytes → Parsed (Value N × Bytes)) (n : ℕ)
      → Inner parse n
      → (p : Bytes) → IsText p
      → length p < suc n
      → Succeeds (IfTrue (RestBehind p)) (parse_object w false parse p)
  unfolding parse_object
  parse_object-Succeeds w parse n inner p t l =
      Succeeds-then (Matched p) (IfTrue (RestBehind p)) _ _ (match_char-Succeeds b'{' p refl t)
        (λ m hm.
          Succeeds-if (IfTrue (RestBehind p)) (not (m.0)) _ _ (λ no_brace. tt)
            (λ brace.
              let (mt, ml) = hm.1 (not-false (m.0) brace) in
              Succeeds-then (Matched (m.1)) (IfTrue (RestBehind p)) _ _
                (match_char-Succeeds b'}' (m.1) refl mt)
                (λ e he.
                  Succeeds-if (IfTrue (RestBehind p)) (e.0) _ _
                    (λ end. (he.0.0, omega (arith, he.0.1)))
                    (λ on.
                      Succeeds-try (RestFrom (e.1)) (RestBehind p) _ _
                        (object_loop-Succeeds w parse n inner (suc (length p)) no_more (e.1)
                          (he.0.0) (omega (arith, he.0.1)) (omega (arith, he.0.1)))
                        (λ s hs. (hs.0, omega (arith, hs.1, he.0.1)))))))

  parse_word-Succeeds :
      (make : Bytes → Option (Value N)) (c : ℕ) (p : Bytes)
      → is_word c ≡ true
      → IsText (c ∷ p)
      → Succeeds (IfTrue (RestBehind (c ∷ p))) (parse_word make (c ∷ p))
  unfolding parse_word
  parse_word-Succeeds make c p w t =
      Succeeds-then (RestBehind (c ∷ p)) (IfTrue (RestBehind (c ∷ p))) _ _
        (read_chunk-Behind c p w t) (λ r h. made (make (r.0)) (c ∷ p) (r.1) h)

  value_at-Succeeds :
      (platform : Platform N) (parse : Bytes → Parsed (Value N × Bytes)) (n : ℕ)
      → Inner parse n
      → (c : ℕ) (p : Bytes) → IsText (c ∷ p)
      → length (c ∷ p) < suc n
      → Succeeds (IfTrue (RestBehind (c ∷ p))) (value_at platform false parse c (c ∷ p))
  unfolding value_at
  value_at-Succeeds platform parse n inner c p t l =
      Succeeds-if (IfTrue (RestBehind (c ∷ p))) (c == b'n' || c == b't' || c == b'f') _ _
        (λ h. parse_word-Succeeds parse_constant c p (constant_word c h) t)
        (λ h.
          Succeeds-if (IfTrue (RestBehind (c ∷ p))) (c == b'"') _ _
            (λ h.
              Succeeds-try (RestBehind (c ∷ p)) (RestBehind (c ∷ p)) _ _
                (read_string-Succeeds platform.wchar_bits (c ∷ p) t) (λ r k. k))
            (λ h.
              Succeeds-if (IfTrue (RestBehind (c ∷ p))) (c == b'{') _ _
                (λ h. parse_object-Succeeds platform.wchar_bits parse n inner (c ∷ p) t l)
                (λ h.
                  Succeeds-if (IfTrue (RestBehind (c ∷ p))) (c == b'[') _ _
                    (λ h. parse_array-Succeeds parse n inner (c ∷ p) t l)
                    (λ h.
                      Succeeds-if (IfTrue (RestBehind (c ∷ p))) (within b'0' b'9' c || c == b'.') _
                        _ (λ h. parse_word-Succeeds (parse_number platform) c p (number_word c h) t)
                        (λ h. tt)))))

  value_behind :
      (fuel : ℕ) (platform : Platform N) (p : Bytes)
      → length p < suc fuel
      → Inner (parse_value fuel platform false) fuel
      → (q : Bytes) → From p q
      → Succeeds (IfTrue (RestBehind p)) (
          reads (get_elem? q 0) >>= λ c.
          value_at platform false (parse_value fuel platform false) c q)
  value_behind fuel platform p l inner [] (t, m) = absurd t
  value_behind fuel platform p l inner (c ∷ q) (t, m) =
      Succeeds-imp (IfTrue (RestBehind (c ∷ q))) (IfTrue (RestBehind p)) _
        (value_at-Succeeds platform (parse_value fuel platform false) fuel inner c q t
          (omega arith))
        (IfTrue-behind (c ∷ q) p m)

  parse_value-Succeeds :
      (fuel : ℕ) (platform : Platform N) → Inner (parse_value fuel platform false) fuel
  unfolding parse_value
  parse_value-Succeeds zero platform p t l = absurd (omega arith)
  parse_value-Succeeds (suc fuel) platform p t l =
      Succeeds-then (From p) (IfTrue (RestBehind p)) _ _ (skip_blank-Succeeds p t)
        (value_behind fuel platform p l (parse_value-Succeeds fuel platform))

  -- On a text that ends with a zero byte, without a backslash right before it, parse_json without
  -- unescape_value returns a value: it reads nothing behind the end of the text, and every loop ends.
  pub parse_json-returns :
      (platform : Platform N) (json : Bytes)
      → IsText json
      → (v : Value N) × (parse_json platform false json ≡ ok v)
  unfolding parse_json
  parse_json-returns platform json t = result_of _ (
      Succeeds-then (IfTrue (RestBehind json)) (λ v. Unit) _ _
        (parse_value-Succeeds (suc (length json)) platform json t (omega arith))
        (λ o h.
          elim o as (λ k. Succeeds (λ v. Unit) (elim k [ none ↦ ok null | some r ↦ ok (r.0) ])) [
            | none ↦ tt
            | some r ↦ tt
          ]))
