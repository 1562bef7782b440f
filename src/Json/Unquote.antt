-- ===== src/Json/Unquote.antt =====
-- Strings and names in a text.
use mathlib.Core.Path.{subst}
use ew_base.Prelude.{
  ℕ, zero, suc, ◌-◌, ◌≤◌, ◌<◌, ◌≡◌, refl, sym, inl, inr, true, false, not, ◌||◌, Bool-cases, Option,
  none, some, List, [], ◌∷◌, ◌++◌, ◌==◌, if◌then◌else◌, length, get_elem?, drop, arith,
}
use ew_base.Prelude.Run.{ok, ◌>>=◌, reads}
use ew_base.Codecvt.{Bytes}
use ew_base.Strlib.{number16b}
use ew_base.Json.Lexer.{◌>>?◌, skip_blank, match_char, read_chunk, Quoted, scan_string}
use ew_base.Json.Strings.{
  hex_digits, unquote_one, unquote_loop, name_of, quoted, read_string, read_name,
}
use ew_base.Json.Reads.{
  Succeeds, IfTrue, Succeeds-then, Succeeds-try, Succeeds-imp, Succeeds-if, IsText, IsText-next,
  From, RestFrom, RestBehind, Matched, skip_blank-Succeeds, match_char-Succeeds,
}
use ew_base.Json.Scans.{
  Clear, Scanned, read_chunk-Succeeds, read_triple-Succeeds, scan_string-Succeeds,
}

-- `n` bytes are left in front of the closing quotation mark.
abbrev Inside : ℕ → Bytes → Type 0
Inside zero p = Unit
Inside (suc n) p = IsText p × Clear (suc n) p

Inside-next : (c n : ℕ) (p : Bytes) → Inside (suc n) (c ∷ p) → Inside n p
Inside-next c zero p (t, cl) = tt
Inside-next c (suc n) p (t, (nz, cl)) = (IsText-next c p t (ground arith), cl)

Inside-drop : (k n : ℕ) (p : Bytes) → Inside n p → Inside (n - k) (drop k p)
Inside-drop zero n p h = let e : n - 0 ≡ n = omega arith in rw e h
Inside-drop (suc k) zero p h = let e : 0 - suc k ≡ 0 = omega arith in rw e tt
Inside-drop (suc k) (suc n) [] (t, cl) = absurd t
Inside-drop (suc k) (suc n) (c ∷ p) h =
    let e : suc n - suc k ≡ n - k = omega arith in rw e (Inside-drop k n p (Inside-next c n p h))

hex_digits-Succeeds :
    (n : ℕ) (p : Bytes) (val : ℕ) → IsText p → Succeeds (IfTrue (λ v. Unit)) (hex_digits n p val)
unfolding hex_digits number16b
hex_digits-Succeeds zero p val t = tt
hex_digits-Succeeds (suc n) [] val t = absurd t
hex_digits-Succeeds (suc n) (d ∷ p) val t = elim (Bool-cases (number16b d == 0xFF)) [
  | inl stop ↦ rw (hex_digits, stop) tt
  | inr digit ↦
      rw (hex_digits, digit) (hex_digits-Succeeds n p _ (IsText-next d p t (ground arith)))
]

-- What a round appends, and a distance.
abbrev Moves : List ℕ × ℕ → Type 0
Moves r = 0 < r.1

u_nonzero : (e : ℕ) → (e == b'u') ≡ true → (e == 0) ≡ false
u_nonzero e u = ground arith

unquote_one-Succeeds : (w : ℕ) (p : Bytes) → IsText p → Succeeds (IfTrue Moves) (unquote_one w p)
unfolding unquote_one
unquote_one-Succeeds w [] t = absurd t
unquote_one-Succeeds w (c ∷ []) t =
    Succeeds-if (IfTrue Moves) (not (c == b'\\')) _ _ (λ e. omega arith)
      (λ e. absurd (IsText-next c [] t (ground arith)))
unquote_one-Succeeds w (c ∷ e ∷ p) t =
    Succeeds-if (IfTrue Moves) (not (c == b'\\')) _ _ (λ h. omega arith)
      (λ h.
        let nz : (c == 0) ≡ false = ground arith in
        Succeeds-if (IfTrue Moves) (e == b'r') _ _ (λ h. omega arith)
          (λ h.
            Succeeds-if (IfTrue Moves) (e == b'n') _ _ (λ h. omega arith)
              (λ h.
                Succeeds-if (IfTrue Moves) (e == b't') _ _ (λ h. omega arith)
                  (λ h.
                    Succeeds-if (IfTrue Moves) (e == b'/' || e == b'\\' || e == b'"' || e == b'\'')
                      _ _ (λ h. omega arith)
                      (λ h.
                        Succeeds-if (IfTrue Moves) (e == b'u') _ _
                          (λ u.
                            let t' = IsText-next c (e ∷ p) t nz in
                            let un : (e == 0) ≡ false = u_nonzero e u in
                            Succeeds-then (IfTrue (λ v. Unit)) (IfTrue Moves) (hex_digits 4 p 0) _
                              (hex_digits-Succeeds 4 p 0 (IsText-next e p t' un))
                              (λ o d.
                                elim o
                                  as (λ k. Succeeds (IfTrue Moves) (elim k [
                                    | none ↦ ok (some ([], 4))
                                    | some val ↦ ok (some (val ∷ [], 6))
                                  ])) [ none ↦ omega arith | some val ↦ omega arith ]))
                          (λ h. tt))))))

unquote_loop-Succeeds :
    (fuel w n : ℕ) (p : Bytes)
    → n < fuel
    → Inside n p
    → Succeeds (IfTrue (λ us. Unit)) (unquote_loop fuel w n p)
unfolding unquote_loop
unquote_loop-Succeeds zero w n p l h = absurd (omega arith)
unquote_loop-Succeeds (suc fuel) w zero p l h = tt
unquote_loop-Succeeds (suc fuel) w (suc n) p l h =
    Succeeds-try Moves (λ us. Unit) (unquote_one w p) _ (unquote_one-Succeeds w p (h.0))
      (λ r m.
        Succeeds-try (λ us. Unit) (λ us. Unit) _ _
          (unquote_loop-Succeeds fuel w (suc n - r.1) (drop (r.1) p) (omega arith)
            (Inside-drop (r.1) (suc n) p h))
          (λ us u. tt))

Inside-text : (n : ℕ) (p : Bytes) → IsText p → Clear n p → Inside n p
Inside-text zero p t cl = tt
Inside-text (suc n) p t cl = (t, cl)

name_of-Succeeds :
    (w : ℕ) (p : Bytes) (q : Quoted)
    → IsText p
    → Scanned p q
    → Succeeds (IfTrue (λ name. Unit)) (name_of w false q.raw q.flag q.mark)
unfolding name_of
name_of-Succeeds w p q t s =
    Succeeds-if (IfTrue (λ name. Unit)) q.flag _ _
      (λ f.
        let whole = sym s.parts in
        Succeeds-try (λ us. Unit) (λ name. Unit) _ _
          (unquote_loop-Succeeds (suc (length q.raw)) w (length q.raw) (q.raw ++ q.mark)
            (omega arith)
            (subst (Inside (length q.raw)) whole (Inside-text (length q.raw) p t s.inner)))
          (λ us u. tt))
      (λ f. tt)

plain-Succeeds :
    (w : ℕ) (p : Bytes)
    → IsText p
    → Succeeds (IfTrue (RestBehind p)) (
        scan_string p >>? λ q.
        name_of w false q.raw q.flag q.mark >>? λ name. ok (some (name, drop 1 q.mark)))
plain-Succeeds w p t =
    Succeeds-try (Scanned p) (RestBehind p) (scan_string p) _ (scan_string-Succeeds p t) (λ q s.
      Succeeds-try (λ name. Unit) (RestBehind p) _ _ (name_of-Succeeds w p q t s)
        (λ name u. s.rest_behind))

module _ {A : Type 0} where
  pub IfTrue-behind :
      (p q : Bytes)
      → length p ≤ length q
      → (o : Option (A × Bytes)) → IfTrue (RestBehind p) o
      → IfTrue (RestBehind q) o
  IfTrue-behind p q l none h = tt
  IfTrue-behind p q l (some r) (t, m) = (t, omega arith)

quoted-Succeeds :
    (w : ℕ) (p : Bytes) → IsText p → Succeeds (IfTrue (RestBehind p)) (quoted w false p)
unfolding quoted
quoted-Succeeds w [] t = absurd t
quoted-Succeeds w (c ∷ []) t =
    Succeeds-if (IfTrue (RestBehind (c ∷ []))) (c == b'"') _ _
      (λ h. absurd (IsText-next c [] t (ground arith))) (λ h. plain-Succeeds w (c ∷ []) t)
quoted-Succeeds w (c ∷ d ∷ p) t =
    Succeeds-if (IfTrue (RestBehind (c ∷ d ∷ p))) (c == b'"') _ _
      (λ h.
        let t' = IsText-next c (d ∷ p) t (ground arith) in
        Succeeds-if (IfTrue (RestBehind (c ∷ d ∷ p))) (d == b'"') _ _
          (λ k.
            Succeeds-imp (IfTrue (RestBehind p)) (IfTrue (RestBehind (c ∷ d ∷ p))) _
              (read_triple-Succeeds p (IsText-next d p t' (ground arith)))
              (IfTrue-behind p (c ∷ d ∷ p) (omega arith)))
          (λ k. plain-Succeeds w (c ∷ d ∷ p) t))
      (λ h. plain-Succeeds w (c ∷ d ∷ p) t)

pub read_string-Succeeds :
    (w : ℕ) (p : Bytes) → IsText p → Succeeds (IfTrue (RestBehind p)) (read_string w false p)
unfolding read_string
read_string-Succeeds w p t =
    Succeeds-then (Matched p) (IfTrue (RestBehind p)) (match_char b'"' p) _
      (match_char-Succeeds b'"' p refl t)
      (λ m h.
        Succeeds-if (IfTrue (RestBehind p)) (not (m.0)) _ _ (λ k. tt)
          (λ k.
            Succeeds-imp (IfTrue (RestBehind (m.1))) (IfTrue (RestBehind p)) _
              (quoted-Succeeds w (m.1) (h.0.0)) (IfTrue-behind (m.1) p (h.0.1))))

name_at-Succeeds :
    (w : ℕ) (p q : Bytes)
    → From p q
    → Succeeds (IfTrue (RestFrom p)) (
        reads (get_elem? q 0) >>= λ c.
        if c == b'"' then read_string w false q else (read_chunk q >>= λ r. ok (some r)))
name_at-Succeeds w p [] (t, l) = absurd t
name_at-Succeeds w p (c ∷ q) (t, l) =
    Succeeds-if (IfTrue (RestFrom p)) (c == b'"') _ _
      (λ h.
        Succeeds-imp (IfTrue (RestBehind (c ∷ q))) (IfTrue (RestFrom p)) _
          (read_string-Succeeds w (c ∷ q) t)
          (λ o. elim o as (λ k. IfTrue (RestBehind (c ∷ q)) k → IfTrue (RestFrom p) k) [
            | none ↦ λ u. tt
            | some r ↦ λ (u, m). (u, omega arith)
          ]))
      (λ h.
        Succeeds-then (RestFrom (c ∷ q)) (IfTrue (RestFrom p)) (read_chunk (c ∷ q)) _
          (read_chunk-Succeeds (c ∷ q) t) (λ r (u, m). (u, omega arith)))

pub read_name-Succeeds :
    (w : ℕ) (p : Bytes) → IsText p → Succeeds (IfTrue (RestFrom p)) (read_name w false p)
unfolding read_name
read_name-Succeeds w p t =
    Succeeds-then (From p) (IfTrue (RestFrom p)) (skip_blank p) _ (skip_blank-Succeeds p t)
      (name_at-Succeeds w p)
