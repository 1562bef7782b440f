-- ===== src/Json/Reads.antt =====
-- Reading a text that ends with a zero byte, without a backslash right before it.
use ew_base.Prelude.{
  ℕ, zero, suc, ◌≤◌, ◌<◌, ◌≡◌, ◌≢◌, refl, ◌⊎◌, inl, inr, Bool, true, false, Bool-cases, Option,
  none, some, [], ◌∷◌, ◌==◌, if◌then◌else◌, length, get_elem?, drop, arith,
}
use ew_base.Prelude.Run.{Run, ok, fault, no_fuel, ◌>>=◌, reads}
use ew_base.Codecvt.{Bytes}
use ew_base.Json.Lexer.{
  Parsed, ◌>>?◌, skip_comment_1, skip_comment_2, is_blank, skip_spaces, skip_comment,
  skip_blank_loop, skip_blank, match_char,
}

module _ {A : Type 0} where
  -- The code returns, and what it returns has the property.
  abbrev pub Succeeds : (A → Type 0) → Run A → Type 0
  Succeeds P no_fuel = ⊥
  Succeeds P fault = ⊥
  Succeeds P (ok a) = P a

  -- The same for a value that is there only if the code returns true.
  abbrev pub IfTrue : (A → Type 0) → Option A → Type 0
  IfTrue P none = Unit
  IfTrue P (some a) = P a

module _ {A B : Type 0} where
  pub Succeeds-then :
      (P : A → Type 0) (Q : B → Type 0) (run : Run A) (next : A → Run B)
      → Succeeds P run
      → ((a : A) → P a → Succeeds Q (next a))
      → Succeeds Q (run >>= next)
  Succeeds-then P Q no_fuel next h k = absurd h
  Succeeds-then P Q fault next h k = absurd h
  Succeeds-then P Q (ok a) next h k = k a h

  pub Succeeds-try :
      (P : A → Type 0) (Q : B → Type 0) (run : Parsed A) (next : A → Parsed B)
      → Succeeds (IfTrue P) run
      → ((a : A) → P a → Succeeds (IfTrue Q) (next a))
      → Succeeds (IfTrue Q) (run >>? next)
  unfolding ◌>>?◌
  Succeeds-try P Q no_fuel next h k = absurd h
  Succeeds-try P Q fault next h k = absurd h
  Succeeds-try P Q (ok none) next h k = tt
  Succeeds-try P Q (ok (some a)) next h k = k a h

module _ {A : Type 0} where
  pub Succeeds-if :
      (P : A → Type 0) (b : Bool) (x y : Run A)
      → (b ≡ true → Succeeds P x)
      → (b ≡ false → Succeeds P y)
      → Succeeds P (if b then x else y)
  Succeeds-if P true x y h k = h refl
  Succeeds-if P false x y h k = k refl

  pub Succeeds-elim :
      (P : A → Type 0) (b : Bool) (x y : Run A)
      → (b ≡ true → Succeeds P x)
      → (b ≡ false → Succeeds P y)
      → Succeeds P (elim b [ true ↦ x | false ↦ y ])
  Succeeds-elim P true x y h k = h refl
  Succeeds-elim P false x y h k = k refl

-- The byte that a backslash skips is not the end of the text.
abbrev pub StartsOn : Bytes → Type 0
StartsOn [] = ⊥
StartsOn (c ∷ p) = c ≢ 0

abbrev pub IsText : Bytes → Type 0
IsText [] = ⊥
IsText (c ∷ p) = (c ≡ 0) ⊎ ((c ≡ b'\\' → StartsOn p) × IsText p)

-- A place in the text, not before the place `p`.
abbrev pub From : Bytes → Bytes → Type 0
From p q = IsText q × (length q ≤ length p)

pub IsText-next : (c : ℕ) (p : Bytes) → IsText (c ∷ p) → (c == 0) ≡ false → IsText p
IsText-next c p (inl z) h = absurd (ground arith)
IsText-next c p (inr (b, t)) h = t

pub From-trans : (p q r : Bytes) → From p q → From q r → From p r
From-trans p q r (t, h) (u, k) = (u, omega arith)

module _ {A : Type 0} where
  pub Succeeds-imp :
      (P Q : A → Type 0) (run : Run A) → Succeeds P run → ((a : A) → P a → Q a) → Succeeds Q run
  Succeeds-imp P Q no_fuel h k = absurd h
  Succeeds-imp P Q fault h k = absurd h
  Succeeds-imp P Q (ok a) h k = k a h

pub skip_comment_1-Succeeds : (p : Bytes) → IsText p → Succeeds (From p) (skip_comment_1 p)
unfolding skip_comment_1
skip_comment_1-Succeeds [] t = absurd t
skip_comment_1-Succeeds (c ∷ p) t = elim (Bool-cases (c == 0)) [
  | inl z ↦ rw z (t, omega arith)
  | inr nz ↦
      let t' = IsText-next c p t nz in
      elim (Bool-cases (c == b'\n')) [
        | inl line ↦ rw (nz, line) (t', omega arith)
        | inr on ↦
            rw (nz, on)
              (Succeeds-imp (From p) (From (c ∷ p)) _ (skip_comment_1-Succeeds p t')
                (λ q (u, l). (u, omega arith)))
      ]
]

pub From-tail : (c : ℕ) (p q : Bytes) → From p q → From (c ∷ p) q
From-tail c p q (t, l) = (t, omega arith)

pub skip_comment_2-Succeeds : (p : Bytes) → IsText p → Succeeds (From p) (skip_comment_2 p)
unfolding skip_comment_2
skip_comment_2-Succeeds [] t = absurd t
skip_comment_2-Succeeds (c ∷ []) t = elim (Bool-cases (c == 0)) [
  | inl z ↦ rw z (t, omega arith)
  | inr nz ↦ absurd (IsText-next c [] t nz)
]
skip_comment_2-Succeeds (c ∷ d ∷ p) t = elim (Bool-cases (c == 0)) [
  | inl z ↦ rw z (t, omega arith)
  | inr nz ↦
      let t' = IsText-next c (d ∷ p) t nz in
      let later =
        Succeeds-imp (From (d ∷ p)) (From (c ∷ d ∷ p)) _ (skip_comment_2-Succeeds (d ∷ p) t')
          (From-tail c (d ∷ p)) in
      elim (Bool-cases (c == b'*')) [
        | inl star ↦ elim (Bool-cases (d == b'/')) [
          | inl slash ↦ rw (nz, star, slash) (IsText-next d p t' (ground arith), omega arith)
          | inr no_slash ↦ rw (nz, star, no_slash) later
        ]
        | inr no_star ↦ rw (nz, no_star) later
      ]
]

pub skip_spaces-Succeeds : (p : Bytes) → IsText p → Succeeds (From p) (skip_spaces p)
unfolding skip_spaces is_blank
skip_spaces-Succeeds [] t = absurd t
skip_spaces-Succeeds (c ∷ p) t = elim (Bool-cases (is_blank c)) [
  | inl blank ↦
      let nz : (c == 0) ≡ false = ground arith in
      rw (is_blank, blank)
        (Succeeds-imp (From p) (From (c ∷ p)) _ (skip_spaces-Succeeds p (IsText-next c p t nz))
          (From-tail c p))
  | inr solid ↦ rw (is_blank, solid) (t, omega arith)
]

-- A place behind the place `p`.
abbrev pub Behind : Bytes → Bytes → Type 0
Behind p q = IsText q × (length q < length p)

skip_comment-Succeeds : (p : Bytes) → IsText p → Succeeds (IfTrue (Behind p)) (skip_comment p)
unfolding skip_comment
skip_comment-Succeeds [] t = absurd t
skip_comment-Succeeds (c ∷ []) t = elim (Bool-cases (c == b'/')) [
  | inl slash ↦ absurd (IsText-next c [] t (ground arith))
  | inr other ↦ rw other tt
]
skip_comment-Succeeds (c ∷ d ∷ p) t = elim (Bool-cases (c == b'/')) [
  | inr other ↦ rw other tt
  | inl slash ↦
      let t' = IsText-next c (d ∷ p) t (ground arith) in
      elim (Bool-cases (d == b'/')) [
        | inl line ↦
            rw (slash, line)
              (Succeeds-then (From p) (IfTrue (Behind (c ∷ d ∷ p))) _ _
                (skip_comment_1-Succeeds p (IsText-next d p t' (ground arith)))
                (λ q (u, l). (u, omega arith)))
        | inr no_line ↦ elim (Bool-cases (d == b'*')) [
          | inl star ↦
              rw (slash, no_line, star)
                (Succeeds-then (From p) (IfTrue (Behind (c ∷ d ∷ p))) _ _
                  (skip_comment_2-Succeeds p (IsText-next d p t' (ground arith)))
                  (λ q (u, l). (u, omega arith)))
          | inr no_star ↦ rw (slash, no_line, no_star) tt
        ]
      ]
]

skip_blank_loop-Succeeds :
    (fuel : ℕ) (p : Bytes) → IsText p → length p < fuel → Succeeds (From p) (skip_blank_loop fuel p)
unfolding skip_blank_loop
skip_blank_loop-Succeeds zero p t h = absurd (omega arith)
skip_blank_loop-Succeeds (suc fuel) p t h =
    Succeeds-then (From p) (From p) (skip_spaces p) _ (skip_spaces-Succeeds p t) (λ q (u, l).
      Succeeds-then (IfTrue (Behind q)) (From p) (skip_comment q) _ (skip_comment-Succeeds q u)
        (λ o.
          elim o
            as (λ k.
              IfTrue (Behind q) k
              → Succeeds (From p) (elim k [ none ↦ ok q | some r ↦ skip_blank_loop fuel r ])) [
                | none ↦ λ k. (u, l)
                | some r ↦ λ (v, m).
                    Succeeds-imp (From r) (From p) _
                      (skip_blank_loop-Succeeds fuel r v (omega arith))
                      (λ s (w, n). (w, omega arith))
              ]))

pub skip_blank-Succeeds : (p : Bytes) → IsText p → Succeeds (From p) (skip_blank p)
unfolding skip_blank
skip_blank-Succeeds p t = skip_blank_loop-Succeeds (suc (length p)) p t (omega arith)

-- What is left by a call that starts at the place `p`.
module _ {A : Type 0} where
  abbrev pub RestFrom : Bytes → A × Bytes → Type 0
  RestFrom p r = From p (r.1)

  abbrev pub RestBehind : Bytes → A × Bytes → Type 0
  RestBehind p r = Behind p (r.1)

abbrev pub Matched : Bytes → Bool × Bytes → Type 0
Matched p m = From p (m.1) × (m.0 ≡ true → Behind p (m.1))

match_char_at :
    (ch : ℕ) (p : Bytes)
    → (ch == 0) ≡ false
    → (q : Bytes) → From p q
    → Succeeds
        (Matched p)
        (reads (get_elem? q 0) >>= λ c. if c == ch then ok (true, drop 1 q) else ok (false, q))
match_char_at ch p nz [] (t, l) = absurd t
match_char_at ch p nz (c ∷ q) (t, l) = elim (Bool-cases (c == ch)) [
  | inl same_char ↦
      let u = IsText-next c q t (ground arith) in
      rw same_char ((u, omega arith), λ e. (u, omega arith))
  | inr other ↦ rw other ((t, l), λ e. absurd (ground arith))
]

pub match_char-Succeeds :
    (ch : ℕ) (p : Bytes) → (ch == 0) ≡ false → IsText p → Succeeds (Matched p) (match_char ch p)
unfolding match_char
match_char-Succeeds ch p nz t =
    Succeeds-then (From p) _ (skip_blank p) _ (skip_blank-Succeeds p t) (match_char_at ch p nz)

-- Neither a blank nor the start of a comment.
pub skip_blank_solid :
    (c : ℕ) (p : Bytes) → is_blank c ≡ false → (c == b'/') ≡ false → skip_blank (c ∷ p) ≡ ok (c ∷ p)
unfolding skip_blank skip_blank_loop skip_spaces skip_comment
skip_blank_solid c p solid other = rw (skip_spaces, solid, other) refl
