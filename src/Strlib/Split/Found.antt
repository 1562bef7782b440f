-- ===== src/Strlib/Split/Found.antt =====
-- `strstr` cuts the text at a separator.
use ew_base.Prelude.{
  ℕ, ◌≡◌, refl, ap, ◌⊎◌, inl, inr, Bool-cases, Option, none, some, [], ◌∷◌, ◌++◌, ◌==◌, arith,
}
use mathlib.Core.Path.{subst}
use ew_base.Codecvt.{Bytes}
use ew_base.Strlib.Split.{behind, strstr}

pub option_split : {A : Type 0} (o : Option A) → (o ≡ none) ⊎ ((a : A) × (o ≡ some a))
option_split none = inl refl
option_split (some a) = inr (a, refl)

-- What a found separator says of the text.
abbrev Starts : Bytes → Bytes → Option Bytes → Type 0
Starts b s none = Unit
Starts b s (some t) = s ≡ b ++ t

Starts-cons : (x : ℕ) (b s : Bytes) (o : Option Bytes) → Starts b s o → Starts (x ∷ b) (x ∷ s) o
Starts-cons x b s none h = tt
Starts-cons x b s (some t) h = ap (x ∷◌) h

behind-Starts : (b s : Bytes) → Starts b s (behind b s)
unfolding behind
behind-Starts [] s = refl
behind-Starts (x ∷ b) [] = tt
behind-Starts (x ∷ b) (y ∷ s) = elim (Bool-cases (x == y)) [
  | inl e ↦
      let same : x ≡ y = ground arith in
      rw (behind, e)
        (subst (λ z. Starts (x ∷ b) (z ∷ s) (behind b s)) same
          (Starts-cons x b s (behind b s) (behind-Starts b s)))
  | inr e ↦ rw (behind, e) tt
]

abbrev pub Cuts : Bytes → Bytes → Option (Bytes × Bytes) → Type 0
Cuts b s none = Unit
Cuts b s (some r) = s ≡ r.0 ++ b ++ r.1

pub strstr-Cuts : (b s : Bytes) → Cuts b s (strstr b s)
unfolding strstr
strstr-Cuts b [] = elim (option_split (behind b [])) [
  | inl e ↦ rw (strstr, e) tt
  | inr (t, e) ↦ rw (strstr, e) (rw e at (behind-Starts b []))
]
strstr-Cuts b (y ∷ s) = elim (option_split (behind b (y ∷ s))) [
  | inr (t, e) ↦ rw (strstr, e) (rw e at (behind-Starts b (y ∷ s)))
  | inl e ↦ elim (option_split (strstr b s)) [
    | inl f ↦ rw (strstr, e, f) tt
    | inr (r, f) ↦ rw (strstr, e, f) (ap (y ∷◌) (rw f at (strstr-Cuts b s)))
  ]
]
