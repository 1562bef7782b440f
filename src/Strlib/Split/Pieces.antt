-- ===== src/Strlib/Split/Pieces.antt =====
-- What stands in front of a found separator has no separator in it.
use ew_base.Prelude.{
  ◌<◌, ◌≡◌, refl, inl, inr, Bool-cases, Option, none, some, [], ◌∷◌, ◌++◌, ◌==◌, length, arith,
}
use ew_base.Codecvt.{Bytes}
use ew_base.Strlib.Split.{behind, strstr}
use ew_base.Strlib.Split.Found.{option_split, strstr-Cuts}

no_separator-nil : (b : Bytes) → 0 < length b → strstr b [] ≡ none
unfolding strstr behind
no_separator-nil [] some_byte = absurd (omega arith)
no_separator-nil (x ∷ b) some_byte = refl

-- A text does not start with the separator if a longer text does not.
behind-append : (b p t : Bytes) → behind b (p ++ t) ≡ none → behind b p ≡ none
unfolding behind
behind-append [] p t h = absurd (cc h)
behind-append (x ∷ b) [] t h = refl
behind-append (x ∷ b) (y ∷ p) t h = elim (Bool-cases (x == y)) [
  | inl e ↦ rw (behind, e) (behind-append b p t (rw (behind, e) at h))
  | inr e ↦ rw (behind, e) refl
]

abbrev Apart : Bytes → Option (Bytes × Bytes) → Type 0
Apart b none = Unit
Apart b (some r) = strstr b r.0 ≡ none

pub strstr-Apart : (b s : Bytes) → 0 < length b → Apart b (strstr b s)
unfolding strstr
strstr-Apart b [] some_byte = rw (no_separator-nil b some_byte) tt
strstr-Apart b (y ∷ s) some_byte = elim (option_split (behind b (y ∷ s))) [
  | inr (t, e) ↦ rw (strstr, e) (no_separator-nil b some_byte)
  | inl e ↦ elim (option_split (strstr b s)) [
    | inl f ↦ rw (strstr, e, f) tt
    | inr (r, f) ↦
        let cut : s ≡ r.0 ++ b ++ r.1 = rw f at (strstr-Cuts b s) in
        let here : behind b (y ∷ r.0) ≡ none =
          behind-append b (y ∷ r.0) b (behind-append b (y ∷ (r.0 ++ b)) r.1 (rw cut at e)) in
        let later : strstr b r.0 ≡ none = rw f at (strstr-Apart b s some_byte) in
        rw (strstr, e, f, here, later) refl
  ]
]
