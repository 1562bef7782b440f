-- ===== src/Strlib/Split/Join.antt =====
-- The pieces of `string_split`, joined by the separator, are the text.
use ew_base.Prelude.{
  ℕ, zero, suc, ◌<◌, ◌≡◌, refl, sym, ap, ◌∙◌, inl, inr, none, List, [], ◌∷◌, ◌++◌, length,
  length-append, All, arith,
}
use ew_base.Prelude.Run.{ok}
use ew_base.Codecvt.{Bytes}
use ew_base.Strlib.Split.{strstr, split_loop, string_split}
use ew_base.Strlib.Split.Found.{option_split, strstr-Cuts}
use ew_base.Strlib.Split.Pieces.{strstr-Apart}

unfoldable pub join : Bytes → List Bytes → Bytes
join b [] = []
join b (p ∷ []) = p
join b (p ∷ q ∷ ps) = p ++ b ++ join b (q ∷ ps)

join-cons : (b p : Bytes) (ps : List Bytes) → 0 < length ps → join b (p ∷ ps) ≡ p ++ b ++ join b ps
unfolding join
join-cons b p [] h = absurd (omega arith)
join-cons b p (q ∷ ps) h = refl

split_loop-join :
    (fuel : ℕ) (b s : Bytes)
    → 0 < length b
    → length s < fuel
    → (ps : List Bytes) × (split_loop fuel b s ≡ ok ps)
      × (0 < length ps)
      × (join b ps ≡ s)
      × All (λ p. strstr b p ≡ none) ps
unfolding split_loop join
split_loop-join zero b s some_byte enough = absurd (omega arith)
split_loop-join (suc fuel) b s some_byte enough = elim (option_split (strstr b s)) [
  | inl e ↦ (s ∷ [], rw (split_loop, e) refl, omega arith, refl, (e, tt))
  | inr (r, e) ↦
      let cut : s ≡ r.0 ++ b ++ r.1 = rw e at (strstr-Cuts b s) in
      let shorter : length r.1 < fuel =
        omega (arith, ap length cut, length-append (r.0 ++ b) r.1, length-append r.0 b) in
      let (ps, run, more, joined, apart) = split_loop-join fuel b r.1 some_byte shorter in
      (
        r.0 ∷ ps,
        rw (split_loop, e, run) refl,
        omega arith,
        join-cons b r.0 ps more ∙ ap (λ t. r.0 ++ b ++ t) joined ∙ sym cut,
        (rw e at (strstr-Apart b s some_byte), apart),
      )
]

-- With a separator that is not empty the loop ends, the pieces joined by the separator are the text,
-- and the separator stands in no piece.
pub string_split-join :
    (s b : Bytes)
    → 0 < length b
    → (ps : List Bytes) × (string_split s b ≡ ok ps)
      × (join b ps ≡ s)
      × All (λ p. strstr b p ≡ none) ps
unfolding string_split
string_split-join s b some_byte =
    let (ps, run, more, joined, apart) =
      split_loop-join (suc (length s)) b s some_byte (omega arith) in
    (ps, run, joined, apart)
