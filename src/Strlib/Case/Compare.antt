-- ===== src/Strlib/Case/Compare.antt =====
-- `string_compare_no_case` is the order of the texts in lower case.
use ew_base.Prelude.{
  ℕ, ◌≡◌, ◌≢◌, refl, inl, inr, false, Bool-cases, [], ◌∷◌, ◌++◌, ltb, ◌==◌, if◌then◌else◌, All,
  arith,
}
use ew_base.Prelude.Int.{ℤ, pos, negsuc}
use ew_base.Prelude.Run.{ok}
use ew_base.Codecvt.{Bytes}
use ew_base.Strlib.Case.{lowercase, string_to_lower, compare_round, string_compare_no_case}

-- The order of the dictionary: 1, 0 or -1.
unfoldable pub dictionary_order : Bytes → Bytes → ℤ
dictionary_order [] [] = pos 0
dictionary_order [] (y ∷ ys) = negsuc 0
dictionary_order (x ∷ xs) [] = pos 1
dictionary_order (x ∷ xs) (y ∷ ys) =
    let later = dictionary_order xs ys in
    if ltb y x then pos 1 else if ltb x y then negsuc 0 else later

-- Bytes of a text, before its end.
abbrev pub IsByte : ℕ → Type 0
IsByte c = c ≢ 0

lowercase_nonzero : (c : ℕ) → IsByte c → lowercase c ≢ 0
unfolding lowercase
lowercase_nonzero c h = ground arith

lowercase_end : lowercase 0 ≡ 0
unfolding lowercase
lowercase_end = refl

-- Of two texts without zero bytes, with zero bytes behind them in the memory, string_compare_no_case
-- returns the order of the dictionary of the texts in lower case.
pub string_compare_no_case-order :
    (us vs m n : Bytes)
    → All IsByte us
    → All IsByte vs
    → string_compare_no_case (us ++ 0 ∷ m) (vs ++ 0 ∷ n)
      ≡ ok (dictionary_order (string_to_lower us) (string_to_lower vs))
unfolding string_compare_no_case dictionary_order string_to_lower compare_round
string_compare_no_case-order [] [] m n h k = rw lowercase_end refl
string_compare_no_case-order [] (y ∷ vs) m n h (k, ks) =
    let lower : lowercase y ≢ 0 = lowercase_nonzero y k in rw lowercase_end (ground arith)
string_compare_no_case-order (x ∷ us) [] m n (h, hs) k =
    let lower : lowercase x ≢ 0 = lowercase_nonzero x h in rw lowercase_end (ground arith)
string_compare_no_case-order (x ∷ us) (y ∷ vs) m n (h, hs) (k, ks) =
    let lower : lowercase x ≢ 0 = lowercase_nonzero x h in
    let ih = string_compare_no_case-order us vs m n hs ks in
    elim (Bool-cases (ltb (lowercase y) (lowercase x))) [
      | inl more ↦ rw more refl
      | inr no_more ↦ elim (Bool-cases (ltb (lowercase x) (lowercase y))) [
        | inl less ↦ rw (no_more, less) refl
        | inr no_less ↦
            let z : (lowercase x == 0) ≡ false = ground arith in rw (no_more, no_less, z) ih
      ]
    ]
