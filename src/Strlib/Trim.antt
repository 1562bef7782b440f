-- ===== src/Strlib/Trim.antt =====
-- src/ewa_base/util/strlib.cpp: `string_trim`, on texts as lists of bytes other than zero.
use ew_base.Prelude.{
  ℕ, suc, ◌≡◌, ◌≢◌, refl, ap, ◌∙◌, inl, inr, Bool, true, false, Bool-cases, [], ◌∷◌, ◌++◌,
  append_assoc, replicate, ◌==◌, if◌then◌else◌, arith,
}
use ew_base.Codecvt.{Bytes}

-- The loop over `p1`, for `TRIM_L`.
unfoldable pub trim_left : ℕ → Bytes → Bytes
trim_left ch [] = []
trim_left ch (c ∷ s) = let rest = trim_left ch s in if c == ch then rest else c ∷ s

-- A byte in front of what the loop over `p2` leaves, and that loop, for `TRIM_R`.
unfoldable pub keep_byte : ℕ → ℕ → Bytes → Bytes
keep_byte ch c [] = if c == ch then [] else c ∷ []
keep_byte ch c (d ∷ s) = c ∷ d ∷ s

unfoldable pub trim_right : ℕ → Bytes → Bytes
unfolding keep_byte
trim_right ch [] = []
trim_right ch (c ∷ s) = keep_byte ch c (trim_right ch s)

-- The loop for `TRIM_M`, which ends at the first `ch`.
unfoldable pub trim_middle : ℕ → Bytes → Bytes
trim_middle ch [] = []
trim_middle ch (c ∷ s) = let rest = trim_middle ch s in if c == ch then [] else c ∷ rest

-- The flags are `TRIM_L`, `TRIM_R` and `TRIM_M`.
unfoldable pub string_trim : Bool → Bool → Bool → ℕ → Bytes → Bytes
unfolding trim_left trim_right trim_middle
string_trim left right middle ch s =
    let s1 = if left then trim_left ch s else s in
    let s2 = if right then trim_right ch s1 else s1 in if middle then trim_middle ch s2 else s2

-- A text that does not start with `ch`, and one that does not end with it.
abbrev pub StartsWithout : ℕ → Bytes → Type 0
StartsWithout ch [] = Unit
StartsWithout ch (c ∷ s) = c ≢ ch

abbrev pub EndsWithout : ℕ → Bytes → Type 0
EndsWithout ch [] = Unit
EndsWithout ch (c ∷ []) = c ≢ ch
EndsWithout ch (c ∷ d ∷ s) = EndsWithout ch (d ∷ s)

trim_left-parts :
    (ch : ℕ) (s : Bytes)
    → (a : ℕ) × (s ≡ replicate a ch ++ trim_left ch s) × StartsWithout ch (trim_left ch s)
unfolding trim_left
trim_left-parts ch [] = (0, refl, tt)
trim_left-parts ch (c ∷ s) = elim (Bool-cases (c == ch)) [
  | inl hit ↦
      let (a, parts, start) = trim_left-parts ch s in
      let e : c ≡ ch = ground arith in rw hit (suc a, rw e (ap (λ z. ch ∷ z) parts), start)
  | inr other ↦ rw other (0, refl, ground arith)
]

-- The text `s` without some `ch` at its end.
pub record TrimmedRight (ch : ℕ) (s t : Bytes) : Type 0 where
  pub count : ℕ
  pub parts : s ≡ t ++ replicate count ch
  pub end : EndsWithout ch t

keep_byte-TrimmedRight :
    (ch c : ℕ) (s t : Bytes) → TrimmedRight ch s t → TrimmedRight ch (c ∷ s) (keep_byte ch c t)
unfolding keep_byte
keep_byte-TrimmedRight ch c s (d ∷ t) r = record {
  count = r.count;
  parts = ap (λ z. c ∷ z) r.parts;
  end = r.end;
}
keep_byte-TrimmedRight ch c s [] r = elim (Bool-cases (c == ch)) [
  | inl hit ↦
      let e : c ≡ ch = ground arith in
      rw hit (record { count = suc r.count; parts = rw e (ap (λ z. ch ∷ z) r.parts); end = tt })
  | inr other ↦
      rw other (record { count = r.count; parts = ap (λ z. c ∷ z) r.parts; end = ground arith })
]

trim_right-TrimmedRight : (ch : ℕ) (s : Bytes) → TrimmedRight ch s (trim_right ch s)
unfolding trim_right
trim_right-TrimmedRight ch [] = record { count = 0; parts = refl; end = tt }
trim_right-TrimmedRight ch (c ∷ s) =
    keep_byte-TrimmedRight ch c s (trim_right ch s) (trim_right-TrimmedRight ch s)

keep_byte-StartsWithout : (ch c : ℕ) (t : Bytes) → c ≢ ch → StartsWithout ch (keep_byte ch c t)
unfolding keep_byte
keep_byte-StartsWithout ch c (d ∷ t) h = h
keep_byte-StartsWithout ch c [] h = let other : (c == ch) ≡ false = ground arith in rw other h

trim_right-StartsWithout :
    (ch : ℕ) (s : Bytes) → StartsWithout ch s → StartsWithout ch (trim_right ch s)
unfolding trim_right
trim_right-StartsWithout ch [] h = tt
trim_right-StartsWithout ch (c ∷ s) h = keep_byte-StartsWithout ch c (trim_right ch s) h

-- The text `t` with `ch` on both sides is `s`, and `t` has none at its ends.
pub record Trimmed (ch : ℕ) (s t : Bytes) : Type 0 where
  pub left_count : ℕ
  pub right_count : ℕ
  pub whole : s ≡ replicate left_count ch ++ t ++ replicate right_count ch
  pub start : StartsWithout ch t
  pub end : EndsWithout ch t

-- With TRIM_B string_trim removes every `ch` at both ends of the text, and nothing else.
string_trim-Trimmed : (ch : ℕ) (s : Bytes) → Trimmed ch s (string_trim true true false ch s)
unfolding string_trim
string_trim-Trimmed ch s =
    let (a, parts, start) = trim_left-parts ch s in
    let r = trim_right-TrimmedRight ch (trim_left ch s) in
    record {
      left_count = a;
      right_count = r.count;
      whole = parts ∙ ap (λ z. replicate a ch ++ z) r.parts ∙ simp append_assoc;
      start = trim_right-StartsWithout ch (trim_left ch s) start;
      end = r.end;
    }
