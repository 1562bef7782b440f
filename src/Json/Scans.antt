-- ===== src/Json/Scans.antt =====
-- Words and the scans of strings in a text.
use ew_base.Prelude.{
  ℕ, zero, suc, ◌≡◌, ◌≢◌, refl, ap, inl, inr, true, false, Bool-cases, some, [], ◌∷◌, ◌++◌, ◌==◌,
  if◌then◌else◌, length, get_elem?, drop, arith,
}
use ew_base.Prelude.Run.{ok, ◌>>=◌, reads}
use ew_base.Codecvt.{Bytes}
use ew_base.Json.Lexer.{
  Parsed, ◌>>?◌, is_blank, skip_blank, is_word, word_loop, read_chunk, triple_round, read_triple,
  Quoted, scan_string,
}
use ew_base.Json.Reads.{
  Succeeds, IfTrue, Succeeds-then, Succeeds-try, Succeeds-imp, IsText, IsText-next, From, Behind,
  RestFrom, RestBehind, skip_blank-Succeeds, skip_blank_solid,
}

only_end : (c : ℕ) → IsText (c ∷ []) → c ≡ 0
only_end c (inl z) = z
only_end c (inr (b, t)) = absurd t

skipped : (c d : ℕ) (p : Bytes) → IsText (c ∷ d ∷ p) → (c == b'\\') ≡ true → d ≢ 0
skipped c d p (inl z) h = absurd (ground arith)
skipped c d p (inr (b, t)) h = b (ground arith)

-- The first `n` bytes are not the end of the text.
abbrev pub Clear : ℕ → Bytes → Type 0
Clear zero p = Unit
Clear (suc n) [] = ⊥
Clear (suc n) (c ∷ p) = (c ≢ 0) × Clear n p

word_solid : (c : ℕ) → is_word c ≡ true → is_blank c ≡ false
unfolding is_word is_blank
word_solid c w = ground arith

word_no_slash : (c : ℕ) → is_word c ≡ true → (c == b'/') ≡ false
unfolding is_word
word_no_slash c w = ground arith

word_nonzero : (c : ℕ) → is_word c ≡ true → (c == 0) ≡ false
unfolding is_word
word_nonzero c w = ground arith

pub word_loop-Succeeds : (p : Bytes) → IsText p → Succeeds (RestFrom p) (word_loop p)
unfolding word_loop is_word
word_loop-Succeeds [] t = absurd t
word_loop-Succeeds (c ∷ p) t = elim (Bool-cases (is_word c)) [
  | inl w ↦
      let nz : (c == 0) ≡ false = ground arith in
      rw (is_word, w)
        (Succeeds-then (RestFrom p) (RestFrom (c ∷ p)) (word_loop p) _
          (word_loop-Succeeds p (IsText-next c p t nz)) (λ r (u, l). (u, omega arith)))
  | inr other ↦ rw (is_word, other) (t, omega arith)
]

pub read_chunk-Succeeds : (p : Bytes) → IsText p → Succeeds (RestFrom p) (read_chunk p)
unfolding read_chunk
read_chunk-Succeeds p t =
    Succeeds-then (From p) (RestFrom p) (skip_blank p) _ (skip_blank-Succeeds p t) (λ q (u, l).
      Succeeds-imp (RestFrom q) (RestFrom p) _ (word_loop-Succeeds q u)
        (λ r (v, m). (v, omega arith)))

read_triple_on :
    (c : ℕ) (p : Bytes)
    → Succeeds (IfTrue (RestBehind p)) (read_triple p)
    → Succeeds (IfTrue (RestBehind (c ∷ p))) (read_triple p >>? λ r. ok (some (c ∷ r.0, r.1)))
read_triple_on c p h =
    Succeeds-try (RestBehind p) (RestBehind (c ∷ p)) (read_triple p) _ h
      (λ r (u, l). (u, omega arith))

triple_marks :
    (c : ℕ) (p : Bytes) (on : Parsed (Bytes × Bytes))
    → IsText p
    → Succeeds (IfTrue (RestBehind (c ∷ p))) on
    → Succeeds (IfTrue (RestBehind (c ∷ p))) (
        reads (get_elem? p 0) >>= λ d.
        if d == b'"'
        then (reads (get_elem? p 1) >>= λ e. if e == b'"' then ok (some ([], drop 2 p)) else on)
        else on)
triple_marks c [] on t h = absurd t
triple_marks c (d ∷ []) on t h =
    let end : d ≡ 0 = only_end d t in let other : (d == b'"') ≡ false = ground arith in rw other h
triple_marks c (d ∷ e ∷ p) on t h = elim (Bool-cases (d == b'"')) [
  | inl two ↦ elim (Bool-cases (e == b'"')) [
    | inl three ↦
        rw (two, three)
          (IsText-next e p (IsText-next d (e ∷ p) t (ground arith)) (ground arith), omega arith)
    | inr other ↦ rw (two, other) h
  ]
  | inr other ↦ rw other h
]

triple_round-Succeeds :
    (c : ℕ) (p : Bytes) (on : Parsed (Bytes × Bytes))
    → IsText (c ∷ p)
    → ((c == 0) ≡ false → Succeeds (IfTrue (RestBehind (c ∷ p))) on)
    → Succeeds (IfTrue (RestBehind (c ∷ p))) (triple_round c p on)
unfolding triple_round
triple_round-Succeeds c p on t h = elim (Bool-cases (c == 0)) [
  | inl z ↦ rw z tt
  | inr nz ↦ elim (Bool-cases (c == b'"')) [
    | inl mark ↦ rw (nz, mark) (triple_marks c p on (IsText-next c p t nz) (h nz))
    | inr other ↦ rw (nz, other) (h nz)
  ]
]

pub read_triple-Succeeds : (p : Bytes) → IsText p → Succeeds (IfTrue (RestBehind p)) (read_triple p)
unfolding read_triple
read_triple-Succeeds [] t = absurd t
read_triple-Succeeds (c ∷ p) t =
    triple_round-Succeeds c p _ t
      (λ nz. read_triple_on c p (read_triple-Succeeds p (IsText-next c p t nz)))

-- What the scan of a string finds.
pub record Scanned (p : Bytes) (q : Quoted) : Type 0 where
  pub parts : q.raw ++ q.mark ≡ p
  pub mark_text : IsText q.mark
  pub rest_behind : Behind p (drop 1 q.mark)
  pub inner : Clear (length q.raw) p

pub scan_string-Succeeds : (p : Bytes) → IsText p → Succeeds (IfTrue (Scanned p)) (scan_string p)
unfolding scan_string
scan_string-Succeeds [] t = absurd t
scan_string-Succeeds (c ∷ []) t =
    let end : c ≡ 0 = only_end c t in
    let other : (c == b'"') ≡ false = ground arith in
    let z : (c == 0) ≡ true = ground arith in rw (other, z) tt
scan_string-Succeeds (c ∷ d ∷ p) t = elim (Bool-cases (c == b'"')) [
  | inl mark ↦ rw mark (record {
    parts = refl;
    mark_text = t;
    rest_behind = (IsText-next c (d ∷ p) t (ground arith), omega arith);
    inner = tt;
  })
  | inr other ↦ elim (Bool-cases (c == 0)) [
    | inl z ↦ rw (other, z) tt
    | inr nz ↦ elim (Bool-cases (c == b'\\')) [
      | inl back ↦
          let t' = IsText-next c (d ∷ p) t nz in
          let dz = skipped c d p t back in
          rw (other, nz, back)
            (Succeeds-try (Scanned p) (Scanned (c ∷ d ∷ p)) _ _
              (scan_string-Succeeds p (IsText-next d p t' (ground arith)))
              (λ q s. record {
                parts = ap (λ z. c ∷ d ∷ z) s.parts;
                mark_text = s.mark_text;
                rest_behind = (s.rest_behind.0, omega (arith, s.rest_behind.1));
                inner = (ground arith, (dz, s.inner));
              }))
      | inr plain ↦
          rw (other, nz, plain)
            (Succeeds-try (Scanned (d ∷ p)) (Scanned (c ∷ d ∷ p)) _ _
              (scan_string-Succeeds (d ∷ p) (IsText-next c (d ∷ p) t nz))
              (λ q s. record {
                parts = ap (λ z. c ∷ z) s.parts;
                mark_text = s.mark_text;
                rest_behind = (s.rest_behind.0, omega (arith, s.rest_behind.1));
                inner = (ground arith, s.inner);
              }))
    ]
  ]
]

-- A word that is not empty.
pub read_chunk-Behind :
    (c : ℕ) (p : Bytes)
    → is_word c ≡ true
    → IsText (c ∷ p)
    → Succeeds (RestBehind (c ∷ p)) (read_chunk (c ∷ p))
unfolding read_chunk word_loop
read_chunk-Behind c p w t =
    rw (skip_blank_solid c p (word_solid c w) (word_no_slash c w), w)
      (Succeeds-then (RestFrom p) (RestBehind (c ∷ p)) (word_loop p) _
        (word_loop-Succeeds p (IsText-next c p t (word_nonzero c w)))
        (λ r (u, l). (u, omega arith)))
