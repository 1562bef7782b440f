-- ===== src/LinearBuffer/Scan/Skips.antt =====
-- What the skipping loops leave of what is pending.
use ew_base.Prelude.{
  ℕ, zero, suc, ◌+◌, ◌-◌, ◌≤◌, ◌<◌, ◌≡◌, refl, ap, ◌∙◌, inl, inr, Bool, true, false, Bool-cases,
  none, some, List, [], ◌∷◌, ◌==◌, length, get_elem?, take, drop, length-take, arith,
}
use ew_base.Prelude.Run.{ok}
use ew_base.LinearBuffer.{LinearBuffer, eof, get, peek, unget, rd_free}
use ew_base.LinearBuffer.Stream.{IsBuffer, pending, length-pending}
use ew_base.LinearBuffer.Scan.{skip_while, skip_space, is_space}

-- The buffer with one element more read.
abbrev pub forward : LinearBuffer → LinearBuffer
forward b = record b { rd_pos = b.rd_pos + 1 }

drop-take-step :
    (r w : ℕ) (xs : List ℕ)
    → r < w
    → w ≤ length xs
    → (v : ℕ) × (get_elem? xs r ≡ some v) × (drop r (take w xs) ≡ v ∷ drop (r + 1) (take w xs))
drop-take-step r zero xs h l = absurd (omega arith)
drop-take-step r (suc w) [] h l = absurd (omega arith)
drop-take-step zero (suc w) (x ∷ xs) h l = (x, refl, refl)
drop-take-step (suc r) (suc w) (x ∷ xs) h l =
    let (v, at, e) = drop-take-step r w xs (omega arith) (omega arith) in
    let shift : suc (r + 1) ≡ suc r + 1 = omega arith in
    (v, at, e ∙ ap (λ m. v ∷ drop m (take (suc w) (x ∷ xs))) shift)

drop_end : (r : ℕ) (xs : List ℕ) → length xs ≤ r → drop r xs ≡ []
drop_end zero [] h = refl
drop_end zero (x ∷ xs) h = absurd (omega arith)
drop_end (suc r) [] h = refl
drop_end (suc r) (x ∷ xs) h = drop_end r xs (omega arith)

-- The two outcomes of reading: at the end nothing is pending, and else the first pending element is
-- read.
pub data Gets (b : LinearBuffer) : Type 0 where
  ended : eof b ≡ true → pending b ≡ [] → get b ≡ ok (b, none) → Gets b
  got :
      (v : ℕ)
      → eof b ≡ false
      → get b ≡ ok (forward b, some v)
      → unget (forward b) ≡ some b
      → IsBuffer (forward b)
      → pending b ≡ v ∷ pending (forward b)
      → Gets b

pub get-Gets : (b : LinearBuffer) → IsBuffer b → Gets b
unfolding eof get unget pending
get-Gets b h = elim (Bool-cases (b.rd_pos == b.wr_pos)) [
  | inl e ↦
      let here : b.rd_pos ≡ b.wr_pos = ground arith in
      ended e
        (drop_end b.rd_pos (take b.wr_pos b.items) (omega (arith, length-take b.wr_pos b.items)))
        (rw e refl)
  | inr e ↦
      let before : b.rd_pos < b.wr_pos = ground (arith, h.ordered) in
      let inside : b.wr_pos ≤ length b.items = omega (arith, h.written, h.allocated) in
      let (v, at, p) = drop-take-step b.rd_pos b.wr_pos b.items before inside in
      let positive : (b.rd_pos + 1 == 0) ≡ false = ground arith in
      let back : b.rd_pos + 1 - 1 ≡ b.rd_pos = omega arith in
      got v e (rw (e, at) refl) (rw positive (ap (λ r. some (record b { rd_pos = r })) back))
        (record { ordered = omega arith; written = h.written; allocated = h.allocated }) p
]

pub peek-first :
    (b : LinearBuffer) {v : ℕ} {rest : List ℕ}
    → IsBuffer b
    → pending b ≡ v ∷ rest
    → peek b ≡ ok (some v)
unfolding peek pending
peek-first b {v} {rest} h first = elim (Bool-cases (b.rd_pos == b.wr_pos)) [
  | inl e ↦
      let here : b.rd_pos ≡ b.wr_pos = ground arith in
      let none_left : drop b.rd_pos (take b.wr_pos b.items) ≡ [] =
        drop_end b.rd_pos (take b.wr_pos b.items) (omega (arith, length-take b.wr_pos b.items)) in
      absurd (omega (arith, ap length first, ap length none_left))
  | inr e ↦
      let before : b.rd_pos < b.wr_pos = ground (arith, h.ordered) in
      let (v', at, p) =
        drop-take-step b.rd_pos b.wr_pos b.items before (omega (arith, h.written, h.allocated)) in
      let same : v' ≡ v = cc in rw (e, at) (ap (λ x. ok (some x)) same)
]

unfoldable pub drop_while : (ℕ → Bool) → List ℕ → List ℕ
drop_while keep [] = []
drop_while keep (v ∷ vs) = elim (keep v) [ true ↦ drop_while keep vs | false ↦ v ∷ vs ]

pub skip_while-drop_while :
    (keep : ℕ → Bool) (fuel : ℕ) (b : LinearBuffer)
    → IsBuffer b
    → length (pending b) < fuel
    → (b' : LinearBuffer) × (skip_while keep fuel b ≡ ok (some b'))
      × IsBuffer b'
      × (pending b' ≡ drop_while keep (pending b))
unfolding skip_while drop_while
skip_while-drop_while keep zero b h enough = absurd (omega arith)
skip_while-drop_while keep (suc fuel) b h enough = elim (get-Gets b h) [
  | ended e none_left g ↦ (b, rw (skip_while, e) refl, h, rw none_left refl)
  | got v e g back h' p ↦
      let fewer : length (pending (forward b)) < fuel = ground (arith, ap length p) in
      elim (Bool-cases (keep v)) [
        | inl t ↦
            let (b', run, h'', q) = skip_while-drop_while keep fuel (forward b) h' fewer in
            (b', rw (skip_while, e, g, t) run, h'', rw (p, drop_while, t) q)
        | inr t ↦ (b, rw (skip_while, e, g, t) (ap ok back), h, rw (p, drop_while, t) refl)
      ]
]

-- `skip_space` on a well-formed buffer ends without a fault or an exception, with all of what was
-- pending but the spaces and tabs in front.
pub skip_space-drop_while :
    (b : LinearBuffer)
    → IsBuffer b
    → (b' : LinearBuffer) × (skip_space b ≡ ok (some b'))
      × IsBuffer b'
      × (pending b' ≡ drop_while is_space (pending b))
unfolding skip_space rd_free
skip_space-drop_while b h =
    skip_while-drop_while is_space (suc (b.wr_pos - b.rd_pos)) b h
      (omega (arith, length-pending b h))
