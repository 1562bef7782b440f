-- ===== src/LinearBuffer/Stream.antt =====
-- The buffer as a stream: what is written is read in order.
use ew_base.Prelude.{
  ℕ, zero, suc, ◌+◌, ◌-◌, ◌≤◌, ◌≡◌, refl, sym, ap, ◌∙◌, true, List, [], ◌∷◌, ◌++◌, min, leb, length,
  take, drop, length-take, length-drop, length-append, arith,
}
use ew_base.Prelude.Run.{ok}
use ew_base.LinearBuffer.{LinearBuffer, load, store, recv, send}

pub record IsBuffer (b : LinearBuffer) : Type 0 where
  pub ordered : b.rd_pos ≤ b.wr_pos
  pub written : b.wr_pos ≤ b.sz_buf
  pub allocated : b.sz_buf ≡ length b.items

-- What is written and not read yet.
unfoldable pub pending : LinearBuffer → List ℕ
pending b = drop b.rd_pos (take b.wr_pos b.items)

take-prefix : (n : ℕ) (xs ys : List ℕ) → n ≡ length xs → take n (xs ++ ys) ≡ xs
take-prefix zero [] ys e = refl
take-prefix zero (x ∷ xs) ys e = absurd (omega arith)
take-prefix (suc n) [] ys e = absurd (omega arith)
take-prefix (suc n) (x ∷ xs) ys e = ap (x ∷◌) (take-prefix n xs ys (omega arith))

drop-append : (n : ℕ) (xs ys : List ℕ) → n ≤ length xs → drop n (xs ++ ys) ≡ drop n xs ++ ys
drop-append zero xs ys h = refl
drop-append (suc n) [] ys h = absurd (omega arith)
drop-append (suc n) (x ∷ xs) ys h = drop-append n xs ys (omega arith)

-- The elements from `r` up to `w`, cut at `r + k`.
take-cut :
    (k w : ℕ) (xs : List ℕ) → k ≤ w → w ≤ length xs → take w xs ≡ take k xs ++ drop k (take w xs)
take-cut zero w xs h l = refl
take-cut (suc k) zero xs h l = absurd (omega arith)
take-cut (suc k) (suc w) [] h l = absurd (omega arith)
take-cut (suc k) (suc w) (x ∷ xs) h l = ap (x ∷◌) (take-cut k w xs (omega arith) (omega arith))

drop-take-cut :
    (r k w : ℕ) (xs : List ℕ)
    → r + k ≤ w
    → w ≤ length xs
    → drop r (take w xs) ≡ take k (drop r xs) ++ drop (r + k) (take w xs)
drop-take-cut zero k w xs h l =
    let e : k ≡ 0 + k = omega arith in
    take-cut k w xs (omega arith) l ∙ ap (λ m. take k xs ++ drop m (take w xs)) e
drop-take-cut (suc r) k zero xs h l = absurd (omega arith)
drop-take-cut (suc r) k (suc w) [] h l = absurd (omega arith)
drop-take-cut (suc r) k (suc w) (x ∷ xs) h l =
    let e : suc (r + k) ≡ suc r + k = omega arith in
    drop-take-cut r k w xs (omega arith) (omega arith)
    ∙ ap (λ m. take k (drop r xs) ++ drop m (take (suc w) (x ∷ xs))) e

pub length-pending : (b : LinearBuffer) → IsBuffer b → length (pending b) ≡ b.wr_pos - b.rd_pos
unfolding pending
length-pending b h = omega (
  arith,
  length-drop b.rd_pos (take b.wr_pos b.items),
  length-take b.wr_pos b.items,
  h.written,
  h.allocated,
)

-- Writing behind what is written.
pub splice :
    (xs vs : List ℕ) (r w : ℕ)
    → r ≤ w
    → w + length vs ≤ length xs
    → drop r (take (w + length vs) (take w xs ++ vs ++ drop (w + length vs) xs))
      ≡ drop r (take w xs) ++ vs
splice xs vs r w h l =
    let front : length (take w xs) ≡ w = omega (arith, length-take w xs) in
    let long : w + length vs ≡ length (take w xs ++ vs) =
      omega (arith, length-append (take w xs) vs) in
    rw (take-prefix (w + length vs) (take w xs ++ vs) (drop (w + length vs) xs) long)
      (drop-append r (take w xs) vs (omega arith))

pub length-splice :
    (xs vs : List ℕ) (w : ℕ)
    → w + length vs ≤ length xs
    → length (take w xs ++ vs ++ drop (w + length vs) xs) ≡ length xs
length-splice xs vs w l = omega (
  arith,
  length-append (take w xs ++ vs) (drop (w + length vs) xs),
  length-append (take w xs) vs,
  length-take w xs,
  length-drop (w + length vs) xs,
)

-- recv on a well-formed LinearBuffer<char> does not fault: what it returns, with what is still pending behind
-- it, is what was pending, and it returns as many bytes as it can.
pub recv-pending :
    (b : LinearBuffer) (n : ℕ)
    → IsBuffer b
    → (b' : LinearBuffer) × (vs : List ℕ) × (recv b n ≡ ok (b', vs))
      × IsBuffer b'
      × (pending b ≡ vs ++ pending b')
      × (length vs ≡ min n (length (pending b)))
unfolding recv load pending
recv-pending b n h =
    let kp = min n (b.wr_pos - b.rd_pos) in
    let inside : leb (b.rd_pos + kp) (length b.items) ≡ true =
      ground (arith, h.ordered, h.written, h.allocated) in
    (
      record b { rd_pos = b.rd_pos + kp },
      take kp (drop b.rd_pos b.items),
      rw inside refl,
      record { ordered = omega (arith, h.ordered); written = h.written; allocated = h.allocated },
      drop-take-cut b.rd_pos kp b.wr_pos b.items (omega (arith, h.ordered))
          (omega (arith, h.written, h.allocated)),
      omega (
        arith,
        length-take kp (drop b.rd_pos b.items),
        length-drop b.rd_pos b.items,
        length-pending b h,
        h.ordered,
        h.written,
        h.allocated,
      ),
    )

-- send on a well-formed LinearBuffer<char> does not fault: it writes as many of the bytes as there is room
-- for behind what is pending, and returns their number.
pub send-pending :
    (b : LinearBuffer) (vs : List ℕ)
    → IsBuffer b
    → (b' : LinearBuffer) × (send b vs ≡ ok (b', min (length vs) (b.sz_buf - b.wr_pos)))
      × IsBuffer b'
      × (pending b' ≡ pending b ++ take (min (length vs) (b.sz_buf - b.wr_pos)) vs)
unfolding send store pending
send-pending b vs h =
    let n = min (length vs) (b.sz_buf - b.wr_pos) in
    let count : length (take n vs) ≡ n = omega (arith, length-take n vs) in
    let fits : b.wr_pos + length (take n vs) ≤ length b.items =
      omega (arith, count, h.written, h.allocated) in
    let inside : leb (b.wr_pos + length (take n vs)) (length b.items) ≡ true = ground arith in
    (
      record b {
        items = take b.wr_pos b.items ++ take n vs ++ drop (b.wr_pos + length (take n vs)) b.items;
        wr_pos = b.wr_pos + n;
      },
      rw inside refl,
      record {
        ordered = omega (arith, h.ordered);
        written = omega (arith, h.written);
        allocated = h.allocated ∙ sym (length-splice b.items (take n vs) b.wr_pos fits);
      },
      ap
            (λ m. drop b.rd_pos (
              take (b.wr_pos + m) (
                take b.wr_pos b.items
                ++ take n vs
                ++ drop (b.wr_pos + length (take n vs)) b.items)))
            (sym count)
          ∙ splice b.items (take n vs) b.rd_pos b.wr_pos h.ordered fits,
    )
