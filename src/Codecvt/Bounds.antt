-- ===== src/Codecvt/Bounds.antt =====
-- The decoder terminates, and the buffer that it allocates is large enough.
use ew_base.Prelude.{ℕ, zero, suc, ◌≤◌, List, [], ◌∷◌, arith, length}
use ew_base.Prelude.Run.{Run, ok, fault, no_fuel, ◌>>=◌}
use ew_base.Codecvt.{Bytes, decode_loop, utf8_to_unicode, decode_unit}

-- What a round of the decoder does to the `n` bytes behind the lead byte.
abbrev Shrinks : ℕ → Run (ℕ × Bytes) → Type 0
Shrinks n (ok (u, left)) = length left ≤ n
Shrinks n fault = Unit
Shrinks n no_fuel = ⊥

decode_unit-Shrinks : (w uc : ℕ) (rest : Bytes) → Shrinks (length rest) (decode_unit w uc rest)
unfolding decode_unit
decode_unit-Shrinks w uc [] = ground arith
decode_unit-Shrinks w uc (b1 ∷ []) = ground arith
decode_unit-Shrinks w uc (b1 ∷ b2 ∷ []) = ground arith
decode_unit-Shrinks w uc (b1 ∷ b2 ∷ b3 ∷ rest) = ground arith

-- A result of the decoder has at most `n` units; the loop ends; a fault is a read past the end.
abbrev pub Fits : ℕ → Run (List ℕ) → Type 0
Fits n (ok us) = length us ≤ n
Fits n fault = Unit
Fits n no_fuel = ⊥

Fits-step :
    (n m : ℕ) (u : ℕ) (r : Run (List ℕ))
    → m ≤ n
    → Fits m r
    → Fits (suc n) (r >>= (λ us. ok (u ∷ us)))
Fits-step n m u (ok us) le h = omega arith
Fits-step n m u fault le h = tt
Fits-step n m u no_fuel le h = h

decode_loop-round :
    (fuel w n : ℕ) (r : Run (ℕ × Bytes))
    → n ≤ fuel
    → ((bs : Bytes) → length bs ≤ fuel → Fits (length bs) (decode_loop fuel w bs))
    → Shrinks n r
    → Fits (suc n) (r >>= (λ r. decode_loop fuel w (r.1) >>= (λ us. ok (r.0 ∷ us))))
decode_loop-round fuel w n (ok (u, left)) le ih h =
    Fits-step n (length left) u (decode_loop fuel w left) h (ih left (omega arith))
decode_loop-round fuel w n fault le ih h = tt
decode_loop-round fuel w n no_fuel le ih h = h

decode_loop-Fits :
    (fuel w : ℕ) (bs : Bytes) → length bs ≤ fuel → Fits (length bs) (decode_loop fuel w bs)
unfolding decode_loop
decode_loop-Fits fuel w [] h = omega arith
decode_loop-Fits zero w (b ∷ bs) h = absurd (omega arith)
decode_loop-Fits (suc fuel) w (b ∷ bs) h =
    decode_loop-round fuel w (length bs) (decode_unit w b bs) (omega arith)
      (λ q le. decode_loop-Fits fuel w q le) (decode_unit-Shrinks w b bs)

-- On any bytes the decoder ends, with at most the `ln_` units that it allocates, or at a read past
-- the end of the buffer.
pub utf8_to_unicode-Fits : (w : ℕ) (bs : Bytes) → Fits (length bs) (utf8_to_unicode w bs)
unfolding utf8_to_unicode
utf8_to_unicode-Fits w bs = decode_loop-Fits (length bs) w bs (omega arith)
