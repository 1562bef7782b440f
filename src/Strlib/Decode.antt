-- ===== src/Strlib/Decode.antt =====
-- The decoding loop on a text that is made of escapes.
use ew_base.Prelude.{
  ℕ, zero, suc, ◌≤◌, ◌≡◌, refl, false, List, [], ◌∷◌, ◌++◌, append_assoc, ◌==◌, length,
  length-append, Bool-cases, inl, inr, ◌<◌, arith, All,
}
use ew_base.Prelude.Run.{ok, ◌>>=◌}
use ew_base.Codecvt.{Bytes}
use ew_base.Strlib.Escape.{
  encode_byte-digits, decode_round-digits, plain-ne-percent, decode_round-plain,
}
use ew_base.Strlib.{need_escape, encode_byte, decode_round, unescape_loop}

-- The codes of all units one behind the other.
unfoldable pub coded : (ℕ → Bytes) → List ℕ → Bytes
coded f [] = []
coded f (u ∷ us) = f u ++ coded f us

-- One round of the loop reads the code `enc u` and writes `out u`.
unfoldable pub Reads : (ℕ → Bytes) → (ℕ → Bytes) → ℕ → Type 0
Reads enc out u =
    (rest : Bytes) (fuel : ℕ)
    → unescape_loop (suc fuel) (enc u ++ rest)
      ≡ (unescape_loop fuel rest >>= λ bs. ok (out u ++ bs))

pub round-Reads :
    (c : ℕ) (tail : Bytes) {rest bs : Bytes} (fuel : ℕ)
    → (c == 0) ≡ false
    → decode_round c tail ≡ ok (bs, rest)
    → unescape_loop (suc fuel) (c ∷ tail) ≡ (unescape_loop fuel rest >>= λ out. ok (bs ++ out))
unfolding unescape_loop
round-Reads c tail fuel h e = rw (unescape_loop, h, e) refl

pub unescape_loop-coded :
    (enc out : ℕ → Bytes) (us : List ℕ) (m : Bytes) (fuel : ℕ)
    → All (Reads enc out) us
    → length us ≤ fuel
    → unescape_loop (suc fuel) (coded enc us ++ 0 ∷ m) ≡ ok (coded out us)
unfolding unescape_loop coded Reads
unescape_loop-coded enc out [] m fuel h e = refl
unescape_loop-coded enc out (u ∷ us) m zero h e = absurd (omega arith)
unescape_loop-coded enc out (u ∷ us) m (suc fuel) (h, hs) e =
    rw
      (
        append_assoc (enc u) (coded enc us) (0 ∷ m),
        h (coded enc us ++ 0 ∷ m) (suc fuel),
        unescape_loop-coded enc out us m fuel hs (omega arith),
      )
      refl

pub length-coded :
    (enc : ℕ → Bytes) (us : List ℕ) (m : Bytes)
    → ((u : ℕ) → 1 ≤ length (enc u))
    → length us ≤ length (coded enc us ++ m)
unfolding coded
length-coded enc [] m h = omega arith
length-coded enc (u ∷ us) m h =
    rw (append_assoc (enc u) (coded enc us) m, length-append)
      (omega (arith, h u, length-coded enc us m h))

pub encode_byte-nonempty : (c : ℕ) → 1 ≤ length (encode_byte c)
unfolding encode_byte
encode_byte-nonempty c = ground arith

-- A byte that `encode_byte` writes is read back.
pub encode_byte-Reads : (c : ℕ) → 0 < c → c < 256 → Reads encode_byte (λ u. u ∷ []) c
unfolding Reads
encode_byte-Reads c h e rest fuel =
    let not_end : (c == 0) ≡ false = ground arith in
    elim (Bool-cases (need_escape c)) [
      | inl t ↦
          rw (encode_byte-digits c, t) (round-Reads b'%' _ fuel refl (decode_round-digits c rest e))
      | inr t ↦
          rw (encode_byte-digits c, t)
            (round-Reads c rest fuel not_end (decode_round-plain c rest (plain-ne-percent c t)))
    ]
