-- ===== src/Random/Valid.antt =====
-- The generator keeps 32 words, and a position that is at most behind them.
use ew_base.Prelude.{
  ltb→lt, ℕ, zero, suc, ◌+◌, ◌-◌, ◌*◌, ◌/◌, ◌%◌, ◌^◌, ◌≤◌, ◌<◌, ◌≡◌, refl, ◌∙◌, inl, inr, false,
  Bool-cases, List, bit_and, ltb, ◌==◌, length, length-set, get_elem?, get_elem?-some, replicate,
  some, arith,
}
use native.Mathlib.Nat.{mod-lt, div-add-mod, mul-mod_right, le-mul_of_pos_right}
use ew_base.Prelude.Bits.{and-le}
use ew_base.Prelude.Run.{Run, ok, no_fuel}
use ew_base.Random.{
  size, mask, RandgenData, refill_round, refill_loop, refill, refills, seed_round, seed_loop, seed,
  gen, limit, accept, random_int,
}

pub record IsGen (s : RandgenData) : Type 0 where
  pub words : length s.data_words ≡ size
  pub position : s.nidx ≤ size

read_masked :
    (xs : List ℕ) (i : ℕ) → length xs ≡ size → (a : ℕ) × (get_elem? xs (bit_and i mask) ≡ some a)
read_masked xs i h = get_elem?-some xs (bit_and i mask) (omega (arith, and-le i mask))

-- A run that returns 32 words.
abbrev Fills : Run (List ℕ) → Type 0
Fills run = (words : List ℕ) × (run ≡ ok words) × (length words ≡ size)

refill_round-Fills : (i : ℕ) (words : List ℕ) → length words ≡ size → Fills (refill_round i words)
unfolding refill_round
refill_round-Fills i words h =
    let (a, ea) = read_masked words (i + 1) h in
    let (b, eb) = read_masked words (i + 3) h in
    let (c, ec) = read_masked words (i + 7) h in rw (ea, eb, ec) (_, refl, length-set words i _ ∙ h)

refill_loop-Fills : (n i : ℕ) (words : List ℕ) → length words ≡ size → Fills (refill_loop n i words)
unfolding refill_loop
refill_loop-Fills zero i words h = (words, refl, h)
refill_loop-Fills (suc n) i words h =
    let (words', run, h') = refill_round-Fills i words h in
    let (words'', run', h'') = refill_loop-Fills n (suc i) words' h' in (words'', rw run run', h'')

-- A run that returns a state at the start of its words.
abbrev Starts : Run RandgenData → Type 0
Starts run = (s : RandgenData) × (run ≡ ok s) × (length s.data_words ≡ size) × (s.nidx ≡ 0)

refill-Starts : (s : RandgenData) → length s.data_words ≡ size → Starts (refill s)
unfolding refill
refill-Starts s h =
    let (words, run, h') = refill_loop-Fills size 0 s.data_words h in
    (record { data_words = words; nidx = 0 }, rw run refl, h', refl)

refills-Starts : (n : ℕ) (s : RandgenData) → length s.data_words ≡ size → Starts (refills (suc n) s)
unfolding refills
refills-Starts zero s h = let (t, run, h', z) = refill-Starts s h in (t, rw run refl, h', z)
refills-Starts (suc n) s h =
    let (t, run, h', z) = refill-Starts s h in
    let (u, run', h'', z') = refills-Starts n t h' in (u, rw run run', h'', z')

seed_round-Fills :
    (p : List ℕ) (n i : ℕ) (words : List ℕ)
    → 0 < n
    → n ≤ length p
    → length words ≡ size
    → Fills (seed_round p n i words)
unfolding seed_round
seed_round-Fills p n i words pos le h =
    let nz : (n == 0) ≡ false = ground arith in
    let (a, ea) = get_elem?-some p (i % n) (omega (arith, mod-lt i pos)) in
    let (b, eb) = read_masked words i h in
    rw (nz, ea, eb) (_, refl, length-set words (bit_and i mask) _ ∙ h)

seed_loop-Fills :
    (p : List ℕ) (n rounds i : ℕ) (words : List ℕ)
    → 0 < n
    → n ≤ length p
    → length words ≡ size
    → Fills (seed_loop p n rounds i words)
unfolding seed_loop
seed_loop-Fills p n zero i words pos le h = (words, refl, h)
seed_loop-Fills p n (suc k) i words pos le h =
    let (words', run, h') = seed_round-Fills p n i words pos le h in
    let (words'', run', h'') = seed_loop-Fills p n k (suc i) words' pos le h' in
    (words'', rw run run', h'')

-- seed with n words at p, where n is not 0 and p has so many, faults nowhere, whatever the state is,
-- and leaves 32 words and the position 0.
seed-IsGen :
    (p : List ℕ) (n : ℕ) (s : RandgenData)
    → 0 < n
    → n ≤ length p
    → (t : RandgenData) × (seed p n s ≡ ok t) × IsGen t × (t.nidx ≡ 0)
unfolding seed
seed-IsGen p n s pos le =
    let (words, run, h) = seed_loop-Fills p n size 0 (replicate size 0x9908B0DF) pos le refl in
    let (t, run', h', z) = refills-Starts 127 (record { data_words = words; nidx = s.nidx }) h in
    (t, rw run run', record { words = h'; position = omega (arith, z) }, z)

-- On a state with 32 words and a position up to 32, gen faults nowhere, returns a number, and leaves
-- 32 words and a position from 1 to 32.
pub gen-IsGen :
    (s : RandgenData)
    → IsGen s
    → (r : ℕ) × (t : RandgenData) × (gen s ≡ ok (r, t)) × IsGen t × (0 < t.nidx)
unfolding gen
gen-IsGen s h = elim (Bool-cases (s.nidx == size)) [
  | inl end ↦
      let (t, run, w, z) = refill-Starts s h.words in
      let (r, e) = get_elem?-some t.data_words t.nidx (omega (arith, w, z)) in
      (
        r,
        record { data_words = t.data_words; nidx = t.nidx + 1 },
        rw (end, run, e) refl,
        record { words = w; position = omega (arith, z) },
        omega arith,
      )
  | inr inside ↦
      let (r, e) = get_elem?-some s.data_words s.nidx (ground (arith, h.words, h.position)) in
      (
        r,
        record { data_words = s.data_words; nidx = s.nidx + 1 },
        rw (inside, e) refl,
        record { words = h.words; position = ground (arith, h.position) },
        omega arith,
      )
]

-- From `s` on `n` numbers are drawn, all of them from the limit on, and `t` is left.
pub data Refused (v : ℕ) : ℕ → RandgenData → RandgenData → Type 0 where
  no_draw : (s : RandgenData) → Refused v 0 s s
  draw :
      (n r : ℕ) (s t u : RandgenData)
      → gen s ≡ ok (r, t)
      → limit v ≤ r
      → Refused v n t u
      → Refused v (suc n) s u

-- The outcomes of `random_int(v)` on `fuel` from `s` on. A result is the remainder of the first number
-- below the limit.
pub data Drawn (v fuel : ℕ) (s : RandgenData) : Run (ℕ × RandgenData) → Type 0 where
  refused : (t : RandgenData) → Refused v fuel s t → IsGen t → Drawn v fuel s no_fuel
  drawn :
      (n r x : ℕ) (t u : RandgenData)
      → n < fuel
      → Refused v n s t
      → gen t ≡ ok (r, u)
      → r < limit v
      → x ≡ r % v
      → x < v
      → IsGen u
      → Drawn v fuel s (ok (x, u))

Drawn-refused :
    (v fuel r : ℕ) (s t : RandgenData) {out : Run (ℕ × RandgenData)}
    → gen s ≡ ok (r, t)
    → limit v ≤ r
    → Drawn v fuel t out
    → Drawn v (suc fuel) s out
Drawn-refused v fuel r s t run above (refused u way h) =
    refused u (draw fuel r s t u run above way) h
Drawn-refused v fuel r s t run above (drawn n r' x t' u few way last below same small h) =
    drawn (suc n) r' x t' u (omega arith) (draw n r s t t' run above way) last below same small h

accept-Drawn :
    (v fuel r : ℕ) (s t : RandgenData)
    → 0 < v
    → gen s ≡ ok (r, t)
    → IsGen t
    → Drawn v fuel t (random_int fuel v t)
    → Drawn v (suc fuel) s (accept (random_int fuel v) v (r, t))
unfolding accept
accept-Drawn v fuel r s t pos run h next = elim (Bool-cases (ltb r (limit v))) [
  | inl below ↦
      rw (accept, below)
        (drawn 0 r (r % v) s t (omega arith) (no_draw s) run (ltb→lt r (limit v) below) refl
          (mod-lt r pos) h)
  | inr above ↦ rw (accept, above) (Drawn-refused v fuel r s t run (ground arith) next)
]

random_int_draws :
    (fuel v : ℕ) (s : RandgenData) → 0 < v → IsGen s → Drawn v fuel s (random_int fuel v s)
unfolding random_int
random_int_draws zero v s pos h = refused s (no_draw s) h
random_int_draws (suc fuel) v s pos h =
    let nz : (v == 0) ≡ false = ground arith in
    let (r, t, run, h', p) = gen-IsGen s h in
    rw (random_int, nz, run)
      (accept-Drawn v fuel r s t pos run h' (random_int_draws fuel v t pos h'))

one_fits : (v q m : ℕ) → v * q + m ≡ 2 ^ 32 - 1 → m < v → v < 2 ^ 32 → v ≤ v * q
one_fits v zero m parts rest small = let e : v * 0 ≡ 0 = omega arith in omega (arith, e)
one_fits v (suc q) m parts rest small = le-mul_of_pos_right v (omega arith)

-- For v from 1 to 2 ^ 32 - 1 the limit of random_int is a multiple of v, so that every remainder is
-- accepted equally often, and at least half of the 32-bit numbers are below it.
limit-half :
    (v : ℕ) → 0 < v → v < 2 ^ 32 → (limit v % v ≡ 0) × (limit v < 2 ^ 32) × (2 ^ 32 ≤ 2 * limit v)
unfolding limit
limit-half v pos small =
    let q = (2 ^ 32 - 1) / v in
    let parts : v * q + (2 ^ 32 - 1) % v ≡ 2 ^ 32 - 1 = div-add-mod (2 ^ 32 - 1) v in
    let rest : (2 ^ 32 - 1) % v < v = mod-lt (2 ^ 32 - 1) pos in
    let big : v ≤ v * q = one_fits v q _ parts rest small in
    (mul-mod_right v q, omega arith, omega arith)

-- For v from 1 to 2 ^ 32 - 1 and a state with 32 words and a position up to 32, random_int faults
-- nowhere: it draws numbers one after another, as many as the fuel allows, while they are at the
-- limit or above it, and returns the remainder of the first one below the limit, which is below v,
-- with the state behind it; if all that the fuel allows are refused, it goes on. The states stay
-- of that kind. The limit is a multiple of v, so that every remainder is accepted equally often, and at least
-- half of the 32-bit numbers are below it.
pub random_int-Drawn :
    (fuel v : ℕ) (s : RandgenData)
    → 0 < v
    → v < 2 ^ 32
    → IsGen s
    → Drawn v fuel s (random_int fuel v s)
      × (limit v % v ≡ 0)
      × (limit v < 2 ^ 32)
      × (2 ^ 32 ≤ 2 * limit v)
random_int-Drawn fuel v s pos small h =
    let (multiple, below, half) = limit-half v pos small in
    (random_int_draws fuel v s pos h, multiple, below, half)
