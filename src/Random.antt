-- ===== src/Random.antt =====
-- src/ewa_base/math/random.cpp: `randgen_data`, and `random_int` of `rand_gen`.
pub mod Valid
use ew_base.Prelude.{
  ℕ, zero, suc, ◌+◌, ◌-◌, ◌*◌, ◌/◌, ◌%◌, ◌^◌, Bool, true, false, List, [], ◌∷◌, bit_and, bit_or,
  bit_xor, ltb, ◌==◌, if◌then◌else◌, length, get_elem?, set, replicate,
}
use ew_base.Prelude.Run.{Run, ok, fault, no_fuel, ◌>>=◌, reads}

abbrev pub size : ℕ
size = 32

-- `M`
abbrev pub mask : ℕ
mask = 31

pub record RandgenData : Type 0 where
  pub data_words : List ℕ
  pub nidx : ℕ

-- A round of the loop of `refill`.
unfoldable pub refill_round : ℕ → List ℕ → Run (List ℕ)
refill_round i words = reads (get_elem? words (bit_and (i + 1) mask)) >>= λ a.
    reads (get_elem? words (bit_and (i + 3) mask)) >>= λ b.
    reads (get_elem? words (bit_and (i + 7) mask)) >>= λ c.
    let tmp = (bit_or (bit_and a 0x0000FFFF) (bit_and b 0xFFFF0000) + i) % 2 ^ 32 in
    ok (set words i (bit_xor (bit_xor (tmp / 2) (if bit_and tmp 1 == 0 then 0 else 0x9908B0DF)) c))

-- The loop from `i` on, with `n` rounds left.
unfoldable pub refill_loop : ℕ → ℕ → List ℕ → Run (List ℕ)
unfolding refill_round
refill_loop zero i words = ok words
refill_loop (suc n) i words = refill_round i words >>= λ words'. refill_loop n (suc i) words'

unfoldable pub refill : RandgenData → Run RandgenData
unfolding refill_loop
refill s = refill_loop size 0 s.data_words >>= λ words. ok (record { data_words = words; nidx = 0 })

-- A round of the first loop of `seed` with the `n` words at `p`; `i*0x12345679` wraps around.
unfoldable pub seed_round : List ℕ → ℕ → ℕ → List ℕ → Run (List ℕ)
seed_round p n i words =
    if n == 0
    then fault
    else (reads (get_elem? p (i % n)) >>= λ tmp. reads (get_elem? words (bit_and i mask)) >>= λ old.
        let mixed =
          (bit_xor (tmp * 0x98765431 % 2 ^ 32) (i * 0x12345679 % 2 ^ 32) + tmp / 2 ^ 8) % 2 ^ 32 in
        ok (set words (bit_and i mask) (bit_xor old mixed)))

unfoldable pub seed_loop : List ℕ → ℕ → ℕ → ℕ → List ℕ → Run (List ℕ)
unfolding seed_round
seed_loop p n zero i words = ok words
seed_loop p n (suc rounds) i words =
    seed_round p n i words >>= λ words'. seed_loop p n rounds (suc i) words'

-- The loop of 128 refills.
unfoldable pub refills : ℕ → RandgenData → Run RandgenData
unfolding refill
refills zero s = ok s
refills (suc n) s = refill s >>= λ s'. refills n s'

unfoldable pub seed : List ℕ → ℕ → RandgenData → Run RandgenData
unfolding seed_loop refills
seed p n s = seed_loop p n size 0 (replicate size 0x9908B0DF) >>= λ words.
    refills 128 (record { data_words = words; nidx = s.nidx })

unfoldable pub gen : RandgenData → Run (ℕ × RandgenData)
unfolding refill
gen s = (if s.nidx == size then refill s else ok s) >>= λ t.
    reads (get_elem? t.data_words t.nidx) >>= λ res.
    ok (res, record { data_words = t.data_words; nidx = t.nidx + 1 })

-- `v*(std::numeric_limits<uint32_t>::max()/v)`
unfoldable pub limit : ℕ → ℕ
limit v = v * ((2 ^ 32 - 1) / v)

-- A round of the loop of `random_int` behind `gen`: a number from the limit on is drawn `again`.
unfoldable pub accept :
    (RandgenData → Run (ℕ × RandgenData)) → ℕ → ℕ × RandgenData → Run (ℕ × RandgenData)
unfolding limit
accept again v r = elim (ltb (r.0) (limit v)) [ true ↦ ok (r.0 % v, r.1) | false ↦ again (r.1) ]

-- The loop of `random_int`, where the division by 0 is a fault.
unfoldable pub random_int : ℕ → ℕ → RandgenData → Run (ℕ × RandgenData)
unfolding gen accept
random_int zero v s = no_fuel
random_int (suc fuel) v s = elim (v == 0) [
  | true ↦ fault
  | false ↦ gen s >>= λ r. accept (random_int fuel v) v r
]
