-- ===== src/Collection/Capacity.antt =====
-- inc/ewa_base/collection/detail/collection_base.h: `sz_helper::n2p`, the next power of two.
use native.Mathlib.Decide.{dec_lt}
use native.Mathlib.Nat.{pow-suc}
use ew_base.Prelude.{
  ℕ, zero, suc, ◌*◌, ◌%◌, ◌^◌, ◌≤◌, ◌<◌, ◌≡◌, refl, ◌⊎◌, inl, inr, Option, none, some, arith,
  lt→ltb, ltb, leb, if◌then◌else◌, ◌∙◌, ap, Bool-cases, true, false,
}

-- `while(k<sz) k=k<<1;` on a 64-bit `k`.
n2p_loop : ℕ → ℕ → ℕ → ℕ
n2p_loop zero sz k = k
n2p_loop (suc fuel) sz k = elim (ltb k sz) [ true ↦ n2p_loop fuel sz (k * 2 % 2 ^ 64) | false ↦ k ]

-- `none` is the exception for a size above `1+(size_t(-1)>>1)`.
unfoldable pub n2p : ℕ → Option ℕ
unfolding n2p_loop
n2p sz =
    if ltb (2 ^ 63) sz
    then none
    else let k₁ = if leb (2 ^ 16) sz then 2 ^ 16 else 1 in
      let k₂ = if leb (k₁ * 2 ^ 8) sz then k₁ * 2 ^ 8 else k₁ in
      let k₃ = if leb (k₂ * 2 ^ 4) sz then k₂ * 2 ^ 4 else k₂ in some (n2p_loop 64 sz k₃)

-- `k` is the power of two that a request for `sz` elements is rounded up to.
pub record RoundsUp (sz k : ℕ) : Type 0 where
  pub exponent : ℕ
  pub power : k ≡ 2 ^ exponent
  pub enough : sz ≤ k
  pub tight : (k < 2 * sz) ⊎ (k ≡ 1)

n2p_loop_more :
    (fuel sz k : ℕ) → k < sz → sz ≤ 2 ^ 63 → n2p_loop (suc fuel) sz k ≡ n2p_loop fuel sz (k * 2)
unfolding n2p_loop
n2p_loop_more fuel sz k more fits =
    let e : k * 2 % 2 ^ 64 ≡ k * 2 = omega arith in rw (lt→ltb k sz more, n2p_loop) (rw e refl)

n2p_loop_stop : (fuel sz k : ℕ) → sz ≤ k → n2p_loop fuel sz k ≡ k
unfolding n2p_loop
n2p_loop_stop zero sz k h = refl
n2p_loop_stop (suc fuel) sz k h = ground arith

n2p_loop-RoundsUp :
    (fuel sz e k : ℕ)
    → k ≡ 2 ^ e
    → sz ≤ 2 ^ 63
    → sz ≤ k * 2 ^ fuel
    → (k < 2 * sz) ⊎ (k ≡ 1)
    → RoundsUp sz (n2p_loop fuel sz k)
n2p_loop-RoundsUp zero sz e k power fits room tight =
    let full : k * 2 ^ 0 ≡ k = omega arith in
    rw (n2p_loop_stop zero sz k (omega arith))
      (record { exponent = e; power = power; enough = omega arith; tight = tight })
n2p_loop-RoundsUp (suc fuel) sz e k power fits room tight = elim (dec_lt k sz) [
  | no stop ↦
      rw (n2p_loop_stop (suc fuel) sz k (omega arith))
        (record { exponent = e; power = power; enough = omega arith; tight = tight })
  | yes more ↦ rw (n2p_loop_more fuel sz k more fits) (
      n2p_loop-RoundsUp fuel sz (suc e) (k * 2) (omega (arith, pow-suc 2 e)) fits
        (omega (arith, ap (λ t. k * t) (pow-suc 2 fuel))) (omega arith))
]

pow_pos : (j : ℕ) → 0 < 2 ^ j
pow_pos zero = omega arith
pow_pos (suc j) = omega (arith, pow-suc 2 j, pow_pos j)

power_sum : (e j : ℕ) → (e' : ℕ) × (2 ^ e * 2 ^ j ≡ 2 ^ e')
power_sum e zero = (e, omega arith)
power_sum e (suc j) =
    let (e', p) = power_sum (suc e) j in
    (e', omega (arith, ap (λ t. t * 2 ^ j) (pow-suc 2 e), ap (λ t. 2 ^ e * t) (pow-suc 2 j)))

-- `if(sz>=(k<<j)) k=k<<j;`
raise : ℕ → ℕ → ℕ → ℕ
raise sz j k = if leb (k * 2 ^ j) sz then k * 2 ^ j else k

IsStart : ℕ → ℕ → Type 0
IsStart sz k = (e : ℕ) × (k ≡ 2 ^ e) × ((k ≤ sz) ⊎ (k ≡ 1)) × (0 < k)

raise-IsStart : (sz j k : ℕ) → IsStart sz k → IsStart sz (raise sz j k)
unfolding raise IsStart
raise-IsStart sz j k (e, power, low, pos) = elim (Bool-cases (leb (k * 2 ^ j) sz)) [
  | inr stay ↦ rw stay (e, power, low, pos)
  | inl up ↦
      let (e', p) = power_sum e j in
      rw up (e', ap (λ t. t * 2 ^ j) power ∙ p, inl (ground arith), grind (arith, pow_pos j))
]

raised-IsStart : (sz : ℕ) → IsStart sz (raise sz 4 (raise sz 8 (raise sz 16 1)))
raised-IsStart sz = raise-IsStart sz 4 _ (
    raise-IsStart sz 8 _
      (raise-IsStart sz 16 1 (unfold IsStart in (0, refl, inr refl, omega arith))))

n2p-fits :
    (sz : ℕ)
    → sz ≤ 2 ^ 63
    → n2p sz ≡ some (n2p_loop 64 sz (raise sz 4 (raise sz 8 (raise sz 16 1))))
unfolding n2p raise
n2p-fits sz fits = elim (Bool-cases (ltb (2 ^ 63) sz)) [
  | inl big ↦ absurd (ground arith)
  | inr fine ↦ rw fine refl
]

-- Every size up to half of the address space is rounded up to a power of two, which is less than
-- twice the size unless it is 1.
pub n2p-RoundsUp : (sz : ℕ) → sz ≤ 2 ^ 63 → (k : ℕ) × (n2p sz ≡ some k) × RoundsUp sz k
unfolding IsStart
n2p-RoundsUp sz fits =
    let k = raise sz 4 (raise sz 8 (raise sz 16 1)) in
    let (e, power, low, pos) = raised-IsStart sz in
    (
      n2p_loop 64 sz k,
      n2p-fits sz fits,
      n2p_loop-RoundsUp 64 sz e k power fits (omega arith) (omega arith),
    )

-- A larger size is refused.
pub n2p-none : (sz : ℕ) → 2 ^ 63 < sz → n2p sz ≡ none
unfolding n2p
n2p-none sz h = ground arith
