-- ===== src/Prelude/Bits.antt =====
-- Laws of `bit_and` and `bit_or` at variables, as far as masks of one byte need them, and the check
-- of a property of bytes by evaluation.
use Prim.Native.Nat.{
  ℕ, zero, suc, ◌+◌, ◌*◌, ◌/◌, ◌%◌, ◌≤◌, ◌<◌, min, max, bit_and, bit_or, digits, bit_and-bitwise,
  bit_or-bitwise,
}
use mathlib.Core.Path.{◌≡◌, refl, ◌∙◌}
use mathlib.Core.Bool.{Bool, true, ◌&&◌}
use native.Mathlib.Omega.{arith}
use ew_base.Prelude.Tests.{◌==◌, ==_iff}

unfoldable pub every_below : ℕ → (ℕ → Bool) → Bool
every_below zero p = true
every_below (suc n) p = p n && every_below n p

pub every_below_sound : (n : ℕ) (p : ℕ → Bool) (x : ℕ) → every_below n p ≡ true → x < n → p x ≡ true
unfolding every_below
every_below_sound zero p x h lt = absurd (omega arith)
every_below_sound (suc n) p x h lt = ground (arith, every_below_sound n p x)

pub equal_below :
    (n : ℕ) (f g : ℕ → ℕ) → every_below n (λ x. f x == g x) ≡ true → (x : ℕ) → x < n → f x ≡ g x
equal_below n f g t x h = (==_iff _ _).0 (every_below_sound n (λ x. f x == g x) x t h)

-- The digits of a bitwise operation do not depend on the fuel.
digits_fuel :
    (z : ℕ → ℕ) (f : ℕ → ℕ → ℕ) (n m a b : ℕ) → a ≤ n → a ≤ m → digits z f n a b ≡ digits z f m a b
digits_fuel z f zero zero a b p q = refl
digits_fuel z f zero (suc m) zero b p q = refl
digits_fuel z f zero (suc m) (suc a) b p q = absurd (omega arith)
digits_fuel z f (suc n) zero zero b p q = refl
digits_fuel z f (suc n) zero (suc a) b p q = absurd (omega arith)
digits_fuel z f (suc n) (suc m) zero b p q = refl
digits_fuel z f (suc n) (suc m) (suc a) b p q =
    omega (arith, digits_fuel z f n m (suc a / 2) (b / 2) (omega arith) (omega arith))

zero-bit_and : (b : ℕ) → bit_and 0 b ≡ 0
zero-bit_and b = bit_and-bitwise 0 b

zero-bit_or : (b : ℕ) → bit_or 0 b ≡ b
zero-bit_or b = bit_or-bitwise 0 b

and_step : (a b : ℕ) → bit_and a b ≡ bit_and (a / 2) (b / 2) * 2 + min (a % 2) (b % 2)
and_step zero b = omega (arith, zero-bit_and b, zero-bit_and (b / 2))
and_step (suc a) b = omega (
  arith,
  bit_and-bitwise (suc a) b,
  bit_and-bitwise (suc a / 2) (b / 2),
  digits_fuel (λ _. zero) min a (suc a / 2) (suc a / 2) (b / 2) (omega arith) (omega arith),
)

or_step : (a b : ℕ) → bit_or a b ≡ bit_or (a / 2) (b / 2) * 2 + max (a % 2) (b % 2)
or_step zero b = omega (arith, zero-bit_or b, zero-bit_or (b / 2))
or_step (suc a) b = omega (
  arith,
  bit_or-bitwise (suc a) b,
  bit_or-bitwise (suc a / 2) (b / 2),
  digits_fuel (λ b. b) max a (suc a / 2) (suc a / 2) (b / 2) (omega arith) (omega arith),
)

and-zero_fuel : (n a : ℕ) → a ≤ n → bit_and a 0 ≡ 0
and-zero_fuel n zero h = refl
and-zero_fuel zero (suc a) h = absurd (omega arith)
and-zero_fuel (suc n) (suc a) h =
    omega (arith, and_step (suc a) 0, and-zero_fuel n (suc a / 2) (omega arith))

and-zero : (a : ℕ) → bit_and a 0 ≡ 0
and-zero a = and-zero_fuel a a (omega arith)

or-zero_fuel : (n a : ℕ) → a ≤ n → bit_or a 0 ≡ a
or-zero_fuel n zero h = refl
or-zero_fuel zero (suc a) h = absurd (omega arith)
or-zero_fuel (suc n) (suc a) h =
    omega (arith, or_step (suc a) 0, or-zero_fuel n (suc a / 2) (omega arith))

or-zero : (a : ℕ) → bit_or a 0 ≡ a
or-zero a = or-zero_fuel a a (omega arith)

-- A mask of k bits reads the k low bits only; k grows by one from lemma to lemma.
and_low1 : (a m : ℕ) → m < 2 → bit_and a m ≡ bit_and (a % 2) m
and_low1 a zero h = omega (arith, and-zero a, and-zero (a % 2))
and_low1 a (suc m) h =
    let e : suc m / 2 ≡ 0 = omega arith in
    let e' : a % 2 / 2 ≡ 0 = omega arith in
    omega (
      arith,
      rw e at (and_step a (suc m)),
      rw (e, e') at (and_step (a % 2) (suc m)),
      and-zero (a / 2),
      and-zero 0,
    )

and_low_next :
    (k a m : ℕ)
    → a % (2 * k) / 2 ≡ a / 2 % k
    → a % (2 * k) % 2 ≡ a % 2
    → bit_and (a / 2) (m / 2) ≡ bit_and (a / 2 % k) (m / 2)
    → bit_and a m ≡ bit_and (a % (2 * k)) m
and_low_next k a m e e' h = omega (arith, and_step a m, rw (e, e') at (and_step (a % (2 * k)) m))

and_low2 : (a m : ℕ) → m < 4 → bit_and a m ≡ bit_and (a % 4) m
and_low2 a m h =
    and_low_next 2 a m (omega arith) (omega arith) (and_low1 (a / 2) (m / 2) (omega arith))

and_low3 : (a m : ℕ) → m < 8 → bit_and a m ≡ bit_and (a % 8) m
and_low3 a m h =
    and_low_next 4 a m (omega arith) (omega arith) (and_low2 (a / 2) (m / 2) (omega arith))

and_low4 : (a m : ℕ) → m < 16 → bit_and a m ≡ bit_and (a % 16) m
and_low4 a m h =
    and_low_next 8 a m (omega arith) (omega arith) (and_low3 (a / 2) (m / 2) (omega arith))

and_low5 : (a m : ℕ) → m < 32 → bit_and a m ≡ bit_and (a % 32) m
and_low5 a m h =
    and_low_next 16 a m (omega arith) (omega arith) (and_low4 (a / 2) (m / 2) (omega arith))

and_low6 : (a m : ℕ) → m < 64 → bit_and a m ≡ bit_and (a % 64) m
and_low6 a m h =
    and_low_next 32 a m (omega arith) (omega arith) (and_low5 (a / 2) (m / 2) (omega arith))

and_low7 : (a m : ℕ) → m < 128 → bit_and a m ≡ bit_and (a % 128) m
and_low7 a m h =
    and_low_next 64 a m (omega arith) (omega arith) (and_low6 (a / 2) (m / 2) (omega arith))

-- A mask of one byte reads one byte.
pub and_low_byte : (a m : ℕ) → m < 256 → bit_and a m ≡ bit_and (a % 256) m
and_low_byte a m h =
    and_low_next 128 a m (omega arith) (omega arith) (and_low7 (a / 2) (m / 2) (omega arith))

-- The k low bits of a disjunction depend on the k low bits of its left side.
or_low1 : (a m : ℕ) → bit_or a m % 2 ≡ bit_or (a % 2) m % 2
or_low1 a m = omega (arith, or_step a m, or_step (a % 2) m)

or_low2 : (a m : ℕ) → bit_or a m % 4 ≡ bit_or (a % 4) m % 4
or_low2 a m =
    let e : a % 4 / 2 ≡ a / 2 % 2 = omega arith in
    omega (arith, or_step a m, rw e at (or_step (a % 4) m), or_low1 (a / 2) (m / 2))

or_low3 : (a m : ℕ) → bit_or a m % 8 ≡ bit_or (a % 8) m % 8
or_low3 a m =
    let e : a % 8 / 2 ≡ a / 2 % 4 = omega arith in
    omega (arith, or_step a m, rw e at (or_step (a % 8) m), or_low2 (a / 2) (m / 2))

or_low4 : (a m : ℕ) → bit_or a m % 16 ≡ bit_or (a % 16) m % 16
or_low4 a m =
    let e : a % 16 / 2 ≡ a / 2 % 8 = omega arith in
    omega (arith, or_step a m, rw e at (or_step (a % 16) m), or_low3 (a / 2) (m / 2))

or_low5 : (a m : ℕ) → bit_or a m % 32 ≡ bit_or (a % 32) m % 32
or_low5 a m =
    let e : a % 32 / 2 ≡ a / 2 % 16 = omega arith in
    omega (arith, or_step a m, rw e at (or_step (a % 32) m), or_low4 (a / 2) (m / 2))

or_low6 : (a m : ℕ) → bit_or a m % 64 ≡ bit_or (a % 64) m % 64
or_low6 a m =
    let e : a % 64 / 2 ≡ a / 2 % 32 = omega arith in
    omega (arith, or_step a m, rw e at (or_step (a % 64) m), or_low5 (a / 2) (m / 2))

or_low7 : (a m : ℕ) → bit_or a m % 128 ≡ bit_or (a % 128) m % 128
or_low7 a m =
    let e : a % 128 / 2 ≡ a / 2 % 64 = omega arith in
    omega (arith, or_step a m, rw e at (or_step (a % 128) m), or_low6 (a / 2) (m / 2))

-- The low byte of a disjunction reads the low byte of its left side.
pub or_low_byte : (a m : ℕ) → bit_or a m % 256 ≡ bit_or (a % 256) m % 256
or_low_byte a m =
    let e : a % 256 / 2 ≡ a / 2 % 128 = omega arith in
    omega (arith, or_step a m, rw e at (or_step (a % 256) m), or_low7 (a / 2) (m / 2))

-- The tables of the byte operations that the encoders use.
continuation_table :
    every_below 256 (λ x. bit_and (bit_or x 0x80 % 256) 0xBF == 128 + x % 64) ≡ true
unfolding every_below
continuation_table = refl

-- `(code | 0x80) & 0xBF` is a continuation byte that holds the six low bits.
pub continuation_byte : (a : ℕ) → bit_and (bit_or a 0x80) 0xBF ≡ 128 + a % 64
continuation_byte a =
    let t =
      equal_below 256 (λ x. bit_and (bit_or x 0x80 % 256) 0xBF) (λ x. 128 + x % 64)
        continuation_table (a % 256) (omega arith) in
    let e = and_low_byte (bit_or a 0x80) 0xBF (omega arith) in
    e ∙ rw (or_low_byte a 0x80) (t ∙ omega arith)

and-le_fuel : (n a b : ℕ) → a ≤ n → bit_and a b ≤ b
and-le_fuel n zero b h = omega (arith, zero-bit_and b)
and-le_fuel zero (suc a) b h = absurd (omega arith)
and-le_fuel (suc n) (suc a) b h =
    omega (arith, and_step (suc a) b, and-le_fuel n (suc a / 2) (b / 2) (omega arith))

-- A masked value is at most the mask.
pub and-le : (a b : ℕ) → bit_and a b ≤ b
and-le a b = and-le_fuel a a b (omega arith)

-- A mask with zeros at the end reads the upper bits.
and_shift1 : (a b m : ℕ) → b ≡ m * 2 → bit_and a b ≡ bit_and (a / 2) m * 2
and_shift1 a b m h = let e : b / 2 ≡ m = omega arith in omega (arith, rw e at (and_step a b))

and_shift2 : (a b m : ℕ) → b ≡ m * 4 → bit_and a b ≡ bit_and (a / 4) m * 4
and_shift2 a b m h =
    let e : a / 2 / 2 ≡ a / 4 = omega arith in
    omega (arith, and_shift1 a b (m * 2) (omega arith), rw e at (and_shift1 (a / 2) (m * 2) m refl))

pub and_shift4 : (a b m : ℕ) → b ≡ m * 16 → bit_and a b ≡ bit_and (a / 16) m * 16
and_shift4 a b m h =
    let e : a / 4 / 4 ≡ a / 16 = omega arith in
    omega (arith, and_shift2 a b (m * 4) (omega arith), rw e at (and_shift2 (a / 4) (m * 4) m refl))

pub and_shift8 : (a b m : ℕ) → b ≡ m * 256 → bit_and a b ≡ bit_and (a / 256) m * 256
and_shift8 a b m h =
    let e : a / 16 / 16 ≡ a / 256 = omega arith in
    omega
      (arith, and_shift4 a b (m * 16) (omega arith), rw e at (and_shift4 (a / 16) (m * 16) m refl))

pub and_shift12 : (a b m : ℕ) → b ≡ m * 4096 → bit_and a b ≡ bit_and (a / 4096) m * 4096
and_shift12 a b m h =
    let e : a / 16 / 256 ≡ a / 4096 = omega arith in
    omega (
      arith,
      and_shift4 a b (m * 256) (omega arith),
      rw e at (and_shift8 (a / 16) (m * 256) m refl),
    )

nibble_table : every_below 256 (λ x. bit_and x 0xF == x % 16) ≡ true
unfolding every_below
nibble_table = refl

-- `a & 0xF`.
pub and_nibble : (a : ℕ) → bit_and a 0xF ≡ a % 16
and_nibble a =
    and_low_byte a 0xF (omega arith)
    ∙ equal_below 256 (λ x. bit_and x 0xF) (λ x. x % 16) nibble_table (a % 256) (omega arith)
    ∙ omega arith
