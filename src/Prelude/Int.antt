-- ===== src/Prelude/Int.antt =====
-- Signed integers over the native numbers, with the few operations that the code uses on them.
use Prim.Native.Nat.{ℕ, zero, suc}
use mathlib.Core.Bool.{Bool, true, false}
use ew_base.Prelude.Tests.{◌==◌}

-- `negsuc n` is -(n + 1).
pub data ℤ : Type 0 where
  pos : ℕ → ℤ
  negsuc : ℕ → ℤ

-- `++x` and `--x`
abbrev pub suc_ℤ : ℤ → ℤ
suc_ℤ (pos n) = pos (suc n)
suc_ℤ (negsuc zero) = pos 0
suc_ℤ (negsuc (suc n)) = negsuc n

abbrev pub pred_ℤ : ℤ → ℤ
pred_ℤ (negsuc n) = negsuc (suc n)
pred_ℤ (pos zero) = negsuc 0
pred_ℤ (pos (suc n)) = pos n

abbrev pub neg_ℤ : ℤ → ℤ
neg_ℤ (negsuc n) = pos (suc n)
neg_ℤ (pos zero) = pos 0
neg_ℤ (pos (suc n)) = negsuc n

abbrev pub same_ℤ : ℤ → ℤ → Bool
same_ℤ (pos a) (pos b) = a == b
same_ℤ (pos a) (negsuc b) = false
same_ℤ (negsuc a) (pos b) = false
same_ℤ (negsuc a) (negsuc b) = a == b

-- `x<0`
abbrev pub is_negative : ℤ → Bool
is_negative (pos n) = false
is_negative (negsuc n) = true
