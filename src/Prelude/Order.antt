-- ===== src/Prelude/Order.antt =====
-- The strict comparison of a container's keys: a total order, given by a Boolean test.
use mathlib.Core.Bool.{Bool, true, false}
use mathlib.Core.Path.{◌≡◌, sym, ◌∙◌}
use mathlib.Core.Logic.{inl, inr}
use Prim.Native.Nat.{ℕ}
use native.Mathlib.Omega.{arith}
use ew_base.Prelude.Tests.{ltb, Bool-cases}

pub record Order (K : Type 0) : Type 0 where
  pub lt : K → K → Bool
  pub lt_irrefl : (a : K) → lt a a ≡ false
  pub lt_trans : (a b c : K) → lt a b ≡ true → lt b c ≡ true → lt a c ≡ true
  pub lt_connex : (a b : K) → lt a b ≡ false → lt b a ≡ false → a ≡ b

pub ltb_irrefl : (a : ℕ) → ltb a a ≡ false
ltb_irrefl a = ground arith

pub ltb_trans : (a b c : ℕ) → ltb a b ≡ true → ltb b c ≡ true → ltb a c ≡ true
ltb_trans a b c h k = ground arith

pub ltb_connex : (a b : ℕ) → ltb a b ≡ false → ltb b a ≡ false → a ≡ b
ltb_connex a b h k = ground arith

instance abbrev pub nat_order : Order ℕ
nat_order = record {
  lt = ltb;
  lt_irrefl = ltb_irrefl;
  lt_trans = ltb_trans;
  lt_connex = ltb_connex;
}

module _ {K : Type 0} ⦃order : Order K⦄ where
  pub lt_asym : (a b : K) → order.lt a b ≡ true → order.lt b a ≡ false
  lt_asym a b h = elim (Bool-cases (order.lt b a)) [
    | inl back ↦
        let twice : true ≡ false = sym (order.lt_trans a b a h back) ∙ order.lt_irrefl a in
        absurd (ground arith)
    | inr not_less ↦ not_less
  ]
