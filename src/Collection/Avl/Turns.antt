-- ===== src/Collection/Avl/Turns.antt =====
-- What the rebalancing at one node does: the entries stay, the tree is balanced, and its height.
use ew_base.Prelude.{
  ℕ, suc, max, ◌≡◌, refl, Bool, true, false, List, ◌∷◌, ◌++◌, append_assoc, arith,
}
use ew_base.Prelude.Int.{ℤ, pos, negsuc}
use ew_base.Prelude.Run.{ok}
use ew_base.Collection.Avl.{
  Tree, leaf, node, rotate_left, rotate_right, set_factors_gt, set_factors_lt, set_factors_gt2,
  set_factors_lt2, handle_unblance_gt, handle_unblance_lt,
}
use ew_base.Collection.Avl.Shape.{Factor, equal, left_high, right_high, height, IsBalanced, entries}

module _ {E : Type 0} where
  unfoldable pub factor_of : Tree E → ℤ
  factor_of leaf = pos 0
  factor_of (node l e x r) = x

  -- The tree `t` in place of one with the entries `es`, where `h` is the height of the lower child.
  -- The flag says that the tree is only as high as the higher child was; that child had the factor
  -- `f`, which is 0 otherwise.
  pub record Turned (t : Tree E) (flag : Bool) (es : List E) (h : ℕ) (f : ℤ) : Type 0 where
    pub same_entries : entries t ≡ es
    pub balanced : IsBalanced t
    pub lower : flag ≡ true → height t ≡ suc (suc h)
    pub equal_high : flag ≡ false → (height t ≡ suc (suc (suc h))) × (f ≡ pos 0)

  -- The double rotation of a node whose `child1` is `node a n f (node b y g c)`.
  double_gt :
      (a b c r : Tree E) (n y e : E) (f g x : ℤ)
      → IsBalanced a
      → IsBalanced b
      → IsBalanced c
      → IsBalanced r
      → f ≡ negsuc 0
      → suc (max (height b) (height c)) ≡ suc (height a)
      → suc (height a) ≡ suc (height r)
      → Factor g (height b) (height c)
      → (t : Tree E) × (flag : Bool) × (handle_unblance_gt (node (node a n f (node b y g c)) e x r)
          ≡ ok (t, flag))
        × Turned t flag
            (entries a ++ n ∷ (entries b ++ y ∷ entries c) ++ e ∷ entries r)
            (height r)
            f
  unfolding handle_unblance_gt rotate_left rotate_right set_factors_gt2 height entries
  double_gt a b c r n y e f g x ba bb bc br fm high low (equal k same) = (
    node (node a n (pos 0) b) y (pos 0) (node c e (pos 0) r),
    true,
    rw (fm, k) refl,
    record {
      same_entries = simp append_assoc;
      balanced = (
        (ba, bb, equal refl (omega arith)),
        (bc, br, equal refl (omega arith)),
        equal refl (omega arith),
      );
      lower = λ z. omega arith;
      equal_high = λ z. absurd (ground arith);
    },
  )
  double_gt a b c r n y e f g x ba bb bc br fm high low (left_high k more) = (
    node (node a n (pos 0) b) y (pos 0) (node c e (negsuc 0) r),
    true,
    rw (fm, k) refl,
    record {
      same_entries = simp append_assoc;
      balanced = (
        (ba, bb, equal refl (omega arith)),
        (bc, br, right_high refl (omega arith)),
        equal refl (omega arith),
      );
      lower = λ z. omega arith;
      equal_high = λ z. absurd (ground arith);
    },
  )
  double_gt a b c r n y e f g x ba bb bc br fm high low (right_high k more) = (
    node (node a n (pos 1) b) y (pos 0) (node c e (pos 0) r),
    true,
    rw (fm, k) refl,
    record {
      same_entries = simp append_assoc;
      balanced = (
        (ba, bb, left_high refl (omega arith)),
        (bc, br, equal refl (omega arith)),
        equal refl (omega arith),
      );
      lower = λ z. omega arith;
      equal_high = λ z. absurd (ground arith);
    },
  )

  -- A node whose `child1` is two higher than `child2`.
  pub handle_unblance_gt-Turned :
      (l : Tree E) (e : E) (x : ℤ) (r : Tree E)
      → IsBalanced l
      → IsBalanced r
      → height l ≡ suc (suc (height r))
      → (t : Tree E) × (flag : Bool) × (handle_unblance_gt (node l e x r) ≡ ok (t, flag))
        × Turned t flag (entries l ++ e ∷ entries r) (height r) (factor_of l)
  unfolding handle_unblance_gt rotate_right set_factors_gt height entries factor_of
  handle_unblance_gt-Turned leaf e x r bl br h = absurd (omega arith)
  handle_unblance_gt-Turned (node a n f b) e x r (ba, bb, equal f0 same) br h = (
    node a n (negsuc 0) (node b e (pos 1) r),
    false,
    rw f0 refl,
    record {
      same_entries = simp append_assoc;
      balanced = (ba, (bb, br, left_high refl (omega arith)), right_high refl (omega arith));
      lower = λ k. absurd (ground arith);
      equal_high = λ k. (omega arith, f0);
    },
  )
  handle_unblance_gt-Turned (node a n f b) e x r (ba, bb, left_high f1 more) br h = (
    node a n (pos 0) (node b e (pos 0) r),
    true,
    rw f1 refl,
    record {
      same_entries = simp append_assoc;
      balanced = (ba, (bb, br, equal refl (omega arith)), equal refl (omega arith));
      lower = λ k. omega arith;
      equal_high = λ k. absurd (ground arith);
    },
  )
  handle_unblance_gt-Turned (node a n f leaf) e x r (ba, bb, right_high fm more) br h =
      absurd (omega arith)
  handle_unblance_gt-Turned (node a n f (node b y g c)) e x r (ba, bal, right_high fm more) br h =
      let (bb, bc, k) = bal in
      double_gt a b c r n y e f g x ba bb bc br fm (omega arith) (omega arith) k

  -- The double rotation of a node whose `child2` is `node (node b y g c) n f d`.
  double_lt :
      (a b c d : Tree E) (n y e : E) (f g x : ℤ)
      → IsBalanced a
      → IsBalanced b
      → IsBalanced c
      → IsBalanced d
      → f ≡ pos 1
      → suc (max (height b) (height c)) ≡ suc (height d)
      → suc (height d) ≡ suc (height a)
      → Factor g (height b) (height c)
      → (t : Tree E) × (flag : Bool) × (handle_unblance_lt (node a e x (node (node b y g c) n f d))
          ≡ ok (t, flag))
        × Turned t flag (entries a ++ e ∷ entries (node (node b y g c) n f d)) (height a) f
  unfolding handle_unblance_lt rotate_left rotate_right set_factors_lt2 height entries
  double_lt a b c d n y e f g x ba bb bc bd f1 high low (equal k same) = (
    node (node a e (pos 0) b) y (pos 0) (node c n (pos 0) d),
    true,
    rw (f1, k) refl,
    record {
      same_entries = simp append_assoc;
      balanced = (
        (ba, bb, equal refl (omega arith)),
        (bc, bd, equal refl (omega arith)),
        equal refl (omega arith),
      );
      lower = λ z. omega arith;
      equal_high = λ z. absurd (ground arith);
    },
  )
  double_lt a b c d n y e f g x ba bb bc bd f1 high low (left_high k more) = (
    node (node a e (pos 0) b) y (pos 0) (node c n (negsuc 0) d),
    true,
    rw (f1, k) refl,
    record {
      same_entries = simp append_assoc;
      balanced = (
        (ba, bb, equal refl (omega arith)),
        (bc, bd, right_high refl (omega arith)),
        equal refl (omega arith),
      );
      lower = λ z. omega arith;
      equal_high = λ z. absurd (ground arith);
    },
  )
  double_lt a b c d n y e f g x ba bb bc bd f1 high low (right_high k more) = (
    node (node a e (pos 1) b) y (pos 0) (node c n (pos 0) d),
    true,
    rw (f1, k) refl,
    record {
      same_entries = simp append_assoc;
      balanced = (
        (ba, bb, left_high refl (omega arith)),
        (bc, bd, equal refl (omega arith)),
        equal refl (omega arith),
      );
      lower = λ z. omega arith;
      equal_high = λ z. absurd (ground arith);
    },
  )

  -- A node whose `child2` is two higher than `child1`.
  pub handle_unblance_lt-Turned :
      (l : Tree E) (e : E) (x : ℤ) (r : Tree E)
      → IsBalanced l
      → IsBalanced r
      → height r ≡ suc (suc (height l))
      → (t : Tree E) × (flag : Bool) × (handle_unblance_lt (node l e x r) ≡ ok (t, flag))
        × Turned t flag (entries l ++ e ∷ entries r) (height l) (factor_of r)
  unfolding handle_unblance_lt rotate_left set_factors_lt height entries factor_of
  handle_unblance_lt-Turned a e x leaf ba br h = absurd (omega arith)
  handle_unblance_lt-Turned a e x (node b n f c) ba (bb, bc, equal f0 same) h = (
    node (node a e (negsuc 0) b) n (pos 1) c,
    false,
    rw f0 refl,
    record {
      same_entries = simp append_assoc;
      balanced = ((ba, bb, right_high refl (omega arith)), bc, left_high refl (omega arith));
      lower = λ k. absurd (ground arith);
      equal_high = λ k. (omega arith, f0);
    },
  )
  handle_unblance_lt-Turned a e x (node b n f c) ba (bb, bc, right_high fm more) h = (
    node (node a e (pos 0) b) n (pos 0) c,
    true,
    rw fm refl,
    record {
      same_entries = simp append_assoc;
      balanced = ((ba, bb, equal refl (omega arith)), bc, equal refl (omega arith));
      lower = λ k. omega arith;
      equal_high = λ k. absurd (ground arith);
    },
  )
  handle_unblance_lt-Turned a e x (node leaf n f c) ba (bb, bc, left_high f1 more) h =
      absurd (omega arith)
  handle_unblance_lt-Turned a e x (node (node b y g c) n f d) ba (bal, bd, left_high f1 more) h =
      let (bb, bc, k) = bal in
      double_lt a b c d n y e f g x ba bb bc bd f1 (omega arith) (omega arith) k
