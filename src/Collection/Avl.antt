-- ===== src/Collection/Avl.antt =====
-- inc/ewa_base/collection/detail/avl_tree_policy.h, and the nodes and rotations of bst_tree_node.h and
-- bst_tree.h. A node with its descendants is a tree; the nodes above it, which the code reaches by
-- `parent`, are a list of frames, the parent first.
pub mod Shape
pub mod Turns
pub mod Grow
pub mod Shrink
use ew_base.Prelude.{
  ℕ, zero, suc, ◌+◌, max, Bool, true, false, not, ◌&&◌, ◌||◌, List, [], ◌∷◌, ◌++◌, ltb,
  if◌then◌else◌,
}
use ew_base.Prelude.Int.{ℤ, pos, negsuc, suc_ℤ, pred_ℤ, neg_ℤ, same_ℤ, is_negative}
use ew_base.Prelude.Run.{Run, ok, fault, ◌>>=◌}

-- `bst_node`: `child1`, `value`, `extra` and `child2`.
pub data Tree (E : Type 0) : Type 0 where
  leaf : Tree E
  node : Tree E → E → ℤ → Tree E → Tree E

-- A parent of which the node in hand is `child1`, or `child2`: its other fields.
pub data Frame (E : Type 0) : Type 0 where
  child1_of : E → ℤ → Tree E → Frame E
  child2_of : Tree E → E → ℤ → Frame E

module _ {E : Type 0} where
  -- The root, from a node and those above it.
  unfoldable pub plug : List (Frame E) → Tree E → Tree E
  plug [] t = t
  plug (child1_of e x r ∷ path) t = plug path (node t e x r)
  plug (child2_of l e x ∷ path) t = plug path (node l e x t)

  -- `nd_count`, and `avl_depth_real`, which is -1 for a tree that is out of balance (`none`).
  unfoldable pub nd_count : Tree E → ℕ
  nd_count leaf = 0
  nd_count (node l e x r) = 1 + nd_count l + nd_count r

  -- A missing child is dereferenced in the faults.
  unfoldable pub rotate_right : Tree E → Run (Tree E)
  rotate_right (node (node a n fn b) p fp c) = ok (node a n fn (node b p fp c))
  rotate_right (node leaf p fp c) = fault
  rotate_right leaf = fault

  unfoldable pub rotate_left : Tree E → Run (Tree E)
  rotate_left (node a p fp (node b n fn c)) = ok (node (node a p fp b) n fn c)
  rotate_left (node a p fp leaf) = fault
  rotate_left leaf = fault

  -- `n->extra=fx-1; p->extra=-n->extra;` behind the rotation, and its mirror image.
  unfoldable pub set_factors_gt : Tree E → Run (Tree E)
  set_factors_gt (node a n fx (node b p fp c)) =
      ok (node a n (pred_ℤ fx) (node b p (neg_ℤ (pred_ℤ fx)) c))
  set_factors_gt (node a n fx leaf) = fault
  set_factors_gt leaf = fault

  unfoldable pub set_factors_lt : Tree E → Run (Tree E)
  set_factors_lt (node (node a p fp b) n fx c) =
      ok (node (node a p (neg_ℤ (suc_ℤ fx)) b) n (suc_ℤ fx) c)
  set_factors_lt (node leaf n fx c) = fault
  set_factors_lt leaf = fault

  -- The factors behind a double rotation: `x` on top, with `n` and `p` below, in either order.
  unfoldable pub set_factors_gt2 : Tree E → Run (Tree E)
  set_factors_gt2 (node (node a n fn b) x fx (node c p fp d)) = ok (
      if is_negative fx
      then node (node a n (neg_ℤ fx) b) x (pos 0) (node c p (pos 0) d)
      else node (node a n (pos 0) b) x (pos 0) (node c p (neg_ℤ fx) d))
  set_factors_gt2 (node (node a n fn b) x fx leaf) = fault
  set_factors_gt2 (node leaf x fx r) = fault
  set_factors_gt2 leaf = fault

  unfoldable pub set_factors_lt2 : Tree E → Run (Tree E)
  set_factors_lt2 (node (node a p fp b) x fx (node c n fn d)) = ok (
      if is_negative fx || same_ℤ fx (pos 0)
      then node (node a p (neg_ℤ fx) b) x (pos 0) (node c n (pos 0) d)
      else node (node a p (pos 0) b) x (pos 0) (node c n (neg_ℤ fx) d))
  set_factors_lt2 (node (node a p fp b) x fx leaf) = fault
  set_factors_lt2 (node leaf x fx r) = fault
  set_factors_lt2 leaf = fault

  -- `handle_unblance_gt` at a node with `extra` 2: the tree that stands in its place, and whether
  -- `blance_parent` is called on it if `d` is set.
  unfoldable pub handle_unblance_gt : Tree E → Run (Tree E × Bool)
  handle_unblance_gt leaf = fault
  handle_unblance_gt (node leaf p fp c) = fault
  handle_unblance_gt (node (node a n f1 b) p fp c) =
      if is_negative f1
      then (rotate_left (node a n f1 b) >>= λ x.
          rotate_right (node x p fp c) >>= λ t. set_factors_gt2 t >>= λ t'. ok (t', true))
      else (rotate_right (node (node a n f1 b) p fp c) >>= λ t.
          set_factors_gt t >>= λ t'. ok (t', same_ℤ f1 (pos 1)))

  -- `handle_unblance_lt` at a node with `extra` -2.
  unfoldable pub handle_unblance_lt : Tree E → Run (Tree E × Bool)
  handle_unblance_lt leaf = fault
  handle_unblance_lt (node a p fp leaf) = fault
  handle_unblance_lt (node a p fp (node b n f1 c)) =
      if is_negative f1 || same_ℤ f1 (pos 0)
      then (rotate_left (node a p fp (node b n f1 c)) >>= λ t.
          set_factors_lt t >>= λ t'. ok (t', same_ℤ f1 (negsuc 0)))
      else (rotate_right (node b n f1 c) >>= λ x.
          rotate_left (node a p fp x) >>= λ t. set_factors_lt2 t >>= λ t'. ok (t', true))

  -- A round of `adjust_insert` at a parent whose factor is `f1` now, where `again` is the next round.
  unfoldable pub insert_round :
      (Tree E → Run (Tree E))
      → (ℤ → Bool)
      → (Tree E → Run (Tree E × Bool))
      → List (Frame E)
      → ℤ
      → Tree E
      → Run (Tree E)
  insert_round again unblanced handle path f1 p = elim (same_ℤ f1 (pos 0)) [
    | true ↦ ok (plug path p)
    | false ↦ elim (unblanced f1) [
      | true ↦ handle p >>= λ t. ok (plug path (t.0))
      | false ↦ again p
    ]
  ]

  -- `adjust_insert` from the new node on, which stands in its place with `extra` 0.
  unfoldable pub adjust_insert : List (Frame E) → Tree E → Run (Tree E)
  unfolding insert_round
  adjust_insert [] n = ok n
  adjust_insert (child1_of e x r ∷ path) n =
      insert_round (adjust_insert path) (λ f. same_ℤ f (pos 2)) handle_unblance_gt path (suc_ℤ x)
        (node n e (suc_ℤ x) r)
  adjust_insert (child2_of l e x ∷ path) n =
      insert_round (adjust_insert path) (λ f. same_ℤ f (negsuc 1)) handle_unblance_lt path
        (pred_ℤ x) (node l e (pred_ℤ x) n)

  -- `blance_child1` and `blance_child2` at a node whose factor is `f1` now: the factor `one` stops,
  -- and `handle` is for the factor beyond it.
  unfoldable pub delete_round :
      (Tree E → Run (Tree E))
      → ℤ
      → (ℤ → Bool)
      → (Tree E → Run (Tree E × Bool))
      → List (Frame E)
      → ℤ
      → Tree E
      → Run (Tree E)
  delete_round again one unblanced handle path f1 n = elim (same_ℤ f1 one) [
    | true ↦ ok (plug path n)
    | false ↦ elim (unblanced f1) [
      | true ↦ handle n >>= λ t. elim t.1 [ true ↦ again t.0 | false ↦ ok (plug path t.0) ]
      | false ↦ again n
    ]
  ]

  -- `blance_parent(n)`: the depth of `n` has decreased by one.
  unfoldable pub blance_parent : List (Frame E) → Tree E → Run (Tree E)
  unfolding delete_round
  blance_parent [] n = ok n
  blance_parent (child1_of e x r ∷ path) n =
      delete_round (blance_parent path) (negsuc 0) (λ f. same_ℤ f (negsuc 1)) handle_unblance_lt
        path (pred_ℤ x) (node n e (pred_ℤ x) r)
  blance_parent (child2_of l e x ∷ path) n =
      delete_round (blance_parent path) (pos 1) (λ f. same_ℤ f (pos 2)) handle_unblance_gt path
        (suc_ℤ x) (node l e (suc_ℤ x) n)

  -- `delete_one_child` of a node with at most one child: the child takes its place.
  unfoldable pub delete_one_child : List (Frame E) → Tree E → Run (Tree E)
  unfolding blance_parent
  delete_one_child path leaf = fault
  delete_one_child path (node leaf e x r) = blance_parent path r
  delete_one_child path (node (node a n f b) e x r) = blance_parent path (node a n f b)
