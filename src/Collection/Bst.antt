-- ===== src/Collection/Bst.antt =====
-- inc/ewa_base/collection/detail/bst_tree.h with the balancing of avl_tree_policy.h: maps with unique
-- keys. A position in the tree is a tree and the frames above it.
pub mod Sorted
pub mod Descent
pub mod Insert
pub mod Erase
pub mod Search
use ew_base.Prelude.{
  ℕ, zero, suc, ◌+◌, ◌-◌, Bool, true, false, Option, none, some, List, [], ◌∷◌, ◌++◌,
}
use ew_base.Prelude.Int.{ℤ, pos}
use ew_base.Prelude.Order.{Order}
use ew_base.Prelude.Run.{Run, ok, fault, ◌>>=◌}
use ew_base.Collection.Avl.{
  Tree, leaf, node, Frame, child1_of, child2_of, adjust_insert, delete_one_child,
}

pub record BstTree (K V : Type 0) : Type 0 where
  pub root : Tree (K × V)
  pub size : ℕ

module _ {K V : Type 0} where
  -- `nd_min`
  unfoldable pub nd_min : Tree (K × V) → Option (K × V)
  nd_min leaf = none
  nd_min (node leaf e x r) = some e
  nd_min (node (node a b c d) e x r) = nd_min (node a b c d)

  -- `nd_inc` from a node without `child2`: up to the first parent of which it stands below `child1`.
  unfoldable pub next_up : List (Frame (K × V)) → Option (K × V)
  next_up [] = none
  next_up (child1_of e x r ∷ path) = some e
  next_up (child2_of l e x ∷ path) = next_up path

  -- `nd_inc`
  unfoldable pub nd_inc : List (Frame (K × V)) → Tree (K × V) → Option (K × V)
  unfolding nd_min next_up
  nd_inc path leaf = none
  nd_inc path (node l e x leaf) = next_up path
  nd_inc path (node l e x (node a b c d)) = nd_min (node a b c d)

  -- `nd_max(n->child1)`: its value, its factor, its `child1`, and the frames between it and the start, on top of
  -- `acc`.
  unfoldable pub nd_max :
      List (Frame (K × V))
      → Tree (K × V)
      → Option ((K × V) × ℤ × Tree (K × V) × List (Frame (K × V)))
  nd_max acc leaf = none
  nd_max acc (node l e x leaf) = some (e, x, l, acc)
  nd_max acc (node l e x (node a b c d)) = nd_max (child2_of l e x ∷ acc) (node a b c d)

  -- `do_erase_swap_node(n,x)`, where `x` is the greatest node below `child1` of `n`: it takes the
  -- place of `n`, and `n` takes its place, with the factors swapped. The result is the new position of
  -- `n`, and what is below it.
  unfoldable pub do_erase_swap_node :
      List (Frame (K × V)) → Tree (K × V) → Option (List (Frame (K × V)) × Tree (K × V))
  unfolding nd_max
  do_erase_swap_node path leaf = none
  do_erase_swap_node path (node l e x r) = elim (nd_max [] l) [
    | none ↦ none
    | some m ↦ some (m.3 ++ child1_of m.0 x r ∷ path, node m.2 e m.1 leaf)
  ]

  -- `do_erase` on the tree at a position.
  unfoldable pub do_erase : List (Frame (K × V)) → Tree (K × V) → Run (Tree (K × V))
  unfolding do_erase_swap_node
  do_erase path leaf = fault
  do_erase path (node leaf e x r) = delete_one_child path (node leaf e x r)
  do_erase path (node (node a b c d) e x leaf) =
      delete_one_child path (node (node a b c d) e x leaf)
  do_erase path (node (node a b c d) e x (node a' b' c' d')) =
      elim (do_erase_swap_node path (node (node a b c d) e x (node a' b' c' d'))) [
        | none ↦ fault
        | some n ↦ delete_one_child n.0 n.1
      ]

  unfoldable pub empty_tree : BstTree K V
  empty_tree = record { root = leaf; size = 0 }

  -- `fp_return_node` at the position that the search ends at.
  unfoldable pub find_at : List (Frame (K × V)) → Tree (K × V) → Option (K × V)
  find_at path leaf = none
  find_at path (node l e x r) = some e

  -- The rest of `fp_lower_bound` and `fp_upper_bound` behind the search: at a missing child, `next_up`
  -- is its parent or the next entry.
  unfoldable pub lower_at : List (Frame (K × V)) → Tree (K × V) → Option (K × V)
  unfolding next_up
  lower_at path leaf = next_up path
  lower_at path (node l e x r) = some e

  unfoldable pub upper_at : List (Frame (K × V)) → Tree (K × V) → Option (K × V)
  unfolding next_up nd_inc
  upper_at path leaf = next_up path
  upper_at path (node l e x r) = nd_inc path (node l e x r)

  -- The rest of `fp_insert_pair`: a new node has no children and the factor 0.
  unfoldable pub insert_at :
      BstTree K V → K × V → List (Frame (K × V)) → Tree (K × V) → Run (BstTree K V × Bool)
  insert_at s v path leaf = adjust_insert path (node leaf v (pos 0) leaf) >>= λ t.
      ok (record { root = t; size = s.size + 1 }, true)
  insert_at s v path (node l e x r) = ok (s, false)

  -- The rest of `fp_erase`.
  unfoldable pub erase_found :
      BstTree K V → List (Frame (K × V)) → Tree (K × V) → Run (BstTree K V × ℕ)
  unfolding do_erase
  erase_found s path leaf = ok (s, 0)
  erase_found s path (node l e x r) =
      do_erase path (node l e x r) >>= λ t. ok (record { root = t; size = s.size - 1 }, 1)

module _ {K V : Type 0} ⦃order : Order K⦄ where
  -- The loop of `handle_real`: it ends at the node with the key, or at a missing child of the node
  -- that is handed to `handle_node1` or `handle_node2` (of no node if the tree is empty).
  unfoldable pub handle_real :
      K → List (Frame (K × V)) → Tree (K × V) → List (Frame (K × V)) × Tree (K × V)
  handle_real k path leaf = (path, leaf)
  handle_real k path (node l e x r) = elim (order.lt k e.0) [
    | true ↦ handle_real k (child1_of e x r ∷ path) l
    | false ↦ elim (order.lt e.0 k) [
      | true ↦ handle_real k (child2_of l e x ∷ path) r
      | false ↦ (path, node l e x r)
    ]
  ]

  -- `fp_return_node`
  unfoldable pub find : BstTree K V → K → Option (K × V)
  unfolding handle_real find_at
  find s k = let (path, t) = handle_real k [] s.root in find_at path t

  -- `fp_lower_bound` and `fp_upper_bound`
  unfoldable pub lower_bound : BstTree K V → K → Option (K × V)
  unfolding handle_real lower_at
  lower_bound s k = let (path, t) = handle_real k [] s.root in lower_at path t

  unfoldable pub upper_bound : BstTree K V → K → Option (K × V)
  unfolding handle_real upper_at
  upper_bound s k = let (path, t) = handle_real k [] s.root in upper_at path t

  -- `fp_insert_pair`
  unfoldable pub insert_pair : BstTree K V → K × V → Run (BstTree K V × Bool)
  unfolding handle_real insert_at
  insert_pair s v = let (path, t) = handle_real v.0 [] s.root in insert_at s v path t

  -- `fp_erase`
  unfoldable pub erase : BstTree K V → K → Run (BstTree K V × ℕ)
  unfolding handle_real erase_found
  erase s k = let (path, t) = handle_real k [] s.root in erase_found s path t
