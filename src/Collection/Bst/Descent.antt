-- ===== src/Collection/Bst/Descent.antt =====
-- Where the search from the root ends.
use ew_base.Prelude.{
  ◌≡◌, refl, sym, ◌∙◌, inl, inr, true, Bool-cases, List, [], ◌∷◌, ◌++◌, append_assoc, append-nil,
  All-append, length,
}
use mathlib.Core.Path.{subst}
use ew_base.Prelude.Int.{ℤ}
use ew_base.Prelude.Order.{Order}
use ew_base.Collection.Avl.{Tree, leaf, node, Frame, child1_of, child2_of}
use ew_base.Collection.Avl.Shape.{height, IsBalanced, Fits, entries, before, behind}
use ew_base.Collection.Bst.{BstTree, handle_real}
use ew_base.Collection.Bst.Sorted.{
  IsSorted, AllBelow, AllAbove, AllAbove-trans, AllBelow-trans, SortedAround-entry,
}

module _ {K V : Type 0} ⦃order : Order K⦄ where
  pub record IsTree (s : BstTree K V) : Type 0 where
    pub balanced : IsBalanced s.root
    pub sorted : IsSorted (entries s.root)
    pub counted : s.size ≡ length (entries s.root)

  -- A position in a tree with the entries `es`, with smaller keys on the left and larger ones on the
  -- right.
  pub record Position (k : K) (es : List (K × V)) (path : List (Frame (K × V))) (t : Tree (K × V))
      : Type 0 where
    pub whole : es ≡ before path ++ entries t ++ behind path
    pub tree_balanced : IsBalanced t
    pub path_fits : Fits path (height t)
    pub tree_sorted : IsSorted (entries t)
    pub below : AllBelow k (before path)
    pub above : AllAbove k (behind path)

  -- The key is missing, or at the position.
  Ends : K → Tree (K × V) → Type 0
  Ends k leaf = Unit
  Ends k (node l e x r) = e.0 ≡ k

  left :
      (k : K) (es : List (K × V)) (path : List (Frame (K × V))) (l r : Tree (K × V)) (e : K × V)
      (x : ℤ)
      → order.lt k e.0 ≡ true
      → Position k es path (node l e x r)
      → Position k es (child1_of e x r ∷ path) l
  unfolding before behind entries height
  left k es path l r e x less p =
      let (bl, br, f) = p.tree_balanced in
      let a = SortedAround-entry (entries l) e (entries r) p.tree_sorted in
      record {
        whole = p.whole ∙ simp append_assoc;
        tree_balanced = bl;
        path_fits = (br, f, p.path_fits);
        tree_sorted = a.left_sorted;
        below = p.below;
        above = (
          less,
          All-append _ (entries r) (behind path)
              (AllAbove-trans k (e.0) (entries r) less a.right_above) p.above,
        );
      }

  right :
      (k : K) (es : List (K × V)) (path : List (Frame (K × V))) (l r : Tree (K × V)) (e : K × V)
      (x : ℤ)
      → order.lt e.0 k ≡ true
      → Position k es path (node l e x r)
      → Position k es (child2_of l e x ∷ path) r
  unfolding before behind entries height
  right k es path l r e x more p =
      let (bl, br, f) = p.tree_balanced in
      let a = SortedAround-entry (entries l) e (entries r) p.tree_sorted in
      record {
        whole = p.whole ∙ simp append_assoc;
        tree_balanced = br;
        path_fits = (bl, f, p.path_fits);
        tree_sorted = a.right_sorted;
        below = All-append _ (before path) (entries l ++ e ∷ []) p.below (
            All-append _ (entries l) (e ∷ []) (AllBelow-trans (e.0) k (entries l) more a.left_below)
              (more, tt));
        above = p.above;
      }

  handle_real-Position :
      (k : K) (es : List (K × V)) (path : List (Frame (K × V))) (t : Tree (K × V))
      → Position k es path t
      → (path' : List (Frame (K × V))) × (t' : Tree (K × V)) × (handle_real k path t ≡ (path', t'))
        × Position k es path' t'
        × Ends k t'
  unfolding handle_real Ends
  handle_real-Position k es path leaf p = (path, leaf, refl, p, tt)
  handle_real-Position k es path (node l e x r) p = elim (Bool-cases (order.lt k e.0)) [
    | inl less ↦
        let (path', t', run, p', end) =
          handle_real-Position k es (child1_of e x r ∷ path) l (left k es path l r e x less p) in
        (path', t', rw (handle_real, less) run, p', end)
    | inr nl ↦ elim (Bool-cases (order.lt e.0 k)) [
      | inl more ↦
          let (path', t', run, p', end) =
            handle_real-Position k es (child2_of l e x ∷ path) r (right k es path l r e x more p) in
          (path', t', rw (handle_real, nl, more) run, p', end)
      | inr nm ↦
          (path, node l e x r, rw (handle_real, nl, nm) refl, p, order.lt_connex (e.0) k nm nl)
    ]
  ]

  -- The outcomes of the search for `k` in a tree: a missing child between the smaller and the larger
  -- entries, or the node of the key between them.
  pub data Found (k : K) (es : List (K × V)) : List (Frame (K × V)) × Tree (K × V) → Type 0 where
    missing : (path : List (Frame (K × V))) → Position k es path leaf → Found k es (path, leaf)
    present :
        (path : List (Frame (K × V))) (l r : Tree (K × V)) (v : V) (x : ℤ)
        → Position k es path (node l (k, v) x r)
        → Found k es (path, node l (k, v) x r)

  outcome :
      (k : K) (es : List (K × V)) (path : List (Frame (K × V))) (t : Tree (K × V))
      → Position k es path t
      → Ends k t
      → Found k es (path, t)
  unfolding Ends
  outcome k es path leaf p end = missing path p
  outcome k es path (node l (k', v) x r) p end =
      subst (λ z. Found z es (path, node l (k', v) x r)) end
        (present path l r v x (subst (λ z. Position z es path (node l (k', v) x r)) (sym end) p))

  pub handle_real-Found :
      (k : K) (s : BstTree K V) → IsTree s → Found k (entries s.root) (handle_real k [] s.root)
  unfolding before behind
  handle_real-Found k s h =
      let (path, t, run, p, end) = handle_real-Position k (entries s.root) [] s.root (record {
        whole = sym (append-nil (entries s.root));
        tree_balanced = h.balanced;
        path_fits = tt;
        tree_sorted = h.sorted;
        below = tt;
        above = tt;
      }) in
      rw run (outcome k (entries s.root) path t p end)
