-- ===== src/Collection/Bst/Search.antt =====
-- `fp_return_node`, `fp_lower_bound` and `fp_upper_bound` are searches in the list of the entries.
use ew_base.Prelude.{
  ◌≡◌, refl, sym, ◌∙◌, Bool, true, false, Option, none, some, List, [], ◌∷◌, ◌++◌, append_assoc,
  append-nil, not, if◌then◌else◌, ◌&&◌, All, All-append,
}
use ew_base.Prelude.Int.{ℤ}
use ew_base.Prelude.Order.{Order, lt_asym}
use ew_base.Collection.Avl.{Tree, leaf, node, Frame, child1_of, child2_of}
use ew_base.Collection.Avl.Shape.{entries, before, behind}
use ew_base.Collection.Bst.{
  BstTree, handle_real, nd_min, next_up, nd_inc, find_at, find, lower_at, lower_bound, upper_at,
  upper_bound,
}
use ew_base.Collection.Bst.Sorted.{AllBelow, AllAbove, SortedAround-entry}
use ew_base.Collection.Bst.Descent.{IsTree, Position, Found, missing, present, handle_real-Found}
use ew_base.Collection.Bst.Insert.{Split}

module _ {E : Type 0} where
  unfoldable head : List E → Option E
  head [] = none
  head (x ∷ xs) = some x

  unfoldable pub first : (E → Bool) → List E → Option E
  first p [] = none
  first p (x ∷ xs) = if p x then some x else first p xs

module _ {K V : Type 0} where
  nd_min-head :
      (l : Tree (K × V)) (e : K × V) (x : ℤ) (r : Tree (K × V)) (es : List (K × V))
      → nd_min (node l e x r) ≡ head (entries (node l e x r) ++ es)
  unfolding nd_min entries head
  nd_min-head leaf e x r es = refl
  nd_min-head (node a n y b) e x r es =
      nd_min-head a n y b (e ∷ entries r ++ es) ∙ simp append_assoc

  next_up-head : (path : List (Frame (K × V))) → next_up path ≡ head (behind path)
  unfolding next_up behind head
  next_up-head [] = refl
  next_up-head (child1_of e x r ∷ path) = refl
  next_up-head (child2_of l e x ∷ path) = next_up-head path

  nd_inc-head :
      (path : List (Frame (K × V))) (l : Tree (K × V)) (e : K × V) (x : ℤ) (r : Tree (K × V))
      → nd_inc path (node l e x r) ≡ head (entries r ++ behind path)
  unfolding nd_inc entries
  nd_inc-head path l e x leaf = next_up-head path
  nd_inc-head path l e x (node a n y b) = nd_min-head a n y b (behind path)

module _ {K V : Type 0} ⦃order : Order K⦄ where
  -- A key that is not less than `k`, and a greater one.
  unfoldable pub reaches : K → K × V → Bool
  reaches k e = not (order.lt e.0 k)

  unfoldable pub exceeds : K → K × V → Bool
  exceeds k e = order.lt k e.0

  unfoldable pub is_key : K → K × V → Bool
  is_key k e = not (order.lt k e.0) && not (order.lt e.0 k)

  first-below :
      (p : K × V → Bool) (xs ys : List (K × V))
      → All (λ e. p e ≡ false) xs
      → first p (xs ++ ys) ≡ first p ys
  unfolding first
  first-below p [] ys u = refl
  first-below p (x ∷ xs) ys (h, u) = rw h (first-below p xs ys u)

  first-head :
      (p : K × V → Bool) (ys : List (K × V)) → All (λ e. p e ≡ true) ys → first p ys ≡ head ys
  unfolding first head
  first-head p [] u = refl
  first-head p (x ∷ xs) (h, u) = rw h refl

  -- Of the entries with smaller keys than `k`, and of those with larger ones.
  below-tests :
      (k : K) (xs : List (K × V))
      → AllBelow k xs
      → All (λ e. is_key k e ≡ false) xs
        × All (λ e. reaches k e ≡ false) xs
        × All (λ e. exceeds k e ≡ false) xs
  unfolding is_key reaches exceeds
  below-tests k [] u = (tt, tt, tt)
  below-tests k (e ∷ xs) (h, u) =
      let (a, b, c) = below-tests k xs u in
      ((rw (lt_asym (e.0) k h, h) refl, a), (rw h refl, b), (lt_asym (e.0) k h, c))

  above-tests :
      (k : K) (xs : List (K × V))
      → AllAbove k xs
      → All (λ e. is_key k e ≡ false) xs
        × All (λ e. reaches k e ≡ true) xs
        × All (λ e. exceeds k e ≡ true) xs
  unfolding is_key reaches exceeds
  above-tests k [] u = (tt, tt, tt)
  above-tests k (e ∷ xs) (h, u) =
      let (a, b, c) = above-tests k xs u in
      ((rw h refl, a), (rw (lt_asym k (e.0) h) refl, b), (h, c))

  first-none :
      (p : K × V → Bool) (xs : List (K × V)) → All (λ e. p e ≡ false) xs → first p xs ≡ none
  unfolding first
  first-none p [] u = refl
  first-none p (x ∷ xs) (h, u) = rw h (first-none p xs u)

  -- The entries around a missing child, and around the node of the key.
  leaf-Split :
      {k : K} {es : List (K × V)} {path : List (Frame (K × V))}
      → Position k es path leaf
      → Split k es (before path) (behind path)
  unfolding entries
  leaf-Split p = record {
    parts = p.whole ∙ simp append-nil;
    left_below = p.below;
    right_above = p.above;
  }

  node-Split :
      {k : K} {v : V} {es : List (K × V)} {path : List (Frame (K × V))} {l r : Tree (K × V)} {x : ℤ}
      → Position k es path (node l (k, v) x r)
      → (es ≡ before path ++ entries l ++ (k, v) ∷ (entries r ++ behind path))
        × AllBelow k (before path ++ entries l)
        × AllAbove k (entries r ++ behind path)
  unfolding entries
  node-Split {k} {v} {es} {path} {l} {r} p =
      let a = SortedAround-entry (entries l) (k, v) (entries r) p.tree_sorted in
      (
        p.whole ∙ simp append_assoc,
        All-append _ (before path) (entries l) p.below a.left_below,
        All-append _ (entries r) (behind path) a.right_above p.above,
      )

  is_key_self : (k : K) (v : V) → is_key k (k, v) ≡ true
  unfolding is_key
  is_key_self k v = rw (order.lt_irrefl k) refl

  find_at-first :
      (k : K) (es : List (K × V)) (p : List (Frame (K × V)) × Tree (K × V))
      → Found k es p
      → find_at (p.0) (p.1) ≡ first (is_key k) es
  unfolding find_at first
  find_at-first k es (path, t) (missing path' p) =
      let s = leaf-Split p in
      rw
        (
          s.parts,
          first-below (is_key k) (before path) (behind path)
              ((below-tests k (before path) s.left_below).0),
        )
        (sym (first-none (is_key k) (behind path) ((above-tests k (behind path) s.right_above).0)))
  find_at-first k es (path, t) (present path' l r v x p) =
      let (whole, low, high) = node-Split p in
      rw
        (
          whole,
          first-below (is_key k) (before path ++ entries l) ((k, v) ∷ (entries r ++ behind path))
              ((below-tests k _ low).0),
          is_key_self k v,
        )
        refl

  lower_at-first :
      (k : K) (es : List (K × V)) (p : List (Frame (K × V)) × Tree (K × V))
      → Found k es p
      → lower_at (p.0) (p.1) ≡ first (reaches k) es
  unfolding lower_at first reaches
  lower_at-first k es (path, t) (missing path' p) =
      let s = leaf-Split p in
      rw
        (
          s.parts,
          first-below (reaches k) (before path) (behind path)
              ((below-tests k (before path) s.left_below).1),
        )
        (next_up-head path
          ∙ sym (
              first-head (reaches k) (behind path) ((above-tests k (behind path) s.right_above).1)))
  lower_at-first k es (path, t) (present path' l r v x p) =
      let (whole, low, high) = node-Split p in
      rw
        (
          whole,
          first-below (reaches k) (before path ++ entries l) ((k, v) ∷ (entries r ++ behind path))
              ((below-tests k _ low).1),
          order.lt_irrefl k,
        )
        refl

  upper_at-first :
      (k : K) (es : List (K × V)) (p : List (Frame (K × V)) × Tree (K × V))
      → Found k es p
      → upper_at (p.0) (p.1) ≡ first (exceeds k) es
  unfolding upper_at first exceeds
  upper_at-first k es (path, t) (missing path' p) =
      let s = leaf-Split p in
      rw
        (
          s.parts,
          first-below (exceeds k) (before path) (behind path)
              ((below-tests k (before path) s.left_below).2),
        )
        (next_up-head path
          ∙ sym (
              first-head (exceeds k) (behind path) ((above-tests k (behind path) s.right_above).2)))
  upper_at-first k es (path, t) (present path' l r v x p) =
      let (whole, low, high) = node-Split p in
      rw
        (
          whole,
          first-below (exceeds k) (before path ++ entries l) ((k, v) ∷ (entries r ++ behind path))
              ((below-tests k _ low).2),
          order.lt_irrefl k,
        )
        (nd_inc-head path l (k, v) x r
          ∙ sym (first-head (exceeds k) (entries r ++ behind path) ((above-tests k _ high).2)))

  -- On a tree that is balanced and sorted and whose size is right, find is the first of the
  -- entries, from left to right, whose key is neither less nor greater.
  pub find-first :
      (s : BstTree K V) (k : K) → IsTree s → find s k ≡ first (is_key k) (entries s.root)
  unfolding find
  find-first s k h =
      find_at-first k (entries s.root) (handle_real k [] s.root) (handle_real-Found k s h)

  -- On a tree that is balanced and sorted and whose size is right, lower_bound is the first of the
  -- entries, from left to right, whose key is not less.
  pub lower_bound-first :
      (s : BstTree K V) (k : K) → IsTree s → lower_bound s k ≡ first (reaches k) (entries s.root)
  unfolding lower_bound
  lower_bound-first s k h =
      lower_at-first k (entries s.root) (handle_real k [] s.root) (handle_real-Found k s h)

  -- On a tree that is balanced and sorted and whose size is right, upper_bound is the first of the
  -- entries, from left to right, whose key is greater.
  pub upper_bound-first :
      (s : BstTree K V) (k : K) → IsTree s → upper_bound s k ≡ first (exceeds k) (entries s.root)
  unfolding upper_bound
  upper_bound-first s k h =
      upper_at-first k (entries s.root) (handle_real k [] s.root) (handle_real-Found k s h)
