-- ===== src/Collection/Bst/Erase.antt =====
-- `fp_erase` keeps the tree balanced and sorted, and removes the entry of the key.
use mathlib.Core.Path.{subst}
use ew_base.Prelude.{
  ℕ, suc, ◌≡◌, refl, sym, ap, ◌∙◌, some, List, [], ◌∷◌, ◌++◌, append_assoc, append-nil, arith,
  length,
}
use ew_base.Prelude.Int.{ℤ}
use ew_base.Prelude.Order.{Order}
use ew_base.Prelude.Run.{Run, ok}
use ew_base.Collection.Avl.{Tree, leaf, node, Frame, child1_of, child2_of, delete_one_child}
use ew_base.Collection.Avl.Shape.{height, IsBalanced, Fits, entries, before, behind}
use ew_base.Collection.Avl.Grow.{Balances, Fits-height}
use ew_base.Collection.Avl.Shrink.{blance_parent-Balances}
use ew_base.Collection.Bst.{
  BstTree, handle_real, nd_max, do_erase_swap_node, do_erase, erase_found, erase,
}
use ew_base.Collection.Bst.Sorted.{IsSorted, IsSorted-erase}
use ew_base.Collection.Bst.Descent.{IsTree, Found, missing, present, handle_real-Found}
use ew_base.Collection.Bst.Insert.{Split, length-entry}

module _ {E : Type 0} where
  before_append : (acc path : List (Frame E)) → before (acc ++ path) ≡ before path ++ before acc
  unfolding before
  before_append [] path = sym (append-nil (before path))
  before_append (child1_of e x r ∷ acc) path = before_append acc path
  before_append (child2_of l e x ∷ acc) path = rw (before_append acc path) (simp append_assoc)

  behind_append : (acc path : List (Frame E)) → behind (acc ++ path) ≡ behind acc ++ behind path
  unfolding behind
  behind_append [] path = refl
  behind_append (child1_of e x r ∷ acc) path = rw (behind_append acc path) (simp append_assoc)
  behind_append (child2_of l e x ∷ acc) path = behind_append acc path

module _ {K V : Type 0} where
  -- The greatest node of a tree: its entry, its `child1`, and the frames above it.
  pub record Greatest (acc : List (Frame (K × V))) (t : Tree (K × V)) (e : K × V) (l : Tree (K × V))
      (path : List (Frame (K × V))) : Type 0 where
    pub child_balanced : IsBalanced l
    pub child_fits :
        (rest : List (Frame (K × V)))
        → Fits (acc ++ rest) (height t)
        → Fits (path ++ rest) (suc (height l))
    pub last_entry : before acc ++ entries t ≡ before path ++ entries l ++ e ∷ []
    pub behind_same : behind path ≡ behind acc

  nd_max-Greatest :
      (acc : List (Frame (K × V))) (l : Tree (K × V)) (e : K × V) (x : ℤ) (r : Tree (K × V))
      → IsBalanced (node l e x r)
      → (m : K × V) × (f : ℤ) × (t : Tree (K × V)) × (path : List (Frame (K × V))) × (nd_max acc
            (node l e x r)
          ≡ some (m, f, t, path))
        × Greatest acc (node l e x r) m t path
  unfolding nd_max height entries before behind
  nd_max-Greatest acc l e x leaf (bl, br, f) = (
    e,
    x,
    l,
    acc,
    refl,
    record {
      child_balanced = bl;
      child_fits = λ rest fits. Fits-height (acc ++ rest) (omega arith) fits;
      last_entry = simp append_assoc;
      behind_same = refl;
    },
  )
  nd_max-Greatest acc l e x (node a e' x' b) (bl, br, f) =
      let (m, factor, t, path, run, g) = nd_max-Greatest (child2_of l e x ∷ acc) a e' x' b br in
      (
        m,
        factor,
        t,
        path,
        run,
        record {
          child_balanced = g.child_balanced;
          child_fits = λ rest fits. g.child_fits rest (bl, f, fits);
          last_entry = (simp append_assoc) ∙ g.last_entry;
          behind_same = g.behind_same;
        },
      )

  swapped-Balances :
      (path acc : List (Frame (K × V))) (m : K × V) (x : ℤ) (l r t : Tree (K × V))
      {run : Run (Tree (K × V))}
      → Greatest [] l m t acc
      → Balances (acc ++ child1_of m x r ∷ path) (entries t) run
      → Balances path (entries l ++ entries r) run
  unfolding before behind
  swapped-Balances path acc m x l r t g (s, run, bs, es) =
      let last : entries l ≡ before acc ++ entries t ++ m ∷ [] = g.last_entry in
      (
        s,
        run,
        bs,
        es
            ∙ rw
                (
                  before_append acc (child1_of m x r ∷ path),
                  behind_append acc (child1_of m x r ∷ path),
                  g.behind_same,
                  last,
                )
                (simp append_assoc),
      )

  delete_one_child-Balances :
      (path : List (Frame (K × V))) (l : Tree (K × V)) (e : K × V) (x : ℤ)
      → IsBalanced l
      → Fits path (suc (height l))
      → Balances path (entries l) (delete_one_child path (node l e x leaf))
  unfolding delete_one_child height
  delete_one_child-Balances path leaf e x b f = blance_parent-Balances path leaf 0 tt refl f
  delete_one_child-Balances path (node a n y c) e x b f =
      blance_parent-Balances path (node a n y c) _ b refl f

  do_erase-Balances :
      (path : List (Frame (K × V))) (l : Tree (K × V)) (e : K × V) (x : ℤ) (r : Tree (K × V))
      → IsBalanced (node l e x r)
      → Fits path (height (node l e x r))
      → Balances path (entries l ++ entries r) (do_erase path (node l e x r))
  unfolding do_erase delete_one_child entries height
  do_erase-Balances path leaf e x r (bl, br, k) f =
      blance_parent-Balances path r _ br refl (Fits-height path (omega arith) f)
  do_erase-Balances path (node a n y c) e x leaf (bl, br, k) f =
      let (s, run, bs, es) =
        blance_parent-Balances path (node a n y c) _ bl refl (Fits-height path (omega arith) f) in
      (s, run, bs, es ∙ simp append-nil)
  do_erase-Balances path (node a n y c) e x (node a' n' y' c') (bl, br, k) f =
      let (m, factor, t, acc, run, g) = nd_max-Greatest [] a n y c bl in
      let (s, done, bs, es) = swapped-Balances path acc m x (node a n y c) (node a' n' y' c') t g (
        delete_one_child-Balances (acc ++ child1_of m x (node a' n' y' c') ∷ path) t e factor
          g.child_balanced (g.child_fits (child1_of m x (node a' n' y' c') ∷ path) (br, k, f))) in
      (s, rw (do_erase, do_erase_swap_node, run) done, bs, es)

module _ {K V : Type 0} ⦃order : Order K⦄ where
  -- What `erase s k` promises: the tree without the entry of the key, or the same tree if there is none.
  pub data Erased (s : BstTree K V) (k : K) : Run (BstTree K V × ℕ) → Type 0 where
    removed :
        (t : BstTree K V) (v : V) (left right : List (K × V))
        → IsTree t
        → entries s.root ≡ left ++ (k, v) ∷ right
        → entries t.root ≡ left ++ right
        → Erased s k (ok (t, 1))
    absent :
        (left right : List (K × V)) → Split k (entries s.root) left right → Erased s k (ok (s, 0))

  erase_found-Erased :
      (s : BstTree K V) (k : K) (p : List (Frame (K × V)) × Tree (K × V))
      → IsTree s
      → Found k (entries s.root) p
      → Erased s k (erase_found s (p.0) (p.1))
  unfolding erase_found entries
  erase_found-Erased s k (path, t) h (missing path' p) =
      absent (before path) (behind path)
        (record { parts = p.whole ∙ simp append-nil; left_below = p.below; right_above = p.above })
  erase_found-Erased s k (path, t) h (present path' l r v x p) =
      let (t', run, bt, et) = do_erase-Balances path l (k, v) x r p.tree_balanced p.path_fits in
      let left : List (K × V) = before path ++ entries l in
      let right : List (K × V) = entries r ++ behind path in
      let whole : entries s.root ≡ left ++ (k, v) ∷ right = p.whole ∙ simp append_assoc in
      let shrunk : entries t' ≡ left ++ right = et ∙ simp append_assoc in
      rw run (
        removed _ v left right
          (record {
            balanced = bt;
            sorted =
                subst IsSorted (sym shrunk)
                  (IsSorted-erase left (k, v) right (subst IsSorted whole h.sorted));
            counted = omega (
              arith,
              h.counted ∙ ap length whole,
              length-entry left (k, v) right,
              ap length shrunk,
            );
          })
          whole shrunk)

  -- On a tree that is balanced and sorted and whose size is right, erase faults nowhere: the entry
  -- of the key is removed, the tree stays balanced and sorted with the right size, and 1 is
  -- returned; without the key nothing is changed and 0 is returned.
  pub erase-Erased : (s : BstTree K V) (k : K) → IsTree s → Erased s k (erase s k)
  unfolding erase
  erase-Erased s k h = erase_found-Erased s k (handle_real k [] s.root) h (handle_real-Found k s h)
