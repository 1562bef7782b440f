-- ===== src/Collection/Bst/Insert.antt =====
-- `fp_insert_pair` keeps the tree balanced and sorted, and adds the entry at its place.
use ew_base.Prelude.{
  ◌+◌, ◌≡◌, refl, sym, ap, ◌∙◌, Bool, true, false, List, [], ◌∷◌, ◌++◌, append_assoc, append-nil,
  arith, length, length-append,
}
use mathlib.Core.Path.{subst}
use ew_base.Prelude.Int.{pos}
use ew_base.Prelude.Order.{Order}
use ew_base.Prelude.Run.{Run, ok}
use ew_base.Collection.Avl.{Tree, leaf, node, Frame}
use ew_base.Collection.Avl.Shape.{equal, height, entries, before, behind}
use ew_base.Collection.Avl.Grow.{adjust_insert-Balances}
use ew_base.Collection.Bst.{BstTree, handle_real, insert_at, insert_pair}
use ew_base.Collection.Bst.Sorted.{IsSorted, AllBelow, AllAbove, IsSorted-insert}
use ew_base.Collection.Bst.Descent.{IsTree, Found, missing, present, handle_real-Found}

module _ {K V : Type 0} ⦃order : Order K⦄ where
  -- The entries `es` are those with smaller keys than `k`, and those with larger ones.
  pub record Split (k : K) (es left right : List (K × V)) : Type 0 where
    pub parts : es ≡ left ++ right
    pub left_below : AllBelow k left
    pub right_above : AllAbove k right

  -- What `insert_pair s v` promises: a tree with one more entry, or the same tree if the key is taken.
  pub data Inserted (s : BstTree K V) (v : K × V) : Run (BstTree K V × Bool) → Type 0 where
    added :
        (t : BstTree K V) (left right : List (K × V))
        → IsTree t
        → Split (v.0) (entries s.root) left right
        → entries t.root ≡ left ++ v ∷ right
        → Inserted s v (ok (t, true))
    taken :
        (w : V) (left right : List (K × V))
        → entries s.root ≡ left ++ (v.0, w) ∷ right
        → Inserted s v (ok (s, false))

  pub length-entry :
      (xs : List (K × V)) (e : K × V) (ys : List (K × V))
      → length (xs ++ ys) + 1 ≡ length (xs ++ e ∷ ys)
  length-entry xs e ys = omega (arith, length-append xs ys, length-append xs (e ∷ ys))

  insert_at-Inserted :
      (s : BstTree K V) (v : K × V) (p : List (Frame (K × V)) × Tree (K × V))
      → IsTree s
      → Found (v.0) (entries s.root) p
      → Inserted s v (insert_at s v (p.0) (p.1))
  unfolding insert_at entries height
  insert_at-Inserted s v (path, t) h (missing path' p) =
      let whole : entries s.root ≡ before path ++ behind path = p.whole ∙ simp append-nil in
      let (t, run, bt, et) =
        adjust_insert-Balances path (node leaf v (pos 0) leaf) 0 (tt, tt, equal refl refl) refl
          (λ e. refl) p.path_fits in
      let grown : entries t ≡ before path ++ v ∷ behind path = et ∙ simp append_assoc in
      rw run (
        added _ (before path) (behind path)
          (record {
            balanced = bt;
            sorted = subst IsSorted (sym grown) (
                IsSorted-insert (before path) v (behind path) p.below p.above
                  (subst IsSorted whole h.sorted));
            counted =
                ap (λ z. z + 1) (h.counted ∙ ap length whole)
                ∙ length-entry (before path) v (behind path)
                ∙ ap length (sym grown);
          })
          (record { parts = whole; left_below = p.below; right_above = p.above }) grown)
  insert_at-Inserted s v (path, t) h (present path' l r w x p) =
      taken w (before path ++ entries l) (entries r ++ behind path) (p.whole ∙ simp append_assoc)

  -- On a tree that is balanced and sorted and whose size is right, insert_pair faults nowhere: a
  -- new entry is put between those with smaller and those with larger keys, the tree stays balanced
  -- and sorted with the right size, and the flag is true; if the key is taken, nothing is changed
  -- and the flag is false.
  pub insert_pair-Inserted :
      (s : BstTree K V) (v : K × V) → IsTree s → Inserted s v (insert_pair s v)
  unfolding insert_pair
  insert_pair-Inserted s v h =
      insert_at-Inserted s v (handle_real (v.0) [] s.root) h (handle_real-Found (v.0) s h)
