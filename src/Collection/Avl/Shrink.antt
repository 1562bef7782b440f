-- ===== src/Collection/Avl/Shrink.antt =====
-- `blance_parent` rebalances a tree that has lost one level at one place.
use ew_base.Prelude.{
  ℕ, suc, ◌≡◌, refl, sym, ap, ◌∙◌, Bool, true, false, List, [], ◌∷◌, ◌++◌, append_assoc, append-nil,
  arith,
}
use ew_base.Prelude.Int.{ℤ, pos, negsuc}
use ew_base.Prelude.Run.{Run, ok}
use ew_base.Collection.Avl.{
  Tree, node, Frame, child1_of, child2_of, plug, delete_round, blance_parent,
}
use ew_base.Collection.Avl.Shape.{
  equal, left_high, right_high, height, IsBalanced, Fits, entries, before, behind,
}
use ew_base.Collection.Avl.Turns.{Turned, handle_unblance_gt-Turned, handle_unblance_lt-Turned}
use ew_base.Collection.Avl.Grow.{Balances, plug-Balances, Fits-height}

module _ {E : Type 0} where
  -- Behind a rotation: up to the next parent, or an end.
  climb-Balances :
      (again : Tree E → Run (Tree E)) (path : List (Frame E)) (t : Tree E) (flag : Bool)
      {es : List E} {low : ℕ} {f : ℤ}
      → Turned t flag es low f
      → Fits path (suc (suc (suc low)))
      → (height t ≡ suc (suc low) → Balances path (entries t) (again t))
      → Balances path es (elim flag [ true ↦ again t | false ↦ ok (plug path t) ])
  climb-Balances again path t true turned fits next =
      let (s, run, bs, es) = next (turned.lower refl) in
      (s, run, bs, es ∙ ap (λ xs. before path ++ xs ++ behind path) turned.same_entries)
  climb-Balances again path t false turned fits next =
      plug-Balances path t turned.balanced
        (Fits-height path (sym ((turned.equal_high refl).0)) fits) turned.same_entries

  pub blance_parent-Balances :
      (path : List (Frame E)) (n : Tree E) (h : ℕ)
      → IsBalanced n
      → height n ≡ h
      → Fits path (suc h)
      → Balances path (entries n) (blance_parent path n)
  unfolding blance_parent delete_round before behind entries height
  blance_parent-Balances [] n h b low f = (n, refl, b, sym (append-nil (entries n)))
  blance_parent-Balances (child1_of e x r ∷ path) n h b low (br, equal k same, f) =
      let (s, run, bs, es) =
        plug-Balances path (node n e (negsuc 0) r) (b, br, right_high refl (omega arith))
          (Fits-height path (omega arith) f) refl in
      (s, rw k run, bs, es ∙ simp append_assoc)
  blance_parent-Balances (child1_of e x r ∷ path) n h b low (br, left_high k more, f) =
      let (s, run, bs, es) =
        blance_parent-Balances path (node n e (pos 0) r) (suc h) (b, br, equal refl (omega arith))
          (omega arith) (Fits-height path (omega arith) f) in
      (s, rw k run, bs, es ∙ simp append_assoc)
  blance_parent-Balances (child1_of e x r ∷ path) n h b low (br, right_high k more, f) =
      let (t, flag, turn, turned) = handle_unblance_lt-Turned n e (negsuc 1) r b br (omega arith) in
      let (s, run, bs, es) =
        climb-Balances (blance_parent path) path t flag turned (Fits-height path (omega arith) f)
          (λ e.
            blance_parent-Balances path t (suc (suc (height n))) turned.balanced e
              (Fits-height path (omega arith) f)) in
      (s, rw (k, turn) run, bs, es ∙ simp append_assoc)
  blance_parent-Balances (child2_of l e x ∷ path) n h b low (bl, equal k same, f) =
      let (s, run, bs, es) =
        plug-Balances path (node l e (pos 1) n) (bl, b, left_high refl (omega arith))
          (Fits-height path (omega arith) f) refl in
      (s, rw k run, bs, es ∙ simp append_assoc)
  blance_parent-Balances (child2_of l e x ∷ path) n h b low (bl, right_high k more, f) =
      let (s, run, bs, es) =
        blance_parent-Balances path (node l e (pos 0) n) (suc h) (bl, b, equal refl (omega arith))
          (omega arith) (Fits-height path (omega arith) f) in
      (s, rw k run, bs, es ∙ simp append_assoc)
  blance_parent-Balances (child2_of l e x ∷ path) n h b low (bl, left_high k more, f) =
      let (t, flag, turn, turned) = handle_unblance_gt-Turned l e (pos 2) n bl b (omega arith) in
      let (s, run, bs, es) =
        climb-Balances (blance_parent path) path t flag turned (Fits-height path (omega arith) f)
          (λ e.
            blance_parent-Balances path t (suc (suc (height n))) turned.balanced e
              (Fits-height path (omega arith) f)) in
      (s, rw (k, turn) run, bs, es ∙ simp append_assoc)
