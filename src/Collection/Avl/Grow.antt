-- ===== src/Collection/Avl/Grow.antt =====
-- `adjust_insert` rebalances a tree that has grown by one level at one place.
use ew_base.Prelude.{
  ℕ, suc, ◌≡◌, refl, sym, ap, ◌∙◌, Bool, true, false, List, [], ◌∷◌, ◌++◌, append_assoc, append-nil,
  arith,
}
use ew_base.Prelude.Int.{ℤ, pos, negsuc}
use ew_base.Prelude.Run.{Run, ok}
use ew_base.Collection.Avl.{
  Tree, node, Frame, child1_of, child2_of, plug, insert_round, adjust_insert,
}
use ew_base.Collection.Avl.Shape.{
  equal, left_high, right_high, height, IsBalanced, Fits, entries, before, behind, entries-plug,
  plug-IsBalanced,
}
use ew_base.Collection.Avl.Turns.{
  Turned, factor_of, handle_unblance_gt-Turned, handle_unblance_lt-Turned,
}

module _ {E : Type 0} where
  -- The result `s` of rebalancing along `path`, with the entries `es` in the hole.
  abbrev pub Balances : List (Frame E) → List E → Run (Tree E) → Type 0
  Balances path es run =
      (s : Tree E) × (run ≡ ok s) × IsBalanced s × (entries s ≡ before path ++ es ++ behind path)

  pub plug-Balances :
      (path : List (Frame E)) (t : Tree E) {es : List E}
      → IsBalanced t
      → Fits path (height t)
      → entries t ≡ es
      → Balances path es (ok (plug path t))
  plug-Balances path t b f e = (
    plug path t,
    refl,
    plug-IsBalanced path t b f,
    entries-plug path t ∙ ap (λ xs. before path ++ xs ++ behind path) e,
  )

  pub Fits-height : (path : List (Frame E)) {h k : ℕ} → h ≡ k → Fits path h → Fits path k
  Fits-height path e f = rw e at f

  -- The height behind a rotation, which is the one from before the insertion.
  level_height :
      {t : Tree E} {es : List E} {low h k : ℕ} {f : ℤ} (flag : Bool)
      → Turned t flag es low f
      → (f ≡ pos 0 → h ≡ 0)
      → h ≡ suc low
      → k ≡ suc (suc low)
      → k ≡ height t
  level_height true turned top one two = omega (arith, turned.lower refl)
  level_height false turned top one two =
      let (high, zero_factor) = turned.equal_high refl in absurd (omega (arith, top zero_factor))

  pub adjust_insert-Balances :
      (path : List (Frame E)) (n : Tree E) (h : ℕ)
      → IsBalanced n
      → height n ≡ suc h
      → (factor_of n ≡ pos 0 → h ≡ 0)
      → Fits path h
      → Balances path (entries n) (adjust_insert path n)
  unfolding adjust_insert insert_round before behind entries height factor_of
  adjust_insert-Balances [] n h b grown top f = (n, refl, b, sym (append-nil (entries n)))
  adjust_insert-Balances (child1_of e x r ∷ path) n h b grown top (br, equal k same, f) =
      let (s, run, bs, es) =
        adjust_insert-Balances path (node n e (pos 1) r) (suc h)
          (b, br, left_high refl (omega arith)) (omega arith) (λ z. absurd (ground arith))
          (Fits-height path (omega arith) f) in
      (s, rw k run, bs, es ∙ simp append_assoc)
  adjust_insert-Balances (child1_of e x r ∷ path) n h b grown top (br, right_high k more, f) =
      let (s, run, bs, es) =
        plug-Balances path (node n e (pos 0) r) (b, br, equal refl (omega arith))
          (Fits-height path (omega arith) f) refl in
      (s, rw k run, bs, es ∙ simp append_assoc)
  adjust_insert-Balances (child1_of e x r ∷ path) n h b grown top (br, left_high k more, f) =
      let (t, flag, turn, turned) = handle_unblance_gt-Turned n e (pos 2) r b br (omega arith) in
      let (s, run, bs, es) =
        plug-Balances path t turned.balanced
          (Fits-height path (level_height flag turned top (omega arith) (omega arith)) f)
          turned.same_entries in
      (s, rw (k, turn) run, bs, es ∙ simp append_assoc)
  adjust_insert-Balances (child2_of l e x ∷ path) n h b grown top (bl, equal k same, f) =
      let (s, run, bs, es) =
        adjust_insert-Balances path (node l e (negsuc 0) n) (suc h)
          (bl, b, right_high refl (omega arith)) (omega arith) (λ z. absurd (ground arith))
          (Fits-height path (omega arith) f) in
      (s, rw k run, bs, es ∙ simp append_assoc)
  adjust_insert-Balances (child2_of l e x ∷ path) n h b grown top (bl, left_high k more, f) =
      let (s, run, bs, es) =
        plug-Balances path (node l e (pos 0) n) (bl, b, equal refl (omega arith))
          (Fits-height path (omega arith) f) refl in
      (s, rw k run, bs, es ∙ simp append_assoc)
  adjust_insert-Balances (child2_of l e x ∷ path) n h b grown top (bl, right_high k more, f) =
      let (t, flag, turn, turned) = handle_unblance_lt-Turned l e (negsuc 1) n bl b (omega arith) in
      let (s, run, bs, es) =
        plug-Balances path t turned.balanced
          (Fits-height path (level_height flag turned top (omega arith) (omega arith)) f)
          turned.same_entries in
      (s, rw (k, turn) run, bs, es ∙ simp append_assoc)
