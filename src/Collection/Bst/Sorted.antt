-- ===== src/Collection/Bst/Sorted.antt =====
-- Lists of entries with ascending keys.
use ew_base.Prelude.{◌≡◌, true, List, [], ◌∷◌, ◌++◌, All, All-append}
use ew_base.Prelude.Order.{Order}

module _ {K V : Type 0} ⦃order : Order K⦄ where
  abbrev pub AllBelow : K → List (K × V) → Type 0
  AllBelow k es = All (λ e. order.lt e.0 k ≡ true) es

  abbrev pub AllAbove : K → List (K × V) → Type 0
  AllAbove k es = All (λ e. order.lt k e.0 ≡ true) es

  abbrev pub IsSorted : List (K × V) → Type 0
  IsSorted [] = Unit
  IsSorted (e ∷ es) = AllAbove (e.0) es × IsSorted es

  pub AllAbove-trans :
      (a b : K) (es : List (K × V)) → order.lt a b ≡ true → AllAbove b es → AllAbove a es
  AllAbove-trans a b [] h u = tt
  AllAbove-trans a b (e ∷ es) h (v, u) = (order.lt_trans a b (e.0) h v, AllAbove-trans a b es h u)

  pub AllBelow-trans :
      (a b : K) (es : List (K × V)) → order.lt a b ≡ true → AllBelow a es → AllBelow b es
  AllBelow-trans a b [] h u = tt
  AllBelow-trans a b (e ∷ es) h (v, u) = (order.lt_trans (e.0) a b v h, AllBelow-trans a b es h u)

  pub All-parts {κ} :
      (P : K × V → Type κ) (xs ys : List (K × V)) → All P (xs ++ ys) → All P xs × All P ys
  All-parts P [] ys h = (tt, h)
  All-parts P (x ∷ xs) ys (p, h) = let (hx, hy) = All-parts P xs ys h in ((p, hx), hy)

  -- A sorted list around one of its entries.
  pub record SortedAround (xs : List (K × V)) (k : K) (ys : List (K × V)) : Type 0 where
    pub left_sorted : IsSorted xs
    pub right_sorted : IsSorted ys
    pub left_below : AllBelow k xs
    pub right_above : AllAbove k ys

  pub SortedAround-entry :
      (xs : List (K × V)) (e : K × V) (ys : List (K × V))
      → IsSorted (xs ++ e ∷ ys)
      → SortedAround xs (e.0) ys
  SortedAround-entry [] e ys (u, s) = record {
    left_sorted = tt;
    right_sorted = s;
    left_below = tt;
    right_above = u;
  }
  SortedAround-entry (x ∷ xs) e ys (u, s) =
      let a = SortedAround-entry xs e ys s in
      let (ux, (ue, uy)) = All-parts _ xs (e ∷ ys) u in
      record {
        left_sorted = (ux, a.left_sorted);
        right_sorted = a.right_sorted;
        left_below = (ue, a.left_below);
        right_above = a.right_above;
      }

  pub IsSorted-insert :
      (xs : List (K × V)) (e : K × V) (ys : List (K × V))
      → AllBelow (e.0) xs
      → AllAbove (e.0) ys
      → IsSorted (xs ++ ys)
      → IsSorted (xs ++ e ∷ ys)
  IsSorted-insert [] e ys b u s = (u, s)
  IsSorted-insert (x ∷ xs) e ys (h, b) u (v, s) =
      let (vx, vy) = All-parts _ xs ys v in
      (All-append _ xs (e ∷ ys) vx (h, vy), IsSorted-insert xs e ys b u s)

  pub IsSorted-erase :
      (xs : List (K × V)) (e : K × V) (ys : List (K × V))
      → IsSorted (xs ++ e ∷ ys)
      → IsSorted (xs ++ ys)
  IsSorted-erase [] e ys (u, s) = s
  IsSorted-erase (x ∷ xs) e ys (v, s) =
      let (vx, (ve, vy)) = All-parts _ xs (e ∷ ys) v in
      (All-append _ xs ys vx vy, IsSorted-erase xs e ys s)
