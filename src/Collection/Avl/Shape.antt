-- ===== src/Collection/Avl/Shape.antt =====
-- Balanced trees: the factor of every node is the height of `child1` less the height of `child2`, and
-- is -1, 0 or 1. The entries of a tree are those of its nodes from left to right.
use ew_base.Prelude.{ℕ, suc, max, ◌≡◌, sym, List, [], ◌∷◌, ◌++◌, append_assoc, append-nil}
use ew_base.Prelude.Int.{ℤ, pos, negsuc}
use ew_base.Collection.Avl.{Tree, leaf, node, Frame, child1_of, child2_of, plug}

-- The factor of a node whose children have the heights `a` and `b`.
pub data Factor (x : ℤ) (a b : ℕ) : Type 0 where
  equal : x ≡ pos 0 → a ≡ b → Factor x a b
  left_high : x ≡ pos 1 → a ≡ suc b → Factor x a b
  right_high : x ≡ negsuc 0 → b ≡ suc a → Factor x a b

module _ {E : Type 0} where
  unfoldable pub height : Tree E → ℕ
  height leaf = 0
  height (node l e x r) = suc (max (height l) (height r))

  abbrev pub IsBalanced : Tree E → Type 0
  IsBalanced leaf = Unit
  IsBalanced (node l e x r) = IsBalanced l × IsBalanced r × Factor x (height l) (height r)

  -- The frames are balanced with a tree of the height `h` in their hole.
  abbrev pub Fits : List (Frame E) → ℕ → Type 0
  Fits [] h = Unit
  Fits (child1_of e x r ∷ path) h =
      IsBalanced r × Factor x h (height r) × Fits path (suc (max h (height r)))
  Fits (child2_of l e x ∷ path) h =
      IsBalanced l × Factor x (height l) h × Fits path (suc (max (height l) h))

  unfoldable pub entries : Tree E → List E
  entries leaf = []
  entries (node l e x r) = entries l ++ e ∷ entries r

  -- The entries on both sides of the hole.
  unfoldable pub before : List (Frame E) → List E
  before [] = []
  before (child1_of e x r ∷ path) = before path
  before (child2_of l e x ∷ path) = before path ++ (entries l ++ e ∷ [])

  unfoldable pub behind : List (Frame E) → List E
  unfolding entries
  behind [] = []
  behind (child1_of e x r ∷ path) = (e ∷ entries r) ++ behind path
  behind (child2_of l e x ∷ path) = behind path

  pub entries-plug :
      (path : List (Frame E)) (t : Tree E)
      → entries (plug path t) ≡ before path ++ entries t ++ behind path
  unfolding plug entries before behind
  entries-plug [] t = sym (append-nil (entries t))
  entries-plug (child1_of e x r ∷ path) t =
      rw (entries-plug path (node t e x r)) (simp append_assoc)
  entries-plug (child2_of l e x ∷ path) t =
      rw (entries-plug path (node l e x t)) (simp append_assoc)

  pub plug-IsBalanced :
      (path : List (Frame E)) (t : Tree E)
      → IsBalanced t
      → Fits path (height t)
      → IsBalanced (plug path t)
  unfolding plug height
  plug-IsBalanced [] t h f = h
  plug-IsBalanced (child1_of e x r ∷ path) t h (b, k, f) =
      plug-IsBalanced path (node t e x r) (h, b, k) f
  plug-IsBalanced (child2_of l e x ∷ path) t h (b, k, f) =
      plug-IsBalanced path (node l e x t) (b, h, k) f
