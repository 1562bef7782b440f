-- ===== src/Tests/BstTests.antt =====
-- The theorems on the balanced trees, at trees of numbers.
use ew_base.Prelude.{◌≡◌, refl, true, none, ℕ}
use ew_base.Prelude.Int.{pos}
use ew_base.Prelude.Order.{nat_order}
use ew_base.Prelude.Run.{ok}
use ew_base.Collection.Avl.{
  leaf, node, adjust_insert, handle_unblance_gt, rotate_left, rotate_right, set_factors_gt2, plug,
}
use ew_base.Collection.Avl.Shape.{equal, left_high, entries, height}
use ew_base.Collection.Bst.{BstTree, find, upper_bound, lower_bound, insert_pair, erase}
use ew_base.Collection.Bst.Descent.{IsTree}
use ew_base.Collection.Bst.Insert.{Inserted, insert_pair-Inserted}
use ew_base.Collection.Bst.Erase.{Erased, erase-Erased}
use ew_base.Collection.Bst.Search.{
  find-first, is_key, first, exceeds, reaches, upper_bound-first, lower_bound-first,
}

abbrev two_entries : BstTree ℕ ℕ
two_entries = record { root = node (node leaf (3, 30) (pos 0) leaf) (5, 50) (pos 1) leaf; size = 2 }

two_entries-IsTree : IsTree two_entries
unfolding entries height
two_entries-IsTree = record {
  balanced = ((tt, tt, equal refl refl), tt, left_high refl refl);
  sorted = ((refl, tt), (tt, tt));
  counted = refl;
}

-- Here the insertion turns twice.
tree_insert_pair_example : Inserted two_entries (4, 40) (insert_pair two_entries (4, 40))
tree_insert_pair_example = insert_pair-Inserted two_entries (4, 40) two_entries-IsTree

tree_erase_example : Erased two_entries 5 (erase two_entries 5)
tree_erase_example = erase-Erased two_entries 5 two_entries-IsTree

tree_upper_bound_example : upper_bound two_entries 3 ≡ first (exceeds 3) (entries two_entries.root)
tree_upper_bound_example = upper_bound-first two_entries 3 two_entries-IsTree

tree_find_example : find two_entries 3 ≡ first (is_key 3) (entries two_entries.root)
tree_find_example = find-first two_entries 3 two_entries-IsTree

tree_lower_bound_example : lower_bound two_entries 4 ≡ first (reaches 4) (entries two_entries.root)
tree_lower_bound_example = lower_bound-first two_entries 4 two_entries-IsTree

turned_twice :
    insert_pair two_entries (4, 40)
    ≡ ok (
      record {
        root =
            node (node leaf (3, 30) (pos 0) leaf) (4, 40) (pos 0) (node leaf (5, 50) (pos 0) leaf);
        size = 3;
      },
      true,
    )
unfolding insert_pair adjust_insert handle_unblance_gt rotate_left rotate_right set_factors_gt2 plug
turned_twice = refl

no_greater_key : upper_bound two_entries 5 ≡ none
unfolding upper_bound
no_greater_key = refl
