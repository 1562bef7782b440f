-- ===== src/Tests/ListTests.antt =====
-- The theorems on the intrusive list, at a list of two nodes.
use ew_base.Prelude.{ℕ, ◌≡◌, refl, true, Option, none, some, [], ◌∷◌, ◌==◌, if◌then◌else◌, arith}
use ew_base.Prelude.Run.{ok, fault}
use ew_base.Collection.IntrusiveList.{IntrusiveList, append, remove, clear}
use ew_base.Collection.IntrusiveList.Linked.{HasNodes, IsList, last_or}
use ew_base.Collection.IntrusiveList.Unlinked.{holds, without}
use ew_base.Collection.IntrusiveList.Refines.{appends, perform, expected, IsAllowed, perform-IsList}
use ew_base.Collection.IntrusiveList.Cleared.{clear-IsList}
use ew_base.Collection.IntrusiveList.Dangling.{remove-last}

-- The nodes 7 and 8 are linked, and 9 is alone.
abbrev cells : ℕ → Option ℕ
cells q = if q == 7 then some 8 else if q == 8 then some 0 else if q == 9 then some 0 else none

abbrev two_nodes : IntrusiveList
two_nodes = record { next = cells; head = 7; tail = 8; size = 2 }

two_nodes-IsList : IsList two_nodes (7 ∷ 8 ∷ [])
two_nodes-IsList = record {
  nodes = record {
    linked = (refl, refl, (8, refl, (refl, refl, (0, refl, refl))));
    distinct = ((refl, tt), (tt, tt));
    counted = refl;
    room = omega arith;
  };
  ends = refl;
}

nine-IsAllowed : IsAllowed (appends 9) two_nodes (7 ∷ 8 ∷ [])
unfolding IsAllowed
nine-IsAllowed = ((refl, (refl, (refl, tt)), omega arith), refl)

perform-IsList_example :
    (t : IntrusiveList) × (perform (appends 9) two_nodes
      ≡ ok ((expected (appends 9) (7 ∷ 8 ∷ [])).0, t))
    × IsList t ((expected (appends 9) (7 ∷ 8 ∷ [])).1)
perform-IsList_example =
    perform-IsList (appends 9) (7 ∷ 8 ∷ []) two_nodes two_nodes-IsList nine-IsAllowed

clear-IsList_example :
    (t : IntrusiveList) × (clear two_nodes ≡ ok t)
    × IsList t []
    × ((q : ℕ) → t.next q ≡ (if holds q (7 ∷ 8 ∷ []) then none else two_nodes.next q))
clear-IsList_example = clear-IsList (7 ∷ 8 ∷ []) two_nodes two_nodes-IsList

remove-last_example :
    (t : IntrusiveList) × (remove (last_or 7 (8 ∷ [])) two_nodes ≡ ok (true, t))
    × HasNodes t (without (last_or 7 (8 ∷ [])) (7 ∷ 8 ∷ []))
    × (append 9 t ≡ fault)
remove-last_example = remove-last 7 9 (8 ∷ []) two_nodes two_nodes-IsList
