-- ===== src/Collection/IntrusiveList/Dangling.antt =====
-- `remove` of the last node.
use ew_base.Prelude.{ℕ, ◌≡◌, refl, ap, ◌∙◌, true, false, none, List, [], ◌∷◌, ◌==◌, arith}
use ew_base.Prelude.Run.{ok, fault}
use ew_base.Collection.IntrusiveList.{IntrusiveList, set_next, delete_node, remove, append}
use ew_base.Collection.IntrusiveList.Linked.{HasNodes, IsList, last_or, last_or-alive_zero}
use ew_base.Collection.IntrusiveList.Unlinked.{holds, without, delete_node-Disposes}
use ew_base.Collection.IntrusiveList.Taken.{unlink-Taken}

holds-last_or : (x : ℕ) (xs : List ℕ) → holds (last_or x xs) (x ∷ xs) ≡ true
unfolding holds
holds-last_or x [] = ground arith
holds-last_or x (y ∷ ys) = let e = holds-last_or y ys in ground arith

append-faults :
    (q : ℕ) (t : IntrusiveList) → (t.tail == 0) ≡ false → t.next t.tail ≡ none → append q t ≡ fault
unfolding append set_next
append-faults q t z c = rw z (rw (set_next, c) refl)

-- remove of the last node of a list returns true, and the nodes before it are linked from the head and
-- counted; but the tail still points to the deleted node, and append, of any node, writes to it.
pub remove-last :
    (x q : ℕ) (xs : List ℕ) (s : IntrusiveList)
    → IsList s (x ∷ xs)
    → (t : IntrusiveList) × (remove (last_or x xs) s ≡ ok (true, t))
      × HasNodes t (without (last_or x xs) (x ∷ xs))
      × (append q t ≡ fault)
unfolding remove
remove-last x q xs s list =
    let p = last_or x xs in
    let z : (p == 0) ≡ false = last_or-alive_zero s.next s.head x xs list.nodes.linked in
    let record { after = t; run = run; nodes = nodes; left = left; tail_kept = tail } =
      unlink-Taken delete_node (λ o. o ≡ none) p (x ∷ xs) s (delete_node-Disposes p) z list.nodes in
    let there : holds p (x ∷ xs) ≡ true = holds-last_or x xs in
    let at : t.tail ≡ p = tail ∙ list.ends in
    let tail_zero : (t.tail == 0) ≡ false = ap (λ v. v == 0) at ∙ z in
    let gone : t.next t.tail ≡ none = ap t.next at ∙ left there in
    (t, run ∙ ap (λ b. ok (b, t)) there, nodes, append-faults q t tail_zero gone)
