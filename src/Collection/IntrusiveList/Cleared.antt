-- ===== src/Collection/IntrusiveList/Cleared.antt =====
-- `clear` on a list.
use ew_base.Prelude.{
  ℕ, zero, suc, ◌<◌, ◌≡◌, refl, ◌∙◌, inl, inr, true, false, Bool-cases, none, some, List, [], ◌∷◌,
  ◌==◌, if◌then◌else◌, length, arith,
}
use ew_base.Prelude.Run.{ok}
use ew_base.Collection.IntrusiveList.{
  IntrusiveList, update, get_next, delete_node, more, less, release, clear_loop, clear,
}
use ew_base.Collection.IntrusiveList.Linked.{
  Apart, Distinct, Linked, Linked-Agrees, update-Agrees, IsList,
}
use ew_base.Collection.IntrusiveList.Unlinked.{holds}

freed_step :
    (s : IntrusiveList) (q x : ℕ) (xs : List ℕ)
    → s.head ≡ x
    → (if holds q xs then none else update s.next s.head none q)
      ≡ (if holds q (x ∷ xs) then none else s.next q)
unfolding holds
freed_step s q x xs at = rw at (elim (Bool-cases (x == q)) [
  | inl hit ↦ elim (Bool-cases (holds q xs)) [
    | inl more ↦ rw (hit, more) refl
    | inr less ↦ rw (hit, less) refl
  ]
  | inr miss ↦ rw miss refl
])

clear_step :
    (fuel n : ℕ) (s : IntrusiveList)
    → (s.head == 0) ≡ false
    → s.next s.head ≡ some n
    → clear_loop (suc fuel) s
      ≡ clear_loop fuel (record s { next = update s.next s.head none; head = n })
unfolding clear_loop get_next delete_node
clear_step fuel n s z c = rw (clear_loop, z) (rw c refl)

-- What the loop of `clear` does: the nodes are deleted, and no others.
record Cleared (fuel : ℕ) (s : IntrusiveList) (xs : List ℕ) : Type 0 where
  after : IntrusiveList
  run : clear_loop fuel s ≡ ok after
  freed : (q : ℕ) → after.next q ≡ (if holds q xs then none else s.next q)

clear_loop-Cleared :
    (fuel : ℕ) (s : IntrusiveList) (xs : List ℕ)
    → Linked s.next s.head xs
    → Distinct xs
    → length xs < fuel
    → Cleared fuel s xs
unfolding clear_loop holds
clear_loop-Cleared zero s xs l d room = absurd (omega arith)
clear_loop-Cleared (suc fuel) s [] l d room =
    let no_head : (s.head == 0) ≡ true = rw l refl in
    record { after = s; run = rw no_head refl; freed = λ q. refl }
clear_loop-Cleared (suc fuel) s (x ∷ xs) (at, z, (n, c, l)) (apart, d) room =
    let head_zero : (s.head == 0) ≡ false = rw at z in
    let cell : s.next s.head ≡ some n = rw at c in
    let h' = update s.next s.head none in
    let apart_head : Apart s.head xs = rw at apart in
    let record { after = t; run = run; freed = freed } =
      clear_loop-Cleared fuel (record s { next = h'; head = n }) xs
        (Linked-Agrees s.next h' n xs (update-Agrees s.next s.head none xs apart_head) l) d
        (omega arith) in
    record {
      after = t;
      run = clear_step fuel n s head_zero cell ∙ run;
      freed = λ q. freed q ∙ freed_step s q x xs at;
    }

-- `clear` ends with an empty list; the nodes that were in the list are deleted, and no others.
pub clear-IsList :
    (xs : List ℕ) (s : IntrusiveList)
    → IsList s xs
    → (t : IntrusiveList) × (clear s ≡ ok t)
      × IsList t []
      × ((q : ℕ) → t.next q ≡ (if holds q xs then none else s.next q))
unfolding clear release
clear-IsList xs s list =
    let record { linked = l; distinct = d; counted = size; room = room } = list.nodes in
    let record { after = t; run = run; freed = freed } =
      clear_loop-Cleared (suc s.size) s xs l d (omega arith) in
    (
      release t,
      rw run refl,
      record {
        nodes = record { linked = refl; distinct = tt; counted = refl; room = omega arith };
        ends = refl;
      },
      freed,
    )
