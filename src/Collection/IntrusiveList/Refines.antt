-- ===== src/Collection/IntrusiveList/Refines.antt =====
-- The operations on a list, against lists of nodes.
use ew_base.Prelude.{
  ℕ, suc, ◌<◌, ◌≡◌, ◌^◌, refl, sym, ap, ◌∙◌, Bool, true, false, Option, none, some, List, [], ◌∷◌,
  ◌++◌, ◌==◌, length, length-append, arith,
}
use mathlib.Core.Path.{subst}
use ew_base.Prelude.Run.{Run, ok, ◌>>=◌}
use ew_base.Collection.IntrusiveList.{
  IntrusiveList, update, get_next, set_next, delete_node, more, less, clear, unlink, remove, detach,
  append, insert, pop_front,
}
use ew_base.Collection.IntrusiveList.Linked.{
  Apart, Linked, Linked-Agrees, update-Agrees, update_at, IsList, last_or, last_or-append,
  last_or-alive, last_or-alive_zero, Distinct-append, Linked-append,
}
use ew_base.Collection.IntrusiveList.Unlinked.{
  holds, without, Disposes, detach-Disposes, delete_node-Disposes,
}
use ew_base.Collection.IntrusiveList.Cleared.{clear-IsList}
use ew_base.Collection.IntrusiveList.Taken.{unlink-Taken, last_or-without}

-- A node that can be put into the list of `xs`.
abbrev pub IsFresh : ℕ → List ℕ → Type 0
IsFresh p xs = ((p == 0) ≡ false) × Apart p xs × (suc (length xs) < 2 ^ 64)

alone :
    (p : ℕ) (s : IntrusiveList)
    → (p == 0) ≡ false
    → s.next p ≡ some 0
    → IsList (record s { head = p; tail = p; size = 1 }) (p ∷ [])
alone p s z c = record {
  nodes = record {
    linked = (refl, z, (0, c, refl));
    distinct = (tt, tt);
    counted = refl;
    room = omega arith;
  };
  ends = refl;
}

pub append-IsList :
    (p : ℕ) (xs : List ℕ) (s : IntrusiveList)
    → IsList s xs
    → IsFresh p xs
    → s.next p ≡ some 0
    → (t : IntrusiveList) × (append p s ≡ ok t) × IsList t (xs ++ p ∷ [])
unfolding append set_next more
append-IsList p [] s list (z, apart, room) c =
    let no_tail : (s.tail == 0) ≡ true = rw list.ends refl in
    (record s { head = p; tail = p; size = 1 }, rw no_tail refl, alone p s z c)
append-IsList p (x ∷ xs) s list (z, apart, room) c =
    let record {
      nodes = record { linked = l; distinct = d; counted = size; room = _ };
      ends = ends;
    } =
      list in
    let tail_zero : (s.tail == 0) ≡ false = rw ends (last_or-alive_zero s.next s.head x xs l) in
    let tail_cell : s.next s.tail ≡ some 0 = rw ends (last_or-alive s.next s.head x xs l) in
    let linked : Linked (update s.next s.tail (some p)) s.head ((x ∷ xs) ++ p ∷ []) =
      subst (λ v. Linked (update s.next v (some p)) s.head ((x ∷ xs) ++ p ∷ [])) (sym ends)
        (Linked-append s.next s.head x xs p l d apart z c) in
    let longer = length-append xs (p ∷ []) in
    (
      more (record s { next = update s.next s.tail (some p); tail = p }),
      rw tail_zero (rw (set_next, tail_cell) refl),
      record {
        nodes = record {
          linked = linked;
          distinct = Distinct-append p (x ∷ xs) d apart;
          counted = omega arith;
          room = omega arith;
        };
        ends = sym (last_or-append x xs p);
      },
    )

pub insert-IsList :
    (p n : ℕ) (xs : List ℕ) (s : IntrusiveList)
    → IsList s xs
    → IsFresh p xs
    → s.next p ≡ some n
    → (xs ≡ [] → n ≡ 0)
    → (t : IntrusiveList) × (insert p s ≡ ok t) × IsList t (p ∷ xs)
unfolding insert set_next more
insert-IsList p n [] s list (z, apart, room) c last =
    let no_head : (s.head == 0) ≡ true = rw list.nodes.linked refl in
    (
      record s { head = p; tail = p; size = 1 },
      rw no_head refl,
      alone p s z (c ∙ ap some (last refl)),
    )
insert-IsList p n (x ∷ xs) s list (z, apart, room) c last =
    let record {
      nodes = record { linked = l; distinct = d; counted = size; room = _ };
      ends = ends;
    } =
      list in
    let head_zero : (s.head == 0) ≡ false = rw (l.0) (l.1) in
    (
      more (record s { next = update s.next p (some s.head); head = p }),
      rw head_zero (rw (set_next, c) refl),
      record {
        nodes = record {
          linked = (
            refl,
            z,
            (
              s.head,
              update_at s.next p (some s.head),
              Linked-Agrees s.next (update s.next p (some s.head)) s.head (x ∷ xs)
                  (update-Agrees s.next p (some s.head) (x ∷ xs) apart) l,
            ),
          );
          distinct = (apart, d);
          counted = omega arith;
          room = room;
        };
        ends = ends;
      },
    )

-- The first node, and NULL where there is none.
abbrev first_or : List ℕ → ℕ
first_or [] = 0
first_or (x ∷ xs) = x

abbrev behind_first : List ℕ → List ℕ
behind_first [] = []
behind_first (x ∷ xs) = xs

pub pop_front-IsList :
    (xs : List ℕ) (s : IntrusiveList)
    → IsList s xs
    → (t : IntrusiveList) × (pop_front s ≡ ok (first_or xs, t)) × IsList t (behind_first xs)
unfolding pop_front get_next less
pop_front-IsList [] s list =
    let no_head : (s.head == 0) ≡ true = rw list.nodes.linked refl in (s, rw no_head refl, list)
pop_front-IsList (x ∷ []) s list =
    let record {
      nodes = record { linked = (at, z, (n, c, l)); distinct = d; counted = size; room = room };
      ends = ends;
    } =
      list in
    let head_zero : (s.head == 0) ≡ false = rw at z in
    let cell : s.next s.head ≡ some 0 = rw at (c ∙ ap some l) in
    (
      less (record s { head = 0; tail = 0 }),
      rw head_zero (rw cell (ap (λ v. ok (v, less (record s { head = 0; tail = 0 }))) at)),
      record {
        nodes = record { linked = refl; distinct = tt; counted = omega arith; room = omega arith };
        ends = refl;
      },
    )
pop_front-IsList (x ∷ y ∷ ys) s list =
    let record {
      nodes = record {
        linked = (at, z, (n, c, (to, z', l)));
        distinct = d;
        counted = size;
        room = room;
      };
      ends = ends;
    } =
      list in
    let head_zero : (s.head == 0) ≡ false = rw at z in
    let cell : s.next s.head ≡ some n = rw at c in
    let n_zero : (n == 0) ≡ false = rw to z' in
    (
      less (record s { head = n }),
      rw head_zero (rw cell (rw n_zero (ap (λ v. ok (v, less (record s { head = n }))) at))),
      record {
        nodes = record {
          linked = (to, z', l);
          distinct = d.1;
          counted = omega arith;
          room = omega arith;
        };
        ends = ends;
      },
    )

pub unlink-IsList :
    (drop : ℕ → IntrusiveList → Run IntrusiveList) (Left : Option ℕ → Type 0) (p : ℕ) (xs : List ℕ)
    (s : IntrusiveList)
    → Disposes drop Left p
    → (p == 0) ≡ false
    → (p == last_or 0 xs) ≡ false
    → IsList s xs
    → (t : IntrusiveList) × (unlink drop p s ≡ ok (holds p xs, t)) × IsList t (without p xs)
unlink-IsList drop Left p xs s disposes z inside list =
    let record { after = t; run = run; nodes = nodes; left = _; tail_kept = tail } =
      unlink-Taken drop Left p xs s disposes z list.nodes in
    (
      t,
      run,
      record { nodes = nodes; ends = tail ∙ list.ends ∙ sym (last_or-without 0 p xs inside) },
    )

-- The operations, and the nodes that they return.
pub data Call : Type 0 where
  appends : ℕ → Call
  inserts : ℕ → Call
  pops : Call
  removes : ℕ → Call
  detaches : ℕ → Call
  clears : Call

pub data Answer : Type 0 where
  nothing : Answer
  popped : ℕ → Answer
  found : Bool → Answer

unfoldable pub perform : Call → IntrusiveList → Run (Answer × IntrusiveList)
unfolding append insert pop_front remove detach clear
perform (appends p) s = append p s >>= λ t. ok (nothing, t)
perform (inserts p) s = insert p s >>= λ t. ok (nothing, t)
perform pops s = pop_front s >>= λ r. ok (popped (r.0), r.1)
perform (removes p) s = remove p s >>= λ r. ok (found (r.0), r.1)
perform (detaches p) s = detach p s >>= λ r. ok (found (r.0), r.1)
perform clears s = clear s >>= λ t. ok (nothing, t)

-- What they are on the list of the nodes.
unfoldable pub expected : Call → List ℕ → Answer × List ℕ
unfolding holds without
expected (appends p) xs = (nothing, xs ++ p ∷ [])
expected (inserts p) xs = (nothing, p ∷ xs)
expected pops xs = (popped (first_or xs), behind_first xs)
expected (removes p) xs = (found (holds p xs), without p xs)
expected (detaches p) xs = (found (holds p xs), without p xs)
expected clears xs = (nothing, [])

-- A node that is put into the list is not in it and has no node behind it, or, for `insert`, any if
-- the list is not empty; a node that is taken out is not the last.
unfoldable pub IsAllowed : Call → IntrusiveList → List ℕ → Type 0
IsAllowed (appends p) s xs = IsFresh p xs × (s.next p ≡ some 0)
IsAllowed (inserts p) s xs = IsFresh p xs × ((n : ℕ) × (s.next p ≡ some n) × (xs ≡ [] → n ≡ 0))
IsAllowed pops s xs = Unit
IsAllowed (removes p) s xs = ((p == 0) ≡ false) × ((p == last_or 0 xs) ≡ false)
IsAllowed (detaches p) s xs = ((p == 0) ≡ false) × ((p == last_or 0 xs) ≡ false)
IsAllowed clears s xs = Unit

-- On a list that holds the nodes xs, append, insert, pop_front, remove, detach and clear return what
-- they should, without a fault, and the list then holds, in order, counted and up to its tail, the nodes it
-- should. The conditions: a node that is appended or inserted is not NULL and not in the list, it
-- has no node behind it (for insert only if the list is empty), and the new number of nodes
-- is below 2 ^ 64; a node that is removed or detached is not NULL and not the last of the list.
pub perform-IsList :
    (call : Call) (xs : List ℕ) (s : IntrusiveList)
    → IsList s xs
    → IsAllowed call s xs
    → (t : IntrusiveList) × (perform call s ≡ ok ((expected call xs).0, t))
      × IsList t ((expected call xs).1)
unfolding perform expected IsAllowed remove detach
perform-IsList (appends p) xs s list (fresh, c) =
    let (t, run, after) = append-IsList p xs s list fresh c in (t, rw run refl, after)
perform-IsList (inserts p) xs s list (fresh, (n, c, last)) =
    let (t, run, after) = insert-IsList p n xs s list fresh c last in (t, rw run refl, after)
perform-IsList pops xs s list allowed =
    let (t, run, after) = pop_front-IsList xs s list in (t, rw run refl, after)
perform-IsList (removes p) xs s list (z, inside) =
    let (t, run, after) =
      unlink-IsList delete_node (λ o. o ≡ none) p xs s (delete_node-Disposes p) z inside list in
    (t, rw run refl, after)
perform-IsList (detaches p) xs s list (z, inside) =
    let (t, run, after) =
      unlink-IsList (λ p t. ok t) (λ o. (m : ℕ) × (o ≡ some m)) p xs s (detach-Disposes p) z inside
        list in
    (t, rw run refl, after)
perform-IsList clears xs s list allowed =
    let (t, run, after, freed) = clear-IsList xs s list in (t, rw run refl, after)
