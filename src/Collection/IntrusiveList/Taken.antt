-- ===== src/Collection/IntrusiveList/Taken.antt =====
-- `remove` and `detach` on a list.
use ew_base.Prelude.{
  ℕ, suc, ◌<◌, ◌≡◌, ◌^◌, refl, sym, ap, ◌∙◌, inl, inr, true, false, Bool-cases, Option, some, List,
  [], ◌∷◌, ◌==◌, ==_iff, length, arith,
}
use ew_base.Prelude.Run.{Run, ok}
use ew_base.Collection.IntrusiveList.{
  IntrusiveList, update, get_next, set_next, less, unlink_loop, unlink,
}
use ew_base.Collection.IntrusiveList.Linked.{
  Apart, Distinct, Agrees, Linked-Agrees, Agrees-off, update_at, HasNodes, last_or,
}
use ew_base.Collection.IntrusiveList.Unlinked.{
  holds, without, Disposes, unlinked, unlink_loop-Unlinks,
}

length-without : (p : ℕ) (xs : List ℕ) → holds p xs ≡ true → suc (length (without p xs)) ≡ length xs
unfolding holds without
length-without p [] h = cc
length-without p (x ∷ xs) h = elim (Bool-cases (x == p)) [
  | inl hit ↦ rw hit refl
  | inr miss ↦ rw miss (ap suc (length-without p xs (ground arith)))
]

without_absent : (p : ℕ) (xs : List ℕ) → holds p xs ≡ false → without p xs ≡ xs
unfolding holds without
without_absent p [] h = refl
without_absent p (x ∷ xs) h =
    let miss : (x == p) ≡ false = ground arith in
    rw miss (ap (λ ys. x ∷ ys) (without_absent p xs (ground arith)))

Apart-without : (q p : ℕ) (xs : List ℕ) → Apart q xs → Apart q (without p xs)
unfolding without
Apart-without q p [] apart = tt
Apart-without q p (x ∷ xs) (e, apart) = elim (Bool-cases (x == p)) [
  | inl hit ↦ rw hit apart
  | inr miss ↦ rw miss (e, Apart-without q p xs apart)
]

Distinct-without : (p : ℕ) (xs : List ℕ) → Distinct xs → Distinct (without p xs)
unfolding without
Distinct-without p [] distinct = tt
Distinct-without p (x ∷ xs) (apart, distinct) = elim (Bool-cases (x == p)) [
  | inl hit ↦ rw hit distinct
  | inr miss ↦ rw miss (Apart-without x p xs apart, Distinct-without p xs distinct)
]

pub last_or-without :
    (d p : ℕ) (xs : List ℕ) → (p == last_or d xs) ≡ false → last_or d (without p xs) ≡ last_or d xs
unfolding without
last_or-without d p [] h = refl
last_or-without d p (x ∷ []) h = let miss : (x == p) ≡ false = ground arith in rw miss refl
last_or-without d p (x ∷ y ∷ ys) h = elim (Bool-cases (x == p)) [
  | inl hit ↦ rw hit refl
  | inr miss ↦ rw miss (last_or-without x p (y ∷ ys) h)
]

-- What `unlink` does: the nodes are those without `p`, and the tail stays.
pub record Taken (drop : ℕ → IntrusiveList → Run IntrusiveList) (Left : Option ℕ → Type 0) (p : ℕ)
    (xs : List ℕ) (s : IntrusiveList) : Type 0 where
  pub after : IntrusiveList
  pub run : unlink drop p s ≡ ok (holds p xs, after)
  pub nodes : HasNodes after (without p xs)
  pub left : holds p xs ≡ true → Left (after.next p)
  pub tail_kept : after.tail ≡ s.tail

less_size : (s : IntrusiveList) (k : ℕ) → s.size ≡ suc k → suc k < 2 ^ 64 → (less s).size ≡ k
unfolding less
less_size s k e room = omega arith

Taken-head :
    (drop : ℕ → IntrusiveList → Run IntrusiveList) (Left : Option ℕ → Type 0) (p x : ℕ)
    (xs : List ℕ) (s : IntrusiveList)
    → Disposes drop Left p
    → (x == p) ≡ true
    → HasNodes s (x ∷ xs)
    → Taken drop Left p (x ∷ xs) s
unfolding unlink get_next set_next less holds without
Taken-head drop Left p x xs s disposes hit nodes =
    let record {
      linked = (at, z, (n, c, l));
      distinct = (apart, distinct);
      counted = size;
      room = room;
    } =
      nodes in
    let x_p : x ≡ p = (==_iff x p).0 hit in
    let head_zero : (s.head == 0) ≡ false = rw at z in
    let head_p : (s.head == p) ≡ true = rw at hit in
    let cell : s.next s.head ≡ some n = rw at c in
    let cell_p : s.next p ≡ some n = rw (sym x_p) c in
    let h' = update s.next p (some 0) in
    let (g, run, off, left) =
      disposes (record s { next = h'; head = n }) 0 (update_at s.next p (some 0)) in
    let others : Agrees s.next g xs =
      Agrees-off s.next g p xs
        (λ q e. off q e ∙ (let f : update s.next p (some 0) q ≡ s.next q = rw e refl in f))
        (rw (sym x_p) apart) in
    record {
      after = less (record s { next = g; head = n });
      run = rw (hit, head_zero) (rw (head_p, cell) (rw (set_next, cell_p) (rw run refl)));
      nodes = rw hit (record {
        linked = Linked-Agrees s.next g n xs others l;
        distinct = distinct;
        counted = less_size s (length xs) size room;
        room = omega arith;
      });
      left = λ h. left;
      tail_kept = refl;
    }

walk_on :
    (drop : ℕ → IntrusiveList → Run IntrusiveList) (p : ℕ) (s : IntrusiveList)
    → (s.head == 0) ≡ false
    → (s.head == p) ≡ false
    → unlink drop p s ≡ unlink_loop drop (suc (suc s.size)) p s.head s
unfolding unlink
walk_on drop p s z e = rw z (rw e refl)

Taken-behind :
    (drop : ℕ → IntrusiveList → Run IntrusiveList) (Left : Option ℕ → Type 0) (p x : ℕ)
    (xs : List ℕ) (s : IntrusiveList)
    → Disposes drop Left p
    → (p == 0) ≡ false
    → (x == p) ≡ false
    → HasNodes s (x ∷ xs)
    → Taken drop Left p (x ∷ xs) s
unfolding unlink less holds without unlinked
Taken-behind drop Left p x xs s disposes pz miss nodes =
    let record { linked = (at, z, chain); distinct = distinct; counted = size; room = room } =
      nodes in
    let head_zero : (s.head == 0) ≡ false = rw at z in
    let head_p : (s.head == p) ≡ false = rw at miss in
    let record { cells = g; run = run; linked = linked; left = left; kept = _ } =
      unlink_loop-Unlinks drop Left (suc (suc s.size)) p x xs s disposes pz (ground arith)
        (refl, z, chain) distinct (omega arith) in
    let walk : unlink drop p s ≡ ok (holds p xs, unlinked (holds p xs) g s) =
      walk_on drop p s head_zero head_p
      ∙ ap (λ v. unlink_loop drop (suc (suc s.size)) p v s) at
      ∙ run in
    elim (Bool-cases (holds p xs)) [
      | inl found ↦ record {
        after = less (record s { next = g });
        run = rw miss (walk ∙ (rw found refl));
        nodes = rw miss (record {
          linked = (at, linked.1, linked.2);
          distinct = (Apart-without x p xs (distinct.0), Distinct-without p xs (distinct.1));
          counted = less_size s (length xs) size room ∙ sym (length-without p xs found);
          room = let e = length-without p xs found in omega arith;
        });
        left = λ h. left found;
        tail_kept = refl;
      }
      | inr absent ↦ record {
        after = s;
        run = rw miss (walk ∙ (rw absent refl));
        nodes = rw (miss, without_absent p xs absent) nodes;
        left = λ h. let e : holds p (x ∷ xs) ≡ false = rw (miss, absent) refl in cc;
        tail_kept = refl;
      }
    ]

-- On a list that holds `xs`, whatever the tail is.
pub unlink-Taken :
    (drop : ℕ → IntrusiveList → Run IntrusiveList) (Left : Option ℕ → Type 0) (p : ℕ) (xs : List ℕ)
    (s : IntrusiveList)
    → Disposes drop Left p
    → (p == 0) ≡ false
    → HasNodes s xs
    → Taken drop Left p xs s
unfolding unlink holds without
unlink-Taken drop Left p [] s disposes pz nodes =
    let none_there : (s.head == 0) ≡ true = rw nodes.linked refl in
    record { after = s; run = rw none_there refl; nodes = nodes; left = λ h. cc; tail_kept = refl }
unlink-Taken drop Left p (x ∷ xs) s disposes pz nodes = elim (Bool-cases (x == p)) [
  | inl hit ↦ Taken-head drop Left p x xs s disposes hit nodes
  | inr miss ↦ Taken-behind drop Left p x xs s disposes pz miss nodes
]
