-- ===== src/Collection/IntrusiveList/Unlinked.antt =====
-- `remove` and `detach`: a node is taken out of the nodes that are linked.
use ew_base.Prelude.{
  ℕ, zero, suc, ◌<◌, ◌≡◌, refl, sym, ap, ◌∙◌, inl, inr, Bool, true, false, ◌||◌, Bool-cases, Option,
  none, some, List, [], ◌∷◌, ◌==◌, ==_iff, if◌then◌else◌, length, arith,
}
use ew_base.Prelude.Run.{Run, ok}
use ew_base.Collection.IntrusiveList.{
  IntrusiveList, update, get_next, set_next, delete_node, less, unlink_loop,
}
use ew_base.Collection.IntrusiveList.Linked.{
  Apart, Distinct, Linked, Agrees, Linked-Agrees, update_at,
}

unfoldable pub holds : ℕ → List ℕ → Bool
holds p [] = false
holds p (x ∷ xs) = x == p || holds p xs

-- `xs` without the first `p`.
unfoldable pub without : ℕ → List ℕ → List ℕ
without p [] = []
without p (x ∷ xs) = let rest = without p xs in if x == p then xs else x ∷ rest

-- What is done with a node that is taken out changes no other node, and leaves `Left` of it.
abbrev pub Disposes : (ℕ → IntrusiveList → Run IntrusiveList) → (Option ℕ → Type 0) → ℕ → Type 0
Disposes drop Left p =
    (t : IntrusiveList) (m : ℕ)
    → t.next p ≡ some m
    → (g : ℕ → Option ℕ) × (drop p t ≡ ok (record t { next = g }))
      × ((q : ℕ) → (p == q) ≡ false → g q ≡ t.next q)
      × Left (g p)

pub detach-Disposes : (p : ℕ) → Disposes (λ p t. ok t) (λ o. (m : ℕ) × (o ≡ some m)) p
detach-Disposes p t m c = (t.next, refl, λ q e. refl, (m, c))

pub delete_node-Disposes : (p : ℕ) → Disposes delete_node (λ o. o ≡ none) p
unfolding delete_node
delete_node-Disposes p t m c =
    (update t.next p none, rw (delete_node, c) refl, λ q e. rw e refl, update_at t.next p none)

unfoldable pub unlinked : Bool → (ℕ → Option ℕ) → IntrusiveList → IntrusiveList
unfolding less
unlinked b g s = if b then less (record s { next = g }) else s

loop_end :
    (drop : ℕ → IntrusiveList → Run IntrusiveList) (fuel p prev : ℕ) (s : IntrusiveList)
    → prev ≡ 0
    → unlink_loop drop (suc fuel) p prev s ≡ ok (false, s)
unfolding unlink_loop
loop_end drop fuel p prev s e = rw e refl

loop_hit :
    (drop : ℕ → IntrusiveList → Run IntrusiveList) (fuel p prev temp n : ℕ) (s u : IntrusiveList)
    → (prev == 0) ≡ false
    → s.next prev ≡ some temp
    → (temp == p) ≡ true
    → s.next p ≡ some n
    → drop p (record s { next = update s.next prev (some n) }) ≡ ok u
    → unlink_loop drop (suc fuel) p prev s ≡ ok (true, less u)
unfolding unlink_loop get_next set_next
loop_hit drop fuel p prev temp n s u z c hit d run =
    rw (z, c) (rw (hit, d, set_next, c) (rw run refl))

loop_miss :
    (drop : ℕ → IntrusiveList → Run IntrusiveList) (fuel p prev temp : ℕ) (s : IntrusiveList)
    → (prev == 0) ≡ false
    → s.next prev ≡ some temp
    → (temp == p) ≡ false
    → unlink_loop drop (suc fuel) p prev s ≡ unlink_loop drop fuel p temp s
unfolding unlink_loop get_next
loop_miss drop fuel p prev temp s z c miss = rw (unlink_loop, z, c) (rw miss refl)

-- What the loop leaves behind `x`.
pub record Unlinks (drop : ℕ → IntrusiveList → Run IntrusiveList) (Left : Option ℕ → Type 0)
    (fuel p x : ℕ) (xs : List ℕ) (s : IntrusiveList) : Type 0 where
  pub cells : ℕ → Option ℕ
  pub run : unlink_loop drop fuel p x s ≡ ok (holds p xs, unlinked (holds p xs) cells s)
  pub linked : Linked cells x (x ∷ without p xs)
  pub left : holds p xs ≡ true → Left (cells p)
  pub kept : (q : ℕ) → (p == q) ≡ false → Apart q (x ∷ xs) → cells q ≡ s.next q

Agrees-all :
    (h h' : ℕ → Option ℕ) (p x : ℕ) (xs : List ℕ)
    → ((q : ℕ) → (p == q) ≡ false → (x == q) ≡ false → h' q ≡ h q)
    → Apart p xs
    → Apart x xs
    → Agrees h h' xs
Agrees-all h h' p x [] same a b = tt
Agrees-all h h' p x (y ∷ ys) same (e, a) (d, b) = (same y e d, Agrees-all h h' p x ys same a b)

unlink_loop-last :
    (drop : ℕ → IntrusiveList → Run IntrusiveList) (Left : Option ℕ → Type 0) (fuel p x n : ℕ)
    (s : IntrusiveList)
    → (p == 0) ≡ false
    → (x == 0) ≡ false
    → s.next x ≡ some n
    → n ≡ 0
    → Unlinks drop Left (suc (suc fuel)) p x [] s
unfolding holds without unlinked
unlink_loop-last drop Left fuel p x n s pz z c l =
    let miss : (n == p) ≡ false = ground arith in
    record {
      cells = s.next;
      run = loop_miss drop (suc fuel) p x n s z c miss ∙ loop_end drop fuel p n s l;
      linked = (refl, z, (n, c, l));
      left = λ h. cc;
      kept = λ q e a. refl;
    }

unlink_loop-hit :
    (drop : ℕ → IntrusiveList → Run IntrusiveList) (Left : Option ℕ → Type 0) (fuel p x y n m : ℕ)
    (ys : List ℕ) (s : IntrusiveList)
    → Disposes drop Left p
    → (p == x) ≡ false
    → (x == 0) ≡ false
    → s.next x ≡ some n
    → n ≡ y
    → (y == p) ≡ true
    → s.next y ≡ some m
    → Linked s.next m ys
    → Distinct (x ∷ y ∷ ys)
    → Unlinks drop Left (suc fuel) p x (y ∷ ys) s
unfolding holds without unlinked
unlink_loop-hit drop Left fuel p x y n m ys s disposes other z c at hit d l (apart, rest) =
    let same : y ≡ p = (==_iff y p).0 hit in
    let cell : s.next p ≡ some m = ap s.next (sym same) ∙ d in
    let h' = update s.next x (some m) in
    let (g, run, off, left) =
      disposes (record s { next = h' }) m (let o : (x == p) ≡ false = ground arith in rw o cell) in
    let off_both : (q : ℕ) → (p == q) ≡ false → (x == q) ≡ false → g q ≡ s.next q =
      λ q e e'. off q e ∙ rw e' refl in
    let before : g x ≡ some m = off x other ∙ update_at s.next x (some m) in
    let after : Apart p ys = rw (sym same) (rest.0) in
    record {
      cells = g;
      run = rw hit (loop_hit drop fuel p x n m s _ z c (ap (λ v. v == p) at ∙ hit) cell run);
      linked = rw hit (
        refl,
        z,
        (
          m,
          before,
          Linked-Agrees s.next g m ys (Agrees-all s.next g p x ys off_both after (apart.1)) l,
        ),
      );
      left = λ h. left;
      kept = λ q e a. off_both q e (ground arith);
    }

pub unlink_loop-Unlinks :
    (drop : ℕ → IntrusiveList → Run IntrusiveList) (Left : Option ℕ → Type 0) (fuel p x : ℕ)
    (xs : List ℕ) (s : IntrusiveList)
    → Disposes drop Left p
    → (p == 0) ≡ false
    → (p == x) ≡ false
    → Linked s.next x (x ∷ xs)
    → Distinct (x ∷ xs)
    → suc (length xs) < fuel
    → Unlinks drop Left fuel p x xs s
unfolding holds without
unlink_loop-Unlinks drop Left zero p x xs s disposes pz other linked distinct room =
    absurd (omega arith)
unlink_loop-Unlinks drop Left (suc zero) p x xs s disposes pz other linked distinct room =
    absurd (omega arith)
unlink_loop-Unlinks drop Left (suc (suc fuel)) p x [] s disposes pz other (at, z, (n, c, l))
      distinct room =
    unlink_loop-last drop Left fuel p x n s pz z c l
unlink_loop-Unlinks drop Left (suc (suc fuel)) p x (y ∷ ys) s disposes pz other
      (at, z, (n, c, (to, z', (m, d, l)))) distinct room =
    elim (Bool-cases (y == p)) [
      | inl hit ↦
          unlink_loop-hit drop Left (suc fuel) p x y n m ys s disposes other z c to hit d l distinct
      | inr miss ↦
          let record { cells = g; run = run; linked = linked; left = left; kept = kept } =
            unlink_loop-Unlinks drop Left (suc fuel) p y ys s disposes pz (ground arith)
              (refl, z', (m, d, l)) (distinct.1) (omega arith) in
          let step : unlink_loop drop (suc (suc fuel)) p x s ≡ unlink_loop drop (suc fuel) p y s =
            loop_miss drop (suc fuel) p x n s z c (ap (λ v. v == p) to ∙ miss)
            ∙ ap (λ v. unlink_loop drop (suc fuel) p v s) to in
          record {
            cells = g;
            run = rw miss (step ∙ run);
            linked = rw miss (refl, z, (y, kept x other (distinct.0) ∙ c ∙ ap some to, linked));
            left = λ h. left (ground arith);
            kept = λ q e a. kept q e (a.1);
          }
    ]
