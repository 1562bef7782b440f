-- ===== src/Collection/IntrusiveList/Linked.antt =====
-- The nodes that are linked from a pointer on.
use ew_base.Prelude.{
  ℕ, ◌<◌, ◌≡◌, ◌^◌, refl, ap, ◌∙◌, true, false, Option, some, List, [], ◌∷◌, ◌++◌, ◌==◌, length,
  All, arith,
}
use ew_base.Collection.IntrusiveList.{IntrusiveList, update}

-- `p` is not among `xs`.
abbrev pub Apart : ℕ → List ℕ → Type 0
Apart p xs = All (λ x. (p == x) ≡ false) xs

abbrev pub Distinct : List ℕ → Type 0
Distinct [] = Unit
Distinct (x ∷ xs) = Apart x xs × Distinct xs

-- From `a` on the nodes `xs` follow, up to NULL.
abbrev pub Linked : (ℕ → Option ℕ) → ℕ → List ℕ → Type 0
Linked h a [] = a ≡ 0
Linked h a (x ∷ xs) = (a ≡ x) × ((x == 0) ≡ false) × ((n : ℕ) × (h x ≡ some n) × Linked h n xs)

-- The last of `x` and `xs`.
abbrev pub last_or : ℕ → List ℕ → ℕ
last_or x [] = x
last_or x (y ∷ ys) = last_or y ys

-- The store `h'` has the cells of `h` for `xs`.
abbrev pub Agrees : (ℕ → Option ℕ) → (ℕ → Option ℕ) → List ℕ → Type 0
Agrees h h' xs = All (λ x. h' x ≡ h x) xs

pub Linked-Agrees :
    (h h' : ℕ → Option ℕ) (a : ℕ) (xs : List ℕ) → Agrees h h' xs → Linked h a xs → Linked h' a xs
Linked-Agrees h h' a [] same l = l
Linked-Agrees h h' a (x ∷ xs) (e, same) (at, z, (n, c, l)) =
    (at, z, (n, e ∙ c, Linked-Agrees h h' n xs same l))

pub update-Agrees :
    (h : ℕ → Option ℕ) (p : ℕ) (v : Option ℕ) (xs : List ℕ)
    → Apart p xs
    → Agrees h (update h p v) xs
update-Agrees h p v [] apart = tt
update-Agrees h p v (x ∷ xs) (e, apart) = (rw e refl, update-Agrees h p v xs apart)

pub Agrees-off :
    (h h' : ℕ → Option ℕ) (p : ℕ) (xs : List ℕ)
    → ((q : ℕ) → (p == q) ≡ false → h' q ≡ h q)
    → Apart p xs
    → Agrees h h' xs
Agrees-off h h' p [] same apart = tt
Agrees-off h h' p (x ∷ xs) same (e, apart) = (same x e, Agrees-off h h' p xs same apart)

pub update_at : (h : ℕ → Option ℕ) (p : ℕ) (v : Option ℕ) → update h p v p ≡ v
update_at h p v = let e : (p == p) ≡ true = ground arith in rw e refl

pub last_or-Apart : (p x : ℕ) (xs : List ℕ) → Apart p (x ∷ xs) → (p == last_or x xs) ≡ false
last_or-Apart p x [] (e, apart) = e
last_or-Apart p x (y ∷ ys) (e, apart) = last_or-Apart p y ys apart

pub last_or-append : (x : ℕ) (xs : List ℕ) (p : ℕ) → last_or x (xs ++ p ∷ []) ≡ p
last_or-append x [] p = refl
last_or-append x (y ∷ ys) p = last_or-append y ys p

pub last_or-alive :
    (h : ℕ → Option ℕ) (a x : ℕ) (xs : List ℕ) → Linked h a (x ∷ xs) → h (last_or x xs) ≡ some 0
last_or-alive h a x [] (at, z, (n, c, l)) = c ∙ ap some l
last_or-alive h a x (y ∷ ys) (at, z, (n, c, l)) = last_or-alive h n y ys l

pub last_or-alive_zero :
    (h : ℕ → Option ℕ) (a x : ℕ) (xs : List ℕ) → Linked h a (x ∷ xs) → (last_or x xs == 0) ≡ false
last_or-alive_zero h a x [] (at, z, (n, c, l)) = z
last_or-alive_zero h a x (y ∷ ys) (at, z, (n, c, l)) = last_or-alive_zero h n y ys l

pub Apart-append : (p q : ℕ) (xs : List ℕ) → Apart p xs → (p == q) ≡ false → Apart p (xs ++ q ∷ [])
Apart-append p q [] apart e = (e, tt)
Apart-append p q (x ∷ xs) (d, apart) e = (d, Apart-append p q xs apart e)

pub Distinct-append : (p : ℕ) (xs : List ℕ) → Distinct xs → Apart p xs → Distinct (xs ++ p ∷ [])
Distinct-append p [] distinct apart = (tt, tt)
Distinct-append p (x ∷ xs) (d, distinct) (e, apart) =
    (Apart-append x p xs d (ground arith), Distinct-append p xs distinct apart)

-- The last node is made to point to `p`.
pub Linked-append :
    (h : ℕ → Option ℕ) (a x : ℕ) (xs : List ℕ) (p : ℕ)
    → Linked h a (x ∷ xs)
    → Distinct (x ∷ xs)
    → Apart p (x ∷ xs)
    → (p == 0) ≡ false
    → h p ≡ some 0
    → Linked (update h (last_or x xs) (some p)) a ((x ∷ xs) ++ p ∷ [])
Linked-append h a x [] p (at, z, (n, c, l)) distinct (e, apart) pz hp =
    let other : (x == p) ≡ false = ground arith in
    let kept : update h x (some p) p ≡ some 0 = rw other hp in
    (at, z, (p, update_at h x (some p), (refl, pz, (0, kept, refl))))
Linked-append h a x (y ∷ ys) p (at, z, (n, c, l)) (d, distinct) (e, apart) pz hp =
    let other : (last_or y ys == x) ≡ false = let o = last_or-Apart x y ys d in ground arith in
    let kept : update h (last_or y ys) (some p) x ≡ some n = rw other c in
    (at, z, (n, kept, Linked-append h n y ys p l distinct apart pz hp))

-- The nodes `xs` are linked from the head, and counted.
pub record HasNodes (s : IntrusiveList) (xs : List ℕ) : Type 0 where
  pub linked : Linked s.next s.head xs
  pub distinct : Distinct xs
  pub counted : s.size ≡ length xs
  pub room : length xs < 2 ^ 64

-- What a list is that holds `xs`.
pub record IsList (s : IntrusiveList) (xs : List ℕ) : Type 0 where
  pub nodes : HasNodes s xs
  pub ends : s.tail ≡ last_or 0 xs
