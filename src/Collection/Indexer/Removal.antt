-- ===== src/Collection/Indexer/Removal.antt =====
-- The array of entries after a removal: the last entry moves to the place of the removed one.
use ew_base.Prelude.{
  ℕ, zero, suc, ◌+◌, ◌-◌, ◌<◌, ◌≡◌, inl, inr, ◌∙◌, true, none, some, List, [], ◌∷◌, ◌==◌, ◌&&◌,
  if◌then◌else◌, get_elem?, set, length, arith, Bool-cases, ltb, length-set,
}
use ew_base.Prelude.Key.{Key}
use ew_base.Collection.Chunk.Find.{key_is}
use ew_base.Collection.Indexer.{pop_back}
use ew_base.Collection.Indexer.Places.{Distinct}
use ew_base.Collection.Indexer.Lookup.{index_of, index_of-absent}

module _ {A : Type 0} where
  get_elem?-pop_back :
      (xs : List A) (i : ℕ)
      → get_elem? (pop_back xs) i ≡ (if ltb (suc i) (length xs) then get_elem? xs i else none)
  unfolding pop_back
  get_elem?-pop_back [] i = ground arith
  get_elem?-pop_back (x ∷ []) i = ground arith
  get_elem?-pop_back (x ∷ y ∷ xs) zero = ground arith
  get_elem?-pop_back (x ∷ y ∷ xs) (suc i) = get_elem?-pop_back (y ∷ xs) i ∙ ground arith

  length-pop_back : (xs : List A) → length (pop_back xs) ≡ length xs - 1
  unfolding pop_back
  length-pop_back [] = omega arith
  length-pop_back (x ∷ []) = omega arith
  length-pop_back (x ∷ y ∷ xs) = omega (arith, length-pop_back (y ∷ xs))

  get_elem?-set :
      (xs : List A) (i j : ℕ) (v : A)
      → get_elem? (set xs i v) j ≡ (if i == j && ltb i (length xs) then some v else get_elem? xs j)
  get_elem?-set [] i j v = ground arith
  get_elem?-set (x ∷ xs) zero zero v = ground arith
  get_elem?-set (x ∷ xs) zero (suc j) v = ground arith
  get_elem?-set (x ∷ xs) (suc i) zero v = ground arith
  get_elem?-set (x ∷ xs) (suc i) (suc j) v = get_elem?-set xs i j v ∙ ground arith

  -- `ys` is `xs` without entry `id`, whose place the last entry takes.
  pub record Removed (xs : List A) (id : ℕ) (ys : List A) : Type 0 where
    pub shorter : length ys + 1 ≡ length xs
    pub moved :
        (i : ℕ)
        → get_elem? ys i ≡ (
            if ltb (suc i) (length xs)
            then get_elem? xs (if i == id then length xs - 1 else i)
            else none)

  pub pop_back-Removed : (xs : List A) → 0 < length xs → Removed xs (length xs - 1) (pop_back xs)
  pop_back-Removed xs h = record {
    shorter = omega (arith, length-pop_back xs);
    moved = λ i. ground (arith, get_elem?-pop_back xs i);
  }

  pub swap-Removed :
      (xs : List A) (id : ℕ) (a b : A)
      → id < length xs - 1
      → get_elem? xs (length xs - 1) ≡ some b
      → Removed xs id (pop_back (set (set xs id b) (length xs - 1) a))
  swap-Removed xs id a b h e = record {
    shorter = omega (
      arith,
      length-pop_back (set (set xs id b) (length xs - 1) a),
      length-set (set xs id b) (length xs - 1) a,
      length-set xs id b,
    );
    moved = λ i.
        get_elem?-pop_back (set (set xs id b) (length xs - 1) a) i
        ∙ rw (length-set, length-set)
            (ground
              (arith, get_elem?-set (set xs id b) (length xs - 1) i a, get_elem?-set xs id i b));
  }

module _ {K V : Type 0} ⦃key : Key K⦄ where
  -- An entry of the shorter array with the key comes from an entry with the key.
  pub Removed-key_is :
      (vs : List (K × V)) (id : ℕ) (ws : List (K × V)) (k : K) (i : ℕ)
      → Removed vs id ws
      → key_is ws k i ≡ true
      → (suc i < length vs) × (key_is vs k (if i == id then length vs - 1 else i) ≡ true)
  Removed-key_is vs id ws k i r h = ground (arith, r.moved i)

  pub Removed-Distinct :
      (vs : List (K × V)) (id : ℕ) (ws : List (K × V))
      → Removed vs id ws
      → Distinct vs
      → Distinct ws
  Removed-Distinct vs id ws r d k i j p q =
      let (inside, from) = Removed-key_is vs id ws k i r p in
      let (inside', from') = Removed-key_is vs id ws k j r q in
      let same = d k _ _ from from' in ground arith

  -- The key of the removed entry is gone.
  pub Removed-index_of :
      (vs : List (K × V)) (id : ℕ) (ws : List (K × V)) (k : K)
      → Removed vs id ws
      → Distinct vs
      → key_is vs k id ≡ true
      → index_of k ws ≡ none
  Removed-index_of vs id ws k r d h = index_of-absent k ws λ i. elim (Bool-cases (key_is ws k i)) [
    | inr miss ↦ miss
    | inl hit ↦
        let (inside, from) = Removed-key_is vs id ws k i r hit in
        let same = d k _ id from h in absurd (ground arith)
  ]
