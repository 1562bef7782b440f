-- ===== src/Collection/Indexer/Entries.antt =====
-- The array of entries: what an appended entry and a new value change.
use ew_base.Prelude.{
  ℕ, zero, suc, ◌<◌, ◌≡◌, refl, ◌∙◌, ap, sym, true, false, none, some, List, [], ◌∷◌, ◌++◌, ◌==◌,
  if◌then◌else◌, length, arith,
}
use ew_base.Prelude.Key.{Key}
use ew_base.Collection.Chunk.Find.{key_is}
use ew_base.Collection.Indexer.{Traits, pop_back, set_value}
use ew_base.Collection.Indexer.Places.{Placed, spot, Distinct}
use ew_base.Collection.Indexer.Lookup.{index_of, index_of-none}

pub pop_back-append : {A : Type 0} (xs : List A) (x : A) → pop_back (xs ++ x ∷ []) ≡ xs
unfolding pop_back
pop_back-append [] x = refl
pop_back-append (y ∷ []) x = refl
pop_back-append (y ∷ z ∷ xs) x = ap (◌∷◌ y) (pop_back-append (z ∷ xs) x)

module _ {K V : Type 0} ⦃key : Key K⦄ where
  pub key_is-append :
      (vs : List (K × V)) (e : K × V) (k : K) (i : ℕ)
      → key_is (vs ++ e ∷ []) k i ≡ (if i == length vs then key.same (e.0) k else key_is vs k i)
  key_is-append [] e k zero = refl
  key_is-append [] e k (suc i) = ground arith
  key_is-append (v ∷ vs) e k zero = ground arith
  key_is-append (v ∷ vs) e k (suc i) = key_is-append vs e k i ∙ ground arith

  pub key_is-inside : (vs : List (K × V)) (k : K) (i : ℕ) → key_is vs k i ≡ true → i < length vs
  key_is-inside [] k i h = cc
  key_is-inside (v ∷ vs) k zero h = omega arith
  key_is-inside (v ∷ vs) k (suc i) h = omega (arith, key_is-inside vs k i h)

  pub index_of-append :
      (vs : List (K × V)) (k : K) (v : V)
      → index_of k vs ≡ none
      → index_of k (vs ++ (k, v) ∷ []) ≡ some (length vs)
  index_of-append [] k v h = rw ((key.same_iff k k).1 refl) refl
  index_of-append (e ∷ vs) k v h = ground (arith, index_of-append vs k v)

  pub Distinct-append :
      (vs : List (K × V)) (e : K × V)
      → Distinct vs
      → index_of (e.0) vs ≡ none
      → Distinct (vs ++ e ∷ [])
  Distinct-append vs e d h k i j p q = ground (
    arith,
    key_is-append vs e k i,
    key_is-append vs e k j,
    d k i j,
    absent i,
    absent j,
    (key.same_iff (e.0) k).0,
  )
    where
      absent : (m : ℕ) → key.same (e.0) k ≡ true → key_is vs k m ≡ false
      absent m s = rw (← (key.same_iff (e.0) k).0 s) (index_of-none (e.0) vs h m)

  pub key_is-set_value :
      (vs : List (K × V)) (id : ℕ) (v : V) (k : K) (i : ℕ)
      → key_is (set_value vs id v) k i ≡ key_is vs k i
  unfolding set_value
  key_is-set_value [] id v k i = refl
  key_is-set_value (e ∷ vs) zero v k zero = refl
  key_is-set_value (e ∷ vs) zero v k (suc i) = refl
  key_is-set_value (e ∷ vs) (suc id) v k zero = refl
  key_is-set_value (e ∷ vs) (suc id) v k (suc i) = key_is-set_value vs id v k i

  pub index_of-set_value :
      (vs : List (K × V)) (id : ℕ) (v : V) (k : K) → index_of k (set_value vs id v) ≡ index_of k vs
  unfolding set_value
  index_of-set_value [] id v k = refl
  index_of-set_value (e ∷ vs) zero v k = refl
  index_of-set_value (e ∷ vs) (suc id) v k = rw (index_of-set_value vs id v k)

  pub Distinct-set_value :
      (vs : List (K × V)) (id : ℕ) (v : V) → Distinct vs → Distinct (set_value vs id v)
  Distinct-set_value vs id v d k i j p q =
      d k i j (sym (key_is-set_value vs id v k i) ∙ p) (sym (key_is-set_value vs id v k j) ∙ q)

module _ {K V L : Type 0} (t : Traits K L) where
  spot-set_value :
      (vs : List (K × V)) (id : ℕ) (v : V) (mask i b : ℕ)
      → spot t (set_value vs id v) mask i b ≡ spot t vs mask i b
  unfolding set_value
  spot-set_value [] id v mask i b = refl
  spot-set_value (e ∷ vs) zero v mask zero b = refl
  spot-set_value (e ∷ vs) zero v mask (suc i) b = refl
  spot-set_value (e ∷ vs) (suc id) v mask zero b = refl
  spot-set_value (e ∷ vs) (suc id) v mask (suc i) b = spot-set_value vs id v mask i b

  pub Placed-set_value :
      (vs : List (K × V)) (buckets : List (List ℕ)) (mask id : ℕ) (v : V)
      → Placed t vs buckets mask
      → Placed t (set_value vs id v) buckets mask
  Placed-set_value vs buckets mask id v p = record {
    room = p.room;
    counts = λ i b. p.counts i b ∙ sym (spot-set_value vs id v mask i b);
  }
