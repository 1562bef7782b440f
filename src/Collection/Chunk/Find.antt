-- ===== src/Collection/Chunk/Find.antt =====
-- What a search in a chunk says of the positions that the chunk holds.
use ew_base.Prelude.{
  ℕ, ◌+◌, ◌<◌, ◌≡◌, refl, ◌⊎◌, inl, inr, ◌∙◌, ap, Bool, true, false, none, some, List, [], ◌∷◌,
  ◌==◌, if◌then◌else◌, get_elem?, get_elem?-some, length, arith, Bool-cases, Option-cases, ==_iff,
}
use ew_base.Prelude.Key.{Key}
use ew_base.Prelude.Run.{ok}
use ew_base.Collection.Chunk.{test_at, chunk_find}

-- How often a position stands in a chunk.
abbrev pub count : ℕ → List ℕ → ℕ
count i [] = 0
count i (j ∷ c) = (if i == j then 1 else 0) + count i c

module _ {K V : Type 0} ⦃key : Key K⦄ where
  -- Does position `i` hold an entry with key `k`?
  abbrev pub key_is : List (K × V) → K → ℕ → Bool
  key_is values k i = elim (get_elem? values i) [ none ↦ false | some e ↦ key.same (e.0) k ]

  pub key_is-get_elem? :
      (values : List (K × V)) (k : K) (i : ℕ)
      → key_is values k i ≡ true
      → (v : V) × (get_elem? values i ≡ some (k, v))
  key_is-get_elem? values k i h = elim (Option-cases (get_elem? values i)) [
    | inl e ↦ absurd (ground arith)
    | inr ((j, v), e) ↦
        let same : j ≡ k = (key.same_iff j k).0 (ground arith) in
        (v, e ∙ ap (λ x. some (x, v)) same)
  ]

  pub get_elem?-key_is :
      (values : List (K × V)) (k : K) (v : V) (i : ℕ)
      → get_elem? values i ≡ some (k, v)
      → key_is values k i ≡ true
  get_elem?-key_is values k v i e =
      let r : key.same k k ≡ true = (key.same_iff k k).1 refl in ground arith

  abbrev pub InRange : List (K × V) → List ℕ → Type 0
  InRange values c = (i : ℕ) → 0 < count i c → i < length values

  pub InRange-head :
      (values : List (K × V)) (i : ℕ) (c : List ℕ) → InRange values (i ∷ c) → i < length values
  InRange-head values i c h = h i (ground arith)

  pub InRange-tail :
      (values : List (K × V)) (i : ℕ) (c : List ℕ) → InRange values (i ∷ c) → InRange values c
  InRange-tail values i c h j p = h j (omega arith)

  pub test_at-key_is :
      (values : List (K × V)) (k : K) (i : ℕ)
      → i < length values
      → test_at values k i ≡ ok (key_is values k i)
  unfolding test_at
  test_at-key_is values k i h = let (e, p) = get_elem?-some values i h in ground arith

  -- No position of the chunk has the key.
  abbrev pub Absent : List (K × V) → K → List ℕ → Type 0
  Absent values k c = (i : ℕ) → 0 < count i c → key_is values k i ≡ false

  pub Absent-cons :
      (values : List (K × V)) (k : K) (i : ℕ) (c : List ℕ)
      → key_is values k i ≡ false
      → Absent values k c
      → Absent values k (i ∷ c)
  Absent-cons values k i c e h j p = elim (Bool-cases (j == i)) [
    | inl same ↦ rw ((==_iff j i).0 same) e
    | inr other ↦ h j (ground arith)
  ]

  -- A search returns a position of the chunk that has the key, or finds the key absent.
  pub chunk_find-cases :
      (values : List (K × V)) (k : K) (c : List ℕ)
      → InRange values c
      → ((i : ℕ) × (chunk_find values k c ≡ ok (some i))
          × (0 < count i c)
          × (key_is values k i ≡ true))
        ⊎ ((chunk_find values k c ≡ ok none) × Absent values k c)
  unfolding chunk_find
  chunk_find-cases values k [] r = inr (refl, λ i p. absurd (omega arith))
  chunk_find-cases values k (i ∷ c) r =
      let t = test_at-key_is values k i (InRange-head values i c r) in
      elim (Bool-cases (key_is values k i)) [
        | inl hit ↦ inl (i, rw (t, hit), ground arith, hit)
        | inr miss ↦ elim (chunk_find-cases values k c (InRange-tail values i c r)) [
          | inl (j, found, member, has) ↦ inl (j, rw (t, miss) found, omega arith, has)
          | inr (found, absent) ↦ inr (rw (t, miss) found, Absent-cons values k i c miss absent)
        ]
      ]

  pub chunk_find-member :
      (vs : List (K × V)) (k : K) (c : List ℕ) (i : ℕ)
      → chunk_find vs k c ≡ ok (some i)
      → 0 < count i c
  unfolding chunk_find
  chunk_find-member vs k [] i h = absurd (ground arith)
  chunk_find-member vs k (j ∷ c) i h = ground (arith, chunk_find-member vs k c i)
