-- ===== src/Collection/Indexer/Places.antt =====
-- The invariant of the table: where the positions of the entries stand.
use native.Mathlib.Decide.{dec_lt}
use ew_base.Prelude.{
  ℕ, zero, suc, ◌+◌, ◌<◌, ◌≡◌, refl, ◌⊎◌, inl, inr, ◌∙◌, true, none, some, List, [], ◌∷◌, ◌++◌,
  ◌==◌, if◌then◌else◌, get_elem?, get_or, set, length, arith, Bool-cases, ==_iff, get_or-set_self,
  get_or-set_ne, get_elem?-none,
}
use ew_base.Prelude.Key.{Key}
use ew_base.Collection.Chunk.Find.{count, key_is, InRange, key_is-get_elem?}
use ew_base.Collection.Indexer.{Traits, Indexer, slot}

module _ {K V L : Type 0} (t : Traits K L) where
  -- How often position `i` has to stand in bucket `b`.
  abbrev pub spot : List (K × V) → ℕ → ℕ → ℕ → ℕ
  spot values mask i b = elim (get_elem? values i) [
    | none ↦ 0
    | some e ↦ if slot t (e.0) mask == b then 1 else 0
  ]

  -- Every position stands once, in the bucket of its key, and nothing else stands in a bucket.
  pub record Placed (values : List (K × V)) (buckets : List (List ℕ)) (mask : ℕ) : Type 0 where
    pub room : mask < length buckets
    pub counts : (i b : ℕ) → count i (get_or buckets b []) ≡ spot values mask i b

  pub spot-append :
      (values : List (K × V)) (e : K × V) (mask i b : ℕ)
      → spot (values ++ e ∷ []) mask i b
        ≡ spot values mask i b
          + (if i == length values then (if slot t (e.0) mask == b then 1 else 0) else 0)
  spot-append [] e mask zero b = omega arith
  spot-append [] e mask (suc i) b = ground arith
  spot-append (v ∷ values) e mask zero b = ground arith
  spot-append (v ∷ values) e mask (suc i) b = spot-append values e mask i b ∙ ground arith

module _ {K V : Type 0} ⦃key : Key K⦄ where
  -- No two entries have one key.
  abbrev pub Distinct : List (K × V) → Type 0
  Distinct values = (k : K) (i j : ℕ) → key_is values k i ≡ true → key_is values k j ≡ true → i ≡ j

-- One bucket is replaced by a chunk.
pub count-set :
    (bs : List (List ℕ)) (cp : ℕ) (c : List ℕ) (i b : ℕ)
    → cp < length bs
    → count i (get_or (set bs cp c) b [])
      ≡ (if b == cp then count i c else count i (get_or bs b []))
count-set bs cp c i b h = elim (Bool-cases (b == cp)) [
  | inl same ↦ rw (same, (==_iff b cp).0 same) (rw (get_or-set_self bs cp c [] h) refl)
  | inr other ↦ rw other (rw (get_or-set_ne bs cp b c [] (ground arith)) refl)
]

module _ {K V L : Type 0} ⦃key : Key K⦄ (t : Traits K L) where
  pub Placed-InRange :
      {values : List (K × V)} {buckets : List (List ℕ)} {mask : ℕ} (b : ℕ)
      → Placed t values buckets mask
      → InRange values (get_or buckets b [])
  Placed-InRange {values} {buckets} {mask} b p i h = elim (dec_lt i (length values)) [
    | yes inside ↦ inside
    | no outside ↦ absurd (ground (arith, p.counts i b, get_elem?-none values i (omega arith)))
  ]

  -- A position that has the key stands in the bucket of the key.
  pub Placed-member :
      {values : List (K × V)} {buckets : List (List ℕ)} {mask : ℕ} (k : K) (i : ℕ)
      → Placed t values buckets mask
      → key_is values k i ≡ true
      → count i (get_or buckets (slot t k mask) []) ≡ 1
  Placed-member {values} {buckets} {mask} k i p h =
      let (v, e) = key_is-get_elem? values k i h in ground (arith, p.counts i (slot t k mask))

  -- The table has buckets, and they hold the positions of the entries.
  pub record Ready (s : Indexer K V L) : Type 0 where
    pub placed : Placed t s.values s.buckets s.bucket_mask
    pub masked : 0 < s.bucket_mask
    pub sized : s.bucket_count ≡ s.bucket_mask + 1

  -- Before the first insertion there are no buckets and no entries.
  pub record IsValid (s : Indexer K V L) : Type 0 where
    pub distinct : Distinct s.values
    pub ready : Ready s ⊎ ((s.bucket_mask ≡ 0) × (s.bucket_count ≡ 0) × (s.values ≡ []))
