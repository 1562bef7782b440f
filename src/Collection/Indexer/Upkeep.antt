-- ===== src/Collection/Indexer/Upkeep.antt =====
-- The operations that leave the entries alone or take all of them away.
use ew_base.Prelude.{
  ℕ, ◌-◌, ◌^◌, ◌≤◌, ◌<◌, ◌≡◌, refl, ◌⊎◌, inl, inr, Bool, true, false, Option, none, some, List, [],
  ◌∷◌, ◌==◌, ◌&&◌, length, arith, Bool-cases, ltb, max, replicate, length-replicate,
}
use ew_base.Prelude.Key.{Key}
use ew_base.Prelude.Run.{Run, ok}
use ew_base.Collection.Capacity.{RoundsUp}
use ew_base.Collection.Indexer.{
  Traits, Indexer, new, clear, reserve, check_loadfactor, min_bucket_count, is_empty,
}
use ew_base.Collection.Indexer.Places.{Distinct, Ready, IsValid}
use ew_base.Collection.Indexer.Rehash.{Rehashes, refused, rebuilt, rehash-Rehashes, Placed-nil}

module _ {K V L : Type 0} ⦃key : Key K⦄ (t : Traits K L) where
  pub new-IsValid : (lf : L) (garbage : ℕ) → IsValid {V = V} t (new lf garbage)
  unfolding new
  new-IsValid lf garbage = record { distinct = λ k i j p q. cc; ready = inr (refl, refl, refl) }

  -- A request for `n` buckets: none is made if there is no `need`; else it throws if that is too much, or
  -- the entries are the same, in a valid table with the buckets asked for.
  pub data Keeps (s : Indexer K V L) (need : Bool) (n : ℕ)
      : Run (Option (Indexer K V L)) → Type 0 where
    idle : need ≡ false → Keeps s need n (ok (some s))
    threw : need ≡ true → 2 ^ 63 < max n (min_bucket_count t s) → Keeps s need n (ok none)
    kept :
        (s' : Indexer K V L)
        → need ≡ true
        → max n (min_bucket_count t s) ≤ 2 ^ 63
        → RoundsUp (max n (min_bucket_count t s)) s'.bucket_count
        → s'.values ≡ s.values
        → IsValid t s'
        → Keeps s need n (ok (some s'))

  rehash-Keeps :
      (s : Indexer K V L) (need : Bool) (n : ℕ) {r : Run (Option (Indexer K V L))}
      → need ≡ true
      → Distinct s.values
      → Rehashes t s n r
      → Keeps s need n r
  rehash-Keeps s need n e d (refused big) = threw e big
  rehash-Keeps s need n e d (rebuilt s' fits up same lf r) =
      kept s' e fits up same (record { distinct = rw same d; ready = inl r })

  reserve-Keeps :
      (s : Indexer K V L) (n : ℕ)
      → IsValid t s
      → length s.values ≤ 2 ^ 31
      → Keeps s
          (ltb s.bucket_count (t.ceil_ratio n s.max_load_factor))
          (t.ceil_ratio n s.max_load_factor)
          (reserve t s n)
  unfolding reserve
  reserve-Keeps s n v few =
      elim (Bool-cases (ltb s.bucket_count (t.ceil_ratio n s.max_load_factor))) [
        | inl grow ↦
            rw grow (rehash-Keeps s _ _ refl v.distinct (rehash-Rehashes t s _ (ground arith) few))
        | inr fits ↦ rw fits (idle refl)
      ]

  check_loadfactor-Keeps :
      (s : Indexer K V L)
      → IsValid t s
      → length s.values ≤ 2 ^ 31
      → Keeps s
          (ltb s.elem_hint (length s.values))
          (t.growth (length s.values) s.max_load_factor)
          (check_loadfactor t s)
  unfolding check_loadfactor
  check_loadfactor-Keeps s v few = elim (Bool-cases (ltb s.elem_hint (length s.values))) [
    | inl grow ↦ rw grow (
        rehash-Keeps s _ _ refl v.distinct
          (rehash-Rehashes t s _ (filled s.values (ground arith)) few))
    | inr fits ↦ rw fits (idle refl)
  ]
    where
      filled :
          (vs : List (K × V))
          → 0 < length vs
          → (t.growth (length vs) s.max_load_factor == 0 && is_empty vs) ≡ false
      filled [] h = absurd (omega arith)
      filled (e ∷ vs) h = ground arith

  clear-IsValid : (s : Indexer K V L) → IsValid t s → IsValid t (clear t s)
  unfolding clear
  clear-IsValid s v = record { distinct = λ k i j p q. cc; ready = cleared v.ready }
    where
      cleared :
          Ready t s ⊎ ((s.bucket_mask ≡ 0) × (s.bucket_count ≡ 0) × (s.values ≡ []))
          → Ready t (record s { values = []; buckets = replicate s.bucket_count [] })
            ⊎ ((s.bucket_mask ≡ 0) × (s.bucket_count ≡ 0) × (◌≡◌ {A = List (K × V)} [] []))
      cleared (inr (m, c, e)) = inr (m, c, refl)
      cleared (inl r) =
          let p = Placed-nil {V = V} t s.bucket_count (omega (arith, r.sized)) in
          let e : s.bucket_count - 1 ≡ s.bucket_mask = omega (arith, r.sized) in
          inl (record { placed = rw e at p; masked = r.masked; sized = r.sized })

  -- reserve and check_loadfactor on a valid table with at most 2^31 entries, and clear. reserve(n) does
  -- nothing if there are as many buckets as ceil(n / the load factor), and check_loadfactor does nothing if there are no
  -- more entries than m_nElemHint; otherwise they throw if and only if more than 2^63
  -- buckets are needed, for the size asked for or for the entries, and else leave a valid table with
  -- the same entries, whose number of buckets is the greater of the two rounded up to a power of two. clear leaves a
  -- valid table without entries and with as many buckets.
  pub upkeep :
      (s : Indexer K V L) (n : ℕ)
      → IsValid t s
      → length s.values ≤ 2 ^ 31
      → Keeps s
          (ltb s.bucket_count (t.ceil_ratio n s.max_load_factor))
          (t.ceil_ratio n s.max_load_factor)
          (reserve t s n)
        × Keeps s
            (ltb s.elem_hint (length s.values))
            (t.growth (length s.values) s.max_load_factor)
            (check_loadfactor t s)
        × IsValid t (clear t s)
        × ((clear t s).values ≡ [])
        × (length (clear t s).buckets ≡ s.bucket_count)
  unfolding clear
  upkeep s n v few = (
    reserve-Keeps s n v few,
    check_loadfactor-Keeps s v few,
    clear-IsValid s v,
    refl,
    length-replicate {A = List ℕ} s.bucket_count [],
  )
