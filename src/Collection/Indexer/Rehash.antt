-- ===== src/Collection/Indexer/Rehash.antt =====
-- `rehash` builds the buckets anew from the entries.
use ew_base.Prelude.{
  ℕ, suc, ◌+◌, ◌-◌, ◌^◌, ◌≤◌, ◌<◌, ◌≡◌, refl, ◌∙◌, ap, false, Option, none, some, List, [], ◌∷◌,
  ◌++◌, ◌==◌, ◌&&◌, true, ltb, get_or, set, length, arith, length-append, replicate, length-set,
  max, get_elem?-get_or, append_assoc, length-replicate, append-nil, get_or-replicate,
}
use native.Mathlib.Decide.{dec_le}
use ew_base.Prelude.Bits.{and-le}
use ew_base.Prelude.Key.{Key}
use ew_base.Prelude.Run.{Run, ok}
use ew_base.Collection.Capacity.{RoundsUp, n2p-RoundsUp, n2p-none}
use ew_base.Collection.Chunk.{chunk_insert}
use ew_base.Collection.Chunk.Find.{count}
use ew_base.Collection.Chunk.Delete.{count-chunk_insert}
use ew_base.Collection.Indexer.{
  Traits, Indexer, slot, fill, rehash, min_bucket_count, bucket_at, is_empty, to_index, to_size,
}
use ew_base.Collection.Indexer.Places.{Placed, spot-append, count-set, Ready}

-- A position below 2^31 stays what it is as an `index_type`.
pub to_index-small : (n : ℕ) → n < 2 ^ 31 → to_index n ≡ n
unfolding to_index
to_index-small n h = omega arith

pub to_size-small : (n : ℕ) → n < 2 ^ 31 → to_size n ≡ n
unfolding to_size
to_size-small n h = let below : ltb n (2 ^ 31) ≡ true = ground arith in rw below refl

module _ {K V L : Type 0} ⦃key : Key K⦄ (t : Traits K L) where
  -- One more entry, whose position goes into the bucket of its key.
  pub Placed-append :
      (values : List (K × V)) (buckets : List (List ℕ)) (mask : ℕ) (e : K × V)
      → Placed t values buckets mask
      → Placed t
          (values ++ e ∷ [])
          (set buckets
            (slot t (e.0) mask)
            (chunk_insert (get_or buckets (slot t (e.0) mask) []) (length values)))
          mask
  Placed-append values buckets mask e p =
      let cp = slot t (e.0) mask in
      let inside : cp < length buckets = omega (arith, and-le (t.hash (e.0)) mask, p.room) in
      record {
        room = rw length-set p.room;
        counts = λ i b.
            count-set buckets cp _ i b inside
            ∙ ground (
              arith,
              p.counts i b,
              spot-append t values e mask i b,
              count-chunk_insert i (length values) (get_or buckets cp []),
            );
      }

  pub bucket_at-slot :
      (values : List (K × V)) (buckets : List (List ℕ)) (mask : ℕ) (k : K)
      → Placed t values buckets mask
      → bucket_at buckets (slot t k mask) ≡ ok (get_or buckets (slot t k mask) [])
  bucket_at-slot values buckets mask k p =
      let e =
        get_elem?-get_or buckets (slot t k mask) []
          (omega (arith, and-le (t.hash k) mask, p.room)) in
      rw e

  fill-Placed :
      (mk : ℕ) (pre vs : List (K × V)) (cks : List (List ℕ))
      → length pre + length vs ≤ 2 ^ 31
      → Placed t pre cks mk
      → (cks' : List (List ℕ)) × (fill t mk (length pre) vs cks ≡ ok cks')
        × Placed t (pre ++ vs) cks' mk
  unfolding fill
  fill-Placed mk pre [] cks few p = (cks, refl, rw append-nil p)
  fill-Placed mk pre (e ∷ vs) cks few p =
      let n : length (pre ++ e ∷ []) ≡ suc (length pre) =
        omega (arith, length-append pre (e ∷ [])) in
      let (cks', run, q) =
        fill-Placed mk (pre ++ e ∷ []) vs _ (omega arith) (Placed-append pre cks mk e p) in
      (
        cks',
        rw (bucket_at-slot pre cks mk (e.0) p, to_index-small (length pre) (omega arith))
            (rw n at run),
        rw append_assoc at q,
      )

  pub Placed-nil : (sz : ℕ) → 0 < sz → Placed {V = V} t [] (replicate sz []) (sz - 1)
  Placed-nil sz h = record {
    room = omega (arith, length-replicate {A = List ℕ} sz []);
    counts = λ i b. ap (count i) (get_or-replicate sz b []);
  }

  min_bucket_count-ge : (s : Indexer K V L) → 16 ≤ min_bucket_count t s
  unfolding min_bucket_count
  min_bucket_count-ge s = ground arith

  -- It looks at the number of entries and at the load factor only.
  pub min_bucket_count-congr :
      (s s' : Indexer K V L)
      → s'.values ≡ s.values
      → s'.max_load_factor ≡ s.max_load_factor
      → min_bucket_count t s' ≡ min_bucket_count t s
  unfolding min_bucket_count
  min_bucket_count-congr s s' p q = rw (p, q) refl

  -- What a call of `rehash` for `n` buckets that does not empty the table does.
  pub data Rehashes (s : Indexer K V L) (n : ℕ) : Run (Option (Indexer K V L)) → Type 0 where
    refused : 2 ^ 63 < max n (min_bucket_count t s) → Rehashes s n (ok none)
    rebuilt :
        (s' : Indexer K V L)
        → max n (min_bucket_count t s) ≤ 2 ^ 63
        → RoundsUp (max n (min_bucket_count t s)) s'.bucket_count
        → s'.values ≡ s.values
        → s'.max_load_factor ≡ s.max_load_factor
        → Ready t s'
        → Rehashes s n (ok (some s'))

  -- Unless it is asked for no buckets on an empty table, rehash of a table with at most 2^31 entries,
  -- whatever the buckets were, faults nowhere. It throws if and only if the size asked for or the least
  -- size for the entries is above 2^63; else the number of buckets is the
  -- greater of the two rounded up to a power of two, the entries and the load factor are unchanged, and every position is in the bucket of its key.
  pub rehash-Rehashes :
      (s : Indexer K V L) (n : ℕ)
      → (n == 0 && is_empty s.values) ≡ false
      → length s.values ≤ 2 ^ 31
      → Rehashes s n (rehash t s n)
  unfolding rehash
  rehash-Rehashes s n full few = elim (dec_le (max n (min_bucket_count t s)) (2 ^ 63)) [
    | no big ↦
        let e = n2p-none (max n (min_bucket_count t s)) (omega arith) in
        rw (full, e) (refused (omega arith))
    | yes fits ↦
        let (sz, e, up) = n2p-RoundsUp (max n (min_bucket_count t s)) fits in
        let wide : 16 ≤ sz = omega (arith, up.enough, min_bucket_count-ge s) in
        let (cks, run, p) =
          fill-Placed (sz - 1) [] s.values (replicate sz []) (omega arith)
            (Placed-nil sz (omega arith)) in
        rw (full, e, run)
          (rebuilt _ fits up refl refl
            (record { placed = p; masked = omega arith; sized = omega arith }))
  ]
