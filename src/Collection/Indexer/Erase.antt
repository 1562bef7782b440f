-- ===== src/Collection/Indexer/Erase.antt =====
-- `erase`: the node of the key leaves its chunk, the last entry moves, and so does its position.
use ew_base.Prelude.{
  ℕ, ◌+◌, ◌-◌, ◌≤◌, ◌<◌, ◌≡◌, refl, inl, inr, ◌∙◌, true, false, Option, none, some, List, [], ◌==◌,
  if◌then◌else◌, get_elem?, get_or, set, length, arith, Bool-cases, length-set, get_elem?-some,
  get_elem?-none, get_elem?-get_or,
}
use ew_base.Prelude.Bits.{and-le}
use ew_base.Prelude.Key.{Key}
use ew_base.Prelude.Run.{Run, ok, ◌>>=◌}
use ew_base.Collection.Chunk.{chunk_replace}
use ew_base.Collection.Chunk.Find.{count, key_is, key_is-get_elem?}
use ew_base.Collection.Chunk.Delete.{
  Deletes, found, missing, chunk_find_delete-Deletes, count-chunk_replace,
}
use ew_base.Collection.Indexer.{Traits, Indexer, slot, pop_back, erase_at, erase}
use ew_base.Collection.Indexer.Places.{
  Placed, Distinct, Ready, IsValid, spot, count-set, Placed-InRange, Placed-member,
}
use ew_base.Collection.Indexer.Rehash.{bucket_at-slot}
use ew_base.Collection.Indexer.Entries.{key_is-inside}
use ew_base.Collection.Indexer.Lookup.{index_of, index_of-absent, index_of-Distinct}
use ew_base.Collection.Indexer.Removal.{
  Removed, pop_back-Removed, swap-Removed, Removed-Distinct, Removed-index_of,
}

module _ {K V L : Type 0} ⦃key : Key K⦄ (t : Traits K L) where
  -- Every position but `id` stands in the bucket of its key.
  pub record Without (id : ℕ) (values : List (K × V)) (buckets : List (List ℕ)) (mask : ℕ)
      : Type 0 where
    pub room : mask < length buckets
    pub counts :
        (i b : ℕ) → count i (get_or buckets b []) ≡ (if i == id then 0 else spot t values mask i b)

  module _ (values : List (K × V)) (buckets : List (List ℕ)) (mask : ℕ) where
    pub Placed-Without :
        (k : K) (id : ℕ) (c' : List ℕ)
        → Placed t values buckets mask
        → key_is values k id ≡ true
        → ((j : ℕ)
            → count j (get_or buckets (slot t k mask) []) ≡ count j c' + (if j == id then 1 else 0))
        → Without id values (set buckets (slot t k mask) c') mask
    Placed-Without k id c' p has takes = record {
      room = rw length-set p.room;
      counts = λ i b.
          let (v, e) = key_is-get_elem? values k id has in
          count-set buckets (slot t k mask) c' i b (omega (arith, and-le (t.hash k) mask, p.room))
          ∙ ground (arith, takes i, p.counts i b, Placed-member t k id p has);
    }

    -- The removed entry was the last.
    Without-last :
        (id : ℕ) (ws : List (K × V))
        → Without id values buckets mask
        → id ≡ length values - 1
        → Removed values id ws
        → Placed t ws buckets mask
    Without-last id ws w e r = record {
      room = w.room;
      counts = λ i b.
          ground
            (arith, w.counts i b, r.moved i, λ (h : length values ≤ i). get_elem?-none values i h);
    }

    -- The last entry, `e`, takes the place of the removed one, and its position is replaced in its
    -- chunk.
    Without-swap :
        (id : ℕ) (e : K × V) (ws : List (K × V))
        → Without id values buckets mask
        → id < length values - 1
        → get_elem? values (length values - 1) ≡ some e
        → Removed values id ws
        → Placed t ws
            (set buckets
              (slot t (e.0) mask)
              (chunk_replace (get_or buckets (slot t (e.0) mask) []) (length values - 1) id))
            mask
    Without-swap id e ws w h at_last r =
        let cp = slot t (e.0) mask in
        let last = length values - 1 in
        let inside : cp < length buckets = omega (arith, and-le (t.hash (e.0)) mask, w.room) in
        let there : 0 < count last (get_or buckets cp []) = ground (arith, w.counts last cp) in
        record {
          room = rw length-set w.room;
          counts = λ i b.
              count-set buckets cp _ i b inside
              ∙ ground (
                arith,
                w.counts i b,
                r.moved i,
                count-chunk_replace i last id (get_or buckets cp []) there,
                λ (h : length values ≤ i). get_elem?-none values i h,
              );
        }

  pub data Erases (s : Indexer K V L) (k : K) : Run (Indexer K V L × ℕ) → Type 0 where
    absent : index_of k s.values ≡ none → Erases s k (ok (s, 0))
    removed :
        (s' : Indexer K V L) (id : ℕ)
        → index_of k s.values ≡ some id
        → Removed s.values id s'.values
        → index_of k s'.values ≡ none
        → IsValid t s'
        → Erases s k (ok (s', 1))

  module _ (s : Indexer K V L) (k : K) (r : Ready t s) (d : Distinct s.values) where
    -- A table with the entry removed and its positions in place.
    moved_entry :
        (s' : Indexer K V L) (id : ℕ)
        → key_is s.values k id ≡ true
        → Removed s.values id s'.values
        → Placed t s'.values s'.buckets s'.bucket_mask
        → s'.bucket_mask ≡ s.bucket_mask
        → s'.bucket_count ≡ s.bucket_count
        → Erases s k (ok (s', 1))
    moved_entry s' id has rm p mask count =
        removed s' id (index_of-Distinct k s.values id d has) rm
          (Removed-index_of s.values id s'.values k rm d has)
          (record {
            distinct = Removed-Distinct s.values id s'.values rm d;
            ready = inl (record {
              placed = p;
              masked = omega (arith, r.masked);
              sized = omega (arith, r.sized);
            });
          })

    erase_at-Erases :
        (bs : List (List ℕ)) (id : ℕ)
        → key_is s.values k id ≡ true
        → Without id s.values bs s.bucket_mask
        → Erases s k (erase_at t (record s { buckets = bs }) id)
    unfolding erase_at
    erase_at-Erases bs id has w =
        let inside = key_is-inside s.values k id has in
        elim (Bool-cases (id == length s.values - 1)) [
          | inl last ↦
              let e : id ≡ length s.values - 1 = ground arith in
              let rm = rw (← e) at (pop_back-Removed s.values (omega arith)) in
              rw last (
                moved_entry _ id has rm
                  (Without-last s.values bs s.bucket_mask id (pop_back s.values) w e rm) refl refl)
          | inr other ↦
              let (a, at_id) = get_elem?-some s.values id inside in
              let (b, at_last) = get_elem?-some s.values (length s.values - 1) (omega arith) in
              let before : id < length s.values - 1 = ground arith in
              let rm = swap-Removed s.values id a b before at_last in
              let chunk =
                get_elem?-get_or bs (slot t (b.0) s.bucket_mask) []
                  (omega (arith, and-le (t.hash (b.0)) s.bucket_mask, w.room)) in
              rw (other, at_id, at_last, chunk)
                (moved_entry _ id has rm
                  (Without-swap s.values bs s.bucket_mask id b _ w before at_last rm) refl refl)
        ]

    erase-found :
        {q : Run (Option ℕ × List ℕ)}
        → Deletes s.values k (get_or s.buckets (slot t k s.bucket_mask) []) q
        → Erases s k (
            q >>= λ r. elim r.0 [
              | none ↦ ok (s, 0)
              | some id1 ↦
                  erase_at t
                    (record s { buckets = set s.buckets (slot t k s.bucket_mask) (r.1) })
                    id1
            ])
    erase-found (missing gone) = absent (
        index_of-absent k s.values λ i. elim (Bool-cases (key_is s.values k i)) [
          | inr miss ↦ miss
          | inl hit ↦ absurd (ground (arith, gone i, Placed-member t k i r.placed hit))
        ])
    erase-found (found id c' has takes) =
        erase_at-Erases _ id has
          (Placed-Without s.values s.buckets s.bucket_mask k id c' r.placed has takes)

  -- `erase` on a valid table faults nowhere. If no entry has the key it returns 0 and changes
  -- nothing; else it returns 1, the entry is removed, with the last entry in its place, the key is
  -- not found any more, and the table is valid.
  pub erase-Erases : (s : Indexer K V L) (k : K) → IsValid t s → Erases s k (erase t s k)
  unfolding erase
  erase-Erases s k v = elim v.ready [
    | inr (unmasked, uncounted, empty) ↦
        let m : (s.bucket_mask == 0) ≡ true = ground arith in rw m (absent (rw empty))
    | inl r ↦
        let m : (s.bucket_mask == 0) ≡ false = ground (arith, r.masked) in
        rw (m, bucket_at-slot t s.values s.buckets s.bucket_mask k r.placed)
          (erase-found s k r v.distinct
            (chunk_find_delete-Deletes s.values k _ (Placed-InRange t _ r.placed)))
  ]
