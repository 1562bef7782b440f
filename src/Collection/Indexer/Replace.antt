-- ===== src/Collection/Indexer/Replace.antt =====
-- `replace`: the new key's chunk receives the hash of the key, not the position of the entry.
use ew_base.Prelude.{
  ℕ, ◌%◌, ◌^◌, ◌<◌, ◌≡◌, ◌≢◌, inl, inr, Bool, true, false, Option, none, some, List, [], ◌==◌,
  get_or, set, length, arith, Bool-cases, length-set, get_elem?-some, get_elem?-set_self,
  get_elem?-get_or,
}
use ew_base.Prelude.Bits.{and-le}
use ew_base.Prelude.Key.{Key}
use ew_base.Prelude.Run.{Run, ok, ◌>>=◌}
use ew_base.Collection.Chunk.{chunk_insert}
use ew_base.Collection.Chunk.Find.{count, key_is, chunk_find-member, get_elem?-key_is}
use ew_base.Collection.Chunk.Delete.{
  count-chunk_insert, Deletes, found, missing, chunk_find_delete-Deletes,
}
use ew_base.Collection.Indexer.{Traits, Indexer, slot, replace_at, replace, find1}
use ew_base.Collection.Indexer.Places.{
  Distinct, Ready, IsValid, count-set, Placed-InRange, Placed-member,
}
use ew_base.Collection.Indexer.Rehash.{bucket_at-slot}
use ew_base.Collection.Indexer.Entries.{key_is-inside}
use ew_base.Collection.Indexer.Lookup.{index_of, index_of-some, find1-index_of}
use ew_base.Collection.Indexer.Erase.{Without, Placed-Without}

module _ {K V L : Type 0} ⦃key : Key K⦄ (t : Traits K L) where
  find1-member :
      (s : Indexer K V L) (k : K) (i : ℕ)
      → s.bucket_mask < length s.buckets
      → find1 t s k ≡ ok (some i)
      → 0 < count i (get_or s.buckets (slot t k s.bucket_mask) [])
  unfolding find1
  find1-member s k i room h = elim (Bool-cases (s.bucket_mask == 0)) [
    | inl zero_mask ↦ absurd (ground arith)
    | inr masked ↦
        let chunk =
          get_elem?-get_or s.buckets (slot t k s.bucket_mask) []
            (omega (arith, and-le (t.hash k) s.bucket_mask)) in
        chunk_find-member s.values k _ i (rw (masked, chunk) at h)
  ]

  -- The replacement was made, and the entry cannot be found under its new key.
  pub data Loses (s : Indexer K V L) (id : ℕ) (k_new : K)
      : Run (Indexer K V L × Bool) → Type 0 where
    lost :
        (s' : Indexer K V L)
        → key_is s'.values k_new id ≡ true
        → find1 t s' k_new ≢ ok (some id)
        → Loses s id k_new (ok (s', true))

  module _ (s : Indexer K V L) (id : ℕ) (k_new : K) (differs : t.hash k_new % 2 ^ 32 ≢ id) where
    replace_at-Loses :
        (bs : List (List ℕ))
        → 0 < s.bucket_mask
        → id < length s.values
        → Without t id s.values bs s.bucket_mask
        → Loses s id k_new (replace_at t (record s { buckets = bs }) id k_new)
    unfolding replace_at
    replace_at-Loses bs masked inside w =
        let (e, at_id) = get_elem?-some s.values id inside in
        let cp = slot t k_new s.bucket_mask in
        let small : cp < length bs = omega (arith, and-le (t.hash k_new) s.bucket_mask, w.room) in
        let chunk = get_elem?-get_or bs cp [] small in
        rw (at_id, chunk)
          (lost _
            (get_elem?-key_is _ k_new (e.1) id (get_elem?-set_self s.values id (k_new, e.1) inside))
            (λ h.
              let member = find1-member _ k_new id (rw length-set w.room) h in
              absurd (
                ground (
                  arith,
                  count-set bs cp (chunk_insert (get_or bs cp []) (t.hash k_new % 2 ^ 32)) id cp
                      small,
                  count-chunk_insert id (t.hash k_new % 2 ^ 32) (get_or bs cp []),
                  w.counts id cp,
                ))))

    replace-found :
        (k_old : K) {q : Run (Option ℕ × List ℕ)}
        → Ready t s
        → Distinct s.values
        → key_is s.values k_old id ≡ true
        → Deletes s.values k_old (get_or s.buckets (slot t k_old s.bucket_mask) []) q
        → Loses s id k_new (
            q >>= λ r. elim r.0 [
              | none ↦ ok (s, false)
              | some id1 ↦
                  replace_at t
                    (record s { buckets = set s.buckets (slot t k_old s.bucket_mask) (r.1) })
                    id1
                    k_new
            ])
    replace-found k_old r d has (missing gone) =
        absurd (ground (arith, gone id, Placed-member t k_old id r.placed has))
    replace-found k_old r d has (found i c' has' takes) =
        let e = d k_old i id has' has in
        rw e (
          replace_at-Loses _ r.masked (key_is-inside s.values k_old id has) (
            Placed-Without t s.values s.buckets s.bucket_mask k_old id c' r.placed has
              (rw e at takes)))

    -- On a valid table, where the old key stands at `id`, the new key is not in the table, and the
    -- hash of the new key (as a 32-bit index) is not `id`: `replace` returns true and the entry at
    -- `id` has the new key, but `find1` does not return `id` for the new key.
    pub replace-Loses :
        (k_old : K)
        → IsValid t s
        → index_of k_old s.values ≡ some id
        → index_of k_new s.values ≡ none
        → Loses s id k_new (replace t s k_old k_new)
    unfolding replace
    replace-Loses k_old v at_id fresh =
        let has = index_of-some k_old s.values id at_id in
        elim v.ready [
          | inr (unmasked, uncounted, empty) ↦
              absurd (ground (arith, key_is-inside s.values k_old id has))
          | inl r ↦
              let m : (s.bucket_mask == 0) ≡ false = ground (arith, r.masked) in
              rw
                (
                  m,
                  find1-index_of t s k_new v,
                  fresh,
                  bucket_at-slot t s.values s.buckets s.bucket_mask k_old r.placed,
                )
                (replace-found k_old r v.distinct has
                  (chunk_find_delete-Deletes s.values k_old _ (Placed-InRange t _ r.placed)))
        ]
