-- ===== src/Collection/Indexer/Lookup.antt =====
-- `find1` finds the position of the entry, as a search through the entries would.
use ew_base.Prelude.{
  ℕ, zero, suc, ◌≡◌, refl, inl, inr, ◌∙◌, ap, sym, true, false, Option, none, some, List, [], ◌∷◌,
  ◌==◌, if◌then◌else◌, get_or, arith, Bool-cases, Option-cases,
}
use ew_base.Prelude.Key.{Key}
use ew_base.Prelude.Run.{ok}
use ew_base.Collection.Chunk.{chunk_find}
use ew_base.Collection.Chunk.Find.{key_is, chunk_find-cases}
use ew_base.Collection.Indexer.{Traits, Indexer, slot, find1}
use ew_base.Collection.Indexer.Places.{Placed-InRange, Placed-member, Distinct, Ready, IsValid}
use ew_base.Collection.Indexer.Rehash.{bucket_at-slot}

-- The position of a key in the entries, with no buckets: the specification of `find1`.
abbrev pub later : Option ℕ → Option ℕ
later none = none
later (some i) = some (suc i)

module _ {K V : Type 0} ⦃key : Key K⦄ where
  abbrev pub index_of : K → List (K × V) → Option ℕ
  index_of k [] = none
  index_of k (e ∷ es) = if key.same (e.0) k then some 0 else later (index_of k es)

  pub index_of-some :
      (k : K) (vs : List (K × V)) (i : ℕ) → index_of k vs ≡ some i → key_is vs k i ≡ true
  index_of-some k [] i h = cc
  index_of-some k (e ∷ es) zero h = ground arith
  index_of-some k (e ∷ es) (suc i) h = index_of-some k es i (ground arith)

  pub index_of-none :
      (k : K) (vs : List (K × V)) → index_of k vs ≡ none → (i : ℕ) → key_is vs k i ≡ false
  index_of-none k [] h i = refl
  index_of-none k (e ∷ es) h zero = ground arith
  index_of-none k (e ∷ es) h (suc i) = index_of-none k es (ground arith) i

  pub index_of-absent :
      (k : K) (vs : List (K × V)) → ((i : ℕ) → key_is vs k i ≡ false) → index_of k vs ≡ none
  index_of-absent k vs h = elim (Option-cases (index_of k vs)) [
    | inl e ↦ e
    | inr (i, e) ↦ absurd (ground (arith, index_of-some k vs i e, h i))
  ]

  pub index_of-Distinct :
      (k : K) (vs : List (K × V)) (i : ℕ)
      → Distinct vs
      → key_is vs k i ≡ true
      → index_of k vs ≡ some i
  index_of-Distinct k vs i d h = elim (Option-cases (index_of k vs)) [
    | inl e ↦ absurd (ground (arith, index_of-none k vs e i))
    | inr (j, e) ↦ e ∙ ap some (d k j i (index_of-some k vs j e) h)
  ]

module _ {K V L : Type 0} ⦃key : Key K⦄ (t : Traits K L) where
  -- A search in the bucket of the key.
  pub chunk_find-index_of :
      (s : Indexer K V L) (k : K)
      → Ready t s
      → Distinct s.values
      → chunk_find s.values k (get_or s.buckets (slot t k s.bucket_mask) [])
        ≡ ok (index_of k s.values)
  chunk_find-index_of s k r d =
      let c = get_or s.buckets (slot t k s.bucket_mask) [] in
      elim (chunk_find-cases s.values k c (Placed-InRange t (slot t k s.bucket_mask) r.placed)) [
        | inl (i, run, member, has) ↦ run ∙ ap ok (sym (index_of-Distinct k s.values i d has))
        | inr (run, absent) ↦
            run
            ∙ ap ok (
                sym (
                  index_of-absent k s.values (λ i. elim (Bool-cases (key_is s.values k i)) [
                    | inr miss ↦ miss
                    | inl hit ↦ absurd (ground (arith, absent i, Placed-member t k i r.placed hit))
                  ])))
      ]

  -- On a valid table `find1` does not fault, and returns the position of the key in the entries,
  -- or `invalid_pos` if no entry has the key.
  pub find1-index_of :
      (s : Indexer K V L) (k : K) → IsValid t s → find1 t s k ≡ ok (index_of k s.values)
  unfolding find1
  find1-index_of s k v = elim v.ready [
    | inr (unmasked, uncounted, empty) ↦ rw (unmasked, empty) refl
    | inl r ↦
        let m : (s.bucket_mask == 0) ≡ false = ground (arith, r.masked) in
        rw (m, bucket_at-slot t s.values s.buckets s.bucket_mask k r.placed)
          (chunk_find-index_of s k r v.distinct)
  ]
