-- ===== src/Collection/Indexer/Insert.antt =====
-- `insert_real`: `insert` and `find2`.
use ew_base.Prelude.{
  ℕ, ◌+◌, ◌^◌, ◌<◌, ◌≡◌, refl, ◌⊎◌, inl, inr, ◌∙◌, ap, Bool, true, false, Option, none, some, List,
  [], ◌∷◌, ◌++◌, ◌==◌, ◌&&◌, if◌then◌else◌, get_or, length, length-append, arith, Bool-cases,
  Option-cases, max, ltb,
}
use ew_base.Prelude.Key.{Key}
use ew_base.Prelude.Run.{Run, ok, ◌>>=◌}
use ew_base.Collection.Indexer.{
  Traits, Indexer, slot, pop_back, set_value, insert_new, insert_ready, insert_real, is_empty,
  min_bucket_count, to_index, to_size,
}
use ew_base.Collection.Indexer.Places.{Distinct, Ready, IsValid}
use ew_base.Collection.Indexer.Lookup.{index_of, chunk_find-index_of}
use ew_base.Collection.Indexer.Rehash.{
  to_index-small, to_size-small, min_bucket_count-congr, Rehashes, refused, rebuilt,
  rehash-Rehashes, bucket_at-slot, Placed-append,
}
use ew_base.Collection.Indexer.Entries.{
  pop_back-append, index_of-append, Distinct-append, index_of-set_value, Distinct-set_value,
  Placed-set_value,
}

module _ {K V : Type 0} ⦃key : Key K⦄ where
  -- The entries after an insertion: a new entry goes to the end, and a present one gets the value.
  abbrev pub put : Bool → K × V → List (K × V) → List (K × V)
  put write e vs = elim (index_of (e.0) vs) [
    | none ↦ vs ++ e ∷ []
    | some id ↦ if write then set_value vs id (e.1) else vs
  ]

module _ {K V L : Type 0} ⦃key : Key K⦄ (t : Traits K L) where
  -- A table with more buckets than half the address space is asked for.
  abbrev pub TooLarge : Indexer K V L → K × V → Type 0
  TooLarge s e =
      (2 ^ 63 < max 32 (min_bucket_count t s))
      ⊎ (2 ^ 63
          < max (t.growth (length (s.values ++ e ∷ [])) s.max_load_factor)
              (min_bucket_count t (record s { values = s.values ++ e ∷ [] })))

  pub data Inserts (write : Bool) (s : Indexer K V L) (e : K × V)
      : Run (Indexer K V L × Option ℕ) → Type 0 where
    threw :
        (s' : Indexer K V L)
        → s'.values ≡ s.values
        → IsValid t s'
        → TooLarge s e
        → Inserts write s e (ok (s', none))
    stored :
        (s' : Indexer K V L) (id : ℕ)
        → s'.values ≡ put write e s.values
        → index_of (e.0) s'.values ≡ some id
        → IsValid t s'
        → Inserts write s e (ok (s', some id))

  pub Inserts-IsValid :
      {write : Bool} {s s' : Indexer K V L} {e : K × V} {o : Option ℕ}
      → Inserts write s e (ok (s', o))
      → IsValid t s'
  Inserts-IsValid (threw _ same v big) = v
  Inserts-IsValid (stored _ id same at_id v) = v

  module _ (write : Bool) (s : Indexer K V L) (e : K × V) where
    appended : Indexer K V L
    appended = record s { values = s.values ++ e ∷ [] }

    put-absent : index_of (e.0) s.values ≡ none → s.values ++ e ∷ [] ≡ put write e s.values
    put-absent h = rw (h, put) refl

    -- The end of `insert_new` with a `rehash`: its exception takes the new entry away again.
    insert_new-rehash :
        (n id : ℕ) {r : Run (Option (Indexer K V L))}
        → n ≡ t.growth (length (s.values ++ e ∷ [])) s.max_load_factor
        → id ≡ length s.values
        → Ready t s
        → Distinct s.values
        → index_of (e.0) s.values ≡ none
        → Rehashes t (record s { values = s.values ++ e ∷ [] }) n r
        → Inserts write s e (
            r >>= λ r. elim r [
              | none ↦ ok (record s { values = pop_back (s.values ++ e ∷ []) }, none)
              | some s'' ↦ ok (s'', some id)
            ])
    insert_new-rehash n id size at_end r d absent (refused big) =
        threw _ (pop_back-append s.values e)
          (rw pop_back-append (record { distinct = d; ready = inl r })) (inr (rw (← size) big))
    insert_new-rehash n id size at_end r d absent (rebuilt s' fits up same lf r') =
        stored s' id (same ∙ put-absent absent)
          (rw (same, at_end) (index_of-append s.values (e.0) (e.1) absent))
          (record { distinct = rw same (Distinct-append s.values e d absent); ready = inl r' })

    insert_new-Inserts :
        Ready t s
        → Distinct s.values
        → index_of (e.0) s.values ≡ none
        → length s.values + 1 < 2 ^ 31
        → Inserts write s e (
            insert_new t s e
              (slot t (e.0) s.bucket_mask)
              (get_or s.buckets (slot t (e.0) s.bucket_mask) []))
    unfolding insert_new
    insert_new-Inserts r d absent few =
        let id : to_index (length s.values) ≡ length s.values =
          to_index-small (length s.values) (omega arith) in
        let next : to_size (to_index (length s.values + 1)) ≡ length s.values + 1 =
          ap to_size (to_index-small (length s.values + 1) few)
          ∙ to_size-small (length s.values + 1) few in
        let longer = length-append s.values (e ∷ []) in
        rw (id, next)
          (elim (Bool-cases (ltb s.elem_hint (length s.values + 1))) [
            | inl grow ↦ rw grow (
                insert_new-rehash _ _ refl id r d absent
                  (rehash-Rehashes t _ _ (nonempty s.values) (omega arith)))
            | inr fits ↦ rw fits (
                stored _ (length s.values) (put-absent absent)
                  (index_of-append s.values (e.0) (e.1) absent)
                  (record {
                    distinct = Distinct-append s.values e d absent;
                    ready = inl (record {
                      placed = Placed-append t s.values s.buckets s.bucket_mask e r.placed;
                      masked = r.masked;
                      sized = r.sized;
                    });
                  }))
          ])
      where
        nonempty :
            (vs : List (K × V))
            → (t.growth (length (vs ++ e ∷ [])) s.max_load_factor == 0 && is_empty (vs ++ e ∷ []))
              ≡ false
        nonempty [] = ground arith
        nonempty (v ∷ vs) = ground arith

  insert_ready-Inserts :
      (write : Bool) (s : Indexer K V L) (e : K × V)
      → Ready t s
      → Distinct s.values
      → length s.values + 1 < 2 ^ 31
      → Inserts write s e (insert_ready t write s e)
  unfolding insert_ready
  insert_ready-Inserts write s e r d few = elim (Option-cases (index_of (e.0) s.values)) [
    | inl absent ↦
        rw
          (
            bucket_at-slot t s.values s.buckets s.bucket_mask (e.0) r.placed,
            chunk_find-index_of t s (e.0) r d,
            absent,
          )
          (insert_new-Inserts write s e r d absent few)
    | inr (id, present) ↦
        rw
          (
            bucket_at-slot t s.values s.buckets s.bucket_mask (e.0) r.placed,
            chunk_find-index_of t s (e.0) r d,
            present,
          )
          (elim (Bool-cases write) [
            | inl writes ↦ rw writes (
                stored _ id (rw (present, put) refl)
                  (index_of-set_value s.values id (e.1) (e.0) ∙ present)
                  (record {
                    distinct = Distinct-set_value s.values id (e.1) d;
                    ready = inl (record {
                      placed =
                          Placed-set_value t s.values s.buckets s.bucket_mask id (e.1) r.placed;
                      masked = r.masked;
                      sized = r.sized;
                    });
                  }))
            | inr keeps ↦ rw keeps (
                stored _ id (rw (present, put) refl) present
                  (record { distinct = d; ready = inl r }))
          ])
  ]

  TooLarge-congr :
      (s s' : Indexer K V L) (e : K × V)
      → s'.values ≡ s.values
      → s'.max_load_factor ≡ s.max_load_factor
      → TooLarge s' e
      → TooLarge s e
  TooLarge-congr s s' e p q (inl big) = inl (rw (min_bucket_count-congr t s s' p q) at big)
  TooLarge-congr s s' e p q (inr big) =
      let same =
        min_bucket_count-congr t (record s { values = s.values ++ e ∷ [] })
          (record s' { values = s'.values ++ e ∷ [] }) (ap (λ vs. vs ++ e ∷ []) p) q in
      inr (rw (p, q) at (rw same at big))

  Inserts-congr :
      {write : Bool} (s s' : Indexer K V L) (e : K × V) {r : Run (Indexer K V L × Option ℕ)}
      → s'.values ≡ s.values
      → s'.max_load_factor ≡ s.max_load_factor
      → Inserts write s' e r
      → Inserts write s e r
  Inserts-congr s s' e p q (threw u same v big) =
      threw u (same ∙ p) v (TooLarge-congr s s' e p q big)
  Inserts-congr {write} s s' e p q (stored u id same at_id v) =
      stored u id (same ∙ ap (put write e) p) at_id v

  -- The first insertion makes the buckets.
  insert_real-first :
      (write : Bool) (s : Indexer K V L) (e : K × V) {r : Run (Option (Indexer K V L))}
      → IsValid t s
      → length s.values + 1 < 2 ^ 31
      → Rehashes t s 32 r
      → Inserts write s e
          (r >>= λ r. elim r [ none ↦ ok (s, none) | some s₁ ↦ insert_ready t write s₁ e ])
  insert_real-first write s e v few (refused big) = threw s refl v (inl big)
  insert_real-first write s e v few (rebuilt s' fits up same lf r) =
      Inserts-congr s s' e same lf
        (insert_ready-Inserts write s' e r (rw same v.distinct) (rw same few))

  -- insert_real on a valid table with fewer than 2^31 - 1 entries faults nowhere. It returns the position
  -- of the key in a valid table whose entries are the old ones with the new entry put in, or it
  -- throws, with the entries unchanged and the table valid, and then a table of more than 2^63 buckets
  -- was asked for.
  pub insert_real-Inserts :
      (write : Bool) (s : Indexer K V L) (e : K × V)
      → IsValid t s
      → length s.values + 1 < 2 ^ 31
      → Inserts write s e (insert_real t write s e)
  unfolding insert_real
  insert_real-Inserts write s e v few = elim v.ready [
    | inl r ↦
        let m : (s.bucket_mask == 0) ≡ false = ground (arith, r.masked) in
        rw m (insert_ready-Inserts write s e r v.distinct few)
    | inr (unmasked, uncounted, empty) ↦
        let m : (s.bucket_mask == 0) ≡ true = ground arith in
        rw m (insert_real-first write s e v few (rehash-Rehashes t s 32 refl (omega arith)))
  ]
