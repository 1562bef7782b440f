-- ===== src/Collection/Indexer.antt =====
-- inc/ewa_base/collection/detail/indexer_base.h: `indexer_base`, a hash table whose entries stand in
-- insertion order in the array `values`; a bucket is a chunk of positions. An index out of range is
-- a fault. Memory is assumed to suffice, so the only exception is the one of `n2p`.
pub mod Places
pub mod Rehash
pub mod Lookup
pub mod Entries
pub mod Insert
pub mod Removal
pub mod Erase
pub mod Replace
pub mod Upkeep
use ew_base.Prelude.{
  ℕ, zero, suc, ◌+◌, ◌-◌, ◌%◌, ◌^◌, max, Bool, true, false, ◌&&◌, Option, none, some, List, [], ◌∷◌,
  ◌++◌, bit_and, ltb, ◌==◌, if◌then◌else◌, length, get_elem?, set, replicate,
}
use ew_base.Prelude.Key.{Key}
use ew_base.Prelude.Run.{Run, ok, ◌>>=◌, reads}
use ew_base.Collection.Capacity.{n2p}
use ew_base.Collection.Chunk.{chunk_insert, chunk_replace, chunk_find, chunk_find_delete}

-- `hash_t<key_type>`, and the computations with the `float` load factor (its type is `L`), each
-- followed by the conversion to `size_t`: `bc*lf`, `2.0*n/lf`, `n/lf+0.5` and `ceil(n/lf)`. `less` is `<`,
-- `least` 0.1 and `greatest` 20.0.
pub record Traits (K L : Type 0) : Type 0 where
  pub hash : K → ℕ
  pub hint : ℕ → L → ℕ
  pub growth : ℕ → L → ℕ
  pub ratio : ℕ → L → ℕ
  pub ceil_ratio : ℕ → L → ℕ
  pub less : L → L → Bool
  pub least : L
  pub greatest : L

pub record Indexer (K V L : Type 0) : Type 0 where
  pub values : List (K × V)
  pub buckets : List (List ℕ)
  pub bucket_count : ℕ
  pub bucket_mask : ℕ
  pub elem_hint : ℕ
  pub max_load_factor : L

-- The constructor leaves `m_nElemHint` as the memory is; `lf` is 2.0.
unfoldable pub new : {K V L : Type 0} → L → ℕ → Indexer K V L
new lf garbage = record {
  values = [];
  buckets = [];
  bucket_count = 0;
  bucket_mask = 0;
  elem_hint = garbage;
  max_load_factor = lf;
}

-- The conversion to `index_type`, which is `int`, by its 32 bits, and back to `size_t`.
unfoldable pub to_index : ℕ → ℕ
to_index n = n % 2 ^ 32

unfoldable pub to_size : ℕ → ℕ
to_size i = if ltb i (2 ^ 31) then i else i + (2 ^ 64 - 2 ^ 32)

abbrev pub bucket_at : List (List ℕ) → ℕ → Run (List ℕ)
bucket_at bs cp = reads (get_elem? bs cp)

-- `values.pop_back()`
unfoldable pub pop_back : {A : Type 0} → List A → List A
pop_back [] = []
pop_back (x ∷ []) = []
pop_back (x ∷ y ∷ xs) = x ∷ pop_back (y ∷ xs)

-- `P::set_value(values[id],v)`
unfoldable pub set_value : {K V : Type 0} → List (K × V) → ℕ → V → List (K × V)
set_value [] id v = []
set_value (e ∷ es) zero v = (e.0, v) ∷ es
set_value (e ∷ es) (suc id) v = e ∷ set_value es id v

abbrev pub is_empty {ℓ} : {A : Type ℓ} → List A → Bool
is_empty [] = true
is_empty (x ∷ xs) = false

-- `max_load_factor(z)` puts `z` between the bounds.
unfoldable pub bounded : {K L : Type 0} → Traits K L → L → L
bounded t z =
    let z' = if t.less z t.least then t.least else z in
    if t.less t.greatest z' then t.greatest else z'

-- The bucket of a key: `hk&m_nBucketMask`.
abbrev pub slot : {K L : Type 0} → Traits K L → K → ℕ → ℕ
slot t k mask = bit_and (t.hash k) mask

module _ {K V L : Type 0} ⦃key : Key K⦄ (t : Traits K L) where
  pub min_bucket_count : Indexer K V L → ℕ
  min_bucket_count s =
      let bc = t.ratio (length s.values) s.max_load_factor in if ltb bc 16 then 16 else bc

  -- The loop of `rehash` from entry `i` on.
  pub fill : ℕ → ℕ → List (K × V) → List (List ℕ) → Run (List (List ℕ))
  unfolding to_index
  fill mk i [] cks = ok cks
  fill mk i (e ∷ vs) cks = bucket_at cks (slot t e.0 mk) >>= λ c.
      fill mk (suc i) vs (set cks (slot t e.0 mk) (chunk_insert c (to_index i)))

  -- `none` is the exception; it is thrown before anything is changed.
  pub rehash : Indexer K V L → ℕ → Run (Option (Indexer K V L))
  unfolding fill
  rehash s n =
      if n == 0 && is_empty s.values
      then ok (some (record s { buckets = []; bucket_count = 0; bucket_mask = 0 }))
      else elim (n2p (max n (min_bucket_count s))) [
        | none ↦ ok none
        | some sz ↦ fill (sz - 1) 0 s.values (replicate sz []) >>= λ cks. ok (
            some (record s {
              buckets = cks;
              bucket_count = sz;
              bucket_mask = sz - 1;
              elem_hint = t.hint sz s.max_load_factor;
            }))
      ]

  -- `none` is `invalid_pos`.
  unfoldable pub find1 : Indexer K V L → K → Run (Option ℕ)
  find1 s k =
      if s.bucket_mask == 0
      then ok none
      else (bucket_at s.buckets (slot t k s.bucket_mask) >>= λ c. chunk_find s.values k c)

  -- The new entry, which is not in the table. The second part of the result is the position, or
  -- `none` if the exception passes on.
  pub insert_new : Indexer K V L → K × V → ℕ → List ℕ → Run (Indexer K V L × Option ℕ)
  unfolding to_index to_size
  insert_new s e cp chunk =
      let id = to_index (length s.values) in
      let s' = record s { values = s.values ++ e ∷ [] } in
      if ltb s.elem_hint (to_size (to_index (id + 1)))
      then (rehash s' (t.growth (length s'.values) s.max_load_factor) >>= λ r. elim r [
        | none ↦ ok (record s' { values = pop_back s'.values }, none)
        | some s'' ↦ ok (s'', some id)
      ])
      else ok (record s' { buckets = set s.buckets cp (chunk_insert chunk id) }, some id)

  -- The body of `insert_real` behind the first `rehash`. `write` says whether `set_value` writes.
  pub insert_ready : Bool → Indexer K V L → K × V → Run (Indexer K V L × Option ℕ)
  unfolding insert_new
  insert_ready write s e = bucket_at s.buckets (slot t e.0 s.bucket_mask) >>= λ chunk.
      chunk_find s.values e.0 chunk >>= λ o. elim o [
        | some id ↦
            ok
              (record s { values = if write then set_value s.values id e.1 else s.values }, some id)
        | none ↦ insert_new s e (slot t e.0 s.bucket_mask) chunk
      ]

  pub insert_real : Bool → Indexer K V L → K × V → Run (Indexer K V L × Option ℕ)
  unfolding insert_ready
  insert_real write s e = (if s.bucket_mask == 0 then rehash s 32 else ok (some s)) >>= λ r.
      elim r [ none ↦ ok (s, none) | some s₁ ↦ insert_ready write s₁ e ]

  unfoldable pub insert : Indexer K V L → K × V → Run (Indexer K V L × Option ℕ)
  unfolding insert_real rehash min_bucket_count
  insert s e = insert_real true s e

  -- `find2(k)`, with `mapped_type()` as `d`.
  pub find2 : V → Indexer K V L → K → Run (Indexer K V L × Option ℕ)
  find2 d s k = insert_real false s (k, d)

  -- `erase` behind the search: the node of `id1` is gone from its chunk.
  pub erase_at : Indexer K V L → ℕ → Run (Indexer K V L × ℕ)
  erase_at s id1 =
      let id2 = length s.values - 1 in
      if id1 == id2
      then ok (record s { values = pop_back s.values }, 1)
      else (reads (get_elem? s.values id1) >>= λ a. reads (get_elem? s.values id2) >>= λ b.
          let cp2 = slot t b.0 s.bucket_mask in
          bucket_at s.buckets cp2 >>= λ chunk2. ok (
            record s {
              values = pop_back (set (set s.values id1 b) id2 a);
              buckets = set s.buckets cp2 (chunk_replace chunk2 id2 id1);
            },
            1,
          ))

  unfoldable pub erase : Indexer K V L → K → Run (Indexer K V L × ℕ)
  unfolding erase_at
  erase s k =
      if s.bucket_mask == 0
      then ok (s, 0)
      else (let cp1 = slot t k s.bucket_mask in
          bucket_at s.buckets cp1 >>= λ chunk1. chunk_find_delete s.values k chunk1 >>= λ r.
          elim r.0 [
            | none ↦ ok (s, 0)
            | some id1 ↦ erase_at (record s { buckets = set s.buckets cp1 (r.1) }) id1
          ])

  -- `replace` behind the search. The source inserts `hk2`, converted to a 32-bit index, which as a
  -- negative index is out of range.
  pub replace_at : Indexer K V L → ℕ → K → Run (Indexer K V L × Bool)
  replace_at s id1 k_new = reads (get_elem? s.values id1) >>= λ e.
      let cp2 = slot t k_new s.bucket_mask in
      bucket_at s.buckets cp2 >>= λ chunk2. ok (
        record s {
          values = set s.values id1 (k_new, e.1);
          buckets = set s.buckets cp2 (chunk_insert chunk2 (t.hash k_new % 2 ^ 32));
        },
        true,
      )

  unfoldable pub replace : Indexer K V L → K → K → Run (Indexer K V L × Bool)
  unfolding replace_at
  replace s k_old k_new =
      if s.bucket_mask == 0
      then ok (s, false)
      else (find1 s k_new >>= λ o. elim o [
        | some id ↦ ok (s, false)
        | none ↦
            let cp1 = slot t k_old s.bucket_mask in
            bucket_at s.buckets cp1 >>= λ chunk1. chunk_find_delete s.values k_old chunk1 >>= λ r.
            elim r.0 [
              | none ↦ ok (s, false)
              | some id1 ↦ replace_at (record s { buckets = set s.buckets cp1 (r.1) }) id1 k_new
            ]
      ])

  unfoldable pub clear : Indexer K V L → Indexer K V L
  clear s = record s { values = []; buckets = replicate s.bucket_count [] }

  pub check_loadfactor : Indexer K V L → Run (Option (Indexer K V L))
  check_loadfactor s =
      if ltb s.elem_hint (length s.values)
      then rehash s (t.growth (length s.values) s.max_load_factor)
      else ok (some s)

  pub reserve : Indexer K V L → ℕ → Run (Option (Indexer K V L))
  reserve s n =
      let bc = t.ceil_ratio n s.max_load_factor in
      if ltb s.bucket_count bc then rehash s bc else ok (some s)

  unfoldable pub set_max_load_factor : Indexer K V L → L → Indexer K V L
  unfolding bounded
  set_max_load_factor s z =
      let lf = bounded t z in
      record s { max_load_factor = lf; elem_hint = t.hint s.bucket_count lf }
