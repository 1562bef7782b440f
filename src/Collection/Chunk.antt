-- ===== src/Collection/Chunk.antt =====
-- inc/ewa_base/collection/detail/indexer_base.h: one chunk of the hash table, a linked list of the
-- positions of entries in the array `values`. The list of the model starts at `phead`. An access
-- of `values` outside the array is a fault.
pub mod Find
pub mod Delete
use ew_base.Prelude.{
  ℕ, ◌+◌, Bool, true, false, Option, none, some, List, [], ◌∷◌, ◌==◌, if◌then◌else◌, get_elem?,
}
use ew_base.Prelude.Key.{Key}
use ew_base.Prelude.Run.{Run, ok, ◌>>=◌, reads}

unfoldable pub chunk_insert : List ℕ → ℕ → List ℕ
chunk_insert chunk k = k ∷ chunk

unfoldable pub chunk_replace : List ℕ → ℕ → ℕ → List ℕ
chunk_replace [] id1 id2 = []
chunk_replace (n ∷ c) id1 id2 = if n == id1 then id2 ∷ c else n ∷ chunk_replace c id1 id2

-- The number of nodes that are removed, and the chunk that is left.
pub chunk_erase : List ℕ → ℕ → ℕ × List ℕ
chunk_erase [] id = (0, [])
chunk_erase (n ∷ c) id =
    let rest = chunk_erase c id in if n == id then (1, c) else (rest.0, n ∷ rest.1)

module _ {K V : Type 0} ⦃key : Key K⦄ where
  -- `P::equal(P::key(values[i]),k)`
  unfoldable pub test_at : List (K × V) → K → ℕ → Run Bool
  test_at values k i = reads (get_elem? values i) >>= λ e. ok (key.same (e.0) k)

  -- `none` is `invalid_pos`.
  unfoldable pub chunk_find : List (K × V) → K → List ℕ → Run (Option ℕ)
  chunk_find values k [] = ok none
  chunk_find values k (i ∷ c) =
      test_at values k i >>= λ hit. elim hit [ true ↦ ok (some i) | false ↦ chunk_find values k c ]

  unfoldable pub chunk_find_delete : List (K × V) → K → List ℕ → Run (Option ℕ × List ℕ)
  chunk_find_delete values k [] = ok (none, [])
  chunk_find_delete values k (i ∷ c) = test_at values k i >>= λ hit. elim hit [
    | true ↦ ok (some i, c)
    | false ↦ chunk_find_delete values k c >>= λ r. ok (r.0, i ∷ r.1)
  ]
