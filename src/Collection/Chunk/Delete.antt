-- ===== src/Collection/Chunk/Delete.antt =====
-- What the operations on one chunk do to the number of times that each position occurs.
use ew_base.Prelude.{
  ℕ, ◌+◌, ◌<◌, ◌≡◌, refl, inl, inr, true, false, Option, none, some, List, [], ◌∷◌, ◌==◌,
  if◌then◌else◌, arith, Bool-cases,
}
use ew_base.Prelude.Key.{Key}
use ew_base.Prelude.Run.{Run, ok, ◌>>=◌}
use ew_base.Collection.Chunk.{chunk_find_delete, chunk_insert, chunk_replace, chunk_erase}
use ew_base.Collection.Chunk.Find.{
  count, key_is, InRange, InRange-head, InRange-tail, Absent, Absent-cons, test_at-key_is,
}

pub count-chunk_insert :
    (i k : ℕ) (c : List ℕ) → count i (chunk_insert c k) ≡ (if i == k then 1 else 0) + count i c
unfolding chunk_insert
count-chunk_insert i k c = refl

-- The replacement takes one `id1` away and adds one `id2`, if `id1` is there.
pub count-chunk_replace :
    (i id1 id2 : ℕ) (c : List ℕ)
    → 0 < count id1 c
    → count i (chunk_replace c id1 id2) + (if i == id1 then 1 else 0)
      ≡ count i c + (if i == id2 then 1 else 0)
unfolding chunk_replace
count-chunk_replace i id1 id2 [] h = absurd (omega arith)
count-chunk_replace i id1 id2 (n ∷ c) h = ground (arith, count-chunk_replace i id1 id2 c)

-- Erasing removes one occurrence, and reports how many nodes it removed.
pub count-chunk_erase :
    (i id : ℕ) (c : List ℕ)
    → count i c ≡ count i ((chunk_erase c id).1) + (if i == id then (chunk_erase c id).0 else 0)
unfolding chunk_erase
count-chunk_erase i id [] = ground arith
count-chunk_erase i id (n ∷ c) = ground (arith, count-chunk_erase i id c)

module _ {K V : Type 0} ⦃key : Key K⦄ where
  -- What a search that deletes returned: the position that it found, with one occurrence taken
  -- away, or nothing, with the key absent and the chunk unchanged.
  pub data Deletes (values : List (K × V)) (k : K) (c : List ℕ)
      : Run (Option ℕ × List ℕ) → Type 0 where
    found :
        (i : ℕ) (c' : List ℕ)
        → key_is values k i ≡ true
        → ((j : ℕ) → count j c ≡ count j c' + (if j == i then 1 else 0))
        → Deletes values k c (ok (some i, c'))
    missing : Absent values k c → Deletes values k c (ok (none, c))

  Deletes-cons :
      (values : List (K × V)) (k : K) (i : ℕ) (c : List ℕ) {r : Run (Option ℕ × List ℕ)}
      → key_is values k i ≡ false
      → Deletes values k c r
      → Deletes values k (i ∷ c) (r >>= λ r. ok (r.0, i ∷ r.1))
  Deletes-cons values k i c miss (found j c' has takes) =
      found j (i ∷ c') has (λ m. omega (arith, takes m))
  Deletes-cons values k i c miss (missing absent) = missing (Absent-cons values k i c miss absent)

  pub chunk_find_delete-Deletes :
      (values : List (K × V)) (k : K) (c : List ℕ)
      → InRange values c
      → Deletes values k c (chunk_find_delete values k c)
  unfolding chunk_find_delete
  chunk_find_delete-Deletes values k [] r = missing (λ i p. absurd (omega arith))
  chunk_find_delete-Deletes values k (i ∷ c) r =
      let t = test_at-key_is values k i (InRange-head values i c r) in
      elim (Bool-cases (key_is values k i)) [
        | inl hit ↦ rw (t, hit) (found i c hit (λ j. omega arith))
        | inr miss ↦
            rw (t, miss)
              (Deletes-cons values k i c miss
                (chunk_find_delete-Deletes values k c (InRange-tail values i c r)))
      ]
