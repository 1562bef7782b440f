-- ===== src/Tests/IndexerTests.antt =====
-- A hash table from numbers to numbers, with the number itself as the hash and the load factor in
-- tenths.
use ew_base.Prelude.{
  ℕ, ltb, length, ◌+◌, ◌-◌, ◌*◌, ◌/◌, [], ◌∷◌, ◌≡◌, refl, some, arith, true, Option, set, replicate,
}
use ew_base.Prelude.Key.{nat_key}
use ew_base.Prelude.Run.{Run, ok, fault, ◌>>=◌}
use ew_base.Collection.Capacity.{n2p, RoundsUp, n2p-RoundsUp}
use ew_base.Collection.Chunk.{test_at, chunk_find, chunk_find_delete, chunk_insert, chunk_replace}
use ew_base.Collection.Indexer.{
  Traits, Indexer, new, insert, insert_real, find1, erase, replace, reserve, check_loadfactor,
  clear, rehash, set_max_load_factor, pop_back,
}
use ew_base.Collection.Indexer.Places.{IsValid}
use ew_base.Collection.Indexer.Rehash.{Rehashes, rehash-Rehashes}
use ew_base.Collection.Indexer.Lookup.{index_of, find1-index_of}
use ew_base.Collection.Indexer.Insert.{Inserts-IsValid, Inserts, insert_real-Inserts}
use ew_base.Collection.Indexer.Erase.{Erases, erase-Erases}
use ew_base.Collection.Indexer.Replace.{Loses, replace-Loses}
use ew_base.Collection.Indexer.Upkeep.{Keeps, new-IsValid, upkeep}

abbrev tenths : Traits ℕ ℕ
tenths = record {
  hash = λ k. k;
  hint = λ n lf. n * lf / 10;
  growth = λ n lf. 20 * n / lf;
  ratio = λ n lf. (20 * n + lf) / (2 * lf);
  ceil_ratio = λ n lf. (10 * n + lf - 1) / lf;
  less = ltb;
  least = 1;
  greatest = 200;
}

abbrev empty : Indexer ℕ ℕ ℕ
empty = new 20 7

-- Two keys of one bucket, and a third.
abbrev session : Run (Indexer ℕ ℕ ℕ × Option ℕ)
session =
    insert tenths empty (5, 50)
    >>= (λ r. insert tenths (r.0) (37, 370))
    >>= (λ r. insert tenths (r.0) (6, 60))

-- The last entry takes the place of the first.
erase_first :
    (session >>= (λ r. erase tenths (r.0) 5) >>= (λ r. ok ((r.0).values)))
    ≡ ok ((6, 60) ∷ (37, 370) ∷ [])
unfolding n2p insert erase new chunk_find chunk_find_delete test_at chunk_insert chunk_replace
    pop_back
erase_first = refl

find_moved : (session >>= (λ r. erase tenths (r.0) 5) >>= (λ r. find1 tenths (r.0) 6)) ≡ ok (some 0)
unfolding n2p insert erase find1 new chunk_find chunk_find_delete test_at chunk_insert chunk_replace
    pop_back
find_moved = refl

-- After `replace` a search for the new key reads outside the array.
replace_faults :
    (session >>= (λ r. replace tenths (r.0) 6 70) >>= (λ r. find1 tenths (r.0) 70)) ≡ fault
unfolding n2p insert replace find1 new chunk_find chunk_find_delete test_at chunk_insert
    chunk_replace
replace_faults = refl

-- The tables after the first and the second insertion.
abbrev one : Indexer ℕ ℕ ℕ
one = record {
  values = (5, 50) ∷ [];
  buckets = set (replicate 32 []) 5 (0 ∷ []);
  bucket_count = 32;
  bucket_mask = 31;
  elem_hint = 64;
  max_load_factor = 20;
}

abbrev two : Indexer ℕ ℕ ℕ
two = record one {
  values = (5, 50) ∷ (37, 370) ∷ [];
  buckets = set (replicate 32 []) 5 (1 ∷ 0 ∷ []);
}

first_run : insert_real tenths true empty (5, 50) ≡ ok (one, some 0)
unfolding n2p insert new chunk_find test_at chunk_insert
first_run = refl

second_run : insert_real tenths true one (37, 370) ≡ ok (two, some 1)
unfolding n2p insert new chunk_find test_at chunk_insert
second_run = refl

one-IsValid : IsValid tenths one
unfolding new
one-IsValid = Inserts-IsValid tenths (
    rw first_run at
      (insert_real-Inserts tenths true empty (5, 50) (new-IsValid tenths 20 7) (omega arith)))

two-IsValid : IsValid tenths two
two-IsValid =
    Inserts-IsValid tenths
      (rw second_run at (insert_real-Inserts tenths true one (37, 370) one-IsValid (omega arith)))

n2p_example : (k : ℕ) × (n2p 100 ≡ some k) × RoundsUp 100 k
n2p_example = n2p-RoundsUp 100 (omega arith)

find1_example : find1 tenths two 37 ≡ ok (index_of 37 two.values)
find1_example = find1-index_of tenths two 37 two-IsValid

insert_example : Inserts tenths true two (6, 60) (insert_real tenths true two (6, 60))
insert_example = insert_real-Inserts tenths true two (6, 60) two-IsValid (omega arith)

erase_example : Erases tenths two 5 (erase tenths two 5)
erase_example = erase-Erases tenths two 5 two-IsValid

replace_example : Loses tenths two 1 70 (replace tenths two 37 70)
replace_example = replace-Loses tenths two 1 70 (omega arith) 37 two-IsValid refl refl

upkeep_example :
    Keeps tenths two (ltb 32 50) 50 (reserve tenths two 100)
    × Keeps tenths two (ltb 64 2) 2 (check_loadfactor tenths two)
    × IsValid tenths (clear tenths two)
    × ((clear tenths two).values ≡ [])
    × (length (clear tenths two).buckets ≡ 32)
upkeep_example = upkeep tenths two 100 two-IsValid (omega arith)

-- The load factor is put between the bounds.
bounded_factor :
    ((set_max_load_factor tenths two 300).max_load_factor ≡ 200)
    × ((set_max_load_factor tenths two 0).max_load_factor ≡ 1)
    × ((set_max_load_factor tenths two 30).elem_hint ≡ 96)
unfolding set_max_load_factor
bounded_factor = (refl, refl, refl)

rehash_example : Rehashes tenths two 100 (rehash tenths two 100)
rehash_example = rehash-Rehashes tenths two 100 refl (omega arith)
