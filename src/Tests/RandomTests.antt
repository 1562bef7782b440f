-- ===== src/Tests/RandomTests.antt =====
-- The theorems on the random numbers, at a state of equal words.
use ew_base.Prelude.{◌<◌, ◌≤◌, ◌*◌, ◌^◌, ◌%◌, ◌≡◌, refl, replicate, arith}
use ew_base.Prelude.Run.{ok}
use ew_base.Random.{limit, RandgenData, random_int}
use ew_base.Random.Valid.{IsGen, Drawn, random_int-Drawn}

abbrev equal_words : RandgenData
equal_words = record { data_words = replicate 32 7; nidx = 5 }

equal_words-IsGen : IsGen equal_words
equal_words-IsGen = record { words = refl; position = omega arith }

random_int_example :
    Drawn 10 3 equal_words (random_int 3 10 equal_words)
    × (limit 10 % 10 ≡ 0)
    × (limit 10 < 2 ^ 32)
    × (2 ^ 32 ≤ 2 * limit 10)
random_int_example = random_int-Drawn 3 10 equal_words (omega arith) (omega arith) equal_words-IsGen

drawn_word : random_int 3 5 equal_words ≡ ok (2, record { data_words = replicate 32 7; nidx = 6 })
unfolding random_int
drawn_word = refl
