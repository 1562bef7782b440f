-- ===== src/Json/Blanks.antt =====
-- Blanks in front of a character, and words.
use ew_base.Prelude.{ℕ, ◌≡◌, refl, true, false, none, [], ◌∷◌, ◌++◌, ◌==◌, All, arith}
use ew_base.Prelude.Run.{ok}
use ew_base.Codecvt.{Bytes}
use ew_base.Json.Lexer.{
  is_blank, skip_spaces, skip_comment, skip_blank_loop, skip_blank, match_char, is_word, word_loop,
  read_chunk,
}

abbrev pub IsBlank : ℕ → Type 0
IsBlank c = is_blank c ≡ true

-- A character that ends `skip_blank`.
pub record IsSolid (c : ℕ) : Type 0 where
  pub no_blank : is_blank c ≡ false
  pub no_slash : (c == b'/') ≡ false

skip_spaces_over :
    (bs : Bytes) (c : ℕ) (p : Bytes)
    → All IsBlank bs
    → is_blank c ≡ false
    → skip_spaces (bs ++ c ∷ p) ≡ ok (c ∷ p)
unfolding skip_spaces
skip_spaces_over [] c p h solid = rw solid refl
skip_spaces_over (b ∷ bs) c p (h, hs) solid = rw h (skip_spaces_over bs c p hs solid)

skip_comment-none : (c : ℕ) (p : Bytes) → (c == b'/') ≡ false → skip_comment (c ∷ p) ≡ ok none
unfolding skip_comment
skip_comment-none c p h = rw h refl

pub skip_blank_over :
    (bs : Bytes) (c : ℕ) (p : Bytes)
    → All IsBlank bs
    → IsSolid c
    → skip_blank (bs ++ c ∷ p) ≡ ok (c ∷ p)
unfolding skip_blank skip_blank_loop
skip_blank_over bs c p h s =
    rw (skip_spaces_over bs c p h s.no_blank, skip_comment-none c p s.no_slash) refl

pub match_hit :
    (ch : ℕ) (bs p : Bytes)
    → All IsBlank bs
    → IsSolid ch
    → match_char ch (bs ++ ch ∷ p) ≡ ok (true, p)
unfolding match_char
match_hit ch bs p h s =
    let same_char : (ch == ch) ≡ true = ground arith in
    rw (skip_blank_over bs ch p h s, same_char) refl

pub match_miss :
    (ch : ℕ) (bs : Bytes) (c : ℕ) (p : Bytes)
    → All IsBlank bs
    → IsSolid c
    → (c == ch) ≡ false
    → match_char ch (bs ++ c ∷ p) ≡ ok (false, c ∷ p)
unfolding match_char
match_miss ch bs c p h s other = rw (skip_blank_over bs c p h s, other) refl

abbrev pub IsWord : ℕ → Type 0
IsWord c = is_word c ≡ true

word_loop_over :
    (w : Bytes) (d : ℕ) (r : Bytes)
    → All IsWord w
    → is_word d ≡ false
    → word_loop (w ++ d ∷ r) ≡ ok (w, d ∷ r)
unfolding word_loop
word_loop_over [] d r h stop = rw stop refl
word_loop_over (c ∷ w) d r (h, hs) stop = rw (h, word_loop_over w d r hs stop) refl

pub word-IsSolid : (c : ℕ) → IsWord c → IsSolid c
unfolding is_word is_blank
word-IsSolid c h = record { no_blank = ground arith; no_slash = ground arith }

pub read_chunk_over :
    (c : ℕ) (w : Bytes) (d : ℕ) (r : Bytes)
    → All IsWord (c ∷ w)
    → is_word d ≡ false
    → read_chunk ((c ∷ w) ++ d ∷ r) ≡ ok (c ∷ w, d ∷ r)
unfolding read_chunk
read_chunk_over c w d r (h, hs) stop =
    rw (skip_blank_over [] c (w ++ d ∷ r) tt (word-IsSolid c h))
      (word_loop_over (c ∷ w) d r (h, hs) stop)
