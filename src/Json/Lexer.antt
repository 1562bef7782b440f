-- ===== src/Json/Lexer.antt =====
-- src/ewa_base/util/json.cpp: blanks, comments, words and strings. `pchar` is the suffix of the memory
-- from there on, in which the text ends with a zero byte; a read past the memory is a fault. A
-- function that returns false gives `none`.
use ew_base.Prelude.{
  ℕ, zero, suc, Bool, true, false, ◌||◌, Option, none, some, [], ◌∷◌, ◌==◌, if◌then◌else◌, length,
  get_elem?, drop,
}
use ew_base.Prelude.Run.{Run, ok, fault, no_fuel, ◌>>=◌, reads}
use ew_base.Codecvt.{Bytes}
use ew_base.Strlib.{within}

-- A call that may return false.
abbrev pub Parsed : Type 0 → Type 0
Parsed A = Run (Option A)

infixl 5 ◌>>?◌
unfoldable pub ◌>>?◌ : {A B : Type 0} → Parsed A → (A → Parsed B) → Parsed B
no_fuel >>? next = no_fuel
fault >>? next = fault
ok none >>? next = ok none
ok (some a) >>? next = next a

-- The loop of `skip_comment_1`: to the end of the line, or of the text.
unfoldable pub skip_comment_1 : Bytes → Run Bytes
skip_comment_1 [] = fault
skip_comment_1 (c ∷ p) =
    let rest = skip_comment_1 p in if c == 0 then ok (c ∷ p) else if c == b'\n' then ok p else rest

-- The loop of `skip_comment_2`: to the end of the comment, or of the text.
unfoldable pub skip_comment_2 : Bytes → Run Bytes
skip_comment_2 [] = fault
skip_comment_2 (c ∷ p) =
    let rest = skip_comment_2 p in
    if c == 0
    then ok (c ∷ p)
    else if c == b'*'
    then (reads (get_elem? p 0) >>= λ d. if d == b'/' then ok (drop 1 p) else rest)
    else rest

unfoldable pub is_blank : ℕ → Bool
is_blank c = c == b' ' || c == b'\r' || c == b'\n' || c == b'\t'

-- The inner loop of `skip_blank`.
unfoldable pub skip_spaces : Bytes → Run Bytes
skip_spaces [] = fault
skip_spaces (c ∷ p) = let rest = skip_spaces p in if is_blank c then rest else ok (c ∷ p)

-- What a round of `skip_blank` does behind the blanks: the comment that is skipped, or `none` at the end.
unfoldable pub skip_comment : Bytes → Parsed Bytes
unfolding skip_comment_1 skip_comment_2
skip_comment [] = fault
skip_comment (c ∷ p) =
    if c == b'/'
    then (reads (get_elem? p 0) >>= λ d.
        if d == b'/'
        then (skip_comment_1 (drop 1 p) >>= λ q. ok (some q))
        else if d == b'*'
        then (skip_comment_2 (drop 1 p) >>= λ q. ok (some q))
        else ok none)
    else ok none

unfoldable pub skip_blank_loop : ℕ → Bytes → Run Bytes
unfolding skip_spaces skip_comment
skip_blank_loop zero p = no_fuel
skip_blank_loop (suc fuel) p = skip_spaces p >>= λ q.
    skip_comment q >>= λ o. elim o [ none ↦ ok q | some r ↦ skip_blank_loop fuel r ]

-- Every round but the last skips a comment.
unfoldable pub skip_blank : Bytes → Run Bytes
unfolding skip_blank_loop
skip_blank p = skip_blank_loop (suc (length p)) p

-- `match`: whether the next character is `ch`, and the place behind it, or behind the blanks.
unfoldable pub match_char : ℕ → Bytes → Run (Bool × Bytes)
unfolding skip_blank
match_char ch p = skip_blank p >>= λ q.
    reads (get_elem? q 0) >>= λ c. if c == ch then ok (true, drop 1 q) else ok (false, q)

unfoldable pub is_word : ℕ → Bool
is_word c =
    within b'0' b'9' c
    || within b'a' b'z' c
    || within b'A' b'Z' c
    || (c == b'_' || c == b'.' || c == b'+' || c == b'-')

-- The loop of `read_chunk`: the word, and what is behind it.
unfoldable pub word_loop : Bytes → Run (Bytes × Bytes)
word_loop [] = fault
word_loop (c ∷ p) =
    let rest = word_loop p in
    if is_word c then (rest >>= λ r. ok (c ∷ r.0, r.1)) else ok ([], c ∷ p)

unfoldable pub read_chunk : Bytes → Run (Bytes × Bytes)
unfolding skip_blank word_loop
read_chunk p = skip_blank p >>= λ q. word_loop q

-- A round of the loop of `read_string` behind `"""`, where `on` is the rest of the loop.
unfoldable pub triple_round : ℕ → Bytes → Parsed (Bytes × Bytes) → Parsed (Bytes × Bytes)
triple_round c p on =
    if c == 0
    then ok none
    else if c == b'"'
    then (reads (get_elem? p 0) >>= λ d.
        if d == b'"'
        then (reads (get_elem? p 1) >>= λ e. if e == b'"' then ok (some ([], drop 2 p)) else on)
        else on)
    else on

-- That loop: up to the next `"""`.
unfoldable pub read_triple : Bytes → Parsed (Bytes × Bytes)
unfolding triple_round
read_triple [] = fault
read_triple (c ∷ p) = triple_round c p (read_triple p >>? λ r. ok (some (c ∷ r.0, r.1)))

-- What the loop of `read_string` finds up to the closing quotation mark: the bytes, whether there is a
-- backslash among them (`flag`), and the place of the mark.
pub record Quoted : Type 0 where
  pub raw : Bytes
  pub flag : Bool
  pub mark : Bytes

-- A backslash moves the pointer on by two bytes, whatever is behind it.
unfoldable pub scan_string : Bytes → Parsed Quoted
scan_string [] = fault
scan_string (c ∷ []) =
    if c == b'"'
    then ok (some (record { raw = []; flag = false; mark = c ∷ [] }))
    else if c == 0
    then ok none
    else fault
scan_string (c ∷ d ∷ p) =
    let next = scan_string (d ∷ p) >>? λ r.
    ok (some (record { raw = c ∷ r.raw; flag = r.flag; mark = r.mark })) in
    let behind_two = scan_string p >>? λ r.
    ok (some (record { raw = c ∷ d ∷ r.raw; flag = true; mark = r.mark })) in
    if c == b'"'
    then ok (some (record { raw = []; flag = false; mark = c ∷ d ∷ p }))
    else if c == 0
    then ok none
    else if c == b'\\'
    then behind_two
    else next
