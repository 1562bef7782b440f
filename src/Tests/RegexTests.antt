-- ===== src/Tests/RegexTests.antt =====
-- The machine of the regular expressions on concrete patterns.
use ew_base.Prelude.{
  ℕ, zero, suc, ◌+◌, ◌≡◌, ◌≢◌, ◌<◌, ◌⊎◌, inl, inr, refl, true, false, Option, none, some, [], ◌∷◌,
  arith,
}
use mathlib.Core.Path.{subst}
use ew_base.Prelude.Run.{ok, no_fuel}
use ew_base.Regex.Items.{char_str, char_map, either, Node, Subject}
use ew_base.Regex.Machine.{match_real, execute}
use ew_base.Regex.Reference.{matched_at, IsPlain, IsForward}
use ew_base.Regex.Matches.{Decides}
use ew_base.Regex.Layout.{Pattern, single, either_of, seq_of, repeat_of, child, no_child, items_of}
use ew_base.Regex.Compiled.{HasNoRepeat, of_pattern, match_real-update}
use ew_base.Regex.Decides.{match_real-matched_at}

-- `(a|ab)c`
abbrev choice : ℕ → Option Node
choice zero = none
choice (suc zero) = some (record { item = either 3; sibling = 2 })
choice (suc (suc zero)) = some (record { item = char_str (b'a' ∷ []); sibling = 4 })
choice (suc (suc (suc zero))) = some (record { item = char_str (b'a' ∷ b'b' ∷ []); sibling = 4 })
choice (suc (suc (suc (suc zero)))) = some (record { item = char_str (b'c' ∷ []); sibling = 0 })
choice (suc (suc (suc (suc (suc n))))) = none

abbrev choice_abc : Subject
choice_abc = record {
  items = choice;
  text = b'a' ∷ b'b' ∷ b'c' ∷ 0 ∷ [];
  it_beg = 0;
  it_end = 3;
  partial = false;
}

abbrev Follows : ℕ → Option Node → Type 0
Follows p none = Unit
Follows p (some node) = (p < 5) × ((node.sibling ≡ 0) ⊎ (p < node.sibling)) × IsPlain p node.item

choice-Follows : (p : ℕ) → Follows p (choice p)
unfolding IsPlain
choice-Follows zero = tt
choice-Follows (suc zero) = (omega arith, inr (omega arith), omega arith)
choice-Follows (suc (suc zero)) = (omega arith, inr (omega arith), tt)
choice-Follows (suc (suc (suc zero))) = (omega arith, inr (omega arith), tt)
choice-Follows (suc (suc (suc (suc zero)))) = (omega arith, inl refl, tt)
choice-Follows (suc (suc (suc (suc (suc n))))) = tt

choice-IsForward : IsForward choice_abc 5
choice-IsForward p node e = subst (λ o. Follows p o) e (choice-Follows p)

match_real-matched_at_example :
    (matched_at 7 choice_abc 1 0 ≢ no_fuel)
    × ((n : ℕ) × ((m : ℕ) → match_real (n + m) choice_abc 0 1 ≡ matched_at 7 choice_abc 1 0))
match_real-matched_at_example = match_real-matched_at choice_abc 5 0 1 choice-IsForward

-- `(a|ab)c`, laid out.
abbrev pattern : Pattern
pattern = seq_of (
    child (either_of (single (char_str (b'a' ∷ []))) (single (char_str (b'a' ∷ b'b' ∷ []))))
      (child (single (char_str (b'c' ∷ []))) no_child))

pattern-HasNoRepeat : HasNoRepeat pattern
unfolding HasNoRepeat IsPlain
pattern-HasNoRepeat = (((λ p. tt), (λ p. tt)), ((λ p. tt), tt))

match_real-update_example :
    (n : ℕ) × ((m : ℕ)
      → Decides
          (of_pattern pattern (b'a' ∷ b'b' ∷ b'c' ∷ 0 ∷ []) 0 3 false)
          1
          0
          (match_real (n + m) (of_pattern pattern (b'a' ∷ b'b' ∷ b'c' ∷ 0 ∷ []) 0 3 false) 0 1))
match_real-update_example =
    match_real-update pattern (b'a' ∷ b'b' ∷ b'c' ∷ 0 ∷ []) 0 3 false 0 pattern-HasNoRepeat

pattern_found :
    match_real 20 (of_pattern pattern (b'a' ∷ b'b' ∷ b'c' ∷ 0 ∷ []) 0 3 false) 0 1 ≡ ok (some 3)
unfolding match_real items_of
pattern_found = refl

-- `(a|ab){2}`, laid out, and the two texts.
abbrev twice : Pattern
twice = seq_of (
    child
      (repeat_of 2 (some 2) true
        (either_of (single (char_str (b'a' ∷ []))) (single (char_str (b'a' ∷ b'b' ∷ [])))))
      no_child)

-- The counter of the rounds is not set back when the machine falls back.
twice_abab :
    execute 60 (of_pattern twice (b'a' ∷ b'b' ∷ b'a' ∷ b'b' ∷ 0 ∷ []) 0 4 false) 1 ≡ ok false
unfolding execute items_of
twice_abab = refl

twice_ab : execute 60 (of_pattern twice (b'a' ∷ b'b' ∷ 0 ∷ []) 0 2 false) 1 ≡ ok true
unfolding execute items_of
twice_ab = refl

-- The first alternative leads nowhere, and the second one to the end.
choice_found : match_real 20 choice_abc 0 1 ≡ ok (some 3)
unfolding match_real
choice_found = refl

abbrev any_byte : ℕ → Option Node
any_byte zero = none
any_byte (suc n) = some (record { item = char_map (1 ∷ []); sibling = 0 })

-- A map with the zero byte is matched behind the end of the text.
behind_the_end :
    match_real 9
      (record { items = any_byte; text = 0 ∷ []; it_beg = 0; it_end = 0; partial = true })
      0
      1
    ≡ ok (some 1)
unfolding match_real
behind_the_end = refl
