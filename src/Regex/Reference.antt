-- ===== src/Regex/Reference.antt =====
-- A matcher by recursion, for patterns without repetitions.
use ew_base.Prelude.{ℕ, zero, suc, ◌<◌, ◌≡◌, ◌⊎◌, ◌||◌, Option, none, some, ◌==◌, if◌then◌else◌}
use ew_base.Prelude.Run.{Run, ok, no_fuel, ◌>>=◌, reads}
use ew_base.Regex.Items.{
  Item, item_none, char_str, char_str_ignorecase, char_map, char_map_unicode, char_any, repeat,
  repeat_next, either, expr_enter, expr_leave, line_enter, line_leave, seq, seq_end, identifier,
  Node, Subject, match_str, same_char, same_letter, match_any, match_map, match_map_unicode,
  match_line_enter, match_line_leave,
}

-- Where an item that stands for a piece of the text, or for a place in it, leaves the position.
unfoldable pub advance : Subject → Item → ℕ → Run (Option ℕ)
unfolding match_str match_any match_map match_map_unicode match_line_enter match_line_leave
advance s (char_str v) i = match_str same_char s v i
advance s (char_str_ignorecase v) i = match_str same_letter s v i
advance s (char_map b) i = match_map b s i
advance s (char_map_unicode b) i = match_map_unicode b s i
advance s char_any i = match_any s i
advance s expr_enter i = ok (if i == s.it_beg then some i else none)
advance s expr_leave i = ok (if i == s.it_end then some i else none)
advance s line_enter i = match_line_enter s i
advance s line_leave i = match_line_leave s i
advance s seq i = ok (some i)
advance s seq_end i = ok (some i)
advance s item_none i = ok none
advance s repeat i = ok none
advance s (repeat_next nmin nmax real greedy) i = ok none
advance s (either child2) i = ok none
advance s identifier i = ok none

abbrev pub second_child : Item → Option ℕ
second_child (either child2) = some child2
second_child _ = none

abbrev pub or_else : Run (Option ℕ) → Run (Option ℕ) → Run (Option ℕ)
or_else first second = first >>= λ o. elim o [ none ↦ second | some e ↦ ok (some e) ]

-- What an item that is no alternative is followed by.
abbrev pub and_then : Run (Option ℕ) → (ℕ → Run (Option ℕ)) → Run (Option ℕ)
and_then run on = run >>= λ o. elim o [ none ↦ ok none | some j ↦ on j ]

-- The item at `p` is matched at `i`: `either` tries what is behind it first at the sibling and, if there is
-- no match, at the second child; every other item moves on and goes to the sibling. A match that is not
-- partial ends with the text.
unfoldable pub matched_at : ℕ → Subject → ℕ → ℕ → Run (Option ℕ)
unfolding advance
matched_at zero s p i = no_fuel
matched_at (suc k) s p i =
    if p == 0
    then ok (if i == s.it_end || s.partial then some i else none)
    else (reads (s.items p) >>= λ node. elim (second_child node.item) [
      | some child2 ↦ or_else (matched_at k s node.sibling i) (matched_at k s child2 i)
      | none ↦ and_then (advance s node.item i) (λ j. matched_at k s node.sibling j)
    ])

-- An item that is neither the end nor the start of a repetition nor the name of another pattern; a second child
-- stands behind it.
unfoldable pub IsPlain : ℕ → Item → Type 0
IsPlain p item_none = ⊥
IsPlain p repeat = ⊥
IsPlain p (repeat_next nmin nmax real greedy) = ⊥
IsPlain p identifier = ⊥
IsPlain p (either child2) = p < child2
IsPlain p (char_str v) = Unit
IsPlain p (char_str_ignorecase v) = Unit
IsPlain p (char_map b) = Unit
IsPlain p (char_map_unicode b) = Unit
IsPlain p char_any = Unit
IsPlain p expr_enter = Unit
IsPlain p expr_leave = Unit
IsPlain p line_enter = Unit
IsPlain p line_leave = Unit
IsPlain p seq = Unit
IsPlain p seq_end = Unit

-- The items stand below `size` in the order in which they are matched.
abbrev pub IsForward : Subject → ℕ → Type 0
IsForward s size =
    (p : ℕ) (node : Node)
    → s.items p ≡ some node
    → (p < size) × ((node.sibling ≡ 0) ⊎ (p < node.sibling)) × IsPlain p node.item
