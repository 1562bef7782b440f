-- ===== src/Regex/Layout.antt =====
-- src/ewa_base/util/regex_parser.h and regex_parser.cpp: `update`, which sets the sibling of every item. The
-- items are numbered in the order of the walk, an item before what is inside it.
use ew_base.Prelude.{
  ℕ, ◌+◌, ◌-◌, Bool, Option, none, List, [], ◌∷◌, ◌++◌, ◌==◌, if◌then◌else◌, get_elem?,
}
use ew_base.Regex.Items.{Item, repeat, repeat_next, either, seq, seq_end, Node}

-- The items of a pattern as the parser leaves them.
mutual
  pub data Pattern : Type 0 where
    single : Item → Pattern
    either_of : Pattern → Pattern → Pattern
    seq_of : Patterns → Pattern
    repeat_of : ℕ → Option ℕ → Bool → Pattern → Pattern

  pub data Patterns : Type 0 where
    no_child : Patterns
    child : Pattern → Patterns → Patterns

-- How many items there are.
unfoldable mutual
  pub width : Pattern → ℕ
  width (single item) = 1
  width (either_of t u) = 1 + (width t + width u)
  width (seq_of ts) = 2 + widths ts
  width (repeat_of nmin nmax greedy t) = 2 + width t

  pub widths : Patterns → ℕ
  widths no_child = 0
  widths (child t ts) = width t + widths ts

-- `next?next:q.sibling` for the item in front of `ts`, and `child.get()`.
unfoldable pub first_or : Patterns → ℕ → ℕ → ℕ
first_or no_child a sibling = sibling
first_or (child t ts) a sibling = a

-- The items of a pattern from the number `a` on, where `after` is `next?next:q.sibling`, and those of the children of
-- a `regex_item_seq`, where `seqend` is its end.
unfoldable mutual
  unfolding width first_or

  pub update : Pattern → ℕ → ℕ → List Node
  update (single item) a after = record { item = item; sibling = after } ∷ []
  update (either_of t u) a after =
      record { item = either (a + 1 + width t); sibling = a + 1 }
      ∷ (update t (a + 1) after ++ update u (a + 1 + width t) after)
  update (seq_of ts) a after =
      record { item = seq; sibling = first_or ts (a + 1) 0 }
      ∷ (update_children ts (a + 1) (a + 1 + widths ts)
          ++ record { item = seq_end; sibling = after } ∷ [])
  update (repeat_of nmin nmax greedy t) a after =
      record { item = repeat; sibling = a + 1 }
      ∷ record { item = repeat_next nmin nmax after greedy; sibling = a + 2 }
      ∷ update t (a + 2) (a + 1)

  pub update_children : Patterns → ℕ → ℕ → List Node
  update_children no_child a seqend = []
  update_children (child t ts) a seqend =
      update t a (first_or ts (a + width t) seqend) ++ update_children ts (a + width t) seqend

-- The items of a whole pattern: `q->update(rstate)`.
unfoldable pub items_of : Pattern → ℕ → Option Node
unfolding update
items_of t p = if p == 0 then none else get_elem? (update t 1 0) (p - 1)
