-- ===== src/Regex/Matches.antt =====
-- What a match of a pattern without repetitions is.
use ew_base.Prelude.{
  ℕ, ◌≡◌, ◌⊎◌, inl, inr, refl, sym, ap, ◌∙◌, true, false, ◌||◌, Bool-cases, Option, none, some,
  ◌==◌, if◌then◌else◌,
}
use mathlib.Core.Path.{subst}
use ew_base.Prelude.Run.{Run, ok, fault, no_fuel}
use ew_base.Regex.Items.{Node, Subject}
use ew_base.Regex.Reference.{advance, second_child, or_else, and_then}
use ew_base.Regex.Ends.{Ends}

-- From the item at `p` and the position `i` a way through the items ends at `e`.
pub data IsMatch (s : Subject) : ℕ → ℕ → ℕ → Type 0 where
  ends :
      (p i e : ℕ) → (p == 0) ≡ true → (i == s.it_end || s.partial) ≡ true → e ≡ i → IsMatch s p i e
  moves_on :
      (p i j e : ℕ) (node : Node)
      → (p == 0) ≡ false
      → s.items p ≡ some node
      → second_child node.item ≡ none
      → advance s node.item i ≡ ok (some j)
      → IsMatch s node.sibling j e
      → IsMatch s p i e
  goes_first :
      (p i e child2 : ℕ) (node : Node)
      → (p == 0) ≡ false
      → s.items p ≡ some node
      → second_child node.item ≡ some child2
      → IsMatch s node.sibling i e
      → IsMatch s p i e
  goes_second :
      (p i e child2 : ℕ) (node : Node)
      → (p == 0) ≡ false
      → s.items p ≡ some node
      → second_child node.item ≡ some child2
      → IsMatch s child2 i e
      → IsMatch s p i e

-- A result that is right: where a match ends, or none if there is no match; a fault may be anything.
unfoldable pub Decides : Subject → ℕ → ℕ → Run (Option ℕ) → Type 0
Decides s p i no_fuel = ⊥
Decides s p i fault = Unit
Decides s p i (ok none) = (e : ℕ) → ¬ IsMatch s p i e
Decides s p i (ok (some e)) = IsMatch s p i e

no_end :
    (s : Subject) (p i e : ℕ)
    → (p == 0) ≡ true
    → (i == s.it_end || s.partial) ≡ false
    → ¬ IsMatch s p i e
no_end s p i e null more (ends p' i' e' z fin same) = cc
no_end s p i e null more (moves_on p' i' j e' node z c sc adv m) = cc
no_end s p i e null more (goes_first p' i' e' child2 node z c sc m) = cc
no_end s p i e null more (goes_second p' i' e' child2 node z c sc m) = cc

pub end-Decides :
    (s : Subject) (p i : ℕ)
    → (p == 0) ≡ true
    → Decides s p i (ok (if i == s.it_end || s.partial then some i else none))
unfolding Decides
end-Decides s p i null = elim (Bool-cases (i == s.it_end || s.partial)) [
  | inl fin ↦ rw fin (ends p i i null fin refl)
  | inr more ↦ rw more (λ e. no_end s p i e null more)
]

module _ (s : Subject) (p i : ℕ) (node : Node) (z : (p == 0) ≡ false)
    (c : s.items p ≡ some node) where
  same_node : (node' : Node) → s.items p ≡ some node' → node' ≡ node
  same_node node' c' = ap (λ o. elim o [ none ↦ node | some n ↦ n ]) (sym c' ∙ c)

  second_at :
      (node' : Node) (o : Option ℕ)
      → s.items p ≡ some node'
      → second_child node'.item ≡ o
      → second_child node.item ≡ o
  second_at node' o c' sc' = ap (λ n. second_child n.item) (sym (same_node node' c')) ∙ sc'

  advance_at :
      (node' : Node) (j : ℕ)
      → s.items p ≡ some node'
      → advance s node'.item i ≡ ok (some j)
      → advance s node.item i ≡ ok (some j)
  advance_at node' j c' adv' = ap (λ n. advance s n.item i) (sym (same_node node' c')) ∙ adv'

  sibling_at :
      (node' : Node) (j e : ℕ)
      → s.items p ≡ some node'
      → IsMatch s node'.sibling j e
      → IsMatch s node.sibling j e
  sibling_at node' j e c' m = subst (λ n. IsMatch s n.sibling j e) (same_node node' c') m

  -- Behind an item that is no alternative.
  moved :
      (e : ℕ)
      → second_child node.item ≡ none
      → IsMatch s p i e
      → (j : ℕ) × (advance s node.item i ≡ ok (some j)) × IsMatch s node.sibling j e
  moved e sc (ends p' i' e' z' fin same) = cc
  moved e sc (moves_on p' i' j e' node' z' c' sc' adv' m) =
      (j, advance_at node' j c' adv', sibling_at node' j e c' m)
  moved e sc (goes_first p' i' e' child2 node' z' c' sc' m) =
      let found = second_at node' (some child2) c' sc' in cc
  moved e sc (goes_second p' i' e' child2 node' z' c' sc' m) =
      let found = second_at node' (some child2) c' sc' in cc

  -- Behind an alternative.
  chosen :
      (e child2 : ℕ)
      → second_child node.item ≡ some child2
      → IsMatch s p i e
      → IsMatch s node.sibling i e ⊎ IsMatch s child2 i e
  chosen e child2 sc (ends p' i' e' z' fin same) = cc
  chosen e child2 sc (moves_on p' i' j e' node' z' c' sc' adv' m) =
      let found = second_at node' none c' sc' in cc
  chosen e child2 sc (goes_first p' i' e' child node' z' c' sc' m) = inl (sibling_at node' i e c' m)
  chosen e child2 sc (goes_second p' i' e' child node' z' c' sc' m) =
      let found = second_at node' (some child) c' sc' in
      let same : child ≡ child2 = cc in inr (subst (λ q. IsMatch s q i e) same m)

  behind-Decides :
      (j : ℕ) (r : Run (Option ℕ))
      → second_child node.item ≡ none
      → advance s node.item i ≡ ok (some j)
      → Decides s node.sibling j r
      → Decides s p i r
  unfolding Decides
  behind-Decides j no_fuel sc adv d = d
  behind-Decides j fault sc adv d = tt
  behind-Decides j (ok (some e)) sc adv d = moves_on p i j e node z c sc adv d
  behind-Decides j (ok none) sc adv d = λ e m.
      let (j', adv', m') = moved e sc m in
      let same : j' ≡ j = cc in d e (subst (λ q. IsMatch s node.sibling q e) same m')

  pub move-Decides :
      (run : Run (Option ℕ)) (later : ℕ → Run (Option ℕ))
      → second_child node.item ≡ none
      → advance s node.item i ≡ run
      → Ends run
      → ((j : ℕ) → Decides s node.sibling j (later j))
      → Decides s p i (and_then run later)
  unfolding Decides
  move-Decides no_fuel later sc adv h d = h
  move-Decides fault later sc adv h d = tt
  move-Decides (ok none) later sc adv h d = λ e m. let (j, adv', m') = moved e sc m in cc
  move-Decides (ok (some j)) later sc adv h d = behind-Decides j (later j) sc adv (d j)

  pub either-Decides :
      (child2 : ℕ) (first second : Run (Option ℕ))
      → second_child node.item ≡ some child2
      → Decides s node.sibling i first
      → Decides s child2 i second
      → Decides s p i (or_else first second)
  unfolding Decides
  either-Decides child2 no_fuel second sc d d' = d
  either-Decides child2 fault second sc d d' = tt
  either-Decides child2 (ok (some e)) second sc d d' = goes_first p i e child2 node z c sc d
  either-Decides child2 (ok none) no_fuel sc d d' = d'
  either-Decides child2 (ok none) fault sc d d' = tt
  either-Decides child2 (ok none) (ok (some e)) sc d d' = goes_second p i e child2 node z c sc d'
  either-Decides child2 (ok none) (ok none) sc d d' =
      λ e m. elim (chosen e child2 sc m) [ inl m ↦ d e m | inr m ↦ d' e m ]
