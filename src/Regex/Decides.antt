-- ===== src/Regex/Decides.antt =====
-- The machine decides whether there is a match.
use ew_base.Prelude.{
  ◌≢◌, ℕ, zero, suc, ◌+◌, ◌<◌, ◌≡◌, inl, inr, refl, sym, true, false, ◌||◌, Bool-cases, Option,
  none, some, Option-cases, ◌==◌, if◌then◌else◌, arith,
}
use mathlib.Core.Path.{subst}
use ew_base.Prelude.Run.{Run, ok, fault, no_fuel}
use ew_base.Regex.Items.{Item, either, Node, Subject}
use ew_base.Regex.Machine.{match_real}
use ew_base.Regex.Reference.{
  advance, second_child, or_else, and_then, matched_at, IsPlain, IsForward,
}
use ew_base.Regex.Plain.{Enough, Enough-next, matched_at_node, run_plain}
use ew_base.Regex.Ends.{advance-Ends}
use ew_base.Regex.Matches.{Decides, end-Decides, move-Decides, either-Decides}

second_child-IsPlain :
    (p child2 : ℕ) (item : Item) → IsPlain p item → second_child item ≡ some child2 → p < child2
unfolding IsPlain
second_child-IsPlain p child2 (either child) plain e = let same : child ≡ child2 = cc in omega arith
second_child-IsPlain p child2 _ plain e = cc

matched_at_null :
    (k : ℕ) (s : Subject) (p i : ℕ)
    → (p == 0) ≡ true
    → matched_at (suc k) s p i ≡ ok (if i == s.it_end || s.partial then some i else none)
unfolding matched_at
matched_at_null k s p i z = rw (matched_at, z) refl

matched_at_absent :
    (k : ℕ) (s : Subject) (p i : ℕ)
    → (p == 0) ≡ false
    → s.items p ≡ none
    → matched_at (suc k) s p i ≡ fault
unfolding matched_at
matched_at_absent k s p i z c = rw (matched_at, z) (rw c refl)

fault-Decides : (s : Subject) (p i : ℕ) → Decides s p i fault
unfolding Decides
fault-Decides s p i = tt

node-Decides :
    (k : ℕ) (s : Subject) (p i : ℕ) (node : Node) (o : Option ℕ)
    → (p == 0) ≡ false
    → s.items p ≡ some node
    → second_child node.item ≡ o
    → IsPlain p node.item
    → ((j : ℕ) → Decides s node.sibling j (matched_at k s node.sibling j))
    → ((child2 : ℕ) → p < child2 → Decides s child2 i (matched_at k s child2 i))
    → Decides s p i (elim o [
      | some child2 ↦ or_else (matched_at k s node.sibling i) (matched_at k s child2 i)
      | none ↦ and_then (advance s node.item i) (λ j. matched_at k s node.sibling j)
    ])
node-Decides k s p i node none z c sc plain later other =
    move-Decides s p i node z c (advance s node.item i) (λ j. matched_at k s node.sibling j) sc refl
      (advance-Ends s node.item i) later
node-Decides k s p i node (some child2) z c sc plain later other =
    either-Decides s p i node z c child2 (matched_at k s node.sibling i) (matched_at k s child2 i)
      sc (later i) (other child2 (second_child-IsPlain p child2 node.item plain sc))

matched_at-Decides :
    (size k : ℕ) (s : Subject) (p i : ℕ)
    → IsForward s size
    → Enough size k p
    → Decides s p i (matched_at k s p i)
matched_at-Decides size zero s p i forward (pos, enough) = absurd (omega arith)
matched_at-Decides size (suc k) s p i forward (pos, enough) = elim (Bool-cases (p == 0)) [
  | inl null ↦
      subst (λ r. Decides s p i r) (sym (matched_at_null k s p i null)) (end-Decides s p i null)
  | inr z ↦ elim (Option-cases (s.items p)) [
    | inl c ↦
        subst (λ r. Decides s p i r) (sym (matched_at_absent k s p i z c)) (fault-Decides s p i)
    | inr (node, c) ↦
        let (below, next, plain) = forward p node c in
        let room : size < suc k + p = elim enough [
          | inl null ↦ absurd (ground arith)
          | inr h ↦ h
        ] in
        let later : (j : ℕ) → Decides s node.sibling j (matched_at k s node.sibling j) = λ j.
          matched_at-Decides size k s node.sibling j forward
            (Enough-next size k p node.sibling below room next) in
        subst (λ r. Decides s p i r) (sym (matched_at_node k s p i node.sibling node.item z c))
          (node-Decides k s p i node (second_child node.item) z c refl plain later (λ child2 above.
            matched_at-Decides size k s child2 i forward
              (Enough-next size k p child2 below room (inr above))))
  ]
]

-- On a pattern without repetitions and names, whose items stand below size and behind each other
-- in the order in which they are matched, match_real decides with enough fuel whether there is a
-- match: unless it reads outside the memory, it returns a position at which a way through the
-- items ends, or none if no way through them ends anywhere.
pub match_real-Decides :
    (s : Subject) (size it sq : ℕ)
    → IsForward s size
    → (n : ℕ) × ((m : ℕ) → Decides s sq it (match_real (n + m) s it sq))
match_real-Decides s size it sq forward =
    let (n, same) = run_plain s size it sq forward in
    (
      n,
      λ m.
          subst (λ r. Decides s sq it r) (sym (same m))
            (matched_at-Decides size (suc (suc size)) s sq it forward
              (omega arith, inr (omega arith))),
    )

Decides-returns : (s : Subject) (p i : ℕ) (r : Run (Option ℕ)) → Decides s p i r → r ≢ no_fuel
unfolding Decides
Decides-returns s p i no_fuel d = absurd d
Decides-returns s p i fault d = λ e. cc
Decides-returns s p i (ok o) d = λ e. cc

-- On a pattern without repetitions and names, whose items stand below size and behind each other in
-- the order in which they are matched, the matcher by recursion never runs out of fuel, and
-- match_real ends with enough fuel and finds what that matcher finds: the first match in the order
-- of the alternatives, no match, or a fault.
pub match_real-matched_at :
    (s : Subject) (size it sq : ℕ)
    → IsForward s size
    → (matched_at (suc (suc size)) s sq it ≢ no_fuel)
      × ((n : ℕ) × ((m : ℕ) → match_real (n + m) s it sq ≡ matched_at (suc (suc size)) s sq it))
match_real-matched_at s size it sq forward = (
  Decides-returns s sq it (matched_at (suc (suc size)) s sq it)
      (matched_at-Decides size (suc (suc size)) s sq it forward (omega arith, inr (omega arith))),
  run_plain s size it sq forward,
)
