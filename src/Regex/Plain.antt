-- ===== src/Regex/Plain.antt =====
-- The machine and the matcher by recursion agree on patterns without repetitions.
use ew_base.Prelude.{
  ℕ, zero, suc, ◌+◌, ◌<◌, ◌≡◌, ◌⊎◌, inl, inr, refl, sym, ◌∙◌, false, Bool-cases, Option, none, some,
  Option-cases, [], ◌∷◌, ◌==◌, ==_iff, arith,
}
use mathlib.Core.Path.{subst}
use ew_base.Prelude.Run.{Run, ok, fault, no_fuel}
use ew_base.Regex.Items.{
  Item, item_none, char_str, char_str_ignorecase, char_map, char_map_unicode, char_any, repeat,
  repeat_next, either, expr_enter, expr_leave, line_enter, line_leave, seq, seq_end, identifier,
  Subject,
}
use ew_base.Regex.Machine.{fallback, step, match_loop, match_real}
use ew_base.Regex.Reference.{
  advance, second_child, or_else, and_then, matched_at, IsPlain, IsForward,
}
use ew_base.Regex.Rounds.{waiting, resume, Runs, one_more, end-Runs, move-Runs, either-Runs}

pub matched_at_node :
    (k : ℕ) (s : Subject) (p i q : ℕ) (item : Item)
    → (p == 0) ≡ false
    → s.items p ≡ some (record { item = item; sibling = q })
    → matched_at (suc k) s p i ≡ elim (second_child item) [
      | some child2 ↦ or_else (matched_at k s q i) (matched_at k s child2 i)
      | none ↦ and_then (advance s item i) (λ j. matched_at k s q j)
    ]
unfolding matched_at
matched_at_node k s p i q item z c = rw (matched_at, z) (rw c refl)

-- An item of a plain pattern, from the items behind it.
plain-Runs :
    (k : ℕ) (s : Subject) (p i q : ℕ) (item : Item)
    → (p == 0) ≡ false
    → s.items p ≡ some (record { item = item; sibling = q })
    → IsPlain p item
    → ((j : ℕ) → Runs k s q j)
    → ((child2 : ℕ) → p < child2 → Runs k s child2 i)
    → Runs (suc k) s p i
unfolding IsPlain step advance
plain-Runs k s p i q (either child2) z c above later other =
    let z' : (child2 == 0) ≡ false = ground arith in
    either-Runs k s p i q child2 z z' c (later i) (other child2 above)
plain-Runs k s p i q (char_str v) z c plain later other =
    move-Runs k s p i q (char_str v) z c (λ ss. refl) (matched_at_node k s p i q (char_str v) z c)
      later
plain-Runs k s p i q (char_str_ignorecase v) z c plain later other =
    move-Runs k s p i q (char_str_ignorecase v) z c (λ ss. refl)
      (matched_at_node k s p i q (char_str_ignorecase v) z c) later
plain-Runs k s p i q (char_map b) z c plain later other =
    move-Runs k s p i q (char_map b) z c (λ ss. refl) (matched_at_node k s p i q (char_map b) z c)
      later
plain-Runs k s p i q (char_map_unicode b) z c plain later other =
    move-Runs k s p i q (char_map_unicode b) z c (λ ss. refl)
      (matched_at_node k s p i q (char_map_unicode b) z c) later
plain-Runs k s p i q char_any z c plain later other =
    move-Runs k s p i q char_any z c (λ ss. refl) (matched_at_node k s p i q char_any z c) later
plain-Runs k s p i q expr_enter z c plain later other =
    move-Runs k s p i q expr_enter z c (λ ss. refl) (matched_at_node k s p i q expr_enter z c) later
plain-Runs k s p i q expr_leave z c plain later other =
    move-Runs k s p i q expr_leave z c (λ ss. refl) (matched_at_node k s p i q expr_leave z c) later
plain-Runs k s p i q line_enter z c plain later other =
    move-Runs k s p i q line_enter z c (λ ss. refl) (matched_at_node k s p i q line_enter z c) later
plain-Runs k s p i q line_leave z c plain later other =
    move-Runs k s p i q line_leave z c (λ ss. refl) (matched_at_node k s p i q line_leave z c) later
plain-Runs k s p i q seq z c plain later other =
    move-Runs k s p i q seq z c (λ ss. refl) (matched_at_node k s p i q seq z c) later
plain-Runs k s p i q seq_end z c plain later other =
    move-Runs k s p i q seq_end z c (λ ss. refl) (matched_at_node k s p i q seq_end z c) later
plain-Runs k s p i q item_none z c plain later other = absurd plain
plain-Runs k s p i q repeat z c plain later other = absurd plain
plain-Runs k s p i q (repeat_next nmin nmax real greedy) z c plain later other = absurd plain
plain-Runs k s p i q identifier z c plain later other = absurd plain

-- `k` is enough for the items from `p` on.
abbrev pub Enough : ℕ → ℕ → ℕ → Type 0
Enough size k p = (0 < k) × ((p ≡ 0) ⊎ (size < k + p))

absent-Runs :
    (k : ℕ) (s : Subject) (p i : ℕ) → (p == 0) ≡ false → s.items p ≡ none → Runs (suc k) s p i
unfolding matched_at match_loop
absent-Runs k s p i z c =
    (1, one_more 0 s p i (matched_at (suc k) s p i) (λ f m top ss e l. rw z (rw c refl)))

pub Enough-next :
    (size k p q : ℕ) → p < size → size < suc k + p → (q ≡ 0) ⊎ (p < q) → Enough size k q
Enough-next size k p q below enough (inl none_left) = (omega arith, inl none_left)
Enough-next size k p q below enough (inr above) = (omega arith, inr (omega arith))

every-Runs :
    (size k : ℕ) (s : Subject) (p i : ℕ) → IsForward s size → Enough size k p → Runs k s p i
every-Runs size zero s p i forward (pos, enough) = absurd (omega arith)
every-Runs size (suc k) s p i forward (pos, enough) = elim (Bool-cases (p == 0)) [
  | inl null ↦ subst (λ v. Runs (suc k) s v i) (sym ((==_iff p 0).0 null)) (end-Runs k s i)
  | inr z ↦ elim (Option-cases (s.items p)) [
    | inl c ↦ absent-Runs k s p i z c
    | inr (node, c) ↦
        let (below, next, plain) = forward p node c in
        let room : size < suc k + p = elim enough [
          | inl null ↦ absurd (ground arith)
          | inr h ↦ h
        ] in
        plain-Runs k s p i node.sibling node.item z c plain
          (λ j.
            every-Runs size k s node.sibling j forward
              (Enough-next size k p node.sibling below room next))
          (λ child2 above.
            every-Runs size k s child2 i forward
              (Enough-next size k p child2 below room (inr above)))
  ]
]

nothing_left :
    (n m : ℕ) (s : Subject) (it : ℕ) (r : Run (Option ℕ)) → resume m s (waiting 0 0 ∷ []) r ≡ r
unfolding fallback
nothing_left n m s it no_fuel = refl
nothing_left n m s it fault = refl
nothing_left n m s it (ok none) = refl
nothing_left n m s it (ok (some e)) = refl

-- With enough fuel the machine does what the matcher by recursion does.
pub run_plain :
    (s : Subject) (size it sq : ℕ)
    → IsForward s size
    → (n : ℕ) × ((m : ℕ) → match_real (n + m) s it sq ≡ matched_at (suc (suc size)) s sq it)
unfolding match_real
run_plain s size it sq forward =
    let (n, takes) =
      every-Runs size (suc (suc size)) s sq it forward (omega arith, inr (omega arith)) in
    (
      n,
      λ m.
          takes (n + m) m (waiting 0 0) [] refl refl
          ∙ nothing_left n m s it (matched_at (suc (suc size)) s sq it),
    )
