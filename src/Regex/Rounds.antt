-- ===== src/Regex/Rounds.antt =====
-- Rounds of the machine, against the matcher by recursion.
use ew_base.Prelude.{
  ℕ, zero, suc, ◌+◌, ◌≡◌, inl, inr, refl, sym, ap, ◌∙◌, false, ◌||◌, Bool-cases, Option, none, some,
  List, [], ◌∷◌, ◌==◌, if◌then◌else◌, arith,
}
use ew_base.Prelude.Run.{Run, ok, fault, no_fuel, ◌>>=◌}
use ew_base.Regex.Items.{Item, either, Node, Subject}
use ew_base.Regex.Machine.{
  RegexState, Machine, fallback, resize_repeats, moves, step, try_fallback, match_loop,
}
use ew_base.Regex.Reference.{advance, or_else, and_then, matched_at}

abbrev pub waiting : ℕ → ℕ → RegexState
waiting p i = record { curp = p; ipos = i; n_pos_repeat = 0 }

abbrev pub at : ℕ → ℕ → List RegexState → Machine
at p i ss = record { state = waiting p i; states = ss; repeats = [] }

-- What the loop does with the result of a step.
abbrev pub goes_on : ℕ → Subject → Run (Option Machine) → Run (Option ℕ)
goes_on f s r = r >>= λ o. elim o [ none ↦ ok none | some m ↦ match_loop f s m ]

-- The loop behind an attempt: a match ends it, and without one the machine falls back.
abbrev pub resume : ℕ → Subject → List RegexState → Run (Option ℕ) → Run (Option ℕ)
resume f s ss r =
    r >>= λ o. elim o [ none ↦ goes_on f s (fallback (at 0 0 ss)) | some e ↦ ok (some e) ]

-- From `p` at `i` the loop takes `n` rounds to find what `r` says, or to find nothing and fall back.
abbrev pub Takes : ℕ → Subject → ℕ → ℕ → Run (Option ℕ) → Type 0
Takes n s p i r =
    (f m : ℕ) (top : RegexState) (ss : List RegexState)
    → top.n_pos_repeat ≡ 0
    → f ≡ n + m
    → match_loop f s (at p i (top ∷ ss)) ≡ resume m s (top ∷ ss) r

abbrev pub Runs : ℕ → Subject → ℕ → ℕ → Type 0
Runs k s p i = (n : ℕ) × Takes n s p i (matched_at k s p i)

pub match_loop-end :
    (f : ℕ) (s : Subject) (i : ℕ) (top : RegexState) (ss : List RegexState)
    → top.n_pos_repeat ≡ 0
    → match_loop (suc f) s (at 0 i (top ∷ ss))
      ≡ resume f s (top ∷ ss) (ok (if i == s.it_end || s.partial then some i else none))
unfolding match_loop try_fallback
match_loop-end f s i top ss e = elim (Bool-cases (i == s.it_end || s.partial)) [
  | inl done ↦ rw done refl
  | inr more ↦ rw more (rw e refl)
]

-- One round, and then what takes `n`.
pub one_more :
    (n : ℕ) (s : Subject) (p i : ℕ) (r : Run (Option ℕ))
    → ((f m : ℕ) (top : RegexState) (ss : List RegexState)
        → top.n_pos_repeat ≡ 0
        → f ≡ n + m
        → match_loop (suc f) s (at p i (top ∷ ss)) ≡ resume m s (top ∷ ss) r)
    → Takes (suc n) s p i r
one_more n s p i r h zero m top ss e l = absurd (omega arith)
one_more n s p i r h (suc f) m top ss e l = h f m top ss e (omega arith)

pub end_round :
    (k : ℕ) (s : Subject) (i f m : ℕ) (top : RegexState) (ss : List RegexState)
    → top.n_pos_repeat ≡ 0
    → f ≡ 0 + m
    → match_loop (suc f) s (at 0 i (top ∷ ss)) ≡ resume m s (top ∷ ss) (matched_at (suc k) s 0 i)
unfolding matched_at
end_round k s i f m top ss e l =
    let same : f ≡ m = omega arith in
    match_loop-end f s i top ss e ∙ ap (λ v. resume v s (top ∷ ss) (matched_at (suc k) s 0 i)) same

pub end-Runs : (k : ℕ) (s : Subject) (i : ℕ) → Runs (suc k) s 0 i
end-Runs k s i = (1, one_more 0 s 0 i (matched_at (suc k) s 0 i) (end_round k s i))

pub match_loop-step :
    (f : ℕ) (s : Subject) (p i : ℕ) (node : Node) (ss : List RegexState)
    → (p == 0) ≡ false
    → s.items p ≡ some node
    → match_loop (suc f) s (at p i ss) ≡ goes_on f s (step s node (at p i ss))
unfolding match_loop
match_loop-step f s p i node ss z c = rw (match_loop, z) (rw c refl)

-- Behind an item that is no alternative, from what it does.
pub behind_move :
    (k : ℕ) (s : Subject) (p i q : ℕ) (run : Run (Option ℕ))
    → ((j : ℕ) → Runs k s q j)
    → (n : ℕ) × ((f m : ℕ) (top : RegexState) (ss : List RegexState)
        → top.n_pos_repeat ≡ 0
        → f ≡ n + m
        → goes_on f s (moves run q (at p i (top ∷ ss)))
          ≡ resume m s (top ∷ ss) (and_then run (λ j. matched_at k s q j)))
unfolding moves
behind_move k s p i q no_fuel later = (0, λ f m top ss e l. refl)
behind_move k s p i q fault later = (0, λ f m top ss e l. refl)
behind_move k s p i q (ok none) later = (
  0,
  λ f m top ss e l.
      ap (λ v. goes_on v s (fallback (at 0 0 (top ∷ ss)))) (let same : f ≡ m = omega arith in same),
)
behind_move k s p i q (ok (some j)) later = later j

pub move-Runs :
    (k : ℕ) (s : Subject) (p i q : ℕ) (item : Item)
    → (p == 0) ≡ false
    → s.items p ≡ some (record { item = item; sibling = q })
    → ((ss : List RegexState)
        → step s (record { item = item; sibling = q }) (at p i ss)
          ≡ moves (advance s item i) q (at p i ss))
    → matched_at (suc k) s p i ≡ and_then (advance s item i) (λ j. matched_at k s q j)
    → ((j : ℕ) → Runs k s q j)
    → Runs (suc k) s p i
move-Runs k s p i q item z c steps reads_as later =
    let (n, rest) = behind_move k s p i q (advance s item i) later in
    (
      suc n,
      one_more n s p i (matched_at (suc k) s p i) (λ f m top ss e l.
          match_loop-step f s p i (record { item = item; sibling = q }) (top ∷ ss) z c
          ∙ ap (λ r. goes_on f s r) (steps (top ∷ ss))
          ∙ rest f m top ss e l
          ∙ ap (λ r. resume m s (top ∷ ss) r) (sym reads_as)),
    )

-- Behind the first child, from what it finds.
pub child_after :
    (n m : ℕ) (s : Subject) (i child2 : ℕ) (top : RegexState) (ss : List RegexState)
    (first second : Run (Option ℕ))
    → (child2 == 0) ≡ false
    → top.n_pos_repeat ≡ 0
    → Takes n s child2 i second
    → resume (n + m) s (waiting child2 i ∷ top ∷ ss) first
      ≡ resume m s (top ∷ ss) (or_else first second)
unfolding fallback resize_repeats
child_after n m s i child2 top ss no_fuel second z e takes = refl
child_after n m s i child2 top ss fault second z e takes = refl
child_after n m s i child2 top ss (ok (some j)) second z e takes = refl
child_after n m s i child2 top ss (ok none) second z e takes = rw z (takes (n + m) m top ss e refl)

pub either_step :
    (s : Subject) (p i q child2 : ℕ) (ss : List RegexState)
    → step s (record { item = either child2; sibling = q }) (at p i ss)
      ≡ ok (some (at q i (waiting child2 i ∷ ss)))
unfolding step
either_step s p i q child2 ss = refl

pub matched_at-either :
    (k : ℕ) (s : Subject) (p i q child2 : ℕ)
    → (p == 0) ≡ false
    → s.items p ≡ some (record { item = either child2; sibling = q })
    → matched_at (suc k) s p i ≡ or_else (matched_at k s q i) (matched_at k s child2 i)
unfolding matched_at
matched_at-either k s p i q child2 z c = rw (matched_at, z) (rw c refl)

pub either-Runs :
    (k : ℕ) (s : Subject) (p i q child2 : ℕ)
    → (p == 0) ≡ false
    → (child2 == 0) ≡ false
    → s.items p ≡ some (record { item = either child2; sibling = q })
    → Runs k s q i
    → Runs k s child2 i
    → Runs (suc k) s p i
either-Runs k s p i q child2 z z' c (n1, first) (n2, second) = (
  suc (n1 + n2),
  one_more (n1 + n2) s p i (matched_at (suc k) s p i) (λ f m top ss e l.
      match_loop-step f s p i (record { item = either child2; sibling = q }) (top ∷ ss) z c
      ∙ ap (λ r. goes_on f s r) (either_step s p i q child2 (top ∷ ss))
      ∙ first f (n2 + m) (waiting child2 i) (top ∷ ss) refl (omega arith)
      ∙ child_after n2 m s i child2 top ss (matched_at k s q i) (matched_at k s child2 i) z' e
          second
      ∙ ap (λ r. resume m s (top ∷ ss) r) (sym (matched_at-either k s p i q child2 z c))),
)
