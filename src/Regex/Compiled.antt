-- ===== src/Regex/Compiled.antt =====
-- The items that `update` lays out, for a pattern without repetitions.
use ew_base.Prelude.{
  ℕ, zero, suc, ◌+◌, ◌-◌, ◌≤◌, ◌<◌, ◌≡◌, ◌⊎◌, inl, inr, refl, sym, ap, ◌∙◌, Bool, some, List, [],
  ◌∷◌, ◌++◌, suc-ne-zero, length, length-append, get_elem?, arith,
}
use mathlib.Core.Path.{subst}
use ew_base.Regex.Items.{seq_end, Node, Subject}
use ew_base.Regex.Machine.{match_real}
use ew_base.Regex.Reference.{IsPlain}
use ew_base.Regex.Layout.{
  Pattern, single, either_of, seq_of, repeat_of, Patterns, no_child, child, width, widths, first_or,
  update, update_children, items_of,
}
use ew_base.Regex.Matches.{Decides}
use ew_base.Regex.Decides.{match_real-Decides}

mutual
  unfolding update

  length-update : (t : Pattern) (a after : ℕ) → length (update t a after) ≡ width t
  length-update (single item) a after = refl
  length-update (either_of t u) a after =
      let both = length-append (update t (a + 1) after) (update u (a + 1 + width t) after) in
      let first = length-update t (a + 1) after in
      let second = length-update u (a + 1 + width t) after in omega arith
  length-update (seq_of ts) a after =
      let both =
        length-append (update_children ts (a + 1) (a + 1 + widths ts))
          (record { item = seq_end; sibling = after } ∷ []) in
      let inner = length-update_children ts (a + 1) (a + 1 + widths ts) in omega arith
  length-update (repeat_of nmin nmax greedy t) a after =
      let inner = length-update t (a + 2) (a + 1) in omega arith

  length-update_children :
      (ts : Patterns) (a seqend : ℕ) → length (update_children ts a seqend) ≡ widths ts
  length-update_children no_child a seqend = refl
  length-update_children (child t ts) a seqend =
      let both =
        length-append (update t a (first_or ts (a + width t) seqend))
          (update_children ts (a + width t) seqend) in
      let first = length-update t a (first_or ts (a + width t) seqend) in
      let rest = length-update_children ts (a + width t) seqend in omega arith

-- A pattern without repetitions, where a single item is plain wherever it stands.
unfoldable mutual
  pub HasNoRepeat : Pattern → Type 0
  HasNoRepeat (single item) = (p : ℕ) → IsPlain p item
  HasNoRepeat (either_of t u) = HasNoRepeat t × HasNoRepeat u
  HasNoRepeat (seq_of ts) = HaveNoRepeat ts
  HasNoRepeat (repeat_of nmin nmax greedy t) = ⊥

  pub HaveNoRepeat : Patterns → Type 0
  HaveNoRepeat no_child = Unit
  HaveNoRepeat (child t ts) = HasNoRepeat t × HaveNoRepeat ts

abbrev IsStep : ℕ → Node → Type 0
IsStep p node = ((node.sibling ≡ 0) ⊎ (p < node.sibling)) × IsPlain p node.item

-- Every item of a list that is numbered from `a` on is followed by later ones.
unfoldable ForwardFrom : ℕ → List Node → Type 0
ForwardFrom a [] = Unit
ForwardFrom a (node ∷ nodes) = IsStep a node × ForwardFrom (suc a) nodes

ForwardFrom-append :
    (a b : ℕ) (xs ys : List Node)
    → ForwardFrom a xs
    → b ≡ a + length xs
    → ForwardFrom b ys
    → ForwardFrom a (xs ++ ys)
unfolding ForwardFrom
ForwardFrom-append a b [] ys h e k =
    let same : b ≡ a = omega arith in subst (λ x. ForwardFrom x ys) same k
ForwardFrom-append a b (x ∷ xs) ys (s, h) e k =
    (s, ForwardFrom-append (suc a) b xs ys h (omega arith) k)

ForwardFrom-get :
    (a i : ℕ) (xs : List Node) (node : Node)
    → ForwardFrom a xs
    → get_elem? xs i ≡ some node
    → (i < length xs) × IsStep (a + i) node
unfolding ForwardFrom
ForwardFrom-get a i [] node h e = cc
ForwardFrom-get a zero (x ∷ xs) node (s, h) e =
    let here : x ≡ node = cc in
    let place : a ≡ a + 0 = omega arith in
    (omega arith, subst (λ n. IsStep (a + 0) n) here (subst (λ p. IsStep p x) place s))
ForwardFrom-get a (suc i) (x ∷ xs) node (s, h) e =
    let (below, step) = ForwardFrom-get (suc a) i xs node h e in
    let place : suc a + i ≡ a + suc i = omega arith in
    (omega arith, subst (λ p. IsStep p node) place step)

-- What stands behind the items below `b`.
abbrev IsLater : ℕ → ℕ → Type 0
IsLater b after = (after ≡ 0) ⊎ (b ≤ after)

first_or-IsLater :
    (ts : Patterns) (a b seqend : ℕ) → b ≤ a → b ≤ seqend → IsLater b (first_or ts a seqend)
unfolding first_or
first_or-IsLater no_child a b seqend le le' = inr le'
first_or-IsLater (child t ts) a b seqend le le' = inr le

first_or_later : (ts : Patterns) (a : ℕ) → (first_or ts (a + 1) 0 ≡ 0) ⊎ (a < first_or ts (a + 1) 0)
unfolding first_or
first_or_later no_child a = inl refl
first_or_later (child t ts) a = inr (omega arith)

mutual
  unfolding update HasNoRepeat ForwardFrom IsPlain

  update-ForwardFrom :
      (t : Pattern) (a after : ℕ)
      → HasNoRepeat t
      → IsLater (a + width t) after
      → ForwardFrom a (update t a after)
  update-ForwardFrom (single item) a after plain later =
      ((elim later [ inl e ↦ inl e | inr le ↦ inr (omega arith) ], plain a), tt)
  update-ForwardFrom (either_of t u) a after (plain, plain') later =
      let size = length-update t (a + 1) after in
      (
        (inr (omega arith), omega arith),
        ForwardFrom-append (suc a) (a + 1 + width t) (update t (a + 1) after)
            (update u (a + 1 + width t) after)
            (subst (λ x. ForwardFrom x (update t (a + 1) after)) (omega arith)
              (update-ForwardFrom t (a + 1) after plain
                (elim later [ inl e ↦ inl e | inr le ↦ inr (omega arith) ])))
            (omega arith)
            (update-ForwardFrom u (a + 1 + width t) after plain'
              (elim later [ inl e ↦ inl e | inr le ↦ inr (omega arith) ])),
      )
  update-ForwardFrom (seq_of ts) a after plain later =
      let seqend = a + 1 + widths ts in
      let size = length-update_children ts (a + 1) seqend in
      (
        (first_or_later ts a, tt),
        ForwardFrom-append (suc a) seqend (update_children ts (a + 1) seqend)
            (record { item = seq_end; sibling = after } ∷ [])
            (subst (λ x. ForwardFrom x (update_children ts (a + 1) seqend)) (omega arith)
              (update_children-ForwardFrom ts (a + 1) seqend plain (omega arith)))
            (omega arith) ((elim later [ inl e ↦ inl e | inr le ↦ inr (omega arith) ], tt), tt),
      )
  update-ForwardFrom (repeat_of nmin nmax greedy t) a after plain later = absurd plain

  update_children-ForwardFrom :
      (ts : Patterns) (a seqend : ℕ)
      → HaveNoRepeat ts
      → a + widths ts ≤ seqend
      → ForwardFrom a (update_children ts a seqend)
  update_children-ForwardFrom no_child a seqend plain le = tt
  update_children-ForwardFrom (child t ts) a seqend (plain, plains) le =
      let next = first_or ts (a + width t) seqend in
      let size = length-update t a next in
      ForwardFrom-append a (a + width t) (update t a next) (update_children ts (a + width t) seqend)
        (update-ForwardFrom t a next plain
          (first_or-IsLater ts (a + width t) (a + width t) seqend (omega arith) (omega arith)))
        (omega arith) (update_children-ForwardFrom ts (a + width t) seqend plains (omega arith))

-- The subject of a pattern and a text.
abbrev pub of_pattern : Pattern → List ℕ → ℕ → ℕ → Bool → Subject
of_pattern t text it_beg it_end partial = record {
  items = items_of t;
  text = text;
  it_beg = it_beg;
  it_end = it_end;
  partial = partial;
}

items_of_at : (t : Pattern) (p : ℕ) → items_of t (suc p) ≡ get_elem? (update t 1 0) p
unfolding items_of
items_of_at t p =
    let place : suc p - 1 ≡ p = omega arith in
    rw (suc-ne-zero p) (ap (λ i. get_elem? (update t 1 0) i) place)

items_of-IsStep :
    (t : Pattern) (p : ℕ) (node : Node)
    → HasNoRepeat t
    → items_of t p ≡ some node
    → (p < suc (length (update t 1 0))) × IsStep p node
unfolding items_of
items_of-IsStep t zero node plain e = cc
items_of-IsStep t (suc p) node plain e =
    let (below, step) =
      ForwardFrom-get 1 p (update t 1 0) node (update-ForwardFrom t 1 0 plain (inl refl))
        (sym (items_of_at t p) ∙ e) in
    (omega arith, subst (λ q. IsStep q node) (omega arith) step)

-- On the items that update lays out for a pattern without repetitions and names, in any memory,
-- match_real decides with enough fuel whether there is a match from a position on: unless it
-- reads outside the memory, it returns a position at which a way through the items ends, or none
-- if no way through them ends anywhere.
pub match_real-update :
    (t : Pattern) (text : List ℕ) (it_beg it_end : ℕ) (partial : Bool) (it : ℕ)
    → HasNoRepeat t
    → (n : ℕ) × ((m : ℕ)
        → Decides
            (of_pattern t text it_beg it_end partial)
            1
            it
            (match_real (n + m) (of_pattern t text it_beg it_end partial) it 1))
match_real-update t text it_beg it_end partial it plain =
    match_real-Decides (of_pattern t text it_beg it_end partial) (suc (length (update t 1 0))) it 1
      (λ p node e. let (below, step) = items_of-IsStep t p node plain e in (below, step.0, step.1))
