-- ===== src/Cmdline/Accepted.antt =====
-- Every command line that the parser accepts is a sequence of items.
use ew_base.Prelude.{
  ◌≡◌, ◌≢◌, refl, sym, ap, ◌⊎◌, inl, inr, true, Bool-cases, Option, none, some, List, [], ◌∷◌, ◌++◌,
  ◌==◌, length, arith, All,
}
use mathlib.Core.Path.{subst}
use ew_base.Cmdline.{
  Text, lookup, cmdline_switch, cmdline_option, cmdline_param, CmdLineParser, Next, stop, again,
  value_of, dash, argument, parse_loop,
}
use ew_base.Cmdline.Items.{
  Item, switch, option, param, render, HasDash, Known, take_item, take_items,
}

-- What `argument` makes of an argument.
data Outcome (p : CmdLineParser) : Text → CmdLineParser × Next → Type 0 where
  stops : {pa : Text} → Outcome p pa (p, stop)
  awaits :
      (s : Text)
      → s ≢ []
      → lookup p.kinds s ≡ some cmdline_option
      → Outcome p (b'-' ∷ s) (p, value_of s)
  takes_switch :
      (s : Text)
      → s ≢ []
      → lookup p.kinds s ≡ some cmdline_switch
      → Outcome p (b'-' ∷ s) (record p { switchs = s ∷ p.switchs }, again)
  takes_param :
      (s : Text) → (HasDash s → ⊥) → Outcome p s (record p { params = p.params ++ s ∷ [] }, again)

Option-split : {A : Type 0} (o : Option A) → (o ≡ none) ⊎ ((a : A) × (o ≡ some a))
Option-split none = inl refl
Option-split (some a) = inr (a, refl)

dash-Outcome : (p : CmdLineParser) (s : Text) → Outcome p (b'-' ∷ s) (dash p s)
unfolding dash
dash-Outcome p [] = stops
dash-Outcome p (c ∷ cs) = elim (Option-split (lookup p.kinds (c ∷ cs))) [
  | inl e ↦ rw (dash, e) stops
  | inr (cmdline_switch, e) ↦
      rw (dash, e) (takes_switch (c ∷ cs) (λ n. absurd (omega (arith, ap length n))) e)
  | inr (cmdline_option, e) ↦
      rw (dash, e) (awaits (c ∷ cs) (λ n. absurd (omega (arith, ap length n))) e)
  | inr (cmdline_param, e) ↦ rw (dash, e) stops
]

argument-Outcome : (p : CmdLineParser) (pa : Text) → Outcome p pa (argument p pa)
unfolding argument
argument-Outcome p [] = takes_param [] (λ h. h)
argument-Outcome p (c ∷ cs) = elim (Bool-cases (c == b'-')) [
  | inl e ↦
      let same : c ≡ b'-' = ground arith in
      rw e (subst (λ x. Outcome p (x ∷ cs) (dash p cs)) (sym same) (dash-Outcome p cs))
  | inr e ↦ rw e (takes_param (c ∷ cs) (λ h. absurd (ground (arith, h))))
]

-- What the loop from `p` on has taken, if it ends with `q`.
abbrev Taken : CmdLineParser → List Text → CmdLineParser → Type 0
Taken p args q =
    (items : List Item) × All (Known p.kinds) items
    × (args ≡ render items)
    × (q ≡ take_items p items)

Taken-nil : (p q : CmdLineParser) → parse_loop again p [] ≡ (q, true) → Taken p [] q
unfolding parse_loop render take_items
Taken-nil p q h = ([], tt, refl, sym (ap (λ r. r.0) h))

Taken-switch :
    (p q : CmdLineParser) (s : Text) (args : List Text)
    → s ≢ []
    → lookup p.kinds s ≡ some cmdline_switch
    → Taken (record p { switchs = s ∷ p.switchs }) args q
    → Taken p ((b'-' ∷ s) ∷ args) q
unfolding render take_items take_item
Taken-switch p q s args ne k (items, known, text, state) =
    (switch s ∷ items, ((ne, k), known), ap ((b'-' ∷ s) ∷◌) text, state)

Taken-option :
    (p q : CmdLineParser) (s v : Text) (args : List Text)
    → s ≢ []
    → lookup p.kinds s ≡ some cmdline_option
    → Taken (record p { options = (s, v) ∷ p.options; switchs = s ∷ p.switchs }) args q
    → Taken p ((b'-' ∷ s) ∷ v ∷ args) q
unfolding render take_items take_item
Taken-option p q s v args ne k (items, known, text, state) =
    (option s v ∷ items, ((ne, k), known), ap (λ xs. (b'-' ∷ s) ∷ v ∷ xs) text, state)

Taken-param :
    (p q : CmdLineParser) (s : Text) (args : List Text)
    → (HasDash s → ⊥)
    → Taken (record p { params = p.params ++ s ∷ [] }) args q
    → Taken p (s ∷ args) q
unfolding render take_items take_item
Taken-param p q s args plain (items, known, text, state) =
    (param s ∷ items, (plain, known), ap (s ∷◌) text, state)

-- One argument: `next` goes on with the arguments behind it, `value` takes the first of them.
after :
    (p q : CmdLineParser) (pa : Text) (args : List Text) (r : CmdLineParser × Next)
    → Outcome p pa r
    → ((p' : CmdLineParser) → parse_loop again p' args ≡ (q, true) → Taken p' args q)
    → ((s : Text)
        → s ≢ []
        → lookup p.kinds s ≡ some cmdline_option
        → parse_loop (value_of s) p args ≡ (q, true)
        → Taken p ((b'-' ∷ s) ∷ args) q)
    → parse_loop (r.1) (r.0) args ≡ (q, true)
    → Taken p (pa ∷ args) q
unfolding parse_loop
after p q pa args r stops next value h = absurd (cc)
after p q pa args r (awaits s ne k) next value h = value s ne k h
after p q pa args r (takes_switch s ne k) next value h = Taken-switch p q s args ne k (next _ h)
after p q pa args r (takes_param s plain) next value h = Taken-param p q s args plain (next _ h)

-- If the loop over the arguments ends well, they are a sequence of known items, and the state is the
-- old one with the items taken in their order.
pub parse_loop-items :
    (p q : CmdLineParser) (args : List Text)
    → parse_loop again p args ≡ (q, true)
    → (items : List Item) × All (Known p.kinds) items
      × (args ≡ render items)
      × (q ≡ take_items p items)
unfolding parse_loop
parse_loop-items p q [] h = Taken-nil p q h
parse_loop-items p q (pa ∷ []) h =
    after p q pa [] (argument p pa) (argument-Outcome p pa) (λ p' e. Taken-nil p' q e)
      (λ s ne k e. absurd (cc)) h
parse_loop-items p q (pa ∷ v ∷ args) h =
    after p q pa (v ∷ args) (argument p pa) (argument-Outcome p pa)
      (λ p' e. parse_loop-items p' q (v ∷ args) e)
      (λ s ne k e. Taken-option p q s v args ne k (parse_loop-items _ q args e)) h
