-- ===== src/Cmdline/Items.antt =====
-- Command lines as sequences of switches, options with values, and parameters.
use ew_base.Prelude.{
  ℕ, ◌+◌, ◌≡◌, ◌≢◌, ◌↔◌, refl, ap, ◌∙◌, true, false, Option, none, some, List, [], ◌∷◌, ◌++◌, ◌==◌,
  ==_iff, length, length-append, arith, All,
}
use ew_base.Cmdline.{
  Text, lookup, OptionKind, cmdline_switch, cmdline_option, CmdLineParser, again, value_of, dash,
  argument, parse_loop, count_fits, parse,
}

pub data Item : Type 0 where
  switch : Text → Item
  option : Text → Text → Item
  param : Text → Item

-- The arguments that an item stands for, and all of them.
unfoldable pub render : List Item → List Text
render [] = []
render (switch s ∷ items) = (b'-' ∷ s) ∷ render items
render (option s v ∷ items) = (b'-' ∷ s) ∷ v ∷ render items
render (param s ∷ items) = s ∷ render items

abbrev pub HasDash : Text → Type 0
HasDash [] = ⊥
HasDash (c ∷ cs) = c ≡ b'-'

-- An item that the parser knows.
abbrev pub Known : List (Text × OptionKind) → Item → Type 0
Known kinds (switch s) = (s ≢ []) × (lookup kinds s ≡ some cmdline_switch)
Known kinds (option s v) = (s ≢ []) × (lookup kinds s ≡ some cmdline_option)
Known kinds (param s) = HasDash s → ⊥

-- What an item adds.
unfoldable pub take_item : CmdLineParser → Item → CmdLineParser
take_item p (switch s) = record p { switchs = s ∷ p.switchs }
take_item p (option s v) = record p { options = (s, v) ∷ p.options; switchs = s ∷ p.switchs }
take_item p (param s) = record p { params = p.params ++ s ∷ [] }

unfoldable pub take_items : CmdLineParser → List Item → CmdLineParser
unfolding take_item
take_items p [] = p
take_items p (i ∷ items) = take_items (take_item p i) items

kinds-take_item : (p : CmdLineParser) (i : Item) → (take_item p i).kinds ≡ p.kinds
unfolding take_item
kinds-take_item p (switch s) = refl
kinds-take_item p (option s v) = refl
kinds-take_item p (param s) = refl

dash-switch :
    (p : CmdLineParser) (s : Text)
    → s ≢ []
    → lookup p.kinds s ≡ some cmdline_switch
    → dash p s ≡ (record p { switchs = s ∷ p.switchs }, again)
unfolding dash
dash-switch p [] ne k = absurd (ne refl)
dash-switch p (c ∷ cs) ne k = rw (dash, k) refl

dash-option :
    (p : CmdLineParser) (s : Text)
    → s ≢ []
    → lookup p.kinds s ≡ some cmdline_option
    → dash p s ≡ (p, value_of s)
unfolding dash
dash-option p [] ne k = absurd (ne refl)
dash-option p (c ∷ cs) ne k = rw (dash, k) refl

argument-dash : (p : CmdLineParser) (s : Text) → argument p (b'-' ∷ s) ≡ dash p s
unfolding argument
argument-dash p s = refl

argument-param :
    (p : CmdLineParser) (s : Text)
    → (HasDash s → ⊥)
    → argument p s ≡ (record p { params = p.params ++ s ∷ [] }, again)
unfolding argument
argument-param p [] plain = refl
argument-param p (c ∷ cs) plain = let e : (c == b'-') ≡ false = ground (arith, plain) in rw e refl

parse_loop-render :
    (p : CmdLineParser) (items : List Item)
    → All (Known p.kinds) items
    → parse_loop again p (render items) ≡ (take_items p items, true)
unfolding parse_loop render take_items take_item
parse_loop-render p [] known = refl
parse_loop-render p (switch s ∷ items) ((ne, k), known) =
    rw (parse_loop, argument-dash p s, dash-switch p s ne k)
      (parse_loop-render (record p { switchs = s ∷ p.switchs }) items known)
parse_loop-render p (option s v ∷ items) ((ne, k), known) =
    rw (parse_loop, argument-dash p s, dash-option p s ne k)
      (parse_loop-render (record p { options = (s, v) ∷ p.options; switchs = s ∷ p.switchs }) items
        known)
parse_loop-render p (param s ∷ items) (plain, known) =
    rw (parse_loop, argument-param p s plain)
      (parse_loop-render (record p { params = p.params ++ s ∷ [] }) items known)

-- The parser's state before the first argument.
unfoldable pub cleared : CmdLineParser → CmdLineParser
cleared p = record p { params = []; switchs = []; options = p.defaults }

-- The number of the parameters among the items.
unfoldable pub param_count : List Item → ℕ
param_count [] = 0
param_count (switch s ∷ items) = param_count items
param_count (option s v ∷ items) = param_count items
param_count (param s ∷ items) = 1 + param_count items

length-take_items :
    (p : CmdLineParser) (items : List Item)
    → length (take_items p items).params ≡ length p.params + param_count items
unfolding take_items take_item param_count
length-take_items p [] = omega arith
length-take_items p (switch s ∷ items) =
    length-take_items (record p { switchs = s ∷ p.switchs }) items
length-take_items p (option s v ∷ items) =
    length-take_items (record p { options = (s, v) ∷ p.options; switchs = s ∷ p.switchs }) items
length-take_items p (param s ∷ items) = omega (
  arith,
  length-take_items (record p { params = p.params ++ s ∷ [] }) items,
  length-append p.params (s ∷ []),
)

-- Any number is wanted, or this one.
abbrev pub IsWanted : Option ℕ → ℕ → Type 0
IsWanted none n = Unit
IsWanted (some k) n = n ≡ k

count_fits_iff : (wanted : Option ℕ) (n : ℕ) → (count_fits wanted n ≡ true) ↔ IsWanted wanted n
unfolding count_fits
count_fits_iff none n = ((λ e. tt), (λ w. refl))
count_fits_iff (some k) n = ==_iff n k

parse_items :
    (p : CmdLineParser) (program : Text) (items : List Item)
    → All (Known p.kinds) items
    → parse p (program ∷ render items) ≡ (
      take_items (cleared p) items,
      count_fits p.tags (length (take_items (cleared p) items).params),
    )
unfolding parse cleared
parse_items p program items known =
    rw
      (parse_loop-render (record p { params = []; switchs = []; options = p.defaults }) items known)
      refl

-- A command line that is a sequence of known switches, known options with values, and parameters, in
-- any order: all of them are taken in their order, and the parser accepts if and only if any number
-- of parameters is wanted or the number of those in the sequence is the one wanted.
pub parse-render :
    (p : CmdLineParser) (program : Text) (items : List Item)
    → All (Known p.kinds) items
    → ((parse p (program ∷ render items)).0 ≡ take_items (cleared p) items)
      × (((parse p (program ∷ render items)).1 ≡ true) ↔ IsWanted p.tags (param_count items))
unfolding cleared
parse-render p program items known =
    let all = parse_items p program items known in
    let count : length (take_items (cleared p) items).params ≡ param_count items =
      length-take_items (cleared p) items ∙ omega arith in
    (ap (λ r. r.0) all, rw all (rw count (count_fits_iff p.tags (param_count items))))
