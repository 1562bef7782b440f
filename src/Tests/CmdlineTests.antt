-- ===== src/Tests/CmdlineTests.antt =====
-- A parser with the switch "v", the option "o" and any number of parameters.
use ew_base.Prelude.{◌≡◌, ◌↔◌, refl, ap, true, false, none, List, [], ◌∷◌, length, arith, All}
use ew_base.Cmdline.{
  CmdLineParser, again, cmdline_switch, cmdline_option, lookup, same, parse_loop, parse, dash,
  argument,
}
use ew_base.Cmdline.Items.{
  Item, switch, option, param, render, Known, take_items, cleared, param_count, IsWanted,
  parse-render,
}
use ew_base.Cmdline.Accepted.{parse_loop-items}

abbrev parser : CmdLineParser
parser = record {
  kinds = (b'v' ∷ [], cmdline_switch) ∷ (b'o' ∷ [], cmdline_option) ∷ [];
  tags = none;
  defaults = [];
  params = [];
  switchs = [];
  options = [];
}

abbrev items : List Item
items = param (b'a' ∷ []) ∷ option (b'o' ∷ []) (b'-' ∷ []) ∷ switch (b'v' ∷ []) ∷ []

known : All (Known parser.kinds) items
unfolding lookup same
known = (
  λ h. absurd (omega (arith, h)),
  (
    (λ n. absurd (omega (arith, ap length n)), refl),
    ((λ n. absurd (omega (arith, ap length n)), refl), tt),
  ),
)

parse_example :
    ((parse parser ([] ∷ render items)).0 ≡ take_items (cleared parser) items)
    × (((parse parser ([] ∷ render items)).1 ≡ true) ↔ IsWanted parser.tags (param_count items))
parse_example = parse-render parser [] items known

-- An option without its value is refused.
no_value : (parse parser ([] ∷ (b'-' ∷ b'o' ∷ []) ∷ [])).1 ≡ false
unfolding parse argument dash lookup same parse_loop
no_value = refl

abbrev after_switch : CmdLineParser
after_switch = record parser { switchs = (b'v' ∷ []) ∷ [] }

one_switch : parse_loop again parser ((b'-' ∷ b'v' ∷ []) ∷ []) ≡ (after_switch, true)
unfolding parse_loop argument dash lookup same
one_switch = refl

accepted_example :
    (is : List Item) × All (Known parser.kinds) is
    × (((b'-' ∷ b'v' ∷ []) ∷ []) ≡ render is)
    × (after_switch ≡ take_items parser is)
accepted_example = parse_loop-items parser after_switch ((b'-' ∷ b'v' ∷ []) ∷ []) one_switch
