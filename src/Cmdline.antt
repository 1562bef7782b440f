-- ===== src/Cmdline.antt =====
-- src/ewa_base/basic/cmdline.cpp: the parser of command lines. Texts are lists of bytes other than
-- zero, maps and sets are lists with the newest entry first. The messages for the user are left out.
pub mod Items
pub mod Accepted
use ew_base.Prelude.{
  ℕ, zero, suc, Bool, true, false, ◌&&◌, Option, none, some, List, [], ◌∷◌, ◌++◌, ◌==◌,
  if◌then◌else◌, length, get_elem?,
}

abbrev pub Text : Type 0
Text = List ℕ

-- `operator==` of `String`
unfoldable pub same : Text → Text → Bool
same [] [] = true
same [] (y ∷ ys) = false
same (x ∷ xs) [] = false
same (x ∷ xs) (y ∷ ys) = x == y && same xs ys

-- `find` in a map and in a set.
unfoldable pub lookup : {V : Type 0} → List (Text × V) → Text → Option V
unfolding same
lookup [] k = none
lookup (e ∷ es) k = let rest = lookup es k in if same e.0 k then some e.1 else rest

pub contains : List Text → Text → Bool
unfolding same
contains [] k = false
contains (e ∷ es) k = let rest = contains es k in if same e k then true else rest

pub data OptionKind : Type 0 where
  cmdline_switch : OptionKind
  cmdline_option : OptionKind
  cmdline_param : OptionKind

pub record CmdLineParser : Type 0 where
  pub kinds : List (Text × OptionKind)
  pub tags : Option ℕ
  pub defaults : List (Text × Text)
  pub params : List Text
  pub switchs : List Text
  pub options : List (Text × Text)

-- The entry of the empty text holds the number of parameters, `none` for a negative one, which
-- allows any; the constructor of `OptionType` sets 0.
unfoldable pub new_parser : CmdLineParser
new_parser = record {
  kinds = [];
  tags = some 0;
  defaults = [];
  params = [];
  switchs = [];
  options = [];
}

-- `set(t)` also sets the number of the entry to 0, which is read of the empty text's entry only.
abbrev pub tags_after : CmdLineParser → Text → Option ℕ
tags_after p [] = some 0
tags_after p (c ∷ cs) = p.tags

unfoldable pub add_switch : CmdLineParser → Text → CmdLineParser
add_switch p s = record p { kinds = (s, cmdline_switch) ∷ p.kinds; tags = tags_after p s }

unfoldable pub add_option : CmdLineParser → Text → CmdLineParser
add_option p s = record p { kinds = (s, cmdline_option) ∷ p.kinds; tags = tags_after p s }

-- `AddOption(s,d)`
unfoldable pub add_option_default : CmdLineParser → Text → Text → CmdLineParser
add_option_default p s d = record p {
  kinds = (s, cmdline_option) ∷ p.kinds;
  tags = tags_after p s;
  defaults = (s, d) ∷ p.defaults;
}

unfoldable pub add_param : CmdLineParser → Option ℕ → CmdLineParser
add_param p n = record p { tags = n }

-- One argument behind `-`: the state, and what the loop does next: it stops, it goes on, or it takes
-- the next argument as the value of an option.
pub data Next : Type 0 where
  stop : Next
  again : Next
  value_of : Text → Next

unfoldable pub dash : CmdLineParser → Text → CmdLineParser × Next
unfolding lookup
dash p [] = (p, stop)
dash p (c ∷ cs) = elim (lookup p.kinds (c ∷ cs)) [
  | none ↦ (p, stop)
  | some kind ↦ elim kind [
    | cmdline_switch ↦ (record p { switchs = (c ∷ cs) ∷ p.switchs }, again)
    | cmdline_option ↦ (p, value_of (c ∷ cs))
    | cmdline_param ↦ (p, stop)
  ]
]

unfoldable pub argument : CmdLineParser → Text → CmdLineParser × Next
unfolding dash
argument p [] = (record p { params = p.params ++ [] ∷ [] }, again)
argument p (c ∷ cs) =
    if c == b'-' then dash p cs else (record p { params = p.params ++ (c ∷ cs) ∷ [] }, again)

-- The loop over the arguments.
unfoldable pub parse_loop : Next → CmdLineParser → List Text → CmdLineParser × Bool
unfolding argument
parse_loop stop p args = (p, false)
parse_loop again p [] = (p, true)
parse_loop again p (pa ∷ args) = let r = argument p pa in parse_loop (r.1) (r.0) args
parse_loop (value_of ps) p [] = (p, false)
parse_loop (value_of ps) p (v ∷ args) =
    parse_loop again (record p { options = (ps, v) ∷ p.options; switchs = ps ∷ p.switchs }) args

-- The number of parameters against the one that is wanted.
unfoldable pub count_fits : Option ℕ → ℕ → Bool
count_fits none n = true
count_fits (some k) n = n == k

-- The arguments behind the program.
abbrev pub tail : List Text → List Text
tail [] = []
tail (x ∷ xs) = xs

-- `parse(argv)`; the first argument is the program.
unfoldable pub parse : CmdLineParser → List Text → CmdLineParser × Bool
unfolding parse_loop count_fits
parse p argv =
    let p₀ = record p { params = []; switchs = []; options = p.defaults } in
    let r = parse_loop again p₀ (tail argv) in
    if r.1 then (r.0, count_fits p.tags (length (r.0).params)) else r

-- `Found(s)`, `Found(s,v)` and `GetParamCount()`
unfoldable pub found : CmdLineParser → Text → Bool
found p s = contains p.switchs s

unfoldable pub found_value : CmdLineParser → Text → Option Text
found_value p s = lookup p.options s

unfoldable pub get_param_count : CmdLineParser → ℕ
get_param_count p = length p.params
