-- ===== src/Regex/Machine.antt =====
-- src/ewa_base/util/regex_impl.cpp: `execute`, `match_real` and `fallback` with the policy
-- `regex_policy_char_pointer` of regex_impl.h.
use ew_base.Prelude.{
  ℕ, zero, suc, ◌-◌, Bool, false, not, ◌||◌, Option, none, some, List, [], ◌∷◌, ◌++◌, ltb, ◌==◌,
  if◌then◌else◌, length, drop, replicate,
}
use ew_base.Prelude.Run.{Run, ok, fault, no_fuel, ◌>>=◌, reads}
use ew_base.Strlib.Case.{lowercase}
use ew_base.Regex.Items.{
  Node, Subject, match_str, same_char, same_letter, match_any, match_map, match_map_unicode,
  match_line_enter, match_line_leave, item_none, char_str, char_str_ignorecase, char_map,
  char_map_unicode, char_any, repeat, repeat_next, either, expr_enter, expr_leave, line_enter,
  line_leave, seq, seq_end, identifier,
}

pub record RegexState : Type 0 where
  pub curp : ℕ
  pub ipos : ℕ
  pub n_pos_repeat : ℕ

pub record PosAndNum : Type 0 where
  pub pos : ℕ
  pub num : ℕ

-- `state`, `arrStates` and `stkRepeat`, the stacks with the top first.
pub record Machine : Type 0 where
  pub state : RegexState
  pub states : List RegexState
  pub repeats : List PosAndNum

-- `stkRepeat.resize(n)`
unfoldable pub resize_repeats : List PosAndNum → ℕ → List PosAndNum
resize_repeats rs n =
    replicate (n - length rs) (record { pos = 0; num = 0 }) ++ drop (length rs - n) rs

-- `fallback`, which is none where it returns false.
unfoldable pub fallback : Machine → Run (Option Machine)
unfolding resize_repeats
fallback m = elim m.states [
  | [] ↦ fault
  | s ∷ ss ↦
      if s.curp == 0
      then ok none
      else ok (
          some
            (record { state = s; states = ss; repeats = resize_repeats m.repeats s.n_pos_repeat }))
]

-- A case of the `switch` that moves on in the text and goes to the sibling, or calls `fallback`.
unfoldable pub moves : Run (Option ℕ) → ℕ → Machine → Run (Option Machine)
unfolding fallback
moves run sibling m = run >>= λ o. elim o [
  | none ↦ fallback m
  | some i ↦ ok (some (record m { state = record m.state { curp = sibling; ipos = i } }))
]

-- ITEM_REPEAT
unfoldable pub enter_repeat : ℕ → Machine → Machine
enter_repeat sibling m = record m {
  state = record m.state { curp = sibling; n_pos_repeat = suc (length m.repeats) };
  repeats = record { pos = m.state.ipos; num = 0 } ∷ m.repeats;
}

-- Another round of a repetition: the position is noted, and the sibling is next.
unfoldable pub repeat_again : ℕ → PosAndNum → List PosAndNum → Machine → Machine
repeat_again sibling r rs m = record m {
  state = record m.state { curp = sibling };
  repeats = record r { pos = m.state.ipos; num = suc r.num } ∷ rs;
}

-- The end of the repetition, where `m` has the number of rounds increased.
unfoldable pub leave_repeat : ℕ → Machine → Machine
leave_repeat real_sibling m = record m { state = record m.state { curp = real_sibling } }

abbrev pub is_max : ℕ → Option ℕ → Bool
is_max n none = false
is_max n (some k) = n == k

-- ITEM_REPEAT_NEXT
unfoldable pub next_repeat : ℕ → Option ℕ → ℕ → Bool → Subject → ℕ → Machine → Run (Option Machine)
unfolding fallback repeat_again leave_repeat
next_repeat nmin nmax real_sibling greedy s sibling m = elim m.repeats [
  | [] ↦ fault
  | r ∷ rs ↦
      let again = repeat_again sibling r rs m in
      let counted = record m { repeats = record r { num = suc r.num } ∷ rs } in
      let moved = r.num == nmin || not (m.state.ipos == r.pos) in
      if ltb r.num nmin
      then ok (some again)
      else if is_max r.num nmax || m.state.ipos == s.it_end
      then ok (some (leave_repeat real_sibling counted))
      else if not moved
      then fallback counted
      else if not greedy
      then ok (
          some (
            leave_repeat real_sibling
              (record counted { states = record m.state { curp = sibling } ∷ m.states })))
      else if m.state.n_pos_repeat == 0
      then fault
      else ok (
          some (record again {
            states =
                record m.state { curp = real_sibling; n_pos_repeat = m.state.n_pos_repeat - 1 }
                ∷ m.states;
          }))
]

-- The `switch` of `match_real`: none is `return false`.
unfoldable pub step : Subject → Node → Machine → Run (Option Machine)
unfolding moves match_str lowercase match_any match_map match_map_unicode match_line_enter
    match_line_leave enter_repeat next_repeat
step s node m = elim node.item [
  | item_none ↦ ok none
  | char_str v ↦ moves (match_str same_char s v m.state.ipos) node.sibling m
  | char_str_ignorecase v ↦ moves (match_str same_letter s v m.state.ipos) node.sibling m
  | char_map b ↦ moves (match_map b s m.state.ipos) node.sibling m
  | char_map_unicode b ↦ moves (match_map_unicode b s m.state.ipos) node.sibling m
  | char_any ↦ moves (match_any s m.state.ipos) node.sibling m
  | repeat ↦ ok (some (enter_repeat node.sibling m))
  | repeat_next nmin nmax real_sibling greedy ↦
      next_repeat nmin nmax real_sibling greedy s node.sibling m
  | either child2 ↦ ok (
      some (record m {
        state = record m.state { curp = node.sibling };
        states = record m.state { curp = child2 } ∷ m.states;
      }))
  | expr_enter ↦
      moves (ok (if m.state.ipos == s.it_beg then some m.state.ipos else none)) node.sibling m
  | expr_leave ↦
      moves (ok (if m.state.ipos == s.it_end then some m.state.ipos else none)) node.sibling m
  | line_enter ↦ moves (match_line_enter s m.state.ipos) node.sibling m
  | line_leave ↦ moves (match_line_leave s m.state.ipos) node.sibling m
  | seq ↦ moves (ok (some m.state.ipos)) node.sibling m
  | seq_end ↦ moves (ok (some m.state.ipos)) node.sibling m
  | identifier ↦ ok none
]

-- ITEM_TRY_FALLBACK
unfoldable pub try_fallback : Machine → Run (Option Machine)
unfolding fallback
try_fallback m = elim m.states [
  | [] ↦ fault
  | t ∷ ts ↦ if ltb m.state.n_pos_repeat t.n_pos_repeat then ok none else fallback m
]

-- The loop of `match_real`, which ends where `not_finished` says so; otherwise it puts the item of
-- ITEM_TRY_FALLBACK in the place of NULL.
unfoldable pub match_loop : ℕ → Subject → Machine → Run (Option ℕ)
unfolding step try_fallback
match_loop zero s m = no_fuel
match_loop (suc fuel) s m =
    if m.state.curp == 0
    then (if m.state.ipos == s.it_end || s.partial
        then ok (some m.state.ipos)
        else (try_fallback m >>= λ o. elim o [ none ↦ ok none | some m' ↦ match_loop fuel s m' ]))
    else (reads (s.items m.state.curp) >>= λ node.
        step s node m >>= λ o. elim o [ none ↦ ok none | some m' ↦ match_loop fuel s m' ])

-- The place where the match ends, if it does.
unfoldable pub match_real : ℕ → Subject → ℕ → ℕ → Run (Option ℕ)
unfolding match_loop
match_real fuel s it sq = match_loop fuel s (record {
  state = record { curp = sq; ipos = it; n_pos_repeat = 0 };
  states = record { curp = 0; ipos = 0; n_pos_repeat = 0 } ∷ [];
  repeats = [];
})

-- `execute` with `match_mode`.
unfoldable pub execute : ℕ → Subject → ℕ → Run Bool
unfolding match_real
execute fuel s sq =
    if sq == 0
    then ok false
    else (match_real fuel s s.it_beg sq >>= λ o. elim o [
      | none ↦ ok false
      | some e ↦ ok (s.partial || e == s.it_end)
    ])
