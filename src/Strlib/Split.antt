-- ===== src/Strlib/Split.antt =====
-- src/ewa_base/util/strlib.cpp: `string_split`, on texts as lists of bytes other than zero.
pub mod Found
pub mod Join
pub mod Pieces
use ew_base.Prelude.{
  ℕ, zero, suc, Bool, true, false, ◌&&◌, Option, none, some, List, [], ◌∷◌, ◌++◌, ◌==◌, length,
}
use ew_base.Prelude.Run.{Run, ok, no_fuel, ◌>>=◌}
use ew_base.Codecvt.{Bytes}

-- `strstr(s,b)` at the start of `s`: what is behind `b`, if `s` starts with it.
pub behind : Bytes → Bytes → Option Bytes
behind [] s = some s
behind (x ∷ b) [] = none
behind (x ∷ b) (y ∷ s) = let rest = behind b s in elim (x == y) [ true ↦ rest | false ↦ none ]

-- `strstr(s,b)`: the text in front of the first `b`, and the text behind it.
pub strstr : Bytes → Bytes → Option (Bytes × Bytes)
unfolding behind
strstr b [] = elim (behind b []) [ some t ↦ some ([], t) | none ↦ none ]
strstr b (y ∷ s) =
    let later = strstr b s in
    elim (behind b (y ∷ s)) [
      | some t ↦ some ([], t)
      | none ↦ elim later [ none ↦ none | some r ↦ some (y ∷ r.0, r.1) ]
    ]

-- The loop; an empty `b` is found at once again and again.
pub split_loop : ℕ → Bytes → Bytes → Run (List Bytes)
unfolding strstr
split_loop zero b s = no_fuel
split_loop (suc fuel) b s = elim (strstr b s) [
  | none ↦ ok (s ∷ [])
  | some r ↦ split_loop fuel b r.1 >>= λ pieces. ok (r.0 ∷ pieces)
]

-- Every round but the last takes at least one byte, if `b` is not empty.
unfoldable pub string_split : Bytes → Bytes → Run (List Bytes)
unfolding split_loop
string_split s b = split_loop (suc (length s)) b s
