-- ===== src/LinearBuffer/Scan.antt =====
-- The readers of linear_buffer.h that skip: spaces and comments, and the reader of a word. A result
-- `none` is an exception.
pub mod Skips
use ew_base.Prelude.{
  ℕ, zero, suc, ◌+◌, ◌-◌, Bool, true, false, not, ◌&&◌, ◌||◌, Option, none, some, List, [], ◌∷◌,
  ◌==◌, if◌then◌else◌,
}
use ew_base.Prelude.Run.{Run, ok, fault, no_fuel, ◌>>=◌, reads}
use ew_base.LinearBuffer.{LinearBuffer, eof, get, unget, rd_flip, rd_free}

-- The loops that read up to the first element that is not to be kept, which they give back.
pub skip_while : (ℕ → Bool) → ℕ → LinearBuffer → Run (Option LinearBuffer)
skip_while keep zero b = no_fuel
skip_while keep (suc fuel) b = elim (eof b) [
  | true ↦ ok (some b)
  | false ↦ get b >>= λ r. elim r.1 [
    | none ↦ ok (unget r.0)
    | some v ↦ elim (keep v) [ true ↦ skip_while keep fuel r.0 | false ↦ ok (unget r.0) ]
  ]
]

unfoldable pub is_space : ℕ → Bool
is_space v = v == 9 || v == 32

unfoldable pub in_line : ℕ → Bool
in_line v = not (v == 13 || v == 10)

unfoldable pub in_word : ℕ → Bool
in_word v = not (v == 0 || v == 9 || v == 32 || v == 13 || v == 10)

-- Every round reads an element, so one round for each and one for the end are enough.
unfoldable pub skip_space : LinearBuffer → Run (Option LinearBuffer)
unfolding skip_while is_space
skip_space b = skip_while is_space (suc (rd_free b)) b

unfoldable pub skip_comment1 : LinearBuffer → Run (Option LinearBuffer)
unfolding skip_while in_line
skip_comment1 b = get (rd_flip b 1) >>= λ r. elim r.1 [
  | none ↦ ok none
  | some v ↦ if v == b'/' then skip_while in_line (suc (rd_free r.0)) r.0 else ok none
]

unfoldable pub skip_comment2 : LinearBuffer → Run (Option LinearBuffer)
unfolding skip_while in_line
skip_comment2 b = skip_while in_line (suc (rd_free (rd_flip b 1))) (rd_flip b 1)
