-- ===== src/Strlib/Case.antt =====
-- src/ewa_base/util/strlib.cpp: letters of both cases.
pub mod Compare
use ew_base.Prelude.{
  ℕ, zero, suc, ◌+◌, ◌-◌, Bool, true, false, List, [], ◌∷◌, ltb, ◌==◌, if◌then◌else◌, map,
}
use ew_base.Prelude.Int.{ℤ, pos, negsuc}
use ew_base.Prelude.Run.{Run, ok, fault}
use ew_base.Codecvt.{Bytes}
use ew_base.Strlib.{within}

-- inc/ewa_base/basic/lookuptable.h: `lkt2lowercase` and `lkt2uppercase`.
unfoldable pub lowercase : ℕ → ℕ
lowercase n = if within b'A' b'Z' n then n - b'A' + b'a' else n

unfoldable pub uppercase : ℕ → ℕ
uppercase n = if within b'a' b'z' n then n + b'A' - b'a' else n

-- The loop over the buffer, whose size is that of the text.
unfoldable pub string_to_lower : Bytes → Bytes
unfolding lowercase
string_to_lower s = map lowercase s

unfoldable pub string_to_upper : Bytes → Bytes
unfolding uppercase
string_to_upper s = map uppercase s

-- A round of the loop of `string_compare_no_case` at the letters `c1` and `c2`.
unfoldable pub compare_round : ℕ → ℕ → Run ℤ → Run ℤ
compare_round c1 c2 on =
    if ltb c2 c1
    then ok (pos 1)
    else if ltb c1 c2
    then ok (negsuc 0)
    else if c1 == 0
    then ok (pos 0)
    else on

-- The loop, from two places in the memory.
unfoldable pub string_compare_no_case : Bytes → Bytes → Run ℤ
unfolding compare_round lowercase
string_compare_no_case [] q = fault
string_compare_no_case (x ∷ p) [] = fault
string_compare_no_case (x ∷ p) (y ∷ q) =
    compare_round (lowercase x) (lowercase y) (string_compare_no_case p q)
