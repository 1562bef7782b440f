-- ===== src/Strlib/Lines.antt =====
-- src/ewa_base/util/strlib.cpp: `string_lines`.
use ew_base.Prelude.{
  ℕ, zero, suc, ◌≤◌, ◌<◌, ◌≡◌, ◌≢◌, refl, ap, Bool, true, false, ◌||◌, List, [], ◌∷◌, ◌++◌,
  append_assoc, append-nil, get_elem?, drop, length, length-append, All, All-append, ◌==◌,
  if◌then◌else◌, arith,
}
use ew_base.Prelude.Run.{Run, ok, fault, no_fuel, ◌>>=◌, reads}
use ew_base.Codecvt.{Bytes}
use ew_base.Strlib.Split.Join.{join}

-- The loop over `s2`: the bytes up to the end of the line or of the text.
unfoldable pub scan_line : Bytes → Run (Bytes × Bytes)
scan_line [] = fault
scan_line (c ∷ p) =
    let rest = scan_line p in
    if c == 0 || c == b'\n' then ok ([], c ∷ p) else (rest >>= λ r. ok (c ∷ r.0, r.1))

-- `s2[-1]=='\r'?s2-1:s2`
unfoldable pub without_cr : Bytes → Bytes
without_cr [] = []
without_cr (c ∷ []) = if c == b'\r' then [] else c ∷ []
without_cr (c ∷ d ∷ s) = c ∷ without_cr (d ∷ s)

unfoldable pub lines_loop : ℕ → Bytes → Run (List Bytes)
unfolding scan_line without_cr
lines_loop zero p = no_fuel
lines_loop (suc fuel) p = scan_line p >>= λ r. reads (get_elem? (r.1) 0) >>= λ c. elim (c == 0) [
  | true ↦ ok (without_cr (r.0) ∷ [])
  | false ↦ lines_loop fuel (drop 1 (r.1)) >>= λ ls. ok (without_cr (r.0) ∷ ls)
]

-- Every round but the last takes the end of a line.
unfoldable pub string_lines : Bytes → Run (List Bytes)
unfolding lines_loop
string_lines p = lines_loop (suc (length p)) p

-- A byte in a line, and a line without carriage returns.
abbrev InLine : ℕ → Type 0
InLine c = (c ≢ 0) × (c ≢ b'\n')

abbrev pub IsLine : Bytes → Type 0
IsLine l = All (λ c. (c ≢ 0) × (c ≢ b'\n') × (c ≢ b'\r')) l

-- What stands in front of the line feed: a carriage return, or nothing.
abbrev pub return_byte : Bool → Bytes
return_byte cr = elim cr [ true ↦ b'\r' ∷ [] | false ↦ [] ]

abbrev pub line_end : Bool → Bytes
line_end cr = return_byte cr ++ b'\n' ∷ []

scan_line-line :
    (l : Bytes) (c : ℕ) (p : Bytes)
    → All InLine l
    → (c == 0 || c == b'\n') ≡ true
    → scan_line (l ++ c ∷ p) ≡ ok (l, c ∷ p)
unfolding scan_line
scan_line-line [] c p h e = rw e refl
scan_line-line (x ∷ l) c p ((nz, nl), h) e =
    let on : (x == 0 || x == b'\n') ≡ false = ground arith in rw (on, scan_line-line l c p h e) refl

IsLine-InLine : (l : Bytes) → IsLine l → All InLine l
IsLine-InLine [] h = tt
IsLine-InLine (c ∷ l) ((a, b, d), h) = ((a, b), IsLine-InLine l h)

return_byte-InLine : (cr : Bool) → All InLine (return_byte cr)
return_byte-InLine true = ((λ e. absurd (omega arith), λ e. absurd (omega arith)), tt)
return_byte-InLine false = tt

without_cr_line : (l : Bytes) (cr : Bool) → IsLine l → without_cr (l ++ return_byte cr) ≡ l
unfolding without_cr
without_cr_line [] true h = refl
without_cr_line [] false h = refl
without_cr_line (c ∷ []) true h = refl
without_cr_line (c ∷ []) false ((a, b, d), h) =
    let other : (c == b'\r') ≡ false = ground arith in rw other refl
without_cr_line (c ∷ d ∷ l) cr (a, h) = ap (λ z. c ∷ z) (without_cr_line (d ∷ l) cr h)

lines_loop-join :
    (cr : Bool) (fuel : ℕ) (l : Bytes) (ls : List Bytes) (m : Bytes)
    → All IsLine (l ∷ ls)
    → length ls < fuel
    → lines_loop fuel (join (line_end cr) (l ∷ ls) ++ 0 ∷ m) ≡ ok (l ∷ ls)
unfolding lines_loop join
lines_loop-join cr zero l ls m h f = absurd (omega arith)
lines_loop-join cr (suc fuel) l [] m (h, hs) f =
    let same_line : without_cr l ≡ l = rw append-nil at (without_cr_line l false h) in
    rw (lines_loop, scan_line-line l 0 m (IsLine-InLine l h) refl, same_line) refl
lines_loop-join cr (suc fuel) l (k ∷ ls) m (h, hs) f =
    let whole = l ++ return_byte cr in
    let rest = join (line_end cr) (k ∷ ls) ++ 0 ∷ m in
    let e : l ++ line_end cr ++ join (line_end cr) (k ∷ ls) ++ 0 ∷ m ≡ whole ++ b'\n' ∷ rest =
      simp append_assoc in
    let inside = All-append _ l (return_byte cr) (IsLine-InLine l h) (return_byte-InLine cr) in
    rw
      (
        lines_loop,
        e,
        scan_line-line whole b'\n' rest inside refl,
        without_cr_line l cr h,
        lines_loop-join cr fuel k ls m hs (omega arith),
      )
      refl

length-join :
    (cr : Bool) (l : Bytes) (ls : List Bytes) → length ls ≤ length (join (line_end cr) (l ∷ ls))
unfolding join
length-join cr l [] = omega arith
length-join cr l (k ∷ ls) = omega (
  arith,
  length-join cr k ls,
  length-append (l ++ line_end cr) (join (line_end cr) (k ∷ ls)),
  length-append l (line_end cr),
  length-append (return_byte cr) (b'\n' ∷ []),
)

-- For one or more lines without zero bytes, line feeds and carriage returns, joined by line feeds, or
-- by carriage returns and line feeds, with a zero byte behind them, string_lines returns the lines.
pub string_lines-join :
    (cr : Bool) (l : Bytes) (ls : List Bytes) (m : Bytes)
    → All IsLine (l ∷ ls)
    → string_lines (join (line_end cr) (l ∷ ls) ++ 0 ∷ m) ≡ ok (l ∷ ls)
unfolding string_lines
string_lines-join cr l ls m h =
    lines_loop-join cr (suc (length (join (line_end cr) (l ∷ ls) ++ 0 ∷ m))) l ls m h
      (omega (arith, length-join cr l ls, length-append (join (line_end cr) (l ∷ ls)) (0 ∷ m)))
