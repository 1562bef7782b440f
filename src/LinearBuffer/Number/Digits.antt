-- ===== src/LinearBuffer/Number/Digits.antt =====
-- What `read_integer` makes of decimal digits.
use ew_base.Prelude.{
  ℕ, zero, suc, ◌+◌, ◌*◌, ◌%◌, ◌^◌, ◌≤◌, ◌<◌, ◌≡◌, refl, ap, ◌∙◌, Bool, true, false, Option, some,
  List, [], ◌∷◌, ◌++◌, ◌==◌, if◌then◌else◌, length, arith, All,
}
use ew_base.Prelude.Run.{Run, ok}
use ew_base.LinearBuffer.{LinearBuffer, get, unget, rd_free}
use ew_base.LinearBuffer.Stream.{IsBuffer, pending, length-pending}
use ew_base.LinearBuffer.Scan.Skips.{ended, got, get-Gets, peek-first, forward}
use ew_base.LinearBuffer.Number.{
  number_round, digit, is_beyond, is_point, Scanned, number_loop, read_sign, finish, read_integer,
}

abbrev pub IsDigit : ℕ → Type 0
IsDigit d = d < 10

-- The decimal value of digits behind `acc`.
unfoldable pub decimal : ℕ → List ℕ → ℕ
decimal acc [] = acc
decimal acc (d ∷ ds) = decimal (acc * 10 + d) ds

counted : ℕ → List ℕ → ℕ
counted kk [] = kk
counted kk (d ∷ ds) = counted (kk + 1) ds

counted-length : (kk : ℕ) (ds : List ℕ) → counted kk ds ≡ kk + length ds
unfolding counted
counted-length kk [] = omega arith
counted-length kk (d ∷ ds) = omega (arith, counted-length (kk + 1) ds)

unfoldable pub text : List ℕ → List ℕ
text [] = []
text (d ∷ ds) = (b'0' + d) ∷ text ds

-- An element behind a number at which the loop stops.
abbrev pub IsStop : ℕ → Type 0
IsStop c = (is_beyond c ≡ true) × (is_point c ≡ false)

-- What may stand behind the digits: nothing, or a stop and anything.
abbrev pub Behind : List ℕ → Type 0
Behind [] = Unit
Behind (c ∷ rest) = IsStop c

abbrev pub is_nil : List ℕ → Bool
is_nil [] = true
is_nil (c ∷ rest) = false

digit-char : (d : ℕ) → d < 10 → digit (b'0' + d) ≡ d
unfolding digit
digit-char d h = ground arith

beyond-char : (d : ℕ) → d < 10 → is_beyond (b'0' + d) ≡ false
unfolding is_beyond
beyond-char d h = ground (arith, digit-char d h)

round-stop :
    (again : LinearBuffer → ℕ → ℕ → ℕ → ℕ → Run (Option Scanned)) (b' b : LinearBuffer)
    (vv gg kk doted c : ℕ)
    → is_beyond c ≡ true
    → is_point c ≡ false
    → unget b' ≡ some b
    → number_round again b' vv gg kk doted c
      ≡ ok (some (record { buffer = b; at_end = false; vv = vv; gg = gg; kk = kk }))
unfolding number_round
round-stop again b' b vv gg kk doted c stop point back = rw (number_round, stop, point, back) refl

round-digit :
    (again : LinearBuffer → ℕ → ℕ → ℕ → ℕ → Run (Option Scanned)) (b : LinearBuffer)
    (vv gg kk doted d : ℕ)
    → d < 10
    → number_round again b vv gg kk doted (b'0' + d)
      ≡ again b ((vv * 10 + d) % 2 ^ 64) ((gg + doted) % 2 ^ 32) ((kk + 1) % 2 ^ 32) doted
unfolding number_round
round-digit again b vv gg kk doted d h = rw (number_round, beyond-char d h, digit-char d h) refl

-- Further digits make a value no smaller.
decimal-ge : (acc : ℕ) (ds : List ℕ) → acc ≤ decimal acc ds
unfolding decimal
decimal-ge acc [] = omega arith
decimal-ge acc (d ∷ ds) = omega (arith, decimal-ge (acc * 10 + d) ds)

-- A digit whose value and count stay in their range.
round-digit_small :
    (again : LinearBuffer → ℕ → ℕ → ℕ → ℕ → Run (Option Scanned)) (b : LinearBuffer) (vv kk d : ℕ)
    → d < 10
    → vv * 10 + d < 2 ^ 64
    → kk + 1 < 2 ^ 32
    → number_round again b vv 0 kk 0 (b'0' + d) ≡ again b (vv * 10 + d) 0 (kk + 1) 0
round-digit_small again b vv kk d h small few =
    let value : (vv * 10 + d) % 2 ^ 64 ≡ vv * 10 + d = omega arith in
    let count : (kk + 1) % 2 ^ 32 ≡ kk + 1 = omega arith in
    round-digit again b vv 0 kk 0 d h ∙ rw (value, count) refl

number_loop-decimal :
    (fuel : ℕ) (b : LinearBuffer) (ds rest : List ℕ) (vv kk : ℕ)
    → IsBuffer b
    → All IsDigit ds
    → Behind rest
    → pending b ≡ text ds ++ rest
    → length (pending b) < fuel
    → decimal vv ds < 2 ^ 64
    → kk + length ds < 2 ^ 32
    → (b' : LinearBuffer) × IsBuffer b'
      × (pending b' ≡ rest)
      × (number_loop fuel b vv 0 kk 0
          ≡ ok (
              some (record {
                buffer = b';
                at_end = is_nil rest;
                vv = decimal vv ds;
                gg = 0;
                kk = counted kk ds;
              })))
unfolding number_loop decimal text counted
number_loop-decimal zero b ds rest vv kk h digits stop p enough value count = absurd (omega arith)
number_loop-decimal (suc fuel) b [] [] vv kk h digits stop p enough value count =
    elim (get-Gets b h) [
      | ended e none_left g ↦ (b, h, p, rw (number_loop, e) refl)
      | got v e g back h' q ↦ absurd (omega (arith, ap length p, ap length q))
    ]
number_loop-decimal (suc fuel) b [] (c ∷ rest) vv kk h digits (stop, point) p enough value count =
    elim (get-Gets b h) [
      | ended e none_left g ↦ absurd (omega (arith, ap length p, ap length none_left))
      | got v e g back h' q ↦
          let same : v ≡ c = cc in
          let at : get b ≡ ok (forward b, some c) = rw (← same) g in
          (
            b,
            h,
            p,
            rw (number_loop, e, at)
                (round-stop (number_loop fuel) (forward b) b vv 0 kk 0 c stop point back),
          )
    ]
number_loop-decimal (suc fuel) b (d ∷ ds) rest vv kk h (small, digits) stop p enough value count =
    elim (get-Gets b h) [
      | ended e none_left g ↦ absurd (omega (arith, ap length p, ap length none_left))
      | got v e g back h' q ↦
          let same : v ≡ b'0' + d = cc in
          let left : pending (forward b) ≡ text ds ++ rest = cc in
          let at : get b ≡ ok (forward b, some (b'0' + d)) = rw (← same) g in
          let shorter : length (pending (forward b)) < fuel = omega (arith, ap length q) in
          let (b', h'', r, run) =
            number_loop-decimal fuel (forward b) ds rest (vv * 10 + d) (kk + 1) h' digits stop left
              shorter value (omega arith) in
          (
            b',
            h'',
            r,
            rw (number_loop, e, at)
                (round-digit_small (number_loop fuel) (forward b) vv kk d small
                    (omega (arith, decimal-ge (vv * 10 + d) ds)) (omega arith)
                  ∙ run),
          )
    ]

-- The text of a sign, if there is one.
unfoldable pub sign_text : Bool → List ℕ
sign_text true = b'-' ∷ []
sign_text false = []

read_sign-minus :
    (b : LinearBuffer) (minus : Bool) (d : ℕ) (more : List ℕ)
    → IsBuffer b
    → d < 10
    → pending b ≡ sign_text minus ++ (b'0' + d) ∷ more
    → (b' : LinearBuffer) × IsBuffer b'
      × (pending b' ≡ (b'0' + d) ∷ more)
      × (read_sign b ≡ ok (b', minus))
unfolding read_sign sign_text
read_sign-minus b true d more h small p = elim (get-Gets b h) [
  | ended e none_left g ↦ absurd (omega (arith, ap length p, ap length none_left))
  | got v e g back h' q ↦ (forward b, h', cc, rw (peek-first b h p, g) refl)
]
read_sign-minus b false d more h small p =
    let no_plus : (b'0' + d == b'+') ≡ false = ground arith in
    let no_minus : (b'0' + d == b'-') ≡ false = ground arith in
    (b, h, p, rw (peek-first b h p, no_plus, no_minus) refl)

finish-number :
    (minus : Bool) (b : LinearBuffer) (rest : List ℕ) (vv kk : ℕ)
    → (kk == 0) ≡ false
    → finish minus (record { buffer = b; at_end = is_nil rest; vv = vv; gg = 0; kk = kk })
      ≡ some (b, record { size = vv; negative = if is_nil rest then false else minus; scale = 0 })
unfolding finish
finish-number minus b [] vv kk h = refl
finish-number minus b (c ∷ rest) vv kk h = rw h refl

text-sign :
    (minus : Bool) (d : ℕ) (ds rest : List ℕ) {xs : List ℕ}
    → xs ≡ sign_text minus ++ text (d ∷ ds) ++ rest
    → xs ≡ sign_text minus ++ (b'0' + d) ∷ (text ds ++ rest)
unfolding sign_text text
text-sign true d ds rest e = e
text-sign false d ds rest e = e

-- On a well-formed LinearBuffer<char> with digits, at least one and fewer than 2 ^ 31, whose decimal
-- value is below 2 ^ 63, behind an optional minus, and behind them nothing, or an element at which the
-- loop stops and then anything: all the digits are read, and what stands behind them is pending. The number is their
-- decimal value without a scale, and it has the sign, unless the buffer ends behind the digits: then
-- the minus is lost.
pub read_integer-decimal :
    (b : LinearBuffer) (minus : Bool) (d : ℕ) (ds rest : List ℕ)
    → IsBuffer b
    → All IsDigit (d ∷ ds)
    → Behind rest
    → pending b ≡ sign_text minus ++ text (d ∷ ds) ++ rest
    → decimal 0 (d ∷ ds) < 2 ^ 63
    → length (d ∷ ds) < 2 ^ 31
    → (b' : LinearBuffer) × IsBuffer b'
      × (pending b' ≡ rest)
      × (read_integer b
          ≡ ok (
              some (
                b',
                record {
                  size = decimal 0 (d ∷ ds);
                  negative = if is_nil rest then false else minus;
                  scale = 0;
                },
              )))
unfolding read_integer rd_free text
read_integer-decimal b minus d ds rest h (small, digits) stop p value count =
    let (b₁, h₁, p₁, sign) =
      read_sign-minus b minus d (text ds ++ rest) h small (text-sign minus d ds rest p) in
    let enough : length (pending b₁) < suc (rd_free b₁) = omega (arith, length-pending b₁ h₁) in
    let (b₂, h₂, p₂, run) =
      number_loop-decimal (suc (rd_free b₁)) b₁ (d ∷ ds) rest 0 0 h₁ (small, digits) stop p₁ enough
        (omega arith) (omega arith) in
    let some_digit : (counted 0 (d ∷ ds) == 0) ≡ false =
      ground (arith, counted-length 0 (d ∷ ds)) in
    (
      b₂,
      h₂,
      p₂,
      rw (sign, run) (ap ok (finish-number minus b₂ rest (decimal 0 (d ∷ ds)) _ some_digit)),
    )
