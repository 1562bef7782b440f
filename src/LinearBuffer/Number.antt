-- ===== src/LinearBuffer/Number.antt =====
-- `read_integer` of linear_buffer.h. A result `none` is an exception. A value has a sign of its own. The
-- `int64_t` and the `int`s wrap around where they overflow, and are given by their 64 and 32 bits.
pub mod Digits
use ew_base.Prelude.{
  ℕ, zero, suc, ◌+◌, ◌-◌, ◌*◌, ◌%◌, ◌^◌, Bool, true, false, Option, none, some, ltb, ◌==◌,
  if◌then◌else◌,
}
use ew_base.Prelude.Run.{Run, ok, fault, no_fuel, ◌>>=◌}
use ew_base.LinearBuffer.{LinearBuffer, eof, get, peek, unget, rd_free}

-- `unsigned d=val-'0'`
unfoldable pub digit : ℕ → ℕ
digit v = if ltb v b'0' then 2 ^ 32 + v - b'0' else v - b'0'

-- `d>10`
unfoldable pub is_beyond : ℕ → Bool
unfolding digit
is_beyond v = ltb 10 (digit v)

unfoldable pub is_point : ℕ → Bool
is_point v = v == b'.'

-- Where the loop stopped: at the end of the buffer, or at an element that it gave back.
pub record Scanned : Type 0 where
  pub buffer : LinearBuffer
  pub at_end : Bool
  pub vv : ℕ
  pub gg : ℕ
  pub kk : ℕ

-- One round of the loop, behind `val=lbuf.get()`; `again` is the next round.
pub number_round :
    (LinearBuffer → ℕ → ℕ → ℕ → ℕ → Run (Option Scanned))
    → LinearBuffer
    → (vv gg kk doted v : ℕ) → Run (Option Scanned)
number_round again b vv gg kk doted v = elim (is_beyond v) [
  | false ↦ again b ((vv * 10 + digit v) % 2 ^ 64) ((gg + doted) % 2 ^ 32) ((kk + 1) % 2 ^ 32) doted
  | true ↦ elim (is_point v) [
    | true ↦ elim (doted == 1) [ true ↦ ok none | false ↦ again b vv gg kk 1 ]
    | false ↦ elim (unget b) [
      | none ↦ ok none
      | some b' ↦ ok (some (record { buffer = b'; at_end = false; vv = vv; gg = gg; kk = kk }))
    ]
  ]
]

-- The loop, with `vv`, `gg`, `kk` and `doted`.
pub number_loop : ℕ → LinearBuffer → ℕ → ℕ → ℕ → ℕ → Run (Option Scanned)
unfolding number_round
number_loop zero b vv gg kk doted = no_fuel
number_loop (suc fuel) b vv gg kk doted = elim (eof b) [
  | true ↦ ok (some (record { buffer = b; at_end = true; vv = vv; gg = gg; kk = kk }))
  | false ↦ get b >>= λ r. elim r.1 [
    | none ↦ ok none
    | some v ↦ number_round (number_loop fuel) r.0 vv gg kk doted v
  ]
]

-- The value that `read_integer` leaves in `vv`, as its size and its sign, and `gg`.
pub record Number : Type 0 where
  pub size : ℕ
  pub negative : Bool
  pub scale : ℕ

-- The signs in front: the buffer behind them, and `sign1`.
unfoldable pub read_sign : LinearBuffer → Run (LinearBuffer × Bool)
read_sign b = peek b >>= λ o. elim o [
  | none ↦ ok (b, false)
  | some val ↦
      if val == b'+'
      then (get b >>= λ r. ok (r.0, false))
      else if val == b'-'
      then (get b >>= λ r. ok (r.0, true))
      else ok (b, false)
]

-- Behind the loop: at the end of the buffer the function returns at once.
unfoldable pub finish : Bool → Scanned → Option (LinearBuffer × Number)
finish sign1 s =
    if s.at_end
    then some (s.buffer, record { size = s.vv; negative = false; scale = s.gg })
    else if s.kk == 0
    then none
    else some (s.buffer, record { size = s.vv; negative = sign1; scale = s.gg })

unfoldable pub read_integer : LinearBuffer → Run (Option (LinearBuffer × Number))
unfolding number_loop digit read_sign finish
read_integer b = read_sign b >>= λ r. number_loop (suc (rd_free (r.0))) (r.0) 0 0 0 0 >>= λ o.
    elim o [ none ↦ ok none | some s ↦ ok (finish (r.1) s) ]
