-- ===== src/Tests/BufferTests.antt =====
-- A buffer of four elements with two pending ones, and numbers.
use ew_base.Prelude.{
  ℕ, ◌<◌, ◌^◌, ◌-◌, true, false, some, none, List, [], ◌∷◌, ◌++◌, ◌≡◌, refl, arith, length, min,
  take,
}
use ew_base.Prelude.Run.{ok, ◌>>=◌}
use ew_base.LinearBuffer.{LinearBuffer, peek, get, eof, rd_free, send, recv, send_ex}
use ew_base.LinearBuffer.Stream.{IsBuffer, pending, recv-pending, send-pending}
use ew_base.LinearBuffer.Growth.{Sends, send_ex-Sends}
use ew_base.LinearBuffer.Scan.{skip_space, is_space}
use ew_base.LinearBuffer.Scan.Skips.{drop_while, skip_space-drop_while}
use ew_base.LinearBuffer.Number.{read_integer, is_beyond, is_point, digit}
use ew_base.LinearBuffer.Number.Digits.{decimal, read_integer-decimal, text, sign_text}

abbrev two_pending : LinearBuffer
two_pending = record {
  items = 1 ∷ 2 ∷ 3 ∷ 9 ∷ [];
  sz_buf = 4;
  rd_pos = 1;
  wr_pos = 3;
  owned = true;
}

two_pending-IsBuffer : IsBuffer two_pending
two_pending-IsBuffer = record { ordered = omega arith; written = omega arith; allocated = refl }

recv_example :
    (b' : LinearBuffer) × (vs : List ℕ) × (recv two_pending 1 ≡ ok (b', vs))
    × IsBuffer b'
    × (pending two_pending ≡ vs ++ pending b')
    × (length vs ≡ min 1 (length (pending two_pending)))
recv_example = recv-pending two_pending 1 two_pending-IsBuffer

abbrev three : List ℕ
three = 4 ∷ 5 ∷ 6 ∷ []

send_example :
    (b' : LinearBuffer) × (send two_pending three ≡ ok (b', min (length three) (4 - 3)))
    × IsBuffer b'
    × (pending b' ≡ pending two_pending ++ take (min (length three) (4 - 3)) three)
send_example = send-pending two_pending three two_pending-IsBuffer

send_ex_example : Sends two_pending three (send_ex 0 two_pending three)
send_ex_example = send_ex-Sends 0 two_pending three two_pending-IsBuffer (omega arith)

-- "-52", and the same with a space behind it.
abbrev number_end : LinearBuffer
number_end = record {
  items = b'-' ∷ b'5' ∷ b'2' ∷ [];
  sz_buf = 3;
  rd_pos = 0;
  wr_pos = 3;
  owned = true;
}

abbrev number_space : LinearBuffer
number_space = record {
  items = b'-' ∷ b'5' ∷ b'2' ∷ 32 ∷ [];
  sz_buf = 4;
  rd_pos = 0;
  wr_pos = 4;
  owned = true;
}

number_space-IsBuffer : IsBuffer number_space
number_space-IsBuffer = record { ordered = omega arith; written = omega arith; allocated = refl }

-- At the end of the buffer the sign is lost.
read_end :
    (read_integer number_end >>= (λ o. elim o [ none ↦ ok none | some r ↦ ok (some (r.1)) ]))
    ≡ ok (some (record { size = 52; negative = false; scale = 0 }))
unfolding read_integer peek get eof is_beyond rd_free
read_end = refl

space-pending : pending number_space ≡ sign_text true ++ text (5 ∷ 2 ∷ []) ++ (32 ∷ [])
unfolding pending sign_text text
space-pending = refl

stops : (is_beyond 32 ≡ true) × (is_point 32 ≡ false)
unfolding is_beyond is_point digit
stops = (refl, refl)

small_value : decimal 0 (5 ∷ 2 ∷ []) < 2 ^ 63
unfolding decimal
small_value = omega arith

number_example :
    (b' : LinearBuffer) × IsBuffer b'
    × (pending b' ≡ 32 ∷ [])
    × (read_integer number_space
        ≡ ok (some (b', record { size = decimal 0 (5 ∷ 2 ∷ []); negative = true; scale = 0 })))
number_example =
    read_integer-decimal number_space true 5 (2 ∷ []) (32 ∷ []) number_space-IsBuffer (omega arith)
      stops space-pending small_value (omega arith)

skip_example :
    (b' : LinearBuffer) × (skip_space two_pending ≡ ok (some b'))
    × IsBuffer b'
    × (pending b' ≡ drop_while is_space (pending two_pending))
skip_example = skip_space-drop_while two_pending two_pending-IsBuffer
