-- ===== src/LinearBuffer.antt =====
-- inc/ewa_base/collection/linear_buffer.h: `LinearBuffer<char>` and `LinearBufferEx<char>`, a buffer of bytes with
-- a reading and a writing position. `items` is the memory at `pBuffer`; a byte outside of it is a fault.
pub mod Stream
pub mod Growth
pub mod Scan
pub mod Number
use ew_base.Prelude.{
  ℕ, zero, suc, ◌+◌, ◌-◌, ◌*◌, ◌/◌, ◌%◌, ◌^◌, Bool, true, false, not, ◌&&◌, ◌||◌, Option, none,
  some, List, [], ◌∷◌, ◌++◌, min, ltb, leb, ◌==◌, if◌then◌else◌, length, get_elem?, take, drop,
  replicate,
}
use ew_base.Prelude.Run.{Run, ok, fault, ◌>>=◌, reads}
use ew_base.Collection.Capacity.{n2p}

-- `owned` says that `pBuffer` is null or the buffer's own memory `aBuff`.
pub record LinearBuffer : Type 0 where
  pub items : List ℕ
  pub sz_buf : ℕ
  pub rd_pos : ℕ
  pub wr_pos : ℕ
  pub owned : Bool

unfoldable pub rewind : LinearBuffer → LinearBuffer
rewind b = record b { rd_pos = 0; wr_pos = 0 }

unfoldable pub skip : LinearBuffer → LinearBuffer × Bool
skip b = (record b { rd_pos = 0; wr_pos = 0 }, b.wr_pos == b.rd_pos)

unfoldable pub eof : LinearBuffer → Bool
eof b = b.rd_pos == b.wr_pos

-- `none` is the value -1 at the end.
unfoldable pub get : LinearBuffer → Run (LinearBuffer × Option ℕ)
get b =
    if b.rd_pos == b.wr_pos
    then ok (b, none)
    else (reads (get_elem? b.items b.rd_pos) >>= λ v.
        ok (record b { rd_pos = b.rd_pos + 1 }, some v))

unfoldable pub peek : LinearBuffer → Run (Option ℕ)
peek b =
    if b.rd_pos == b.wr_pos
    then ok none
    else (reads (get_elem? b.items b.rd_pos) >>= λ v. ok (some v))

-- `none` is the exception.
unfoldable pub unget : LinearBuffer → Option LinearBuffer
unget b = if b.rd_pos == 0 then none else some (record b { rd_pos = b.rd_pos - 1 })

unfoldable pub wr_flip : LinearBuffer → ℕ → LinearBuffer
wr_flip b n = record b { wr_pos = b.wr_pos + n }

unfoldable pub rd_flip : LinearBuffer → ℕ → LinearBuffer
rd_flip b n = record b { rd_pos = b.rd_pos + n }

unfoldable pub rd_reset : LinearBuffer → LinearBuffer
rd_reset b = record b { rd_pos = 0 }

-- The differences are of `size_t`: the code below keeps the positions in order.
unfoldable pub rd_free : LinearBuffer → ℕ
rd_free b = b.wr_pos - b.rd_pos

unfoldable pub wr_free : LinearBuffer → ℕ
wr_free b = b.sz_buf - b.wr_pos

-- `memcpy` from the memory `xs` at `p`, and to it: it copies bytes, and the elements are bytes.
pub load : List ℕ → ℕ → ℕ → Run (List ℕ)
load xs p n = if leb (p + n) (length xs) then ok (take n (drop p xs)) else fault

pub store : List ℕ → ℕ → List ℕ → Run (List ℕ)
store xs p vs =
    if leb (p + length vs) (length xs)
    then ok (take p xs ++ vs ++ drop (p + length vs) xs)
    else fault

-- `peek(p_,n)`
unfoldable pub peek_n : LinearBuffer → ℕ → Run (List ℕ)
unfolding load
peek_n b n = load b.items b.rd_pos (min n (b.wr_pos - b.rd_pos))

unfoldable pub recv : LinearBuffer → ℕ → Run (LinearBuffer × List ℕ)
unfolding load
recv b n =
    let kp = min n (b.wr_pos - b.rd_pos) in
    load b.items b.rd_pos kp >>= λ vs. ok (record b { rd_pos = b.rd_pos + kp }, vs)

-- `send(p_,n)`, where `vs` is the memory at `p_`, of `n` elements.
unfoldable pub send : LinearBuffer → List ℕ → Run (LinearBuffer × ℕ)
unfolding store
send b vs =
    let n = min (length vs) (b.sz_buf - b.wr_pos) in
    store b.items b.wr_pos (take n vs) >>= λ xs.
    ok (record b { items = xs; wr_pos = b.wr_pos + n }, n)

-- `assign(pbuf_,size_)` on external memory.
unfoldable pub assign : List ℕ → LinearBuffer
assign xs = record { items = xs; sz_buf = length xs; rd_pos = 0; wr_pos = 0; owned = false }

-- `LinearBufferEx<T>::_grow` of src/ewa_base/collection/collection.cpp. `resize` keeps what fits and
-- fills with `pad`; `none` is the exception of `n2p`.
pub resize : ℕ → List ℕ → ℕ → List ℕ
resize pad xs n = take n xs ++ replicate (n - length xs) pad

-- The size that `_grow` asks for.
pub grown_size : ℕ → Option ℕ
grown_size newsize = elim (n2p ((newsize + newsize / 2 ^ 2) % 2 ^ 64)) [
  | none ↦ none
  | some k ↦ some (if leb (k - 1) newsize then (newsize * 2 + 1) % 2 ^ 64 else k - 1)
]

unfoldable pub grow : ℕ → LinearBuffer → ℕ → Option (LinearBuffer × Bool)
unfolding resize
grow pad b newsize = if not b.owned then some (b, false) else elim (grown_size newsize) [
  | none ↦ none
  | some size ↦ some (record b { items = resize pad b.items size; sz_buf = size }, true)
]

-- `LinearBufferEx<T>::send(p_,n)` behind the growth.
pub send_all : LinearBuffer → List ℕ → Run (LinearBuffer × ℕ)
unfolding store
send_all b vs = store b.items b.wr_pos vs >>= λ xs.
    ok (record b { items = xs; wr_pos = b.wr_pos + length vs }, length vs)

-- `LinearBufferEx<T>::send(p_,n)`
unfoldable pub send_ex : ℕ → LinearBuffer → List ℕ → Run (Option (LinearBuffer × ℕ))
unfolding send_all
send_ex pad b vs =
    let wr_max = (b.wr_pos + length vs) % 2 ^ 64 in
    if ltb b.sz_buf wr_max
    then elim (grow pad b wr_max) [
      | none ↦ ok none
      | some (b', true) ↦ send_all b' vs >>= λ r. ok (some r)
      | some (b', false) ↦ ok (some (b', 0))
    ]
    else (send_all b vs >>= λ r. ok (some r))
