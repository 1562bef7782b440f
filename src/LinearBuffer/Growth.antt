-- ===== src/LinearBuffer/Growth.antt =====
-- The buffer that grows: nothing that is sent is cut off.
use ew_base.Prelude.{
  ℕ, zero, suc, ◌+◌, ◌-◌, ◌*◌, ◌/◌, ◌%◌, ◌^◌, ◌≤◌, ◌<◌, ◌≡◌, refl, sym, ap, ◌∙◌, ◌⊎◌, inl, inr,
  Bool, not, true, false, Bool-cases, Option, none, some, List, [], ◌∷◌, ◌++◌, ltb, leb,
  if◌then◌else◌, length, take, drop, replicate, length-take, length-replicate, length-append, arith,
}
use ew_base.Prelude.Run.{Run, ok, ◌>>=◌}
use native.Mathlib.Decide.{dec_le}
use ew_base.Collection.Capacity.{n2p-RoundsUp, n2p-none}
use ew_base.LinearBuffer.{LinearBuffer, store, resize, grown_size, grow, send_all, send_ex}
use ew_base.LinearBuffer.Stream.{IsBuffer, pending, splice, length-splice}

take-take_append :
    (w n : ℕ) (xs ys : List ℕ) → w ≤ length xs → w ≤ n → take w (take n xs ++ ys) ≡ take w xs
take-take_append zero n xs ys h l = refl
take-take_append (suc w) zero xs ys h l = absurd (omega arith)
take-take_append (suc w) (suc n) [] ys h l = absurd (omega arith)
take-take_append (suc w) (suc n) (x ∷ xs) ys h l =
    ap (x ∷◌) (take-take_append w n xs ys (omega arith) (omega arith))

-- What the size that `_grow` asks for is, for a size at which nothing wraps around.
grown_size-cases :
    (n : ℕ)
    → n < 2 ^ 63
    → ((2 ^ 63 < n + n / 4) × (grown_size n ≡ none)) ⊎ ((k : ℕ) × (grown_size n ≡ some k) × (n < k))
unfolding grown_size
grown_size-cases n small =
    let quarter : (n + n / 4) % 2 ^ 64 ≡ n + n / 4 = omega arith in
    let twice : (n * 2 + 1) % 2 ^ 64 ≡ n * 2 + 1 = omega arith in
    elim (dec_le (n + n / 4) (2 ^ 63)) [
      | no big ↦
          inl (omega arith, rw (grown_size, quarter, n2p-none (n + n / 4) (omega arith)) refl)
      | yes fits ↦
          let (k, e, up) = n2p-RoundsUp (n + n / 4) fits in
          elim (Bool-cases (leb (k - 1) n)) [
            | inl t ↦ inr (n * 2 + 1, rw (grown_size, quarter, e, t, twice) refl, omega arith)
            | inr t ↦ inr (k - 1, rw (grown_size, quarter, e, t) refl, ground arith)
          ]
    ]

send_all-pending :
    (b : LinearBuffer) (vs : List ℕ)
    → IsBuffer b
    → b.wr_pos + length vs ≤ b.sz_buf
    → (b' : LinearBuffer) × (send_all b vs ≡ ok (b', length vs))
      × IsBuffer b'
      × (pending b' ≡ pending b ++ vs)
unfolding send_all store pending
send_all-pending b vs h room =
    let fits : b.wr_pos + length vs ≤ length b.items = omega (arith, h.allocated) in
    let inside : leb (b.wr_pos + length vs) (length b.items) ≡ true = ground arith in
    (
      record b {
        items = take b.wr_pos b.items ++ vs ++ drop (b.wr_pos + length vs) b.items;
        wr_pos = b.wr_pos + length vs;
      },
      rw inside refl,
      record {
        ordered = omega (arith, h.ordered);
        written = room;
        allocated = h.allocated ∙ sym (length-splice b.items vs b.wr_pos fits);
      },
      splice b.items vs b.rd_pos b.wr_pos h.ordered fits,
    )

-- The buffer with the memory of `size` elements, where there were fewer.
pub grown : ℕ → LinearBuffer → ℕ → LinearBuffer
unfolding resize
grown pad b size = record b { items = resize pad b.items size; sz_buf = size }

grown-IsBuffer :
    (pad : ℕ) (b : LinearBuffer) (size : ℕ)
    → IsBuffer b
    → b.wr_pos ≤ size
    → IsBuffer (grown pad b size) × (pending (grown pad b size) ≡ pending b)
unfolding grown resize pending
grown-IsBuffer pad b size h room = (
  record {
    ordered = h.ordered;
    written = room;
    allocated = omega (
      arith,
      length-append (take size b.items) (replicate (size - length b.items) pad),
      length-take size b.items,
      length-replicate (size - length b.items) pad,
    );
  },
  ap (drop b.rd_pos) (
      take-take_append b.wr_pos size b.items (replicate (size - length b.items) pad)
        (omega (arith, h.written, h.allocated)) room),
)

owned_branch : {A : Type 0} (x : A) {y : A} {o : Bool} → o ≡ true → (if not o then x else y) ≡ y
owned_branch x e = rw e refl

grow-cases :
    (pad : ℕ) (b : LinearBuffer) (n : ℕ)
    → n < 2 ^ 63
    → ((b.owned ≡ false) × (grow pad b n ≡ some (b, false)))
      ⊎ (((2 ^ 63 < n + n / 4) × (grow pad b n ≡ none))
          ⊎ ((k : ℕ) × (grow pad b n ≡ some (grown pad b k, true)) × (n < k)))
unfolding grow grown
grow-cases pad b n small = elim (Bool-cases b.owned) [
  | inr theirs ↦ inl (theirs, rw theirs refl)
  | inl ours ↦ elim (grown_size-cases n small) [
    | inl (big, e) ↦ inr (inl (big, rw e (owned_branch (some (b, false)) ours)))
    | inr (k, e, more) ↦ inr (inr (k, rw e (owned_branch (some (b, false)) ours), more))
  ]
]

-- The result of `send_ex`.
pub data Sends (b : LinearBuffer) (vs : List ℕ) : Run (Option (LinearBuffer × ℕ)) → Type 0 where
  sent :
      (b' : LinearBuffer)
      → IsBuffer b'
      → pending b' ≡ pending b ++ vs
      → Sends b vs (ok (some (b', length vs)))
  foreign : b.owned ≡ false → b.sz_buf < b.wr_pos + length vs → Sends b vs (ok (some (b, 0)))
  threw : 2 ^ 63 < b.wr_pos + length vs + (b.wr_pos + length vs) / 4 → Sends b vs (ok none)

sends :
    (b c : LinearBuffer) (vs : List ℕ)
    → IsBuffer c
    → pending c ≡ pending b
    → c.wr_pos + length vs ≤ c.sz_buf
    → Sends b vs (send_all c vs >>= λ r. ok (some r))
sends b c vs h same room =
    let (b', e, h', p) = send_all-pending c vs h room in rw e (sent b' h' (cc))

-- LinearBufferEx<char>::send on a well-formed buffer does not fault, where the writing position and
-- the number of bytes are below 2 ^ 63 together. Either all bytes are behind what was pending, in a well-formed
-- buffer, or they do not fit into foreign memory, which does not grow, and nothing is changed, or an
-- exception is thrown, and then the size wanted and a quarter are more than 2 ^ 63.
pub send_ex-Sends :
    (pad : ℕ) (b : LinearBuffer) (vs : List ℕ)
    → IsBuffer b
    → b.wr_pos + length vs < 2 ^ 63
    → Sends b vs (send_ex pad b vs)
unfolding send_ex grown
send_ex-Sends pad b vs h small =
    let wanted : (b.wr_pos + length vs) % 2 ^ 64 ≡ b.wr_pos + length vs = omega arith in
    rw wanted (elim (Bool-cases (ltb b.sz_buf (b.wr_pos + length vs))) [
      | inr fits ↦ rw fits (sends b b vs h refl (ground arith))
      | inl full ↦ elim (grow-cases pad b (b.wr_pos + length vs) small) [
        | inl (theirs, e) ↦ rw (full, e) (foreign theirs (ground arith))
        | inr (inl (big, e)) ↦ rw (full, e) (threw big)
        | inr (inr (k, e, more)) ↦
            let (h', same) = grown-IsBuffer pad b k h (omega arith) in
            rw (full, e) (sends b (grown pad b k) vs h' same (omega arith))
      ]
    ])
