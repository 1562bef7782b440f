-- ===== src/Collection/Ring.antt =====
-- inc/ewa_base/collection/lockfree_queue.h: the queue of one reader and one writer.
pub mod Content
pub mod Calls
pub mod Threads
pub mod Interleaving
use ew_base.Prelude.{
  ℕ, ◌+◌, ◌-◌, ◌*◌, ◌/◌, ◌%◌, Bool, true, false, Option, none, some, List, ◌==◌, ltb, if◌then◌else◌,
  length, get_elem?, set,
}
use ew_base.Prelude.Run.{Run, ok, fault, ◌>>=◌, reads}

-- `SRSW_queue_impl`; `items` is its `data`.
pub record Ring (A : Type 0) : Type 0 where
  pub size : ℕ
  pub rd_pos : ℕ
  pub wr_pos : ℕ
  pub items : List A

module _ {A : Type 0} where
  -- `reset(b,d,f)` on `d` bytes, with headers of `header` and elements of `elem` bytes: `fresh n` is
  -- the memory as `n` elements. `none` is the result false.
  pub reset : (fresh : ℕ → List A) (header elem d : ℕ) → Option (Ring A)
  reset fresh header elem d =
      let n = 1 + (d - header) / elem in
      if ltb d header
      then none
      else some (record { size = n; rd_pos = 0; wr_pos = 0; items = fresh n })

  -- `data[i]=t`
  pub store : List A → ℕ → A → Run (List A)
  store xs i t = if ltb i (length xs) then ok (set xs i t) else fault

  -- The position behind `i`.
  abbrev pub next : Ring A → ℕ → ℕ
  next q i = (i + 1) % q.size

  unfoldable pub push : Ring A → A → Run (Ring A × Bool)
  unfolding store
  push q t =
      let wr2 = next q q.wr_pos in
      if wr2 == q.rd_pos
      then ok (q, false)
      else (store q.items q.wr_pos t >>= λ xs. ok (record q { items = xs; wr_pos = wr2 }, true))

  -- `none` is the result false.
  unfoldable pub popq : Ring A → Run (Ring A × Option A)
  popq q =
      if q.rd_pos == q.wr_pos
      then ok (q, none)
      else (reads (get_elem? q.items q.rd_pos) >>= λ t.
          ok (record q { rd_pos = next q q.rd_pos }, some t))
