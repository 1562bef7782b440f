-- ===== src/Collection/Ring/Calls.antt =====
-- The calls of a ring against the queue that it stands for.
use ew_base.Prelude.{
  ◌+◌, ◌%◌, ◌<◌, ◌≡◌, ◌≢◌, ◌∙◌, inl, inr, Bool, true, false, Bool-cases, Option, some, none, List,
  [], ◌∷◌, ◌++◌, arith, length, length-set, set, get_elem?-set_self, ◌==◌, ltb,
}
use ew_base.Prelude.Run.{Run, ok}
use ew_base.Collection.Ring.{Ring, store, push, popq}
use ew_base.Collection.Ring.Content.{Holds, next-bound, Holds-snoc, Holds-set, Holds-cases}

module _ {A : Type 0} where
  -- A ring whose positions are in the array, with the queue `vs` in it.
  pub record IsRing (q : Ring A) (vs : List A) : Type 0 where
    pub full_array : length q.items ≡ q.size
    pub read_inside : q.rd_pos < q.size
    pub write_inside : q.wr_pos < q.size
    pub holds : Holds q.items q.size q.rd_pos q.wr_pos vs

  pub pushed_ring :
      (q : Ring A) (vs : List A) (t : A)
      → IsRing q vs
      → (q.wr_pos + 1) % q.size ≢ q.rd_pos
      → IsRing
          (record q { items = set q.items q.wr_pos t; wr_pos = (q.wr_pos + 1) % q.size })
          (vs ++ t ∷ [])
  pushed_ring q vs t r free = record {
    full_array = length-set q.items q.wr_pos t ∙ r.full_array;
    read_inside = r.read_inside;
    write_inside = next-bound q.wr_pos q.size r.write_inside;
    holds =
        Holds-snoc (set q.items q.wr_pos t) q.size t (length-set q.items q.wr_pos t ∙ r.full_array)
          r.read_inside r.write_inside free
          (get_elem?-set_self q.items q.wr_pos t (omega (arith, r.full_array, r.write_inside)))
          (Holds-set q.items q.size t r.holds);
  }

  pub data Pushes (q : Ring A) (vs : List A) (t : A) : Run (Ring A × Bool) → Type 0 where
    pushed : (q' : Ring A) → IsRing q' (vs ++ t ∷ []) → Pushes q vs t (ok (q', true))
    full : (q.wr_pos + 1) % q.size ≡ q.rd_pos → Pushes q vs t (ok (q, false))

  -- `push` on a ring with the queue `vs` does not fault: it returns true and the element is at the
  -- end of the queue, or false and nothing is changed, and then the position behind the writing
  -- position is the reading position.
  pub push-Pushes : (q : Ring A) (vs : List A) (t : A) → IsRing q vs → Pushes q vs t (push q t)
  unfolding push store
  push-Pushes q vs t r =
      let w : ltb q.wr_pos (length q.items) ≡ true = ground (arith, r.full_array, r.write_inside) in
      elim (Bool-cases ((q.wr_pos + 1) % q.size == q.rd_pos)) [
        | inl e ↦ rw e (full (ground arith))
        | inr e ↦ rw (e, w) (pushed _ (pushed_ring q vs t r (λ same. absurd (ground arith))))
      ]

  pub data Pops (q : Ring A) (vs : List A) : Run (Ring A × Option A) → Type 0 where
    popped :
        (q' : Ring A) (v : A) (rest : List A)
        → vs ≡ v ∷ rest
        → IsRing q' rest
        → Pops q vs (ok (q', some v))
    empty : vs ≡ [] → Pops q vs (ok (q, none))

  pub popped_ring :
      (q : Ring A) {vs rest : List A}
      → IsRing q vs
      → Holds q.items q.size ((q.rd_pos + 1) % q.size) q.wr_pos rest
      → IsRing (record q { rd_pos = (q.rd_pos + 1) % q.size }) rest
  popped_ring q r holds = record {
    full_array = r.full_array;
    read_inside = next-bound q.rd_pos q.size r.read_inside;
    write_inside = r.write_inside;
    holds = holds;
  }

  -- `popq` on a ring with the queue `vs` does not fault: it returns the first element and leaves the
  -- others, or false and nothing is changed, and then the queue is empty.
  pub popq-Pops : (q : Ring A) (vs : List A) → IsRing q vs → Pops q vs (popq q)
  unfolding popq
  popq-Pops q vs r = elim (Holds-cases q.items q.size r.holds) [
    | inl (same, none_left) ↦
        let e : (q.rd_pos == q.wr_pos) ≡ true = ground arith in rw e (empty none_left)
    | inr (v, rest, first, ne, at, holds) ↦
        let e : (q.rd_pos == q.wr_pos) ≡ false = ground arith in
        rw (e, at) (popped _ v rest first (popped_ring q r holds))
  ]
