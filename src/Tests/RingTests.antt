-- ===== src/Tests/RingTests.antt =====
-- A ring of three positions.
use ew_base.Prelude.{ℕ, ◌<◌, false, some, List, [], ◌∷◌, ◌++◌, ◌≡◌, refl, arith, length}
use ew_base.Prelude.Run.{ok, ◌>>=◌}
use ew_base.Collection.Ring.{Ring, push, popq}
use ew_base.Collection.Ring.Content.{nothing, more}
use ew_base.Collection.Ring.Calls.{IsRing, Pushes, push-Pushes, Pops, popq-Pops}
use ew_base.Collection.Ring.Threads.{
  System, Reader, start, Steps, stay, go, check_room, write, publish, check_item,
}
use ew_base.Collection.Ring.Interleaving.{Loadable, Steps-in_order}

abbrev empty_ring : Ring ℕ
empty_ring = record { size = 3; rd_pos = 0; wr_pos = 0; items = 7 ∷ 7 ∷ 7 ∷ [] }

abbrev one_item : Ring ℕ
one_item = record { size = 3; rd_pos = 0; wr_pos = 1; items = 5 ∷ 7 ∷ 7 ∷ [] }

-- The ring holds two elements; the third is refused.
push_three :
    (push empty_ring 5 >>= (λ r. push (r.0) 6) >>= (λ r. push (r.0) 8) >>= (λ r. ok (r.1)))
    ≡ ok false
unfolding push
push_three = refl

pop_first :
    (push empty_ring 5 >>= (λ r. push (r.0) 6) >>= (λ r. popq (r.0)) >>= (λ r. ok (r.1)))
    ≡ ok (some 5)
unfolding push popq
pop_first = refl

empty_ring-IsRing : IsRing empty_ring []
empty_ring-IsRing = record {
  full_array = refl;
  read_inside = omega arith;
  write_inside = omega arith;
  holds = nothing;
}

one_item-IsRing : IsRing one_item (5 ∷ [])
one_item-IsRing = record {
  full_array = refl;
  read_inside = omega arith;
  write_inside = omega arith;
  holds = more (λ e. absurd (omega (arith, e))) refl nothing;
}

push_example : Pushes one_item (5 ∷ []) 6 (push one_item 6)
push_example = push-Pushes one_item (5 ∷ []) 6 one_item-IsRing

pop_example : Pops one_item (5 ∷ []) (popq one_item)
pop_example = popq-Pops one_item (5 ∷ []) one_item-IsRing

-- The writer has sent 5, and the reader has seen it.
abbrev seen : System ℕ
seen = record (start empty_ring) { ring = one_item; reader = Reader.checked; sent = 5 ∷ [] }

to_seen : Steps (start empty_ring) seen
unfolding start
to_seen =
    go
      (go (go (go stay (check_room 5 refl (λ e. absurd (omega (arith, e))))) (write refl))
        (publish refl))
      (check_item refl (λ e. absurd (omega (arith, e))))

in_order_example :
    (vs : List ℕ) × ((seen).sent ≡ (seen).received ++ vs)
    × IsRing (seen).ring vs
    × ((seen).ring.wr_pos < length (seen).ring.items)
    × Loadable (seen).ring (seen).reader
in_order_example = Steps-in_order empty_ring seen empty_ring-IsRing to_seen
