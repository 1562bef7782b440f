-- ===== src/Collection/Ring/Interleaving.antt =====
-- What holds however the steps of the two threads are interleaved.
use ew_base.Prelude.{
  ◌+◌, ◌%◌, ◌<◌, ◌≡◌, ◌≢◌, refl, sym, ap, ◌∙◌, inl, inr, some, List, [], ◌∷◌, ◌++◌, arith, length,
  length-set, get_elem?, set, get_elem?-set_ne, get_elem?-set_self, append_assoc,
}
use ew_base.Collection.Ring.{Ring, next}
use ew_base.Collection.Ring.Content.{
  Holds, next-bound, next-injective, Holds-snoc, Holds-set, Holds-cases,
}
use ew_base.Collection.Ring.Calls.{IsRing, popped_ring}
use ew_base.Collection.Ring.Threads.{
  Writer, Reader, System, Step, Steps, away, checked, stored, loaded, check_room, write, publish,
  check_item, load, advance, stay, go, start,
}

module _ {A : Type 0} where
  -- What a thread has found out stays true, whatever the other does.
  WriterKnows : Ring A → Writer A → Type 0
  WriterKnows q away = Unit
  WriterKnows q (checked t) = next q q.wr_pos ≢ q.rd_pos
  WriterKnows q (stored t) = (next q q.wr_pos ≢ q.rd_pos) × (get_elem? q.items q.wr_pos ≡ some t)

  ReaderKnows : Ring A → Reader A → Type 0
  ReaderKnows q away = Unit
  ReaderKnows q checked = q.rd_pos ≢ q.wr_pos
  ReaderKnows q (loaded t) = (q.rd_pos ≢ q.wr_pos) × (get_elem? q.items q.rd_pos ≡ some t)

  record Sound (s : System A) (vs : List A) : Type 0 where
    ring_holds : IsRing s.ring vs
    in_order : s.sent ≡ s.received ++ vs
    writer_knows : WriterKnows s.ring s.writer
    reader_knows : ReaderKnows s.ring s.reader

  -- Writing at `wr_pos` does not change what the reader knows.
  reader-write :
      (q : Ring A) (t : A) (r : Reader A)
      → ReaderKnows q r
      → ReaderKnows (record q { items = set q.items q.wr_pos t }) r
  unfolding ReaderKnows
  reader-write q t away k = tt
  reader-write q t checked k = k
  reader-write q t (loaded v) (ne, at) =
      (ne, get_elem?-set_ne q.items q.wr_pos q.rd_pos t (λ e. ne (sym e)) ∙ at)

  reader-publish :
      (q : Ring A) (r : Reader A)
      → next q q.wr_pos ≢ q.rd_pos
      → ReaderKnows q r
      → ReaderKnows (record q { wr_pos = next q q.wr_pos }) r
  unfolding ReaderKnows
  reader-publish q away free k = tt
  reader-publish q checked free k = λ e. free (sym e)
  reader-publish q (loaded v) free (ne, at) = (λ e. free (sym e), at)

  -- The reader's advance keeps the room that the writer found.
  writer-advance :
      (q : Ring A) (w : Writer A)
      → q.rd_pos < q.size
      → q.wr_pos < q.size
      → q.rd_pos ≢ q.wr_pos
      → WriterKnows q w
      → WriterKnows (record q { rd_pos = next q q.rd_pos }) w
  unfolding WriterKnows
  writer-advance q away r w ne k = tt
  writer-advance q (checked t) r w ne k =
      λ e. ne (next-injective q.rd_pos q.wr_pos q.size r w (sym e))
  writer-advance q (stored t) r w ne (free, at) =
      (λ e. ne (next-injective q.rd_pos q.wr_pos q.size r w (sym e)), at)

  known_stored :
      (q : Ring A) (w : Writer A) {t : A}
      → w ≡ stored t
      → WriterKnows q w
      → (next q q.wr_pos ≢ q.rd_pos) × (get_elem? q.items q.wr_pos ≡ some t)
  unfolding WriterKnows
  known_stored q w e k = rw e at k

  known_loaded :
      (q : Ring A) (r : Reader A) {t : A}
      → r ≡ loaded t
      → ReaderKnows q r
      → (q.rd_pos ≢ q.wr_pos) × (get_elem? q.items q.rd_pos ≡ some t)
  unfolding ReaderKnows
  known_loaded q r e k = rw e at k

  first_item :
      (q : Ring A) (t : A) {vs : List A}
      → q.rd_pos ≢ q.wr_pos
      → get_elem? q.items q.rd_pos ≡ some t
      → IsRing q vs
      → (rest : List A) × (vs ≡ t ∷ rest)
        × Holds q.items q.size ((q.rd_pos + 1) % q.size) q.wr_pos rest
  first_item q t ne at h = elim (Holds-cases q.items q.size h.holds) [
    | inl (same, none_left) ↦ absurd (ne same)
    | inr (v, rest, first, ne', at', holds) ↦ (rest, cc, holds)
  ]

  Step-Sound :
      (s s' : System A) (vs : List A) → Sound s vs → Step s s' → (vs' : List A) × Sound s' vs'
  unfolding WriterKnows ReaderKnows
  Step-Sound s s' vs g (check_room t idle free) = (
    vs,
    record {
      ring_holds = g.ring_holds;
      in_order = g.in_order;
      writer_knows = free;
      reader_knows = g.reader_knows;
    },
  )
  Step-Sound s s' vs g (check_item idle ne) = (
    vs,
    record {
      ring_holds = g.ring_holds;
      in_order = g.in_order;
      writer_knows = g.writer_knows;
      reader_knows = ne;
    },
  )
  Step-Sound s s' vs g (load was at) = (
    vs,
    record {
      ring_holds = g.ring_holds;
      in_order = g.in_order;
      writer_knows = g.writer_knows;
      reader_knows = (rw was at g.reader_knows, at);
    },
  )
  Step-Sound s s' vs g (write {t} was) = (
    vs,
    record {
      ring_holds = record {
        full_array = length-set s.ring.items s.ring.wr_pos t ∙ g.ring_holds.full_array;
        read_inside = g.ring_holds.read_inside;
        write_inside = g.ring_holds.write_inside;
        holds = Holds-set s.ring.items s.ring.size t g.ring_holds.holds;
      };
      in_order = g.in_order;
      writer_knows = (
        rw was at g.writer_knows,
        get_elem?-set_self s.ring.items s.ring.wr_pos t
            (omega (arith, g.ring_holds.full_array, g.ring_holds.write_inside)),
      );
      reader_knows = reader-write s.ring t s.reader g.reader_knows;
    },
  )
  Step-Sound s s' vs g (publish {t} was) =
      let (free, at) = known_stored s.ring s.writer was g.writer_knows in
      (
        vs ++ t ∷ [],
        record {
          ring_holds = record {
            full_array = g.ring_holds.full_array;
            read_inside = g.ring_holds.read_inside;
            write_inside = next-bound s.ring.wr_pos s.ring.size g.ring_holds.write_inside;
            holds =
                Holds-snoc s.ring.items s.ring.size t g.ring_holds.full_array
                  g.ring_holds.read_inside g.ring_holds.write_inside free at g.ring_holds.holds;
          };
          in_order = ap (◌++ (t ∷ [])) g.in_order ∙ append_assoc s.received vs (t ∷ []);
          writer_knows = tt;
          reader_knows = reader-publish s.ring s.reader free g.reader_knows;
        },
      )
  Step-Sound s s' vs g (advance {t} was) =
      let (ne, at) = known_loaded s.ring s.reader was g.reader_knows in
      let (rest, first, holds) = first_item s.ring t ne at g.ring_holds in
      (
        rest,
        record {
          ring_holds = popped_ring s.ring g.ring_holds holds;
          in_order =
              g.in_order ∙ ap (s.received ++◌) first ∙ sym (append_assoc s.received (t ∷ []) rest);
          writer_knows =
              writer-advance s.ring s.writer g.ring_holds.read_inside g.ring_holds.write_inside ne
                g.writer_knows;
          reader_knows = tt;
        },
      )

  Steps-Sound :
      (s s' : System A) (vs : List A) → Sound s vs → Steps s s' → (vs' : List A) × Sound s' vs'
  Steps-Sound s s' vs g stay = (vs, g)
  Steps-Sound s s' vs g (go {s' = m} before last) =
      let (vs', g') = Steps-Sound s m vs g before in Step-Sound m s' vs' g' last

  -- What the reader finds where it loads.
  abbrev pub Loadable : Ring A → Reader A → Type 0
  Loadable q away = Unit
  Loadable q checked = (t : A) × (get_elem? q.items q.rd_pos ≡ some t)
  Loadable q (loaded t) = Unit

  loadable :
      (q : Ring A) (r : Reader A) {vs : List A} → IsRing q vs → ReaderKnows q r → Loadable q r
  unfolding ReaderKnows
  loadable q away h k = tt
  loadable q (loaded t) h k = tt
  loadable q checked h k = elim (Holds-cases q.items q.size h.holds) [
    | inl (same, none_left) ↦ absurd (k same)
    | inr (v, rest, first, ne, at, holds) ↦ (v, at)
  ]

  -- From an empty ring on, however the steps of the two threads are interleaved: what was sent is
  -- what was received with the queue in the ring behind it, in the same order; the ring is well
  -- formed; the writing position is in the array, and a reader behind its test finds an element.
  pub Steps-in_order :
      (q : Ring A) (s : System A)
      → IsRing q []
      → Steps (start q) s
      → (vs : List A) × (s.sent ≡ s.received ++ vs)
        × IsRing s.ring vs
        × (s.ring.wr_pos < length s.ring.items)
        × Loadable s.ring s.reader
  unfolding start WriterKnows ReaderKnows
  Steps-in_order q s empty run =
      let g₀ : Sound (start q) [] = record {
        ring_holds = empty;
        in_order = refl;
        writer_knows = tt;
        reader_knows = tt;
      } in
      let (vs, g) = Steps-Sound (start q) s [] g₀ run in
      (
        vs,
        g.in_order,
        g.ring_holds,
        omega (arith, g.ring_holds.full_array, g.ring_holds.write_inside),
        loadable s.ring s.reader g.ring_holds g.reader_knows,
      )
