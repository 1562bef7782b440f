-- ===== src/Collection/Ring/Threads.antt =====
-- inc/ewa_base/collection/lockfree_queue.h: one thread that calls `SRSW_queue_impl::push` and one that
-- calls `popq`, with every access to the shared fields a step of its own, in the order of the source
-- and seen at once by the other thread.
use ew_base.Prelude.{◌≡◌, ◌≢◌, some, List, [], ◌∷◌, ◌++◌, get_elem?, set}
use ew_base.Collection.Ring.{Ring, next}

-- Where the writing thread stands: outside of `push`, behind the test, or behind the write of the
-- element.
pub data Writer (A : Type 0) : Type 0 where
  away : Writer A
  checked : A → Writer A
  stored : A → Writer A

-- Where the reading thread stands: outside of `popq`, behind the test, or with the element read.
pub data Reader (A : Type 0) : Type 0 where
  away : Reader A
  checked : Reader A
  loaded : A → Reader A

-- The ring, the two threads, and what they have sent and received so far.
pub record System (A : Type 0) : Type 0 where
  pub ring : Ring A
  pub writer : Writer A
  pub reader : Reader A
  pub sent : List A
  pub received : List A

module _ {A : Type 0} where
  -- A call that returns false changes nothing.
  pub data Step (s : System A) : System A → Type 0 where
    check_room :
        (t : A)
        → s.writer ≡ away
        → next s.ring s.ring.wr_pos ≢ s.ring.rd_pos
        → Step s (record s { writer = checked t })
    write :
        {t : A}
        → s.writer ≡ checked t
        → Step s (record s {
          writer = stored t;
          ring = record s.ring { items = set s.ring.items s.ring.wr_pos t };
        })
    publish :
        {t : A}
        → s.writer ≡ stored t
        → Step s (record s {
          writer = away;
          ring = record s.ring { wr_pos = next s.ring s.ring.wr_pos };
          sent = s.sent ++ t ∷ [];
        })
    check_item :
        s.reader ≡ away → s.ring.rd_pos ≢ s.ring.wr_pos → Step s (record s { reader = checked })
    load :
        {t : A}
        → s.reader ≡ checked
        → get_elem? s.ring.items s.ring.rd_pos ≡ some t
        → Step s (record s { reader = loaded t })
    advance :
        {t : A}
        → s.reader ≡ loaded t
        → Step s (record s {
          reader = away;
          ring = record s.ring { rd_pos = next s.ring s.ring.rd_pos };
          received = s.received ++ t ∷ [];
        })

  pub data Steps : System A → System A → Type 0 where
    stay : {s : System A} → Steps s s
    go : {s s' s'' : System A} → Steps s s' → Step s' s'' → Steps s s''

  -- Both threads outside of their calls, and nothing sent yet.
  unfoldable pub start : Ring A → System A
  start q = record { ring = q; writer = away; reader = away; sent = []; received = [] }
