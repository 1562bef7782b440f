-- ===== src/Collection/IntrusiveList.antt =====
-- inc/ewa_base/collection/intrusive_list.h: `intrusive_list` over `policy_list`. A pointer is a number,
-- NULL is zero, and the store has the field `next` of every node that is alive.
pub mod Linked
pub mod Unlinked
pub mod Taken
pub mod Cleared
pub mod Refines
pub mod Dangling
use ew_base.Prelude.{
  ℕ, zero, suc, ◌+◌, ◌-◌, ◌%◌, ◌^◌, Bool, true, false, not, Option, none, some, ◌==◌, if◌then◌else◌,
}
use ew_base.Prelude.Run.{Run, ok, fault, no_fuel, ◌>>=◌, reads}

abbrev pub update : (ℕ → Option ℕ) → ℕ → Option ℕ → ℕ → Option ℕ
update f p v q = if p == q then v else f q

pub record IntrusiveList : Type 0 where
  pub next : ℕ → Option ℕ
  pub head : ℕ
  pub tail : ℕ
  pub size : ℕ

-- `P::GetNext`
unfoldable pub get_next : ℕ → IntrusiveList → Run ℕ
get_next p s = reads (s.next p)

-- `P::SetNext`
unfoldable pub set_next : ℕ → ℕ → IntrusiveList → Run IntrusiveList
set_next p n s = elim (s.next p) [
  | none ↦ fault
  | some m ↦ ok (record s { next = update s.next p (some n) })
]

-- `P::DeleteNode`
unfoldable pub delete_node : ℕ → IntrusiveList → Run IntrusiveList
delete_node p s = elim (s.next p) [
  | none ↦ fault
  | some m ↦ ok (record s { next = update s.next p none })
]

-- `m_nSize++` and `m_nSize--`
unfoldable pub more : IntrusiveList → IntrusiveList
more s = record s { size = (s.size + 1) % 2 ^ 64 }

unfoldable pub less : IntrusiveList → IntrusiveList
less s = record s { size = (s.size + (2 ^ 64 - 1)) % 2 ^ 64 }

-- `release`
unfoldable pub release : IntrusiveList → IntrusiveList
release s = record s { head = 0; tail = 0; size = 0 }

-- The loop of `clear`.
unfoldable pub clear_loop : ℕ → IntrusiveList → Run IntrusiveList
unfolding get_next delete_node
clear_loop zero s = no_fuel
clear_loop (suc fuel) s =
    if s.head == 0
    then ok s
    else (get_next s.head s >>= λ n.
        delete_node s.head (record s { head = n }) >>= λ t. clear_loop fuel t)

-- Every round takes a node.
unfoldable pub clear : IntrusiveList → Run IntrusiveList
unfolding clear_loop release
clear s = clear_loop (suc s.size) s >>= λ t. ok (release t)

-- The loop of `remove` and that of `detach`, where `drop` is what is done with the node.
unfoldable pub unlink_loop :
    (ℕ → IntrusiveList → Run IntrusiveList) → ℕ → ℕ → ℕ → IntrusiveList → Run (Bool × IntrusiveList)
unfolding get_next set_next less
unlink_loop drop zero p prev s = no_fuel
unlink_loop drop (suc fuel) p prev s =
    if prev == 0
    then ok (false, s)
    else (get_next prev s >>= λ temp.
        if temp == p
        then (get_next p s >>= λ n. set_next prev n s >>= λ t. drop p t >>= λ u. ok (true, less u))
        else unlink_loop drop fuel p temp s)

unfoldable pub unlink :
    (ℕ → IntrusiveList → Run IntrusiveList) → ℕ → IntrusiveList → Run (Bool × IntrusiveList)
unfolding unlink_loop get_next set_next less
unlink drop p s =
    if s.head == 0
    then ok (false, s)
    else if s.head == p
    then (get_next s.head s >>= λ n.
        set_next p 0 (record s { head = n }) >>= λ t. drop p t >>= λ u. ok (true, less u))
    else unlink_loop drop (suc (suc s.size)) p s.head s

unfoldable pub remove : ℕ → IntrusiveList → Run (Bool × IntrusiveList)
unfolding unlink delete_node
remove p s = unlink delete_node p s

unfoldable pub detach : ℕ → IntrusiveList → Run (Bool × IntrusiveList)
unfolding unlink
detach p s = unlink (λ p t. ok t) p s

unfoldable pub append : ℕ → IntrusiveList → Run IntrusiveList
unfolding set_next more
append p s =
    if s.tail == 0
    then ok (record s { head = p; tail = p; size = 1 })
    else (set_next s.tail p s >>= λ t. ok (more (record t { tail = p })))

unfoldable pub insert : ℕ → IntrusiveList → Run IntrusiveList
unfolding set_next more
insert p s =
    if s.head == 0
    then ok (record s { head = p; tail = p; size = 1 })
    else (set_next p s.head s >>= λ t. ok (more (record t { head = p })))

unfoldable pub pop_front : IntrusiveList → Run (ℕ × IntrusiveList)
unfolding get_next less
pop_front s =
    if s.head == 0
    then ok (0, s)
    else (get_next s.head s >>= λ n.
        ok (
          s.head,
          less (if n == 0 then record s { head = n; tail = 0 } else record s { head = n }),
        ))
