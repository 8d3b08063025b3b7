-- ===== src/Server/Store.antt =====
-- The structures of Part2/src/server/eventlist.h and the memory that they live in, one heap for
-- each type of object. The array `data` of an event is kept in the event, as `seats`.
-- A lock is modelled by the state in which the calls of the running thread leave it; whether a
-- call is granted is the answer of the thread library, a Boolean argument.
use so.Base.{ℕ, Bool, List, Option, some}
use so.Base.Nodes.{Ptr, Heap, Run, ok, ◌>>=◌, load, write}
pub use so.Base.Locks.{RwLock, unlocked, rdlocked, wrlocked}
use so.Chain.{Node}

pub record Event : Type 0 where
  pub id : ℕ
  pub reservations : ℕ
  pub cols : ℕ
  pub rows : ℕ
  pub seats : List ℕ
  pub mutex : Bool

pub record EventList : Type 0 where
  pub event_num : ℕ
  pub head : Ptr
  pub tail : Ptr
  pub rwl : RwLock

-- `struct ListNode`: its item is the address of the event.
abbrev pub ListNode : Type 0
ListNode = Node Ptr

pub record Store : Type 0 where
  pub lists : Heap EventList
  pub nodes : Heap ListNode
  pub events : Heap Event

abbrev pub put_list : Store → Ptr → Option EventList → Store
put_list s p c = record s { lists = write s.lists p c }

abbrev pub put_node : Store → Ptr → Option ListNode → Store
put_node s p c = record s { nodes = write s.nodes p c }

abbrev pub put_event : Store → Ptr → Option Event → Store
put_event s p c = record s { events = write s.events p c }

-- The store after a lock of a list is set: a fault if the list is not there.
unfoldable pub set_rwl : RwLock → Ptr → Store → Run Store
set_rwl k p s = do l ← load s.lists p; ok (put_list s p (some (record l { rwl = k })))

unfoldable pub set_mutex : Bool → Ptr → Store → Run Store
set_mutex b p s = do e ← load s.events p; ok (put_event s p (some (record e { mutex = b })))
