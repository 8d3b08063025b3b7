-- ===== src/Part1/Store.antt =====
-- The structures of Part1/src/eventlist.h and the memory that they live in, one heap for each type of
-- object. The array `data` of an event is kept in the event, as `seats`.
use so.Base.{ℕ, List, Option}
use so.Base.Nodes.{Ptr, Heap, write}
use so.Chain.{Node}

pub record Event : Type 0 where
  pub id : ℕ
  pub reservations : ℕ
  pub seats : List ℕ
  pub cols : ℕ
  pub rows : ℕ

-- `struct ListNode`: its item is the address of the event.
abbrev pub ListNode : Type 0
ListNode = Node Ptr

pub record EventList : Type 0 where
  pub head : Ptr
  pub tail : Ptr

pub record Store : Type 0 where
  pub lists : Heap EventList
  pub nodes : Heap ListNode
  pub events : Heap Event

abbrev pub put_list : Store → Ptr → Option EventList → Store
put_list s p c = record s { lists = write s.lists p c }

abbrev pub put_node : Store → Ptr → Option ListNode → Store
put_node s p c = record s { nodes = write s.nodes p c }

abbrev pub put_event : Store → Ptr → Option Event → Store
put_event s p c = record s { events = write s.events p c }
