-- ===== src/Part1/EventList.antt =====
-- Part1/src/eventlist.c over an explicit memory. The addresses that `malloc` returns are arguments,
-- `null` when memory is exhausted. The two loops run on fuel; `out_of_fuel` is not a result of the C
-- code.
pub mod Shape
pub mod Append
pub mod Find
pub mod Free
use so.Base.{ℕ, zero, suc, none, some, ◌==◌, if◌then◌else◌}
use so.Base.Nodes.{Ptr, null, Run, ok, out_of_fuel, ◌>>=◌, load}
use so.Chain.{node}
use so.Part1.Store.{EventList, Store, put_list, put_node, put_event}

unfoldable pub create_list : (list : Ptr) → Store → Ptr × Store
create_list list s =
    if list == null
    then (null, s)
    else (list, put_list s list (some (record { head = null; tail = null })))

-- `list->tail->next = new_node`
set_next : Ptr → Ptr → Store → Run Store
set_next p new s = do n ← load s.nodes p; ok (put_node s p (some (record n { next = new })))

-- The two branches that link the new node.
link : Ptr → Ptr → EventList → Store → Run Store
unfolding set_next
link list new l s =
    if l.head == null
    then ok (put_list s list (some (record l { head = new; tail = new })))
    else do s' ← set_next l.tail new s; ok (put_list s' list (some (record l { tail = new })))

unfoldable pub append_to_list : (new_node : Ptr) → Ptr → Ptr → Store → Run (ℕ × Store)
unfolding link
append_to_list new_node list event s =
    if list == null
    then ok (1, s)
    else (if new_node == null then ok (1, s) else do
      let s₁ = put_node s new_node (some (node event null))
      l ← load s₁.lists list
      s' ← link list new_node l s₁
      ok (0, s'))

-- The loop of `get_event`.
search : ℕ → Store → ℕ → Ptr → Run Ptr
search zero s event_id current = out_of_fuel
search (suc k) s event_id current = if current == null then ok null else do
  n ← load s.nodes current
  e ← load s.events n.item
  let rest = search k s event_id n.next
  if e.id == event_id then ok n.item else rest

unfoldable pub get_event : ℕ → Store → Ptr → ℕ → Run Ptr
unfolding search
get_event fuel s list event_id =
    if list == null then ok null else do l ← load s.lists list; search fuel s event_id l.head

-- `free(p)` of an event and its seats: a fault if it is not there.
free_event : Ptr → Store → Run Store
free_event event s =
    if event == null then ok s else do e ← load s.events event; ok (put_event s event none)

free_nodes : ℕ → Ptr → Store → Run Store
free_nodes zero current s = out_of_fuel
free_nodes (suc k) current s = if current == null then ok s else do
  n ← load s.nodes current
  s' ← free_event n.item s
  free_nodes k n.next (put_node s' current none)

unfoldable pub free_list : ℕ → Ptr → Store → Run Store
unfolding free_nodes free_event
free_list fuel list s =
    if list == null
    then ok s
    else do l ← load s.lists list; s' ← free_nodes fuel l.head s; ok (put_list s' list none)
