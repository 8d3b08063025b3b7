-- ===== src/Server/EventList.antt =====
-- Part2/src/server/eventlist.c over an explicit memory. `malloc` and `pthread_rwlock_init` are
-- arguments: the address that they return (`null` when memory is exhausted) and their success.
-- The two loops run on fuel; `out_of_fuel` is not a result of the C code.
pub mod Shape
pub mod Append
pub mod Find
pub mod Free
use so.Base.{ℕ, zero, suc, ◌+◌, Bool, true, false, ◌||◌, Option, none, some, ◌==◌, if◌then◌else◌}
use so.Base.Nodes.{Ptr, null, Run, ok, fault, out_of_fuel, ◌>>=◌, load}
use so.Chain.{Node, node}
use so.Server.Store.{Event, EventList, ListNode, Store, unlocked, put_list, put_node, put_event}

-- What `create_list` needs from the libraries.
pub record ListResources : Type 0 where
  pub list : Ptr
  pub rwlock_init : Bool

unfoldable pub create_list : ListResources → Store → Ptr × Store
create_list os s =
    if os.list == null
    then (null, s)
    else (if os.rwlock_init
        then (
          os.list,
          put_list s os.list
              (some (record { event_num = 0; head = null; tail = null; rwl = unlocked })),
        )
        else (null, put_list s os.list none))

-- `list->tail->next = new_node`
set_next : Ptr → Ptr → Store → Run Store
set_next p new s = do n ← load s.nodes p; ok (put_node s p (some (record n { next = new })))

-- The two branches that link the new node.
link : Ptr → Ptr → EventList → Store → Run Store
unfolding set_next
link list new l s =
    if l.head == null
    then ok
        (put_list s list (some (record l { head = new; tail = new; event_num = l.event_num + 1 })))
    else do
      s' ← set_next l.tail new s
      ok (put_list s' list (some (record l { tail = new; event_num = l.event_num + 1 })))

unfoldable pub append_to_list : (new_node : Ptr) → Ptr → Ptr → Store → Run (ℕ × Store)
unfolding link
append_to_list new_node list event s =
    if list == null
    then ok (1, s)
    else (if new_node == null then ok (1, s) else do
      let s₁ = put_node s new_node (some (node event null))
      l ← load s₁.lists list
      s' ← link list new_node l s₁
      ok (0, s'))

-- The loop of `get_event`, from `current` up to and with `to`.
search_from : ℕ → Store → ℕ → Ptr → Ptr → Run Ptr
search_from zero s event_id current to = out_of_fuel
search_from (suc k) s event_id current to = do
  n ← load s.nodes current
  e ← load s.events n.item
  let rest = search_from k s event_id n.next to
  if e.id == event_id then ok n.item else if current == to then ok null else rest

unfoldable pub get_event : ℕ → Store → Ptr → ℕ → Ptr → Ptr → Run Ptr
unfolding search_from
get_event fuel s list event_id from to =
    if (list == null) || ((from == null) || (to == null))
    then ok null
    else search_from fuel s event_id from to

-- `free(p)` of an event: a fault if it is not there.
free_event : Ptr → Store → Run Store
free_event event s =
    if event == null then ok s else do e ← load s.events event; ok (put_event s event none)

free_nodes : ℕ → Ptr → Store → Run Store
free_nodes zero current s = out_of_fuel
free_nodes (suc k) current s = if current == null then ok s else do
  n ← load s.nodes current
  s' ← free_event n.item s
  free_nodes k n.next (put_node s' current none)

unfoldable pub free_list : ℕ → Ptr → Store → Run Store
unfolding free_nodes free_event
free_list fuel list s =
    if list == null
    then ok s
    else do l ← load s.lists list; s' ← free_nodes fuel l.head s; ok (put_list s' list none)
