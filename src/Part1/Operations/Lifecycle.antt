-- ===== src/Part1/Operations/Lifecycle.antt =====
-- `ems_init` and `ems_terminate` of Part 1.
use so.Base.{ℕ, ◌<◌, ◌≡◌, ◌≢◌, false, ◌==◌, List, [], refl, arith, length, ==-false}
use so.Base.Nodes.{Ptr, null, ok}
use so.Chain.{has}
use so.Chain.Owned.{has_item, length-Owns}
use so.Chain.Erase.{Without}
use so.Part1.Store.{Event}
use so.Part1.EventList.{create_list}
use so.Part1.EventList.Append.{create_list-IsList}
use so.Part1.EventList.Free.{free_list-Without}
use so.Part1.Operations.{Ems, ems_init, ems_terminate}
use so.Part1.Operations.State.{Repr, free_locks}

-- On a state that is not initialised and of which no lock is held, with memory for the list,
-- `ems_init` returns 0 and the state stands for no events, with the delay that was given.
pub ems_init-Repr :
    (list : Ptr) (delay_ms : ℕ) (m : Ems)
    → m.event_list ≡ null
    → m.locks ≡ free_locks
    → list ≢ null
    → (m' : Ems) × (ems_init list delay_ms m ≡ (0, m'))
      × Repr m' []
      × (m'.state_access_delay_ms ≡ delay_ms)
unfolding ems_init
ems_init-Repr list delay_ms m unset free ne =
    let (same, is) = create_list-IsList list m.store ne in
    (
      record m {
        event_list = list;
        state_access_delay_ms = delay_ms;
        store = (create_list list m.store).1;
      },
      rw (unset, same, ==-false list null ne) refl,
      record { cells = []; list = is; free = free },
      refl,
    )

-- On an initialised state and with fuel for all events, `ems_terminate` ends without a fault, returns
-- 0, and exactly the list object, its nodes and its events are freed; the locks are destroyed, and
-- the pointer to the list is left as it was.
pub ems_terminate-Without :
    (fuel : ℕ) (m : Ems) (vs : List Event) (r : Repr m vs)
    → length vs < fuel
    → (m' : Ems) × (ems_terminate fuel m ≡ ok (0, m'))
      × Without (λ a. a == m.event_list) m.store.lists m'.store.lists
      × Without (λ a. has a r.cells) m.store.nodes m'.store.nodes
      × Without (λ e. has_item e r.cells) m.store.events m'.store.events
      × (m'.locks.alive ≡ false)
      × (m'.event_list ≡ m.event_list)
unfolding ems_terminate
ems_terminate-Without fuel m vs r h =
    let size = length-Owns m.store.events r.cells vs r.list.owns in
    let (s, run, lists, nodes, events) =
      free_list-Without fuel m.store m.event_list r.cells vs r.list (omega arith) in
    (
      record m { store = s; locks = record m.locks { alive = false } },
      rw (==-false m.event_list null r.list.ne_null, run) refl,
      lists,
      nodes,
      events,
      refl,
      refl,
    )
