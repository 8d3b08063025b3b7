-- ===== src/Server/Operations.antt =====
-- The commands of Part2/src/server/operations.c that change the state. The state is the two
-- static variables and the memory. The answers of the C library (locks granted, addresses from
-- malloc, calloc and mutex_init that succeed) are arguments; the delay of
-- `get_event_with_delay` has no effect on the state.
pub mod State
pub mod NewEvent
pub mod Create
pub mod Locked
pub mod Reserve
pub mod Lifecycle
use so.Base.{
  ℕ, ◌*◌, ◌%◌, Bool, true, false, Option, none, some, List, [], ◌==◌, if◌then◌else◌, size_mod,
  replicate,
}
use mathlib.Core.Bool.{not}
use so.Base.Nodes.{Ptr, null, Run, ok, ◌>>=◌, load}
use so.Server.Store.{
  Event, EventList, unlocked, rdlocked, wrlocked, Store, put_event, set_rwl, set_mutex,
}
use so.Server.EventList.{ListResources, create_list, append_to_list, get_event, free_list}
use so.Server.Seats.{reserve_seats}

pub record Ems : Type 0 where
  pub event_list : Ptr
  pub state_access_delay_us : ℕ
  pub store : Store

abbrev pub put_store : Ems → Store → Ems
put_store m s = record m { store = s }

unfoldable pub get_event_with_delay : ℕ → ℕ → Ptr → Ptr → Ems → Run Ptr
get_event_with_delay fuel event_id from to m = get_event fuel m.store m.event_list event_id from to

unfoldable pub ems_init : ListResources → ℕ → Ems → ℕ × Ems
ems_init os delay_us m =
    if not (m.event_list == null)
    then (1, m)
    else (let (list, s) = create_list os m.store in
        (
          (if list == null then 1 else 0),
          record { event_list = list; state_access_delay_us = delay_us; store = s },
        ))

unfoldable pub ems_terminate : ℕ → (wrlock : Bool) → Ems → Run (ℕ × Ems)
ems_terminate fuel wrlock m =
    if m.event_list == null
    then ok (1, m)
    else (if not wrlock then ok (1, m) else do
      s₁ ← set_rwl wrlocked m.event_list m.store
      s₂ ← free_list fuel m.event_list s₁
      s₃ ← set_rwl unlocked m.event_list s₂
      ok (0, put_store m s₃))

-- What `ems_create` needs from the libraries.
pub record CreateResources : Type 0 where
  pub wrlock : Bool
  pub event : Ptr
  pub mutex_init : Bool
  pub calloc : Bool
  pub node : Ptr

-- The fields that are set before the seats are allocated, and after.
abbrev event_of : ℕ → ℕ → ℕ → List ℕ → Event
event_of event_id num_rows num_cols seats = record {
  id = event_id;
  reservations = 0;
  cols = num_cols;
  rows = num_rows;
  seats = seats;
  mutex = false;
}

-- Unlock the list, free the event, return 1.
abbrev give_up : Ptr → Ptr → Store → Run (ℕ × Store)
give_up list event s = do s' ← set_rwl unlocked list s; ok (1, put_event s' event none)

-- Unlock the list and return.
abbrev unlock : ℕ → Ptr → Store → Run (ℕ × Store)
unlock code list s = do s' ← set_rwl unlocked list s; ok (code, s')

-- From `malloc` on; the write lock is held.
unfoldable pub create_event : CreateResources → Ptr → ℕ → ℕ → ℕ → Store → Run (ℕ × Store)
create_event os list event_id num_rows num_cols s =
    if os.event == null
    then unlock 1 list s
    else (let s₁ = put_event s os.event (some (event_of event_id num_rows num_cols [])) in
        if not os.mutex_init
        then give_up list os.event s₁
        else (if not os.calloc then give_up list os.event s₁ else do
          let seats = replicate ((num_rows * num_cols) % size_mod) 0
          let s₂ = put_event s os.event (some (event_of event_id num_rows num_cols seats))
          (code, s₃) ← append_to_list os.node list os.event s₂
          if not (code == 0) then give_up list os.event s₃ else unlock 0 list s₃))

unfoldable pub ems_create : ℕ → CreateResources → ℕ → ℕ → ℕ → Ems → Run (ℕ × Ems)
unfolding create_event get_event_with_delay
ems_create fuel os event_id num_rows num_cols m =
    if m.event_list == null
    then ok (1, m)
    else (if not os.wrlock then ok (1, m) else do
      s ← set_rwl wrlocked m.event_list m.store
      l ← load s.lists m.event_list
      found ← get_event_with_delay fuel event_id l.head l.tail (put_store m s)
      (code, s') ←
          if not (found == null)
          then unlock 1 m.event_list s
          else create_event os m.event_list event_id num_rows num_cols s
      ok (code, put_store m s'))

-- The part of `ems_reserve` under the event's mutex.
unfoldable pub reserve_event :
    (mutex_lock : Bool) → Ptr → ℕ → List ℕ → List ℕ → Store → Run (ℕ × Store)
reserve_event mutex_lock event num_seats xs ys s = if not mutex_lock then ok (1, s) else do
  s₁ ← set_mutex true event s
  e ← load s₁.events event
  (code, e') ← reserve_seats e num_seats xs ys
  s₂ ← set_mutex false event (put_event s₁ event (some e'))
  ok (code, s₂)

pub record ReserveResources : Type 0 where
  pub rdlock : Bool
  pub mutex_lock : Bool

unfoldable pub ems_reserve : ℕ → ReserveResources → ℕ → ℕ → List ℕ → List ℕ → Ems → Run (ℕ × Ems)
unfolding reserve_event get_event_with_delay
ems_reserve fuel os event_id num_seats xs ys m =
    if m.event_list == null
    then ok (1, m)
    else (if not os.rdlock then ok (1, m) else do
      s ← set_rwl rdlocked m.event_list m.store
      l ← load s.lists m.event_list
      event ← get_event_with_delay fuel event_id l.head l.tail (put_store m s)
      s₁ ← set_rwl unlocked m.event_list s
      (code, s₂) ←
          if event == null then ok (1, s₁) else reserve_event os.mutex_lock event num_seats xs ys s₁
      ok (code, put_store m s₂))
