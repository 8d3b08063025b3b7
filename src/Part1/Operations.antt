-- ===== src/Part1/Operations.antt =====
-- The commands of Part1/src/operations.c that change the state. The state is the `Ems_t` of the job,
-- the memory, and the four locks of the file as the calls of the running thread leave them. What
-- `malloc` returns is an argument; the delay of `get_event_with_delay` has no effect on the state.
-- Where the threads share memory, an access without the lock for it is a fault (`guarded`).
-- Each command is cut where it holds no lock, which is where other threads may come in between.
pub mod State
pub mod Memory
pub mod Insert
pub mod Create
pub mod Reserve
pub mod Lifecycle
use so.Base.{
  ℕ, zero, suc, ◌+◌, ◌*◌, ◌%◌, Bool, true, false, ◌&&◌, Option, none, some, List, [], ◌==◌,
  if◌then◌else◌, size_mod,
}
use mathlib.Core.Bool.{not}
use so.Base.Nodes.{Ptr, null, Run, ok, ◌>>=◌, load}
use so.Base.Locks.{RwLock, unlocked, rdlocked, wrlocked, read_held, write_held, guarded}
use so.Base.Arrays.{write_at}
use so.Part1.Store.{Event, Store, put_event}
use so.Part1.EventList.{create_list, append_to_list, get_event, free_list}
use so.Part1.Seats.{reserve_seats}

-- The locks of the file, and whether they have not been destroyed.
pub record Locks : Type 0 where
  pub alive : Bool
  pub file : Bool
  pub event_list : RwLock
  pub event : RwLock
  pub seat : RwLock

pub record Ems : Type 0 where
  pub event_list : Ptr
  pub state_access_delay_ms : ℕ
  pub store : Store
  pub locks : Locks

abbrev pub put_store : Ems → Store → Ems
put_store m s = record m { store = s }

-- Calls of the thread library on one of the locks.
abbrev pub set_event_list_lock : RwLock → Ems → Ems
set_event_list_lock k m = record m { locks = record m.locks { event_list = k } }

abbrev pub set_event_lock : RwLock → Ems → Ems
set_event_lock k m = record m { locks = record m.locks { event = k } }

abbrev pub set_seat_lock : RwLock → Ems → Ems
set_seat_lock k m = record m { locks = record m.locks { seat = k } }

abbrev pub set_file_lock : Bool → Ems → Ems
set_file_lock b m = record m { locks = record m.locks { file = b } }

-- The list and its events may be read.
abbrev can_search : Ems → Bool
can_search m = read_held m.locks.event_list && read_held m.locks.event

unfoldable pub get_event_with_delay : ℕ → Ems → ℕ → Run Ptr
get_event_with_delay fuel m event_id = get_event fuel m.store m.event_list event_id

unfoldable pub ems_init : (list : Ptr) → ℕ → Ems → ℕ × Ems
ems_init list delay_ms m =
    if not (m.event_list == null)
    then (1, m)
    else (let (event_list, s) = create_list list m.store in
        (
          (if event_list == null then 1 else 0),
          record m { event_list = event_list; state_access_delay_ms = delay_ms; store = s },
        ))

unfoldable pub ems_terminate : ℕ → Ems → Run (ℕ × Ems)
ems_terminate fuel m =
    let m₁ : Ems = record m { locks = record m.locks { alive = false } } in
    if m.event_list == null
    then ok (1, m₁)
    else do s ← free_list fuel m.event_list m.store; ok (0, put_store m₁ s)

-- What a part of a command ends with that looks for an event: the command returns with a code, or
-- goes on with what was found.
pub data Search : Type 0 where
  returns : ℕ → Search
  found : Ptr → Search

-- The first part of `ems_create`: no event has the id yet.
unfoldable pub check_new : ℕ → ℕ → Ems → Run (Search × Ems)
unfolding get_event_with_delay
check_new fuel event_id m =
    let m₁ = set_event_list_lock rdlocked m in
    if m.event_list == null then ok (returns 1, set_event_list_lock unlocked m₁) else do
      let m₂ = set_event_lock rdlocked m₁
      event ← guarded (can_search m₂) (get_event_with_delay fuel m₂ event_id)
      if not (event == null)
          then ok (returns 1, set_event_lock unlocked (set_event_list_lock unlocked m₂))
          else ok (found event, set_event_list_lock unlocked (set_event_lock unlocked m₂))

-- What `ems_create` gets from `malloc`: the addresses of the event and of the node, and the words of
-- a block of the size that is asked for.
pub record CreateResources : Type 0 where
  pub event : Ptr
  pub block : ℕ → Option (List ℕ)
  pub node : Ptr

abbrev pub event_of : ℕ → ℕ → ℕ → List ℕ → Event
event_of event_id num_rows num_cols seats = record {
  id = event_id;
  reservations = 0;
  seats = seats;
  cols = num_cols;
  rows = num_rows;
}

-- The loop that writes 0 to every seat, from `i` on with `left` rounds to come.
unfoldable pub clear : (left i : ℕ) → List ℕ → Run (List ℕ)
clear zero i seats = ok seats
clear (suc left) i seats = do seats' ← write_at seats i 0; clear left (i + 1) seats'

-- The write lock, the new node, and what is undone if there is none.
unfoldable pub append_event : CreateResources → Ems → Run (ℕ × Ems)
append_event os m = do
  let m₁ = set_event_list_lock wrlocked m
  (code, s) ←
      guarded (write_held m₁.locks.event_list)
        (append_to_list os.node m.event_list os.event m.store)
  let m₂ = set_event_list_lock unlocked (put_store m₁ s)
  ok (if not (code == 0) then (1, put_store m₂ (put_event s os.event none)) else (0, m₂))

-- The second part of `ems_create`, from the first `malloc` on.
unfoldable pub insert_new : CreateResources → ℕ → ℕ → ℕ → Ems → Run (ℕ × Ems)
unfolding clear append_event
insert_new os event_id num_rows num_cols m =
    let count = (num_rows * num_cols) % size_mod in
    if os.event == null then ok (1, m) else elim (os.block ((count * 4) % size_mod)) [
      | none ↦ ok (1, put_store m (put_event m.store os.event none))
      | some block ↦ do
        seats ← clear count 0 block
        let new = event_of event_id num_rows num_cols seats
        append_event os (put_store m (put_event m.store os.event (some new)))
    ]

unfoldable pub ems_create : ℕ → CreateResources → ℕ → ℕ → ℕ → Ems → Run (ℕ × Ems)
unfolding check_new insert_new
ems_create fuel os event_id num_rows num_cols m = do
  (search, m₁) ← check_new fuel event_id m
  elim search [
    | returns code ↦ ok (code, m₁)
    | found event ↦ insert_new os event_id num_rows num_cols m₁
  ]

-- The first part of `ems_reserve` and of `ems_show`.
unfoldable pub find_event : ℕ → ℕ → Ems → Run (Search × Ems)
unfolding get_event_with_delay
find_event fuel event_id m =
    let m₁ = set_event_list_lock rdlocked m in
    if m.event_list == null then ok (returns 1, set_event_list_lock unlocked m₁) else do
      let m₂ = set_event_lock rdlocked m₁
      event ← guarded (can_search m₂) (get_event_with_delay fuel m₂ event_id)
      let m₃ = set_event_list_lock unlocked (set_event_lock unlocked m₂)
      ok (if event == null then returns 1 else found event, m₃)

-- The second part of `ems_reserve`: the seats are taken or given back under the write locks.
unfoldable pub reserve_event : Ptr → ℕ → List ℕ → List ℕ → Ems → Run (ℕ × Ems)
reserve_event event num_seats xs ys m = do
  let m₁ = set_seat_lock wrlocked (set_event_lock wrlocked m)
  e ← guarded (write_held m₁.locks.event && write_held m₁.locks.seat) (load m.store.events event)
  (code, e') ← reserve_seats e num_seats xs ys
  let m₂ = put_store m₁ (put_event m.store event (some e'))
  ok (code, set_event_lock unlocked (set_seat_lock unlocked m₂))

unfoldable pub ems_reserve : ℕ → ℕ → ℕ → List ℕ → List ℕ → Ems → Run (ℕ × Ems)
unfolding find_event reserve_event
ems_reserve fuel event_id num_seats xs ys m = do
  (search, m₁) ← find_event fuel event_id m
  elim search [
    | returns code ↦ ok (code, m₁)
    | found event ↦ reserve_event event num_seats xs ys m₁
  ]
