-- ===== src/Part1/Operations/State.antt =====
-- When the state of a job stands for a list of events, and what its searches then find.
use so.Base.{
  ℕ, ◌<◌, ◌≡◌, true, false, List, arith, length, ◌∙◌, sym, ◌==◌, ==-false, Bool-cases, inl, inr, ap,
  if◌then◌else◌,
}
use mathlib.Core.Bool.{not}
use so.Base.Nodes.{Ptr, null, ok}
use so.Base.Locks.{unlocked}
use so.Chain.{Cells}
use so.Chain.Owned.{length-Owns}
use so.Part1.Store.{Event}
use so.Part1.EventList.{get_event}
use so.Part1.EventList.Shape.{IsList, pointer_of}
use so.Part1.EventList.Find.{get_event_lem}
use so.Part1.Operations.{Ems, Locks, Search, returns, found, check_new, find_event}

-- The locks exist, and nobody holds one.
abbrev pub free_locks : Locks
free_locks = record {
  alive = true;
  file = false;
  event_list = unlocked;
  event = unlocked;
  seat = unlocked;
}

-- The initialised state stands for the events `vs`, and nobody holds a lock.
pub record Repr (m : Ems) (vs : List Event) : Type 0 where
  pub cells : Cells Ptr
  pub list : IsList m.store m.event_list cells vs
  pub free : m.locks ≡ free_locks

-- To lock and unlock changes nothing.
pub free_again :
    (m : Ems)
    → m.locks ≡ free_locks
    → record m { locks = record m.locks { event_list = unlocked; event = unlocked } } ≡ m
free_again m e =
    let back : record m.locks { event_list = unlocked; event = unlocked } ≡ m.locks =
      (λ i. record (e i) { event_list = unlocked; event = unlocked }) ∙ sym e in
    λ i. record m { locks = back i }

-- What the searches of `ems_create`, and of the other commands, make of the pointer.
abbrev pub checked : Ptr → Search
checked p = if not (p == null) then returns 1 else found p

abbrev pub looked_up : Ptr → Search
looked_up p = if p == null then returns 1 else found p

module _ (m : Ems) (vs : List Event) (r : Repr m vs) (fuel id : ℕ) (h : length vs < fuel) where
  pub get_event-found : get_event fuel m.store m.event_list id ≡ ok (pointer_of id r.cells vs)
  get_event-found =
      get_event_lem fuel m.store m.event_list id r.cells vs r.list
        (omega (arith, length-Owns m.store.events r.cells vs r.list.owns))

  -- The searches return to a state in which no lock is held, and change nothing else.
  pub check_new_lem : check_new fuel id m ≡ ok (checked (pointer_of id r.cells vs), m)
  unfolding check_new
  check_new_lem =
      rw (==-false m.event_list null r.list.ne_null, get_event-found)
        (elim (Bool-cases (pointer_of id r.cells vs == null)) [
          | inl none_found ↦
              rw none_found
                (ap (λ k. ok (found (pointer_of id r.cells vs), k)) (free_again m r.free))
          | inr some_found ↦ rw some_found (ap (λ k. ok (returns 1, k)) (free_again m r.free))
        ])

  pub find_event_lem : find_event fuel id m ≡ ok (looked_up (pointer_of id r.cells vs), m)
  unfolding find_event
  find_event_lem =
      rw (==-false m.event_list null r.list.ne_null, get_event-found)
        (ap (λ k. ok (looked_up (pointer_of id r.cells vs), k)) (free_again m r.free))
