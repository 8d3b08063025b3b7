-- ===== src/Part1/Operations/Reserve.antt =====
-- `ems_reserve` of Part 1: its second part through any pointer to an event, and the whole command
-- when no other thread comes in between.
use so.Base.{
  ℕ, ◌+◌, ◌≤◌, ◌<◌, ◌≡◌, ◌≢◌, some, List, refl, sym, ap, ◌∙◌, length, ==-false, inl, inr, subst,
  uint_mod,
}
use so.Base.Nodes.{Ptr, null, ok, load_lem}
use so.Base.Locks.{unlocked}
use so.Chain.Owned.Search.{pointer_of-find, Owns-replace}
use so.Server.Seats.Request.{request}
use so.Part1.Store.{Event, put_event}
use so.Part1.EventList.Shape.{IsList, pointer_of, replace}
use so.Part1.Seats.Fill.{IsRoom}
use so.Part1.Seats.Outcome.{reservation, reserve_seats-reservation}
use so.Part1.Database.{AllOpen, find-AllOpen, reserve, reserve-missing, reserve-found}
use so.Part1.Operations.{Ems, put_store, reserve_event, ems_reserve}
use so.Part1.Operations.State.{Repr, free_locks, find_event_lem}

held_and_freed :
    (m : Ems)
    → m.locks ≡ free_locks
    → record m { locks = record m.locks { event = unlocked; seat = unlocked } } ≡ m
held_and_freed m e =
    let back : record m.locks { event = unlocked; seat = unlocked } ≡ m.locks =
      (λ i. record (e i) { event = unlocked; seat = unlocked }) ∙ sym e in
    λ i. record m { locks = back i }

module _ (n : ℕ) (xs ys : List ℕ) (hx : n ≤ length xs) (hy : n ≤ length ys) where
  -- The event behind the pointer is reserved or left as it is, and no lock is held.
  pub reserve_event_lem :
      (m : Ems) (p : Ptr) (v : Event)
      → m.locks ≡ free_locks
      → m.store.events p ≡ some v
      → IsRoom v
      → v.reservations + 1 < uint_mod
      → reserve_event p n xs ys m
        ≡ ok (
          (reservation v (request n xs ys)).0,
          put_store m (put_event m.store p (some (reservation v (request n xs ys)).1)),
        )
  unfolding reserve_event
  reserve_event_lem m p v free at room few =
      let result = reservation v (request n xs ys) in
      let m' = put_store m (put_event m.store p (some result.1)) in
      rw (load_lem m.store.events p v at, reserve_seats-reservation v n xs ys room hx hy few)
        (ap (λ k. ok (result.0, k)) (held_and_freed m' free))

  module _ (fuel id : ℕ) (m : Ems) (vs : List Event) (r : Repr m vs) (h : length vs < fuel) where
    abbrev p : Ptr
    p = pointer_of id r.cells vs

    looked_up_none : p ≡ null → ems_reserve fuel id n xs ys m ≡ ok (1, m)
    unfolding ems_reserve
    looked_up_none missing = rw (find_event_lem m vs r fuel id h, missing) refl

    looked_up_some : p ≢ null → ems_reserve fuel id n xs ys m ≡ reserve_event p n xs ys m
    unfolding ems_reserve
    looked_up_some ne = rw (find_event_lem m vs r fuel id h, ==-false p null ne) refl

    abbrev pub Ends : ℕ → List Event → Type 0
    Ends code vs' = (m' : Ems) × (ems_reserve fuel id n xs ys m ≡ ok (code, m')) × Repr m' vs'

    abbrev Spec : ℕ × List Event → Type 0
    Spec r = Ends r.0 r.1

    -- On an initialised state that stands for rooms `vs` whose counters are not at their end, with
    -- fuel for all events and arrays of at least `num_seats` coordinates, `ems_reserve` ends without
    -- a fault, returns the code of the abstract RESERVE and leaves a state that stands for its
    -- database. No lock is held.
    pub ems_reserve-reserve :
        AllOpen vs → Ends (reserve id (request n xs ys) vs).0 (reserve id (request n xs ys) vs).1
    ems_reserve-reserve open_events =
        elim (pointer_of-find (λ v. v.id) m.store.events id r.cells vs r.list.owns) [
          | inl (missing, gone) ↦
              subst Spec (sym (reserve-missing id vs (request n xs ys) gone))
                (m, looked_up_none missing, r)
          | inr (e, ne, at, here, _, _) ↦
              let (room, few) = find-AllOpen id vs e open_events here in
              let result = reservation e (request n xs ys) in
              let is : IsList (put_event m.store p (some result.1)) m.event_list r.cells
                  (replace id result.1 vs) =
                record {
                  ne_null = r.list.ne_null;
                  header = r.list.header;
                  linked = r.list.linked;
                  owns =
                      Owns-replace (λ v. v.id) m.store.events id result.1 r.cells vs r.list.owns ne;
                } in
              subst Spec (sym (reserve-found id vs (request n xs ys) e here)) (
                put_store m (put_event m.store p (some result.1)),
                looked_up_some ne ∙ reserve_event_lem m p e r.free at room few,
                record { cells = r.cells; list = is; free = r.free },
              )
        ]
