-- ===== src/Part1/Tests/Threads.antt =====
-- Two threads of a small job.
use so.Base.{◌+◌, ◌<◌, ◌≡◌, ◌++◌, refl, some, [], ◌∷◌, arith, subst, uint_mod, replicate, ◌/◌}
use so.Base.Nodes.{ok, null, load, write}
use so.Chain.{node}
use so.Chain.Owned.Update.{Extends}
use so.Part1.Store.{Event, put_list, put_node, put_event}
use so.Part1.EventList.{append_to_list}
use so.Part1.Seats.Outcome.{reservation}
use so.Part1.Database.{new_event}
use so.Part1.Operations.{Ems, CreateResources, insert_new, put_store}
use so.Part1.Operations.State.{Repr, find_event_lem}
use so.Part1.Operations.Memory.{IsFresh}
use so.Part1.Operations.Reserve.{reserve_event_lem}
use so.Part1.Threads.{
  Job, Reach, idle, reserving, put_pc, start, later, pick, start_reserve, finish_reserve,
}
use so.Part1.Threads.Kept.{SeatsKept}
use so.Part1.Threads.Ready.{same_state}
use so.Part1.Threads.Valid.{IsValid, Reach-Valid}
use so.Part1.Threads.Progress.{CanGo, Reach-CanGo}
use so.Part1.Threads.Race.{ems_create-twice}
use so.Part1.Tests.State.{
  show, show-IsRoom, store, ems, events, ems-Repr, memory, memory-sized, memory-IsFresh, job,
  job-IsValid,
}

-- Thread 1 looks for event 7, and then reserves a seat of it.
abbrev looked : Job
looked = record { ems = ems; pc = put_pc job.pc 1 (reserving 20 1 (2 ∷ []) (1 ∷ [])) }

abbrev booked : Job
booked = record {
  ems = put_store ems (put_event store 20 (some (reservation show ((2, 1) ∷ [])).1));
  pc = put_pc looked.pc 1 idle;
}

few : (v : Event) → ems.store.events 20 ≡ some v → v.reservations + 1 < uint_mod
few v at = let same : show ≡ v = cc in subst (λ e. e.reservations + 1 < uint_mod) same (omega arith)

abbrev reserving_reached : Reach 2 job looked
reserving_reached = later start (
    pick 1 (omega arith) (
      start_reserve 7 1 (2 ∷ []) (1 ∷ []) refl (omega arith) (omega arith)
        (1, λ fuel h. find_event_lem ems events ems-Repr fuel 7 h)))

abbrev booked_reached : Reach 2 job booked
booked_reached = later reserving_reached (
    pick 1 (omega arith) (
      finish_reserve refl (
        reserve_event_lem 1 (2 ∷ []) (1 ∷ []) (omega arith) (omega arith) ems 20 show refl refl
          show-IsRoom (omega arith))))

Reach-Valid_example : (w : IsValid booked) × Extends SeatsKept events w.events
Reach-Valid_example = Reach-Valid 2 job job-IsValid booked_reached ((tt, tt), few)

Reach-CanGo_example : CanGo ems (reserving 20 1 (2 ∷ []) (1 ∷ []))
Reach-CanGo_example = Reach-CanGo 2 job job-IsValid reserving_reached (tt, tt) 1

-- Memory for a second event.
abbrev more_memory : CreateResources
more_memory = record { event = 22; block = λ n. some (replicate (n / 4) 5); node = 12 }

-- The state when the first event is appended.
abbrev appended : Ems
appended =
    let made = put_event store 21 (some (new_event 8 1 2)) in
    let linked = put_node (put_node made 11 (some (node 21 null))) 10 (some (node 20 11)) in
    put_store ems (put_list linked 1 (some (record { head = 10; tail = 11 })))

insert_new-appended : insert_new memory 8 1 2 ems ≡ ok (0, appended)
unfolding insert_new append_to_list load write
insert_new-appended = refl

still-IsFresh : (m : Ems) → insert_new memory 8 1 2 ems ≡ ok (0, m) → IsFresh more_memory m.store
unfolding write
still-IsFresh m e =
    subst (λ (q : Ems). IsFresh more_memory q.store) (same_state _ insert_new-appended e)
      (record { event = λ ne. refl; node = λ ne. refl; sized = memory-sized })

ems_create-twice_example :
    (l : Job) × Reach 2 job l
    × Repr l.ems ((events ++ new_event 8 1 2 ∷ []) ++ new_event 8 3 1 ∷ [])
ems_create-twice_example =
    ems_create-twice 2 job job-IsValid 0 1 8 1 2 3 1 memory more_memory (omega arith) (omega arith)
      (omega arith) refl refl refl (omega arith) (omega arith) memory-IsFresh still-IsFresh refl
      refl
