-- ===== src/Part1/Threads/Progress.antt =====
-- No part of a command of Part 1 faults or runs forever, whatever the other threads have done.
use so.Base.{ℕ, ap, true, ◌≡◌, length}
use so.Base.Nodes.{ok}
use so.Part1.Operations.{
  Ems, Search, CreateResources, check_new, find_event, insert_new, reserve_event,
}
use so.Part1.Operations.State.{check_new_lem, find_event_lem}
use so.Part1.Operations.Memory.{IsFresh}
use so.Part1.Operations.Insert.{insert_new_lem}
use so.Part1.Operations.Reserve.{reserve_event_lem}
use so.Part1.Threads.{
  Pc, idle, inserting, reserving, EndsWith, Job, Reach, Few, WithinLimits, search_granted,
  insert_granted, reserve_granted,
}
use so.Part1.Threads.Ready.{Ready}
use so.Part1.Threads.Valid.{IsValid, Reach-Valid}

-- The parts that a thread can come to next are granted their locks and end: the first parts for
-- every id, an insertion for all answers of `malloc` that keep its promise, a reservation while the
-- event's counter does not wrap.
abbrev pub CanGo : Ems → Pc → Type 0
CanGo m idle =
    (search_granted m.locks ≡ true)
    × ((id : ℕ)
        → ((r : Search × Ems) × EndsWith (λ fuel. check_new fuel id m) r)
          × ((r : Search × Ems) × EndsWith (λ fuel. find_event fuel id m) r))
CanGo m (inserting id rows cols) =
    (insert_granted m.locks ≡ true)
    × ((os : CreateResources)
        → IsFresh os m.store
        → (r : ℕ × Ems) × (insert_new os id rows cols m ≡ ok r))
CanGo m (reserving p n xs ys) =
    (reserve_granted m.locks ≡ true)
    × (Few m p → (r : ℕ × Ems) × (reserve_event p n xs ys m ≡ ok r))

Ready-CanGo : (j : Job) (v : IsValid j) (pc : Pc) → Ready j.ems pc → CanGo j.ems pc
Ready-CanGo j v idle ready = (
  ap search_granted v.repr.free,
  λ id. (
    (_, (length v.events, λ fuel h. check_new_lem j.ems v.events v.repr fuel id h)),
    (_, (length v.events, λ fuel h. find_event_lem j.ems v.events v.repr fuel id h)),
  ),
)
Ready-CanGo j v (inserting id rows cols) small = (
  ap insert_granted v.repr.free,
  λ os fresh.
      let (m', done, _, _) = insert_new_lem os j.ems v.events v.repr fresh id rows cols small in
      (_, done),
)
Ready-CanGo j v (reserving p n xs ys) (hx, hy, e, at, room) = (
  ap reserve_granted v.repr.free,
  λ few. (_, reserve_event_lem n xs ys hx hy j.ems p e v.repr.free at room (few e at)),
)

-- In every job that the threads reach from a valid one, as long as the bytes of a new event's seats are
-- a size_t and no counter of reservations wraps around, each part of CREATE and RESERVE that a thread
-- can come to next is granted its locks and ends with a result and without a fault: a search for every
-- id, an insertion for all answers of `malloc` that keep its promise, a reservation while the counter
-- does not wrap around.
pub Reach-CanGo :
    (max_threads : ℕ) (j : Job) (v : IsValid j) {k : Job} (r : Reach max_threads j k)
    → WithinLimits r
    → (tid : ℕ) → CanGo k.ems (k.pc tid)
Reach-CanGo max_threads j v {k} r limits tid =
    let (w, _) = Reach-Valid max_threads j v r limits in Ready-CanGo k w (k.pc tid) (w.ready tid)
