-- ===== src/Part1/Threads.antt =====
-- The threads of a job of Part 1, which run commands on one state: Part1/src/threaded.c with the
-- commands of Part1/src/operations.c. CREATE and RESERVE each have two parts under locks, between
-- which they hold none. A part is one step, which is taken only when its locks are granted, and in
-- which an access without the lock for it is a fault.
-- SHOW and LIST change nothing.
pub mod Kept
pub mod Ready
pub mod Valid
pub mod Race
pub mod Progress
use so.Base.Locks.{can_read, can_write}
use so.Base.{
  ℕ, Bool, true, ◌&&◌, ◌+◌, ◌*◌, ◌≤◌, ◌<◌, ◌≡◌, some, List, length, size_mod, uint_mod, ◌==◌,
  if◌then◌else◌,
}
use so.Base.Nodes.{Ptr, Run, ok}
use so.Part1.Store.{Event}
use so.Part1.Operations.{
  Ems, Locks, CreateResources, Search, returns, found, check_new, insert_new, find_event,
  reserve_event,
}
use so.Part1.Operations.Memory.{IsFresh}

-- Where a thread stands, with the local variables that are live there.
pub data Pc : Type 0 where
  idle : Pc
  inserting : (id rows cols : ℕ) → Pc
  reserving : (event : Ptr) (num_seats : ℕ) (xs ys : List ℕ) → Pc

-- With enough fuel, a part ends with this result.
abbrev pub EndsWith : {A : Type 0} → (ℕ → Run A) → A → Type 0
EndsWith run a = (k : ℕ) × ((fuel : ℕ) → k < fuel → run fuel ≡ ok a)

-- Whether the locks that a part asks for are granted, in the state that the threads have left them
-- in: those of a search, of an insertion and of a reservation.
abbrev pub search_granted : Locks → Bool
search_granted k = can_read k.event_list && can_read k.event

abbrev pub insert_granted : Locks → Bool
insert_granted k = can_write k.event_list

abbrev pub reserve_granted : Locks → Bool
reserve_granted k = can_write k.event && can_write k.seat

-- One part of a command of one thread, on the state `m`, which has its locks. Which command comes
-- next is left open; its arrays have the seats that it names, as `parse_reserve` returns them, and
-- `malloc` keeps its promise.
pub data Move (m : Ems) : Pc → Ems → Pc → Type 0 where
  start_create :
      (id rows cols : ℕ) {p : Ptr} {m' : Ems}
      → search_granted m.locks ≡ true
      → EndsWith (λ fuel. check_new fuel id m) (found p, m')
      → Move m idle m' (inserting id rows cols)
  refuse_create :
      (id : ℕ) {code : ℕ} {m' : Ems}
      → search_granted m.locks ≡ true
      → EndsWith (λ fuel. check_new fuel id m) (returns code, m')
      → Move m idle m' idle
  finish_create :
      {id rows cols : ℕ} (os : CreateResources) {code : ℕ} {m' : Ems}
      → insert_granted m.locks ≡ true
      → IsFresh os m.store
      → insert_new os id rows cols m ≡ ok (code, m')
      → Move m (inserting id rows cols) m' idle
  start_reserve :
      (id num_seats : ℕ) (xs ys : List ℕ) {p : Ptr} {m' : Ems}
      → search_granted m.locks ≡ true
      → num_seats ≤ length xs
      → num_seats ≤ length ys
      → EndsWith (λ fuel. find_event fuel id m) (found p, m')
      → Move m idle m' (reserving p num_seats xs ys)
  refuse_reserve :
      (id : ℕ) {code : ℕ} {m' : Ems}
      → search_granted m.locks ≡ true
      → EndsWith (λ fuel. find_event fuel id m) (returns code, m')
      → Move m idle m' idle
  finish_reserve :
      {p : Ptr} {num_seats : ℕ} {xs ys : List ℕ} {code : ℕ} {m' : Ems}
      → reserve_granted m.locks ≡ true
      → reserve_event p num_seats xs ys m ≡ ok (code, m')
      → Move m (reserving p num_seats xs ys) m' idle

pub record Job : Type 0 where
  pub ems : Ems
  pub pc : ℕ → Pc

abbrev pub put_pc : (ℕ → Pc) → ℕ → Pc → ℕ → Pc
put_pc pcs tid p i = if i == tid then p else pcs i

-- A thread below `max_threads` takes a step.
pub data Step (max_threads : ℕ) (j : Job) : Job → Type 0 where
  pick :
      (tid : ℕ) {m' : Ems} {p' : Pc}
      → tid < max_threads
      → Move j.ems (j.pc tid) m' p'
      → Step max_threads j (record { ems = m'; pc = put_pc j.pc tid p' })

-- What the threads make of a job, in any order of their steps.
pub data Reach (max_threads : ℕ) (j : Job) : Job → Type 0 where
  start : Reach max_threads j j
  later : {k l : Job} → Reach max_threads j k → Step max_threads k l → Reach max_threads j l

-- The counter of the event at `p` does not wrap around with one more reservation.
abbrev pub Few : Ems → Ptr → Type 0
Few m p = (v : Event) → m.store.events p ≡ some v → v.reservations + 1 < uint_mod

-- What the program does not test: the bytes of a new event's seats are a size_t, and a reservation
-- finds a counter that does not wrap around.
abbrev pub Small : {m m' : Ems} {p p' : Pc} → Move m p m' p' → Type 0
Small (start_create id rows cols granted ends) = rows * cols * 4 < size_mod
Small (refuse_create id granted ends) = Unit {0}
Small (finish_create os granted fresh runs) = Unit {0}
Small (start_reserve id num_seats xs ys granted hx hy ends) = Unit {0}
Small (refuse_reserve id granted ends) = Unit {0}
Small {m} (finish_reserve {p} granted runs) = Few m p

-- All moves of a run are within these limits.
abbrev pub WithinLimits : {n : ℕ} {j k : Job} → Reach n j k → Type 0
WithinLimits start = Unit {0}
WithinLimits (later r (pick tid lt mv)) = WithinLimits r × Small mv
