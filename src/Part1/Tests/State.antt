-- ===== src/Part1/Tests/State.antt =====
-- A small job: one event of two rows and three columns, one seat taken; two threads.
use so.Base.{
  ℕ, ◌/◌, ◌≡◌, refl, none, some, List, [], ◌∷◌, arith, subst, ◌==◌, if◌then◌else◌, length,
  replicate, length-replicate,
}
use so.Base.Nodes.{null}
use so.Chain.{node}
use so.Server.Tests.State.{concert}
use so.Part1.Store.{Event, Store}
use so.Part1.EventList.Shape.{IsList}
use so.Part1.Seats.Fill.{IsRoom}
use so.Part1.Seats.Compare.{forget}
use so.Part1.Operations.{Ems, CreateResources}
use so.Part1.Operations.State.{Repr, free_locks}
use so.Part1.Operations.Memory.{IsFresh}
use so.Part1.Threads.{Job, idle}
use so.Part1.Threads.Valid.{IsValid}

abbrev pub show : Event
show = forget concert

pub show-IsRoom : IsRoom show
show-IsRoom = record { small = omega arith; full = refl }

abbrev pub store : Store
store = record {
  lists = λ p. if p == 1 then some (record { head = 10; tail = 10 }) else none;
  nodes = λ p. if p == 10 then some (node 20 null) else none;
  events = λ p. if p == 20 then some show else none;
}

abbrev pub ems : Ems
ems = record { event_list = 1; state_access_delay_ms = 0; store = store; locks = free_locks }

abbrev pub events : List Event
events = show ∷ []

pub store-IsList : IsList store 1 ((10, 20) ∷ []) events
store-IsList = record {
  ne_null = omega arith;
  header = refl;
  linked = (omega arith, refl, refl, tt);
  owns = (omega arith, refl, refl, tt);
}

abbrev pub ems-Repr : Repr ems events
ems-Repr = record { cells = (10, 20) ∷ []; list = store-IsList; free = refl }

-- Blocks with what the memory held before.
abbrev pub memory : CreateResources
memory = record { event = 21; block = λ n. some (replicate (n / 4) 5); node = 11 }

pub memory-sized : (n : ℕ) (ws : List ℕ) → memory.block n ≡ some ws → length ws ≡ n / 4
memory-sized n ws e =
    let same : replicate (n / 4) 5 ≡ ws = cc in
    subst (λ l. length l ≡ n / 4) same (length-replicate (n / 4) 5)

pub memory-IsFresh : IsFresh memory ems.store
memory-IsFresh = record { event = λ ne. refl; node = λ ne. refl; sized = memory-sized }

abbrev pub job : Job
job = record { ems = ems; pc = λ tid. idle }

abbrev pub job-IsValid : IsValid job
job-IsValid = record {
  events = events;
  repr = ems-Repr;
  rooms = (show-IsRoom, tt);
  ready = λ tid. tt;
}
