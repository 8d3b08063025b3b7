-- ===== src/Server/Tests/Operations.antt =====
-- The commands on a small server.
use so.Base.{◌≡◌, refl, true, [], ◌∷◌, arith}
use so.Base.Nodes.{fault}
use so.Server.Operations.{CreateResources, ReserveResources, ems_create, ems_reserve, ems_terminate}
use so.Server.Operations.State.{Ends}
use so.Server.Operations.NewEvent.{IsFresh}
use so.Server.Operations.Create.{created, ems_create_lem}
use so.Server.Operations.Reserve.{reserved_in, ems_reserve_lem}
use so.Server.Operations.Lifecycle.{ems_terminate-fault}
use so.Server.Invariant.{IsValid, Keeps, ems_create-IsValid, ems_reserve-IsValid}
use so.Server.Tests.State.{server, events, server-Repr, events-IsSound}

abbrev memory : CreateResources
memory = record { wrlock = true; event = 21; mutex_init = true; calloc = true; node = 11 }

abbrev locks : ReserveResources
locks = record { rdlock = true; mutex_lock = true }

memory-IsFresh : IsFresh memory server.store
memory-IsFresh = record { event = λ ne. refl; node = λ ne. refl }

ems_create_lem_example :
    Ends server (ems_create 2 memory 8 4 5 server) 0 (created memory 8 4 5 events).1
ems_create_lem_example =
    ems_create_lem 2 memory 8 4 5 server events server-Repr (omega arith) memory-IsFresh

ems_reserve_lem_example :
    Ends server
      (ems_reserve 2 locks 7 2 (1 ∷ 2 ∷ []) (1 ∷ 3 ∷ []) server)
      0
      (reserved_in locks 7 ((1, 1) ∷ (2, 3) ∷ []) events).1
ems_reserve_lem_example =
    ems_reserve_lem 2 locks 7 2 (1 ∷ 2 ∷ []) (1 ∷ 3 ∷ []) server events server-Repr (omega arith)
      events-IsSound (omega arith) (omega arith)

ems_terminate-fault_example : ems_terminate 2 true server ≡ fault
ems_terminate-fault_example = ems_terminate-fault 2 server events server-Repr (omega arith)

abbrev valid : IsValid server
valid = record { events = events; repr = server-Repr; sound = events-IsSound }

ems_create-IsValid_example : Keeps (ems_create 2 memory 8 4 5 server)
ems_create-IsValid_example =
    ems_create-IsValid 2 memory 8 4 5 server valid (omega arith) memory-IsFresh (omega arith)

ems_reserve-IsValid_example : Keeps (ems_reserve 2 locks 7 2 (1 ∷ 2 ∷ []) (1 ∷ 3 ∷ []) server)
ems_reserve-IsValid_example =
    ems_reserve-IsValid 2 locks 7 2 (1 ∷ 2 ∷ []) (1 ∷ 3 ∷ []) server valid (omega arith)
      (omega arith) (omega arith)
