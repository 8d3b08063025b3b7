-- ===== src/Part1/Tests/Operations.antt =====
-- The commands of Part 1 on a small job.
use so.Base.{◌≡◌, refl, [], ◌∷◌, arith}
use so.Base.Nodes.{fault}
use so.Part1.Operations.{ems_create}
use so.Part1.Operations.Memory.{Grown}
use so.Part1.Operations.Create.{created, ems_create-created, ems_create-fault}
use so.Part1.Operations.Reserve.{Ends, ems_reserve-reserve}
use so.Part1.Database.{reserve}
use so.Part1.Tests.State.{ems, events, ems-Repr, memory, memory-IsFresh, show-IsRoom}

ems_create-created_example :
    Grown ems (ems_create 2 memory 8 4 5 ems) 0 (created memory 8 4 5 events).1
ems_create-created_example =
    ems_create-created 2 memory 8 4 5 ems events ems-Repr (omega arith) memory-IsFresh (omega arith)

-- 2147483648 rows of as many seats take 2^64 bytes.
ems_create-fault_example : ems_create 2 memory 8 2147483648 2147483648 ems ≡ fault
ems_create-fault_example =
    ems_create-fault 2 memory 8 2147483648 2147483648 ems events ems-Repr (omega arith) []
      memory-IsFresh refl (omega arith) (omega arith) (omega arith) refl

ems_reserve-reserve_example :
    Ends 2
      (1 ∷ 2 ∷ [])
      (1 ∷ 3 ∷ [])
      (omega arith)
      (omega arith)
      2
      7
      ems
      events
      ems-Repr
      (omega arith)
      0
      (reserve 7 ((1, 1) ∷ (2, 3) ∷ []) events).1
ems_reserve-reserve_example =
    ems_reserve-reserve 2 (1 ∷ 2 ∷ []) (1 ∷ 3 ∷ []) (omega arith) (omega arith) 2 7 ems events
      ems-Repr (omega arith) (show-IsRoom, omega arith, tt)
