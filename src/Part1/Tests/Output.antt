-- ===== src/Part1/Tests/Output.antt =====
-- What SHOW and LIST of Part 1 write for a small job, with a buffer that is flushed in between.
use so.Base.{ℕ, ◌+◌, ◌≡◌, refl, List, [], ◌∷◌, arith, ◌==◌, if◌then◌else◌, some, none}
use so.Base.Nodes.{fault}
use so.Common.Tests.Pipes.{output, output-IsSink}
use so.Client.Api.Listed.{list_text}
use so.Part1.Store.{Event}
use so.Part1.EventList.Shape.{IsList}
use so.Part1.Operations.{Ems, put_store}
use so.Part1.Output.{ems_show, ems_list_events}
use so.Part1.Output.Rows.{IsDecimal}
use so.Part1.Output.Show.{Writes, ems_show-found}
use so.Part1.Output.Overflow.{ems_show-fault}
use so.Part1.Output.Events.{ems_list_events-lines}
use so.Part1.Tests.State.{show, ems, events, ems-Repr, show-IsRoom}

-- A `sprintf` for digits.
abbrev digit : ℕ → List ℕ
digit n = (48 + n) ∷ []

digit-IsDecimal : IsDecimal digit
digit-IsDecimal n h = omega arith

ems_show-found_example :
    Writes output output-IsSink 24 digit 30
      (omega arith)
      (omega arith)
      digit-IsDecimal
      ems
      []
      (ems_show output 24 digit 30 7 ems [])
      0
      (48 ∷ 32 ∷ 49 ∷ 32 ∷ 48 ∷ 10 ∷ 48 ∷ 32 ∷ 48 ∷ 32 ∷ 48 ∷ 10 ∷ [])
ems_show-found_example =
    ems_show-found output output-IsSink 24 digit 30 (omega arith) (omega arith) digit-IsDecimal ems
      [] events ems-Repr (omega arith) 7 show refl show-IsRoom
      (omega arith, (omega arith, (omega arith, (omega arith, (omega arith, (omega arith, tt))))))
      (omega arith) (omega arith) (omega arith)

ems_list_events-lines_example :
    Writes output output-IsSink 24 digit 30
      (omega arith)
      (omega arith)
      digit-IsDecimal
      ems
      []
      (ems_list_events output 24 digit 30 ems [])
      0
      (list_text digit (7 ∷ []))
ems_list_events-lines_example =
    ems_list_events-lines output output-IsSink 24 digit 30 (omega arith) (omega arith)
      digit-IsDecimal ems [] events ems-Repr (omega arith) (omega arith, tt)

-- An event with 30 rows and no column.
abbrev tall : Event
tall = record { id = 7; reservations = 0; seats = []; cols = 0; rows = 30 }

abbrev tall_job : Ems
tall_job = put_store ems (record ems.store { events = λ p. if p == 20 then some tall else none })

tall_job-IsList : IsList tall_job.store 1 ((10, 20) ∷ []) (tall ∷ [])
tall_job-IsList = record {
  ne_null = omega arith;
  header = refl;
  linked = (omega arith, refl, refl, tt);
  owns = (omega arith, refl, refl, tt);
}

ems_show-fault_example : ems_show output 24 digit 30 7 tall_job [] ≡ fault
ems_show-fault_example =
    ems_show-fault output 24 digit 30 tall_job [] (tall ∷ [])
      (record { cells = (10, 20) ∷ []; list = tall_job-IsList; free = refl }) 7 tall (omega arith)
      refl refl (omega arith)
