-- ===== src/Part1/Tests.antt =====
-- Runs of the model of Part1/src, and the theorems at concrete inputs.
mod Parser
mod State
mod Operations
mod Threads
mod Turns
mod Output
use so.Base.{◌≡◌, refl, [], ◌∷◌, arith}
use so.Base.Nodes.{ok, ◌>>=◌}
use so.Server.Seats
use so.Server.Seats.Outcome
use so.Server.Tests.State.{concert, concert-IsRoom}
use so.Part1.Store.{Event}
use so.Part1.Seats.{reserve_seats, read_seat, write_seat, seat_index}
use so.Part1.Seats.Fill.{IsRoom}
use so.Part1.Seats.Outcome.{reservation, reserve_seats-reservation}
use so.Part1.Seats.Compare.{forget, forget_result, reserve_seats-agree, reserve_seats-differ}

abbrev show : Event
show = forget concert

show-IsRoom : IsRoom show
show-IsRoom = record { small = omega arith; full = refl }

-- The second seat is taken: the first is given back.
given_back : reserve_seats show 2 (1 ∷ 1 ∷ []) (1 ∷ 2 ∷ []) ≡ ok (1, show)
unfolding reserve_seats read_seat write_seat seat_index
given_back = refl

reserve_seats-reservation_example :
    reserve_seats show 2 (1 ∷ 2 ∷ []) (1 ∷ 3 ∷ []) ≡ ok (reservation show ((1, 1) ∷ (2, 3) ∷ []))
reserve_seats-reservation_example =
    reserve_seats-reservation show 2 (1 ∷ 2 ∷ []) (1 ∷ 3 ∷ []) show-IsRoom (omega arith)
      (omega arith) (omega arith)

reserve_seats-agree_example :
    reserve_seats show 2 (1 ∷ 2 ∷ []) (1 ∷ 3 ∷ [])
    ≡ (Seats.reserve_seats concert 2 (1 ∷ 2 ∷ []) (1 ∷ 3 ∷ []) >>= forget_result)
reserve_seats-agree_example =
    reserve_seats-agree concert 2 (1 ∷ 2 ∷ []) (1 ∷ 3 ∷ []) concert-IsRoom (omega arith)
      (omega arith) (omega arith) refl

reserve_seats-differ_example :
    (reserve_seats show 2 (1 ∷ 1 ∷ []) (1 ∷ 1 ∷ []) ≡ ok (1, show))
    × (Seats.reserve_seats concert 2 (1 ∷ 1 ∷ []) (1 ∷ 1 ∷ [])
        ≡ ok (0, Outcome.reserved concert ((1, 1) ∷ (1, 1) ∷ [])))
reserve_seats-differ_example =
    reserve_seats-differ concert 2 (1 ∷ 1 ∷ []) (1 ∷ 1 ∷ []) concert-IsRoom (omega arith)
      (omega arith) (omega arith) refl refl
