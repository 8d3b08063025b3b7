-- ===== src/Server/Tests/Seats.antt =====
-- Reservations on one event.
use so.Base.{◌≡◌, refl, [], ◌∷◌, arith}
use so.Base.Nodes.{ok, fault}
use so.Server.Seats.{reserve_seats}
use so.Server.Seats.Index.{Inside}
use so.Server.Seats.Outcome.{reservation, reserve_seats_lem}
use so.Server.Tests.State.{concert, concert-IsRoom}

-- Seats (1, 1) and (2, 3) are free, (1, 2) is taken, (3, 1) does not exist.
two_seats :
    reserve_seats concert 2 (1 ∷ 2 ∷ []) (1 ∷ 3 ∷ [])
    ≡ ok (0, record concert { reservations = 2; seats = 2 ∷ 1 ∷ 0 ∷ 0 ∷ 0 ∷ 2 ∷ [] })
unfolding reserve_seats
two_seats = refl

taken_seat : reserve_seats concert 2 (1 ∷ 1 ∷ []) (1 ∷ 2 ∷ []) ≡ ok (1, concert)
unfolding reserve_seats
taken_seat = refl

no_such_seat : reserve_seats concert 1 (3 ∷ []) (1 ∷ []) ≡ ok (1, concert)
unfolding reserve_seats
no_such_seat = refl

-- More seats than the arrays hold.
too_many : reserve_seats concert 3 (1 ∷ 2 ∷ []) (1 ∷ 3 ∷ []) ≡ fault
unfolding reserve_seats
too_many = refl

reserve_seats_lem_example :
    reserve_seats concert 2 (1 ∷ 2 ∷ []) (1 ∷ 3 ∷ [])
    ≡ ok (reservation concert ((1, 1) ∷ (2, 3) ∷ []))
reserve_seats_lem_example =
    reserve_seats_lem concert 2 (1 ∷ 2 ∷ []) (1 ∷ 3 ∷ []) concert-IsRoom (omega arith) (omega arith)

first_seat : Inside 2 3 1 1
first_seat = record {
  row_low = omega arith;
  row_high = omega arith;
  col_low = omega arith;
  col_high = omega arith;
}
