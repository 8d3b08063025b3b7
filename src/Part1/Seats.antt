-- ===== src/Part1/Seats.antt =====
-- The body of `ems_reserve` in Part1/src/operations.c, between the locks and the unlocks: the
-- seats are taken one by one, and given back if one of them cannot be had. A read or write past
-- the end of an array is a fault; the simulated delays of `get_seat_with_delay` have no effect.
pub mod Writes
pub mod Fill
pub mod Outcome
pub mod Compare
use so.Base.{
  ℕ, zero, suc, ◌+◌, ◌-◌, ◌*◌, ◌%◌, Bool, true, false, ◌||◌, Option, none, some, List, [], ◌∷◌, ltb,
  ◌==◌, if◌then◌else◌, size_mod, uint_mod, get_elem?, set, length,
}
use mathlib.Core.Bool.{not}
use so.Base.Nodes.{Run, ok, fault, ◌>>=◌}
use so.Part1.Store.{Event}

-- `a - b` on size_t
abbrev size_sub : ℕ → ℕ → ℕ
size_sub a b = (a + size_mod - b) % size_mod

unfoldable pub seat_index : Event → ℕ → ℕ → ℕ
seat_index event row col = size_sub (size_sub row 1 * event.cols + col) 1

-- `*get_seat_with_delay(ems, event, index)`, read and written.
unfoldable pub read_seat : Event → ℕ → Run ℕ
read_seat event index = elim (get_elem? event.seats index) [ none ↦ fault | some seat ↦ ok seat ]

unfoldable pub write_seat : Event → ℕ → ℕ → Run Event
write_seat event index value =
    if ltb index (length event.seats)
    then ok (record event { seats = set event.seats index value })
    else fault

-- The first loop from round `i` on: the round in which it stopped, and the event.
unfoldable pub take_seats : ℕ → Event → ℕ → ℕ → List ℕ → List ℕ → Run (ℕ × Event)
take_seats reservation_id event i zero xs ys = ok (i, event)
take_seats reservation_id event i (suc n) [] ys = fault
take_seats reservation_id event i (suc n) (row ∷ xs) [] = fault
take_seats reservation_id event i (suc n) (row ∷ xs) (col ∷ ys) =
    let go_on = (do
      seat ← read_seat event (seat_index event row col)
      let rest = (do
        event' ← write_seat event (seat_index event row col) reservation_id
        take_seats reservation_id event' (i + 1) n xs ys)
      if not (seat == 0) then ok (i, event) else rest) in
    if (row == 0) || (ltb event.rows row || ((col == 0) || ltb event.cols col))
    then ok (i, event)
    else go_on

-- The second loop: the first `i` seats are given back.
unfoldable pub release_seats : Event → ℕ → List ℕ → List ℕ → Run Event
release_seats event zero xs ys = ok event
release_seats event (suc i) [] ys = fault
release_seats event (suc i) (x ∷ xs) [] = fault
release_seats event (suc i) (x ∷ xs) (y ∷ ys) = do
  event' ← write_seat event (seat_index event x y) 0
  release_seats event' i xs ys

unfoldable pub reserve_seats : Event → ℕ → List ℕ → List ℕ → Run (ℕ × Event)
unfolding take_seats release_seats
reserve_seats event num_seats xs ys = do
  let reservation_id = (event.reservations + 1) % uint_mod
  (i, event') ←
      take_seats reservation_id (record event { reservations = reservation_id }) 0 num_seats xs ys
  if ltb i num_seats
      then (do
        let fewer = (event'.reservations + uint_mod - 1) % uint_mod
        event'' ← release_seats (record event' { reservations = fewer }) i xs ys
        ok (1, event''))
      else ok (0, event')
