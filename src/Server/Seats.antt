-- ===== src/Server/Seats.antt =====
-- The body of `ems_reserve` in Part2/src/server/operations.c, between the lock and the unlock of
-- the event's mutex: three loops over the requested coordinates and the seats of one event.
-- The arrays xs and ys are lists; a read past their end, or past the end of the seats, is a
-- fault. Arithmetic on size_t and on unsigned int wraps around.
pub mod Index
pub mod Request
pub mod Conflict
pub mod Commit
pub mod Outcome
use so.Base.{
  ℕ, zero, suc, ◌+◌, ◌-◌, ◌*◌, ◌%◌, Bool, true, false, ◌||◌, Option, none, some, List, [], ◌∷◌, ltb,
  ◌==◌, if◌then◌else◌, size_mod, uint_mod, get_elem?, set, length,
}
use mathlib.Core.Bool.{not}
use so.Base.Nodes.{Run, ok, fault, ◌>>=◌}
use so.Server.Store.{Event}

-- `a - b` on size_t
abbrev size_sub : ℕ → ℕ → ℕ
size_sub a b = (a + size_mod - b) % size_mod

unfoldable pub seat_index : Event → ℕ → ℕ → ℕ
seat_index event row col = size_sub (size_sub row 1 * event.cols + col) 1

-- The first loop: whether every coordinate is in range.
unfoldable pub in_bounds : Event → ℕ → List ℕ → List ℕ → Run Bool
in_bounds event zero xs ys = ok true
in_bounds event (suc n) [] ys = fault
in_bounds event (suc n) (x ∷ xs) [] = if (x == 0) || ltb event.rows x then ok false else fault
in_bounds event (suc n) (x ∷ xs) (y ∷ ys) =
    let rest = in_bounds event n xs ys in
    if (x == 0) || (ltb event.rows x || ((y == 0) || ltb event.cols y)) then ok false else rest

-- The inner part of the second loop, for the seat `i`: whether it is requested and taken.
unfoldable pub taken_at : Event → ℕ → ℕ → List ℕ → List ℕ → Run Bool
taken_at event i zero xs ys = ok false
taken_at event i (suc n) [] ys = fault
taken_at event i (suc n) (x ∷ xs) [] = fault
taken_at event i (suc n) (x ∷ xs) (y ∷ ys) =
    let rest = taken_at event i n xs ys in
    if seat_index event x y == i
    then elim (get_elem? event.seats i) [ none ↦ fault | some seat ↦ ok (not (seat == 0)) ]
    else rest

-- The second loop, with `left` seats still to come from `i` on.
unfoldable pub any_taken : Event → ℕ → ℕ → ℕ → List ℕ → List ℕ → Run Bool
any_taken event zero i num_seats xs ys = ok false
any_taken event (suc left) i num_seats xs ys = do
  taken ← taken_at event i num_seats xs ys
  let rest = any_taken event left (i + 1) num_seats xs ys
  if taken then ok true else rest

-- The third loop: the requested seats get the reservation's number.
unfoldable pub mark : ℕ → Event → ℕ → List ℕ → List ℕ → Run Event
mark reservation_id event zero xs ys = ok event
mark reservation_id event (suc n) [] ys = fault
mark reservation_id event (suc n) (x ∷ xs) [] = fault
mark reservation_id event (suc n) (x ∷ xs) (y ∷ ys) =
    let i = seat_index event x y in
    let seats = set event.seats i reservation_id in
    let rest = mark reservation_id (record event { seats = seats }) n xs ys in
    if ltb i (length event.seats) then rest else fault

-- The result code, and the event as the loops leave it.
unfoldable pub reserve_seats : Event → ℕ → List ℕ → List ℕ → Run (ℕ × Event)
unfolding in_bounds taken_at any_taken mark seat_index
reserve_seats event num_seats xs ys = do
  inside ← in_bounds event num_seats xs ys
  if not inside then ok (1, event) else do
    taken ← any_taken event ((event.rows * event.cols) % size_mod) 0 num_seats xs ys
    if taken then ok (1, event) else do
      let reservation_id = (event.reservations + 1) % uint_mod
      event' ← mark reservation_id (record event { reservations = reservation_id }) num_seats xs ys
      ok (0, event')
