-- ===== src/Server/Seats/Outcome.antt =====
-- What the three loops of `ems_reserve` together do to an event.
use so.Base.{
  ℕ, ◌+◌, ◌%◌, ◌≤◌, ◌≡◌, Bool, ◌&&◌, Option, some, List, refl, if◌then◌else◌, length, get_elem?,
  uint_mod, ◌∙◌, Bool-cases, inl, inr,
}
use mathlib.Core.Bool.{not}
use so.Base.Nodes.{ok}
use so.Server.Store.{Event}
use so.Server.Seats.{reserve_seats}
use so.Server.Seats.Index.{IsRoom, Inside, index}
use so.Server.Seats.Request.{
  Coords, request, AllInside, all_inside, all_inside-AllInside, in_bounds_lem,
}
use so.Server.Seats.Conflict.{conflicts, any_taken_lem}
use so.Server.Seats.Commit.{marked, requested, mark_lem, length-marked, get_elem?-marked}

-- The event after a reservation that is granted.
abbrev pub reserved : Event → Coords → Event
reserved e ps =
    let r = (e.reservations + 1) % uint_mod in
    record e { reservations = r; seats = marked r e.cols e.seats ps }

-- The specification: the request is granted when all its seats exist and none is taken.
abbrev pub grants : Event → Coords → Bool
grants e ps = all_inside e.rows e.cols ps && not (conflicts e.cols e.seats ps)

abbrev pub reservation : Event → Coords → ℕ × Event
reservation e ps = if grants e ps then (0, reserved e ps) else (1, e)

-- What the array says of a seat.
abbrev pub seat_at : Event → ℕ → ℕ → Option ℕ
seat_at e x y = get_elem? e.seats (index e.cols x y)

module _ (e : Event) (n : ℕ) (xs ys : List ℕ) (room : IsRoom e) where
  -- On an event whose array holds rows * cols seats, fewer than 2^64, and with arrays of at least
  -- `num_seats` coordinates, the three loops end without a fault. They return 0 and the reserved
  -- event if all requested seats exist and are free, and otherwise 1 and the event as it was.
  pub reserve_seats_lem :
      n ≤ length xs → n ≤ length ys → reserve_seats e n xs ys ≡ ok (reservation e (request n xs ys))
  unfolding reserve_seats
  reserve_seats_lem h k = elim (Bool-cases (all_inside e.rows e.cols (request n xs ys))) [
    | inr outside ↦ rw (in_bounds_lem e n xs ys h k, outside) refl
    | inl inside ↦
        let a = all_inside-AllInside e.rows e.cols (request n xs ys) inside in
        let id = (e.reservations + 1) % uint_mod in
        let numbered : Event = record e { reservations = id } in
        let room' : IsRoom numbered = record { small = room.small; full = room.full } in
        elim (Bool-cases (conflicts e.cols e.seats (request n xs ys))) [
          | inl taken ↦
              rw (in_bounds_lem e n xs ys h k, inside, any_taken_lem e n xs ys room h k a, taken)
                refl
          | inr free ↦
              rw
                (
                  in_bounds_lem e n xs ys h k,
                  inside,
                  any_taken_lem e n xs ys room h k a,
                  free,
                  mark_lem id numbered n xs ys room' h k a,
                )
                refl
        ]
  ]

-- After a granted reservation of seats that exist, every seat of the room holds the reservation's
-- number if it was requested, and what it held before if not.
pub get_elem?-reserved :
    (e : Event) (ps : Coords) (x y : ℕ)
    → IsRoom e
    → AllInside e.rows e.cols ps
    → Inside e.rows e.cols x y
    → seat_at (reserved e ps) x y
      ≡ (if requested ps x y then some (reserved e ps).reservations else seat_at e x y)
get_elem?-reserved e ps x y room a i =
    get_elem?-marked (reserved e ps).reservations e.rows e.cols e.seats ps x y room.full a i

-- A granted or refused reservation leaves a room with the same shape.
pub reserved-IsRoom : (e : Event) (ps : Coords) → IsRoom e → IsRoom (reserved e ps)
reserved-IsRoom e ps room = record {
  small = room.small;
  full = length-marked _ e.cols e.seats ps ∙ room.full;
}
