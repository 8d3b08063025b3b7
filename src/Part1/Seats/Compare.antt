-- ===== src/Part1/Seats/Compare.antt =====
-- The two versions of the reservation: Part 1 takes the seats one by one and undoes, Part 2
-- checks all seats and then writes.
use so.Base.{
  ℕ, ◌+◌, ◌≤◌, ◌<◌, ◌≡◌, true, false, List, sym, ◌∙◌, ap, arith, length, uint_mod, if-true,
  if-false, Bool-cases, inl, inr,
}
use so.Base.Nodes.{Run, ok, ◌>>=◌}
use so.Server.Store
use so.Server.Seats
use so.Server.Seats.Index
use so.Server.Seats.Request.{request}
use so.Server.Seats.Outcome
use so.Part1.Store.{Event}
use so.Part1.Seats.{reserve_seats}
use so.Part1.Seats.Outcome.{distinct, grants, reservation, reserve_seats-reservation}

-- An event of the server as Part 1 knows it: without its mutex.
abbrev pub forget : Store.Event → Event
forget e = record {
  id = e.id;
  reservations = e.reservations;
  seats = e.seats;
  cols = e.cols;
  rows = e.rows;
}

abbrev pub forget_result : ℕ × Store.Event → Run (ℕ × Event)
forget_result (code, e) = ok (code, forget e)

module _ (e : Store.Event) (n : ℕ) (xs ys : List ℕ) (room : Index.IsRoom e) (hx : n ≤ length xs)
    (hy : n ≤ length ys) (few : e.reservations + 1 < uint_mod) where
  part1_result : reserve_seats (forget e) n xs ys ≡ ok (reservation (forget e) (request n xs ys))
  part1_result =
      reserve_seats-reservation (forget e) n xs ys (record { small = room.small; full = room.full })
        hx hy few

  part2_result : Seats.reserve_seats e n xs ys ≡ ok (Outcome.reservation e (request n xs ys))
  part2_result = Outcome.reserve_seats_lem e n xs ys room hx hy

  part1_grants :
      distinct (request n xs ys) ≡ true
      → grants (forget e) (request n xs ys) ≡ Outcome.grants e (request n xs ys)
  part1_grants d = ground (arith, d)

  part1_refuses : distinct (request n xs ys) ≡ false → grants (forget e) (request n xs ys) ≡ false
  part1_refuses d = ground (arith, d)

  -- On a room, with arrays of at least `num_seats` coordinates, a counter that does not wrap, and no
  -- seat requested twice, the reservations of Part 1 and Part 2 return the same code and leave the
  -- same event.
  pub reserve_seats-agree :
      distinct (request n xs ys) ≡ true
      → reserve_seats (forget e) n xs ys ≡ (Seats.reserve_seats e n xs ys >>= forget_result)
  reserve_seats-agree d = elim (Bool-cases (Outcome.grants e (request n xs ys))) [
    | inl granted ↦
        part1_result
        ∙ ap ok (if-true _ _ (part1_grants d ∙ granted))
        ∙ ap (λ r. ok r >>= forget_result) (sym (if-true _ _ granted))
        ∙ ap (λ r. r >>= forget_result) (sym part2_result)
    | inr refused ↦
        part1_result
        ∙ ap ok (if-false _ _ (part1_grants d ∙ refused))
        ∙ ap (λ r. ok r >>= forget_result) (sym (if-false _ _ refused))
        ∙ ap (λ r. r >>= forget_result) (sym part2_result)
  ]

  -- On a room, with arrays of at least `num_seats` coordinates and a counter that does not wrap: a
  -- request that names a seat twice, whose seats exist and are free, is refused by Part 1 without a
  -- change and granted by Part 2.
  pub reserve_seats-differ :
      distinct (request n xs ys) ≡ false
      → Outcome.grants e (request n xs ys) ≡ true
      → (reserve_seats (forget e) n xs ys ≡ ok (1, forget e))
        × (Seats.reserve_seats e n xs ys ≡ ok (0, Outcome.reserved e (request n xs ys)))
  reserve_seats-differ d g =
      (part1_result ∙ ap ok (if-false _ _ (part1_refuses d)), part2_result ∙ ap ok (if-true _ _ g))
