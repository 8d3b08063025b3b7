-- ===== src/Part1/Seats/Outcome.antt =====
-- What the loops of `ems_reserve` of Part 1 together do to an event. A seat that is requested twice
-- is not free the second time.
use so.Base.{
  ℕ, zero, suc, ◌+◌, ◌-◌, ◌*◌, ◌%◌, ◌<◌, ◌≤◌, ◌≡◌, ◌≢◌, Bool, true, false, ◌||◌, ◌&&◌, List, [],
  ◌∷◌, refl, sym, ◌∙◌, ap, arith, ltb, ◌==◌, if◌then◌else◌, length, set, length-set, uint_mod,
  Bool-cases, inl, inr, if-true, if-false, subst,
}
use mathlib.Core.Bool.{not}
use so.Base.Nodes.{ok}
use so.Server.Seats.Index.{Inside, index}
use so.Server.Seats.Request.{
  Coords, request, AllInside, all_inside, is_inside, is_inside-Inside, all_inside-AllInside,
}
use so.Server.Seats.Conflict.{conflicts, is_taken}
use so.Server.Seats.Commit.{marked, requested, get_elem?-set_seat, length-marked}
use so.Part1.Store.{Event}
use so.Part1.Seats.{take_seats, release_seats, reserve_seats}
use so.Part1.Seats.Writes.{marked-marked}
use so.Part1.Seats.Fill.{
  IsRoom, prefix, prefix-AllInside, prefix-AllFree, take_seats_lem, release_seats_lem,
}

-- No seat is requested twice.
abbrev pub distinct : Coords → Bool
distinct [] = true
distinct ((x, y) ∷ ps) = not (requested ps x y) && distinct ps

-- The loop takes a prefix of the request.
request-prefix :
    (r rows cols : ℕ) (seats : List ℕ) (n : ℕ) (xs ys : List ℕ)
    → request (length (prefix r rows cols seats (request n xs ys))) xs ys
      ≡ prefix r rows cols seats (request n xs ys)
request-prefix r rows cols seats zero xs ys = refl
request-prefix r rows cols seats (suc n) [] ys = refl
request-prefix r rows cols seats (suc n) (x ∷ xs) [] = refl
request-prefix r rows cols seats (suc n) (x ∷ xs) (y ∷ ys) =
    let k = index cols x y in
    elim (Bool-cases (is_inside rows cols x y && not (is_taken seats k))) [
      | inl good ↦
          rw good (ap (λ t. (x, y) ∷ t) (request-prefix r rows cols (set seats k r) n xs ys))
      | inr bad ↦ rw bad refl
    ]

-- Writing a number that is not 0 makes the seat taken, and no other.
conflicts-set :
    (r rows cols : ℕ) (seats : List ℕ) (x y : ℕ) (ps : Coords)
    → r ≢ 0
    → length seats ≡ rows * cols
    → Inside rows cols x y
    → AllInside rows cols ps
    → conflicts cols (set seats (index cols x y) r) ps
      ≡ (requested ps x y || conflicts cols seats ps)
conflicts-set r rows cols seats x y [] ne full i a = refl
conflicts-set r rows cols seats x y ((u, v) ∷ ps) ne full i a =
    let ih = conflicts-set r rows cols seats x y ps ne full i a.1 in
    let here = get_elem?-set_seat r rows cols seats x y u v full i a.0 in ground (arith, here, ih)

==-suc : (a b : ℕ) → (suc a == suc b) ≡ (a == b)
==-suc a b = ground arith

zero_eq : (n : ℕ) → (0 == suc n) ≡ false
zero_eq n = ground arith

-- The cases of the induction below, on the tests alone.
taken_case :
    (inside full all conflict later again rest now : Bool)
    → inside && not full ≡ true
    → later ≡ (again || conflict)
    → now ≡ (all && (not later && rest))
    → now ≡ (inside && all) && (not (full || conflict) && (not again && rest))
taken_case inside full all conflict later again rest now good e h = ground arith

outside_case :
    (inside full conflict later again rest now : Bool)
    → now ≡ (false && (not later && rest))
    → now ≡ (inside && false) && (not (full || conflict) && (not again && rest))
outside_case inside full conflict later again rest now h = ground arith

bad_case :
    (inside full all conflict again rest : Bool)
    → inside && not full ≡ false
    → false ≡ (inside && all) && (not (full || conflict) && (not again && rest))
bad_case inside full all conflict again rest bad = ground arith

-- The whole request is taken exactly when all its seats exist, are free and are distinct.
all_taken :
    (r rows cols : ℕ) (seats : List ℕ) (ps : Coords)
    → r ≢ 0
    → length seats ≡ rows * cols
    → (length (prefix r rows cols seats ps) == length ps)
      ≡ (all_inside rows cols ps && (not (conflicts cols seats ps) && distinct ps))
all_taken r rows cols seats [] ne full = refl
all_taken r rows cols seats ((x, y) ∷ ps) ne full =
    let k = index cols x y in
    let ih = all_taken r rows cols (set seats k r) ps ne (length-set seats k r ∙ full) in
    elim (Bool-cases (is_inside rows cols x y && not (is_taken seats k))) [
      | inl good ↦
          let i = is_inside-Inside rows cols x y (ground arith) in
          elim (Bool-cases (all_inside rows cols ps)) [
            | inl all ↦
                let a = all_inside-AllInside rows cols ps all in
                let set_at = conflicts-set r rows cols seats x y ps ne full i a in
                rw good (
                  ==-suc _ _
                  ∙ taken_case (is_inside rows cols x y) (is_taken seats k) _ _ _ _ _ _ good set_at
                      ih)
            | inr outside ↦
                rw (good, outside)
                  (==-suc _ _
                    ∙ outside_case (is_inside rows cols x y) (is_taken seats k)
                        (conflicts cols seats ps) (conflicts cols (set seats k r) ps)
                        (requested ps x y) (distinct ps) _ (rw outside at ih))
          ]
      | inr bad ↦ rw bad (
          zero_eq _
          ∙ bad_case (is_inside rows cols x y) (is_taken seats k) (all_inside rows cols ps)
              (conflicts cols seats ps) (requested ps x y) (distinct ps) bad)
    ]

-- A number larger than 0 that an unsigned int can hold.
fresh_number : (e : Event) → e.reservations + 1 < uint_mod → (e.reservations + 1) % uint_mod ≢ 0
fresh_number e h = omega arith

back_to : (c : ℕ) → c + 1 < uint_mod → ((c + 1) % uint_mod + uint_mod - 1) % uint_mod ≡ c
back_to c h = omega arith

-- The event after a reservation that is granted.
abbrev pub reserved : Event → Coords → Event
reserved e ps =
    let r = (e.reservations + 1) % uint_mod in
    record e { reservations = r; seats = marked r e.cols e.seats ps }

-- The specification: all seats exist, none is taken, none is requested twice.
abbrev pub grants : Event → Coords → Bool
grants e ps = all_inside e.rows e.cols ps && (not (conflicts e.cols e.seats ps) && distinct ps)

abbrev pub reservation : Event → Coords → ℕ × Event
reservation e ps = if grants e ps then (0, reserved e ps) else (1, e)

length-request :
    (n : ℕ) (xs ys : List ℕ) → n ≤ length xs → n ≤ length ys → length (request n xs ys) ≡ n
length-request zero xs ys h k = refl
length-request (suc n) [] ys h k = absurd (omega arith)
length-request (suc n) (x ∷ xs) [] h k = absurd (omega arith)
length-request (suc n) (x ∷ xs) (y ∷ ys) h k =
    ap suc (length-request n xs ys (omega arith) (omega arith))

length-prefix-le :
    (r rows cols : ℕ) (seats : List ℕ) (ps : Coords)
    → length (prefix r rows cols seats ps) ≤ length ps
length-prefix-le r rows cols seats [] = omega arith
length-prefix-le r rows cols seats ((x, y) ∷ ps) =
    ground (arith, length-prefix-le r rows cols (set seats (index cols x y) r) ps)

module _ (e : Event) (n : ℕ) (xs ys : List ℕ) (room : IsRoom e) (hx : n ≤ length xs)
    (hy : n ≤ length ys) where
  abbrev r : ℕ
  r = (e.reservations + 1) % uint_mod

  abbrev ps : Coords
  ps = request n xs ys

  abbrev pre : Coords
  pre = prefix r e.rows e.cols e.seats ps

  abbrev e₁ : Event
  e₁ = record e { reservations = r }

  abbrev e₂ : Event
  e₂ = record e₁ { seats = marked r e.cols e.seats pre }

  pre_le : length pre ≤ n
  pre_le = omega (arith, length-prefix-le r e.rows e.cols e.seats ps, length-request n xs ys hx hy)

  first_loop : take_seats r e₁ 0 n xs ys ≡ ok (length pre, e₂)
  first_loop =
      let from_0 : 0 + length pre ≡ length pre = omega arith in
      take_seats_lem r e₁ 0 n xs ys (record { small = room.small; full = room.full }) hx hy
      ∙ ap (λ j. ok (j, e₂)) from_0

  second_loop :
      e.reservations + 1 < uint_mod
      → release_seats
          (record e₂ { reservations = (r + uint_mod - 1) % uint_mod })
          (length pre)
          xs
          ys
        ≡ ok e
  second_loop few =
      let e₃ : Event = record e₂ { reservations = (r + uint_mod - 1) % uint_mod } in
      let room₃ : IsRoom e₃ = record {
        small = room.small;
        full = length-marked r e.cols e.seats pre ∙ room.full;
      } in
      let same = request-prefix r e.rows e.cols e.seats n xs ys in
      let inside = prefix-AllInside r e.rows e.cols e.seats ps in
      let free = prefix-AllFree r e.rows e.cols e.seats ps room.full in
      let restored = marked-marked r e.cols e.seats pre free in
      let number = back_to e.reservations few in
      release_seats_lem e₃ (length pre) xs ys room₃ (omega (arith, pre_le)) (omega (arith, pre_le))
        (subst (AllInside e.rows e.cols) (sym same) inside)
      ∙ ap (λ q. ok (record e₃ { seats = marked 0 e.cols (marked r e.cols e.seats pre) q })) same
      ∙ (λ i. ok (record e { reservations = number i; seats = restored i }))

  -- On a room, with arrays of at least `num_seats` coordinates and a counter that does not wrap, the
  -- loops of Part 1 end without a fault. They return 0 and the reserved event if the requested seats
  -- are distinct, exist and are free; otherwise 1 and exactly the event as it was.
  pub reserve_seats-reservation :
      e.reservations + 1 < uint_mod → reserve_seats e n xs ys ≡ ok (reservation e (request n xs ys))
  unfolding reserve_seats
  reserve_seats-reservation few =
      let all = all_taken r e.rows e.cols e.seats ps (fresh_number e few) room.full in
      let num = length-request n xs ys hx hy in
      elim (Bool-cases (grants e ps)) [
        | inl granted ↦
            let equal : length pre ≡ n = ground (arith, all, granted, num) in
            let whole : pre ≡ ps =
              sym (request-prefix r e.rows e.cols e.seats n xs ys)
              ∙ ap (λ k. request k xs ys) equal in
            let done : ltb (length pre) n ≡ false = ground arith in
            rw (first_loop, done)
              (ap (λ q. ok (0, record e₁ { seats = marked r e.cols e.seats q })) whole
                ∙ ap ok (sym (if-true _ _ granted)))
        | inr refused ↦
            let unequal : (length pre == length ps) ≡ false = all ∙ refused in
            let short : ltb (length pre) n ≡ true = ground (arith, pre_le, num) in
            rw (first_loop, short, second_loop few) (ap ok (sym (if-false _ _ refused)))
      ]
