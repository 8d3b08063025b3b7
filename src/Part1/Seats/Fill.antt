-- ===== src/Part1/Seats/Fill.antt =====
-- The loops of `ems_reserve` in Part 1 as functions on the request: the seats are taken up to
-- the first one that does not exist or is not free.
use so.Base.{
  ℕ, zero, suc, ◌+◌, ◌-◌, ◌*◌, ◌<◌, ◌≤◌, ◌≡◌, Bool, true, false, ◌||◌, ◌&&◌, some, List, [], ◌∷◌,
  refl, sym, ◌∙◌, ap, arith, ltb, ◌==◌, if◌then◌else◌, length, get_elem?, get_elem?-lt, set,
  length-set, size_mod, Bool-cases, inl, inr, if-true, if-false, subst,
}
use mathlib.Core.Bool.{not}
use so.Base.Nodes.{Run, ok}
use so.Server.Seats.Index.{Inside, index, index-lt}
use so.Server.Seats.Request.{Coords, request, AllInside, is_inside, is_inside-Inside}
use so.Server.Seats.Conflict.{is_taken, is_taken_lem}
use so.Server.Seats.Commit.{marked}
use so.Part1.Store.{Event}
use so.Part1.Seats.{seat_index, size_sub, read_seat, write_seat, take_seats, release_seats}
use so.Part1.Seats.Writes.{AllFree, get_elem?-set}

-- The array of an event has one cell for each seat, and their number is a size_t.
pub record IsRoom (e : Event) : Type 0 where
  pub small : e.rows * e.cols < size_mod
  pub full : length e.seats ≡ e.rows * e.cols

pub seat_index_lem :
    (e : Event) (x y : ℕ)
    → IsRoom e
    → Inside e.rows e.cols x y
    → seat_index e x y ≡ index e.cols x y
unfolding seat_index
seat_index_lem e x y r i =
    let rows_le : x ≤ e.rows * e.cols = grind arith in
    let minus_one : size_sub x 1 ≡ x - 1 = omega (arith, r.small) in
    rw minus_one (omega (arith, r.small, index-lt e.rows e.cols x y i))

-- The seats that the first loop takes.
abbrev pub prefix : ℕ → ℕ → ℕ → List ℕ → Coords → Coords
prefix r rows cols seats [] = []
prefix r rows cols seats ((x, y) ∷ ps) =
    if is_inside rows cols x y && not (is_taken seats (index cols x y))
    then (x, y) ∷ prefix r rows cols (set seats (index cols x y) r) ps
    else []

pub prefix-AllInside :
    (r rows cols : ℕ) (seats : List ℕ) (ps : Coords)
    → AllInside rows cols (prefix r rows cols seats ps)
prefix-AllInside r rows cols seats [] = tt
prefix-AllInside r rows cols seats ((x, y) ∷ ps) =
    elim (Bool-cases (is_inside rows cols x y && not (is_taken seats (index cols x y)))) [
      | inl good ↦ rw good (
        is_inside-Inside rows cols x y (ground arith),
        prefix-AllInside r rows cols (set seats (index cols x y) r) ps,
      )
      | inr bad ↦ rw bad tt
    ]

free_seat :
    (seats : List ℕ) (k : ℕ)
    → k < length seats
    → is_taken seats k ≡ false
    → get_elem? seats k ≡ some 0
free_seat seats k h free =
    let (seat, at) = get_elem?-lt seats k h in
    let zero' : seat ≡ 0 = ground (arith) in at ∙ ap some zero'

AllFree-cons :
    (cols x y r : ℕ) (seats : List ℕ) (qs : Coords)
    → index cols x y < length seats
    → is_taken seats (index cols x y) ≡ false
    → AllFree cols (set seats (index cols x y) r) qs
    → AllFree cols seats ((x, y) ∷ qs)
AllFree-cons cols x y r seats qs fits free later i h hit =
    let k = index cols x y in
    elim (Bool-cases (k == i)) [
      | inl here ↦
          let same : k ≡ i = ground arith in
          subst (λ j. get_elem? seats j ≡ some 0) same (free_seat seats k fits free)
      | inr away ↦
          let i_fits : i < length (set seats k r) = omega (arith, length-set seats k r) in
          sym (get_elem?-set seats k i r h ∙ if-false _ _ away) ∙ later i i_fits (ground arith)
    ]

-- All of them were free before the loop.
pub prefix-AllFree :
    (r rows cols : ℕ) (seats : List ℕ) (ps : Coords)
    → length seats ≡ rows * cols
    → AllFree cols seats (prefix r rows cols seats ps)
prefix-AllFree r rows cols seats [] full = λ i h hit. cc
prefix-AllFree r rows cols seats ((x, y) ∷ ps) full =
    let k = index cols x y in
    elim (Bool-cases (is_inside rows cols x y && not (is_taken seats k))) [
      | inl good ↦
          let inside = is_inside-Inside rows cols x y (ground arith) in
          rw good (
            AllFree-cons cols x y r seats (prefix r rows cols (set seats k r) ps)
              (omega (arith, index-lt rows cols x y inside)) (ground arith)
              (prefix-AllFree r rows cols (set seats k r) ps (length-set seats k r ∙ full)))
      | inr bad ↦ rw bad λ i h hit. cc
    ]

read_seat_lem : (e : Event) (k seat : ℕ) → get_elem? e.seats k ≡ some seat → read_seat e k ≡ ok seat
unfolding read_seat
read_seat_lem e k seat at = rw (at, read_seat) refl

write_seat_lem :
    (e : Event) (k v : ℕ)
    → k < length e.seats
    → write_seat e k v ≡ ok (record e { seats = set e.seats k v })
unfolding write_seat
write_seat_lem e k v h = let fits : ltb k (length e.seats) ≡ true = ground arith in rw fits refl

-- What the first loop makes of the seats that it takes.
abbrev pub taken : ℕ → Event → ℕ → Coords → ℕ × Event
taken r e i pre = (i + length pre, record e { seats = marked r e.cols e.seats pre })

abbrev outside : Event → ℕ → ℕ → Bool
outside e x y = (x == 0) || (ltb e.rows x || ((y == 0) || ltb e.cols y))

outside-is_inside : (e : Event) (x y : ℕ) → outside e x y ≡ not (is_inside e.rows e.cols x y)
outside-is_inside e x y = ground arith

module _ (r : ℕ) (e : Event) (i n x y : ℕ) (xs ys : List ℕ) (room : IsRoom e) where
  abbrev k : ℕ
  k = index e.cols x y

  abbrev e' : Event
  e' = record e { seats = set e.seats k r }

  abbrev step : Run (ℕ × Event)
  step = take_seats r e i (suc n) (x ∷ xs) (y ∷ ys)

  step_outside : is_inside e.rows e.cols x y ≡ false → step ≡ ok (i, e)
  unfolding take_seats
  step_outside h = if-true _ _ (outside-is_inside e x y ∙ ap not h)

  module _ (h : is_inside e.rows e.cols x y ≡ true) where
    inside : Inside e.rows e.cols x y
    inside = is_inside-Inside e.rows e.cols x y h

    fits : k < length e.seats
    fits = omega (arith, room.full, index-lt e.rows e.cols x y inside)

    step_taken :
        (seat : ℕ) → get_elem? e.seats k ≡ some seat → (seat == 0) ≡ false → step ≡ ok (i, e)
    unfolding take_seats
    step_taken seat at full =
        if-false _ _ (outside-is_inside e x y ∙ ap not h)
        ∙ rw (seat_index_lem e x y room inside, read_seat_lem e k seat at, full) refl

    step_free :
        (seat : ℕ)
        → get_elem? e.seats k ≡ some seat
        → (seat == 0) ≡ true
        → step ≡ take_seats r e' (i + 1) n xs ys
    unfolding take_seats
    step_free seat at free =
        if-false _ _ (outside-is_inside e x y ∙ ap not h)
        ∙ rw
            (
              seat_index_lem e x y room inside,
              read_seat_lem e k seat at,
              free,
              write_seat_lem e k r fits,
            )
            refl

-- The first loop takes the prefix, and counts it.
pub take_seats_lem :
    (r : ℕ) (e : Event) (i n : ℕ) (xs ys : List ℕ)
    → IsRoom e
    → n ≤ length xs
    → n ≤ length ys
    → take_seats r e i n xs ys ≡ ok (taken r e i (prefix r e.rows e.cols e.seats (request n xs ys)))
unfolding take_seats
take_seats_lem r e i zero xs ys room h k = ap (λ j. ok (j, e)) (omega arith)
take_seats_lem r e i (suc n) [] ys room h k = absurd (omega arith)
take_seats_lem r e i (suc n) (x ∷ xs) [] room h k = absurd (omega arith)
take_seats_lem r e i (suc n) (x ∷ xs) (y ∷ ys) room hx hy =
    let cell = index e.cols x y in
    let seats' = set e.seats cell r in
    let rest = request n xs ys in
    let none_more : i ≡ i + 0 = omega arith in
    elim (Bool-cases (is_inside e.rows e.cols x y)) [
      | inr out ↦
          let bad : is_inside e.rows e.cols x y && not (is_taken e.seats cell) ≡ false = rw out in
          step_outside r e i n x y xs ys room out
          ∙ ap (λ j. ok (j, e)) none_more
          ∙ ap (λ pre. ok (taken r e i pre)) (sym (if-false _ _ bad))
      | inl in_room ↦
          let (seat, at) = get_elem?-lt e.seats cell (fits r e i n x y xs ys room in_room) in
          let known = is_taken_lem e.seats cell seat at in
          elim (Bool-cases (seat == 0)) [
            | inl free ↦
                let e₁ : Event = record e { seats = seats' } in
                let room₁ : IsRoom e₁ = record {
                  small = room.small;
                  full = length-set e.seats cell r ∙ room.full;
                } in
                let pre = prefix r e.rows e.cols seats' rest in
                let one_more : i + 1 + length pre ≡ i + suc (length pre) = omega arith in
                let good : is_inside e.rows e.cols x y && not (is_taken e.seats cell) ≡ true =
                  rw (in_room, known, free) in
                step_free r e i n x y xs ys room in_room seat at free
                ∙ take_seats_lem r e₁ (i + 1) n xs ys room₁ (omega arith) (omega arith)
                ∙ ap (λ j. ok (j, record e { seats = marked r e.cols seats' pre })) one_more
                ∙ ap (λ pre. ok (taken r e i pre)) (sym (if-true _ _ good))
            | inr full ↦
                let bad : is_inside e.rows e.cols x y && not (is_taken e.seats cell) ≡ false =
                  rw (in_room, known, full) in
                step_taken r e i n x y xs ys room in_room seat at full
                ∙ ap (λ j. ok (j, e)) none_more
                ∙ ap (λ pre. ok (taken r e i pre)) (sym (if-false _ _ bad))
          ]
    ]

-- The second loop gives back the first `k` seats.
pub release_seats_lem :
    (e : Event) (n : ℕ) (xs ys : List ℕ)
    → IsRoom e
    → n ≤ length xs
    → n ≤ length ys
    → AllInside e.rows e.cols (request n xs ys)
    → release_seats e n xs ys ≡ ok (record e { seats = marked 0 e.cols e.seats (request n xs ys) })
unfolding release_seats write_seat
release_seats_lem e zero xs ys room h k a = refl
release_seats_lem e (suc n) [] ys room h k a = absurd (omega arith)
release_seats_lem e (suc n) (x ∷ xs) [] room h k a = absurd (omega arith)
release_seats_lem e (suc n) (x ∷ xs) (y ∷ ys) room h k a =
    let i = index e.cols x y in
    let e' : Event = record e { seats = set e.seats i 0 } in
    let room' : IsRoom e' = record {
      small = room.small;
      full = length-set e.seats i 0 ∙ room.full;
    } in
    let fits : ltb i (length e.seats) ≡ true =
      ground (arith, index-lt e.rows e.cols x y a.0, room.full) in
    rw (seat_index_lem e x y room a.0, fits)
      (release_seats_lem e' n xs ys room' (omega arith) (omega arith) a.1)
