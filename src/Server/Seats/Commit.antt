-- ===== src/Server/Seats/Commit.antt =====
-- The third loop of `ems_reserve`, which writes the new number.
use mathlib.Core.Path.{subst₂}
use so.Base.{
  ℕ, zero, suc, ◌*◌, ◌≤◌, ◌≡◌, Bool, true, false, ◌||◌, ◌&&◌, some, List, [], ◌∷◌, refl, arith, ltb,
  ◌==◌, if◌then◌else◌, length, get_elem?, set, length-set, get_elem?-set_self, get_elem?-set_ne,
  ◌∙◌, ◌≢◌, Bool-cases, inl, inr,
}
use so.Base.Nodes.{ok}
use so.Server.Store.{Event}
use so.Server.Seats.{mark}
use so.Server.Seats.Index.{IsRoom, Inside, index, index-lt, seat_index_lem, index-injective}
use so.Server.Seats.Request.{Coords, request, AllInside}

-- The array after the writes of `r` at the requested seats.
abbrev pub marked : ℕ → ℕ → List ℕ → Coords → List ℕ
marked r cols seats [] = seats
marked r cols seats ((x, y) ∷ ps) = marked r cols (set seats (index cols x y) r) ps

abbrev pub requested : Coords → ℕ → ℕ → Bool
requested [] x y = false
requested ((x', y') ∷ ps) x y = ((x' == x) && (y' == y)) || requested ps x y

pub length-marked :
    (r cols : ℕ) (seats : List ℕ) (ps : Coords) → length (marked r cols seats ps) ≡ length seats
length-marked r cols seats [] = refl
length-marked r cols seats ((x, y) ∷ ps) =
    length-marked r cols (set seats (index cols x y) r) ps ∙ length-set seats (index cols x y) r

pub mark_lem :
    (r : ℕ) (e : Event) (n : ℕ) (xs ys : List ℕ)
    → IsRoom e
    → n ≤ length xs
    → n ≤ length ys
    → AllInside e.rows e.cols (request n xs ys)
    → mark r e n xs ys ≡ ok (record e { seats = marked r e.cols e.seats (request n xs ys) })
unfolding mark
mark_lem r e zero xs ys room h k a = refl
mark_lem r e (suc n) [] ys room h k a = absurd (omega arith)
mark_lem r e (suc n) (x ∷ xs) [] room h k a = absurd (omega arith)
mark_lem r e (suc n) (x ∷ xs) (y ∷ ys) room h k a =
    let i = index e.cols x y in
    let e' : Event = record e { seats = set e.seats i r } in
    let room' : IsRoom e' = record {
      small = room.small;
      full = length-set e.seats i r ∙ room.full;
    } in
    let fits : ltb i (length e.seats) ≡ true =
      ground (arith, index-lt e.rows e.cols x y a.0, room.full) in
    rw (seat_index_lem e x y room a.0, fits)
      (mark_lem r e' n xs ys room' (omega arith) (omega arith) a.1)

pub get_elem?-set_seat :
    (r rows cols : ℕ) (seats : List ℕ) (x' y' x y : ℕ)
    → length seats ≡ rows * cols
    → Inside rows cols x' y'
    → Inside rows cols x y
    → get_elem? (set seats (index cols x' y') r) (index cols x y)
      ≡ (if (x' == x) && (y' == y) then some r else get_elem? seats (index cols x y))
get_elem?-set_seat r rows cols seats x' y' x y full a i =
    elim (Bool-cases ((x' == x) && (y' == y))) [
      | inl hit ↦
          let fits =
            get_elem?-set_self seats (index cols x' y') r
              (omega (arith, index-lt rows cols x' y' a)) in
          rw hit (
            subst₂ (λ u v. get_elem? (set seats (index cols x' y') r) (index cols u v) ≡ some r)
              (ground arith) (ground arith) fits)
      | inr miss ↦
          let inj =
            index-injective cols x' y' x y a.row_low a.col_low a.col_high i.row_low i.col_low
              i.col_high in
          let apart : index cols x' y' ≢ index cols x y =
            λ q. let (ex, ey) = inj q in ground arith in
          rw miss (get_elem?-set_ne seats (index cols x' y') (index cols x y) r apart)
    ]

-- A seat that is written holds the number; no other seat changes.
pub get_elem?-marked :
    (r rows cols : ℕ) (seats : List ℕ) (ps : Coords) (x y : ℕ)
    → length seats ≡ rows * cols
    → AllInside rows cols ps
    → Inside rows cols x y
    → get_elem? (marked r cols seats ps) (index cols x y)
      ≡ (if requested ps x y then some r else get_elem? seats (index cols x y))
get_elem?-marked r rows cols seats [] x y full a i = refl
get_elem?-marked r rows cols seats ((x', y') ∷ ps) x y full a i =
    get_elem?-marked r rows cols seats' ps x y (length-set seats at r ∙ full) a.1 i
    ∙ rw (get_elem?-set_seat r rows cols seats x' y' x y full a.0 i) (ground arith)
  where
    at : ℕ
    at = index cols x' y'

    seats' : List ℕ
    seats' = set seats at r
