-- ===== src/Server/Seats/Request.antt =====
-- The request as a list of coordinates, and the first loop of `ems_reserve` as a test of it.
use so.Base.{ℕ, zero, suc, ◌≤◌, ◌≡◌, Bool, true, ◌&&◌, List, [], ◌∷◌, refl, arith, leb, length}
use so.Base.Nodes.{ok}
use so.Server.Store.{Event}
use so.Server.Seats.{in_bounds}
use so.Server.Seats.Index.{Inside}

abbrev pub Coords : Type 0
Coords = List (ℕ × ℕ)

-- The first `n` entries of the two arrays.
abbrev pub request : ℕ → List ℕ → List ℕ → Coords
request zero xs ys = []
request (suc n) [] ys = []
request (suc n) (x ∷ xs) [] = []
request (suc n) (x ∷ xs) (y ∷ ys) = (x, y) ∷ request n xs ys

abbrev pub is_inside : ℕ → ℕ → ℕ → ℕ → Bool
is_inside rows cols x y = leb 1 x && (leb x rows && (leb 1 y && leb y cols))

abbrev pub all_inside : ℕ → ℕ → Coords → Bool
all_inside rows cols [] = true
all_inside rows cols ((x, y) ∷ ps) = is_inside rows cols x y && all_inside rows cols ps

abbrev pub AllInside : ℕ → ℕ → Coords → Type 0
AllInside rows cols [] = Unit {0}
AllInside rows cols ((x, y) ∷ ps) = Inside rows cols x y × AllInside rows cols ps

pub is_inside-Inside : (rows cols x y : ℕ) → is_inside rows cols x y ≡ true → Inside rows cols x y
is_inside-Inside rows cols x y h = ground arith

pub all_inside-AllInside :
    (rows cols : ℕ) (ps : Coords) → all_inside rows cols ps ≡ true → AllInside rows cols ps
all_inside-AllInside rows cols [] h = tt
all_inside-AllInside rows cols ((x, y) ∷ ps) h = (
  is_inside-Inside rows cols x y (ground arith),
  all_inside-AllInside rows cols ps (ground arith),
)

pub AllInside-all_inside :
    (rows cols : ℕ) (ps : Coords) → AllInside rows cols ps → all_inside rows cols ps ≡ true
AllInside-all_inside rows cols [] h = refl
AllInside-all_inside rows cols ((x, y) ∷ ps) h =
    ground (arith, AllInside-all_inside rows cols ps h.1)

-- The loop does not read past the arrays, and tests every coordinate.
pub in_bounds_lem :
    (e : Event) (n : ℕ) (xs ys : List ℕ)
    → n ≤ length xs
    → n ≤ length ys
    → in_bounds e n xs ys ≡ ok (all_inside e.rows e.cols (request n xs ys))
unfolding in_bounds
in_bounds_lem e zero xs ys h k = refl
in_bounds_lem e (suc n) [] ys h k = absurd (omega arith)
in_bounds_lem e (suc n) (x ∷ xs) [] h k = absurd (omega arith)
in_bounds_lem e (suc n) (x ∷ xs) (y ∷ ys) h k = ground (arith, in_bounds_lem e n xs ys)
