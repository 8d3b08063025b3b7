-- ===== src/Server/Seats/Conflict.antt =====
-- The second loop of `ems_reserve` walks all seats of the room and, for each, the request,
-- against a test of the requested seats.
use so.Base.{
  ℕ, zero, suc, ◌+◌, ◌*◌, ◌%◌, ◌<◌, ◌≤◌, ◌≡◌, Bool, false, ◌||◌, ◌&&◌, none, some, List, [], ◌∷◌,
  refl, arith, ltb, leb, ◌==◌, length, get_elem?, get_elem?-lt, size_mod, Bool-cases, inl, inr, ◌∙◌,
  ap, sym,
}
use mathlib.Core.Bool.{not}
use native.Mathlib.Nat.{mod-eq_of_lt}
use so.Base.Nodes.{ok}
use so.Server.Store.{Event}
use so.Server.Seats.{taken_at, any_taken}
use so.Server.Seats.Index.{IsRoom, index, index-lt, seat_index_lem}
use so.Server.Seats.Request.{Coords, request, AllInside}

-- Whether the cell `i` of the array holds a reservation.
abbrev pub is_taken : List ℕ → ℕ → Bool
is_taken seats i = elim (get_elem? seats i) [ none ↦ false | some seat ↦ not (seat == 0) ]

-- The reference: some requested seat is taken.
abbrev pub conflicts : ℕ → List ℕ → Coords → Bool
conflicts cols seats [] = false
conflicts cols seats ((x, y) ∷ ps) = is_taken seats (index cols x y) || conflicts cols seats ps

abbrev hits : Event → ℕ → Coords → Bool
hits e i [] = false
hits e i ((x, y) ∷ ps) = (index e.cols x y == i) || hits e i ps

pub is_taken_lem :
    (seats : List ℕ) (i seat : ℕ)
    → get_elem? seats i ≡ some seat
    → is_taken seats i ≡ not (seat == 0)
is_taken_lem seats i seat at = ground arith

taken_at_lem :
    (e : Event) (i n : ℕ) (xs ys : List ℕ)
    → IsRoom e
    → n ≤ length xs
    → n ≤ length ys
    → AllInside e.rows e.cols (request n xs ys)
    → i < length e.seats
    → taken_at e i n xs ys ≡ ok (hits e i (request n xs ys) && is_taken e.seats i)
unfolding taken_at
taken_at_lem e i zero xs ys r h k a lt = refl
taken_at_lem e i (suc n) [] ys r h k a lt = absurd (omega arith)
taken_at_lem e i (suc n) (x ∷ xs) [] r h k a lt = absurd (omega arith)
taken_at_lem e i (suc n) (x ∷ xs) (y ∷ ys) r h k a lt =
    let (seat, at) = get_elem?-lt e.seats i lt in
    let taken = is_taken_lem e.seats i seat at in
    let ih = taken_at_lem e i n xs ys r (omega arith) (omega arith) a.1 lt in
    rw (seat_index_lem e x y r a.0, at)
      (elim (Bool-cases (index e.cols x y == i)) [
        | inl hit ↦ rw hit (ap ok (sym taken))
        | inr miss ↦ rw miss ih
      ])

-- The conflicts at the indices from `lo` up to `hi`.
abbrev between : Event → ℕ → ℕ → Coords → Bool
between e lo hi [] = false
between e lo hi ((x, y) ∷ ps) =
    (leb lo (index e.cols x y)
      && (ltb (index e.cols x y) hi && is_taken e.seats (index e.cols x y)))
    || between e lo hi ps

between_step :
    (k lo hi : ℕ) (at_k at_lo hit rest later : Bool)
    → lo < hi
    → (k ≡ lo → at_k ≡ at_lo)
    → rest ≡ ((hit && at_lo) || later)
    → ((leb lo k && (ltb k hi && at_k)) || rest)
      ≡ ((((k == lo) || hit) && at_lo) || ((leb (lo + 1) k && (ltb k hi && at_k)) || later))
between_step k lo hi at_k at_lo hit rest later h same e = ground arith

between-suc :
    (e : Event) (lo hi : ℕ) (ps : Coords)
    → lo < hi
    → between e lo hi ps ≡ ((hits e lo ps && is_taken e.seats lo) || between e (lo + 1) hi ps)
between-suc e lo hi [] h = refl
between-suc e lo hi ((x, y) ∷ ps) h =
    between_step (index e.cols x y) lo hi _ _ _ _ _ h (ap (is_taken e.seats))
      (between-suc e lo hi ps h)

between-empty : (e : Event) (lo : ℕ) (ps : Coords) → between e lo lo ps ≡ false
between-empty e lo [] = refl
between-empty e lo ((x, y) ∷ ps) = ground (arith, between-empty e lo ps)

between-all :
    (e : Event) (ps : Coords)
    → AllInside e.rows e.cols ps
    → between e 0 (e.rows * e.cols) ps ≡ conflicts e.cols e.seats ps
between-all e [] a = refl
between-all e ((x, y) ∷ ps) a = ground (arith, index-lt e.rows e.cols x y a.0, between-all e ps a.1)

any_taken-between :
    (e : Event) (left i n : ℕ) (xs ys : List ℕ)
    → IsRoom e
    → n ≤ length xs
    → n ≤ length ys
    → AllInside e.rows e.cols (request n xs ys)
    → i + left ≡ e.rows * e.cols
    → any_taken e left i n xs ys ≡ ok (between e i (e.rows * e.cols) (request n xs ys))
unfolding any_taken
any_taken-between e zero i n xs ys r h k a total =
    let end : i ≡ e.rows * e.cols = omega arith in
    rw end (ap ok (sym (between-empty e (e.rows * e.cols) (request n xs ys))))
any_taken-between e (suc left) i n xs ys r h k a total =
    let here = taken_at_lem e i n xs ys r h k a (omega (arith, r.full)) in
    let rest = any_taken-between e left (i + 1) n xs ys r h k a (omega arith) in
    let split = between-suc e i (e.rows * e.cols) (request n xs ys) (omega arith) in
    rw (here, split, rest)
      (elim (Bool-cases (hits e i (request n xs ys) && is_taken e.seats i)) [
        | inl hit ↦ rw hit refl
        | inr miss ↦ rw miss refl
      ])

-- The second loop answers whether some requested seat is taken.
pub any_taken_lem :
    (e : Event) (n : ℕ) (xs ys : List ℕ)
    → IsRoom e
    → n ≤ length xs
    → n ≤ length ys
    → AllInside e.rows e.cols (request n xs ys)
    → any_taken e ((e.rows * e.cols) % size_mod) 0 n xs ys
      ≡ ok (conflicts e.cols e.seats (request n xs ys))
any_taken_lem e n xs ys r h k a =
    let all : (e.rows * e.cols) % size_mod ≡ e.rows * e.cols = mod-eq_of_lt r.small in
    rw all (
      any_taken-between e (e.rows * e.cols) 0 n xs ys r h k a (omega arith)
      ∙ ap ok (between-all e (request n xs ys) a))
