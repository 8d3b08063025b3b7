-- ===== src/Server/Seats/Index.antt =====
-- The array index of a seat of `ems_reserve`: wrap-around, range, and distinct seats.
use so.Base.{ℕ, ◌+◌, ◌-◌, ◌*◌, ◌≤◌, ◌<◌, ◌≡◌, size_mod, arith, length, subst, sym}
use so.Server.Store.{Event}
use so.Server.Seats.{seat_index, size_sub}

-- The array of an event has one cell for each seat, and their number is a size_t.
pub record IsRoom (e : Event) : Type 0 where
  pub small : e.rows * e.cols < size_mod
  pub full : length e.seats ≡ e.rows * e.cols

-- The coordinates count from 1.
pub record Inside (rows cols x y : ℕ) : Type 0 where
  pub row_low : 1 ≤ x
  pub row_high : x ≤ rows
  pub col_low : 1 ≤ y
  pub col_high : y ≤ cols

abbrev pub index : ℕ → ℕ → ℕ → ℕ
index cols x y = (x - 1) * cols + (y - 1)

pub index-lt : (rows cols x y : ℕ) → Inside rows cols x y → index cols x y < rows * cols
index-lt rows cols x y i = grind arith

pub seat_index_lem :
    (e : Event) (x y : ℕ)
    → IsRoom e
    → Inside e.rows e.cols x y
    → seat_index e x y ≡ index e.cols x y
unfolding seat_index
seat_index_lem e x y r i =
    let rows_le : x ≤ e.rows * e.cols = grind arith in
    let minus_one : size_sub x 1 ≡ x - 1 = omega (arith, r.small) in
    rw minus_one (omega (arith, r.small, index-lt e.rows e.cols x y i))

index-lt_of_lt :
    (cols x y x' y' : ℕ) → 1 ≤ x → 1 ≤ y → y ≤ cols → x < x' → index cols x y < index cols x' y'
index-lt_of_lt cols x y x' y' a b c h = grind arith

-- Two seats with one index are the same seat.
pub index-injective :
    (cols x y x' y' : ℕ)
    → 1 ≤ x
    → 1 ≤ y
    → y ≤ cols
    → 1 ≤ x'
    → 1 ≤ y'
    → y' ≤ cols
    → index cols x y ≡ index cols x' y'
    → (x ≡ x') × (y ≡ y')
index-injective cols x y x' y' a b c d e f h =
    let not_below : ¬ (x < x') = λ lt. omega (arith, index-lt_of_lt cols x y x' y' a b c lt) in
    let not_above : ¬ (x' < x) = λ lt. omega (arith, index-lt_of_lt cols x' y' x y d e f lt) in
    let same_row : x ≡ x' = omega arith in
    let same = subst (λ r. index cols x y ≡ index cols r y') (sym same_row) h in
    (same_row, omega arith)
