-- ===== src/Server/Dump/Rounds.antt =====
-- The loops of `ems_sigusr1_action` with the rounds that are to come in place of the counters, and where
-- the two agree.
use so.Base.{
  ℕ, zero, suc, ◌+◌, ◌-◌, ◌%◌, ◌≤◌, ◌<◌, ◌≡◌, true, false, List, [], ◌∷◌, ◌++◌, ap, ◌∙◌, arith, ltb,
  leb, if◌then◌else◌, if-true, if-false, size_mod,
}
use so.Base.Nodes.{Run, ok, ◌>>=◌}
use so.Server.Store.{Event}
use so.Server.Seats.{seat_index}
use so.Server.Dump.{seat, dump_row, dump_rows}

module _ (sprintf : ℕ → List ℕ) where
  -- `left` columns are to come.
  unfoldable pub row_left : Event → (i left : ℕ) → Run (List ℕ)
  row_left event i zero = ok []
  row_left event i (suc left) = do
    let j = event.cols - left
    v ← seat event (seat_index event i j)
    rest ← row_left event i left
    ok (sprintf v ++ (if ltb j event.cols then 32 ∷ rest else rest))

  -- `left` rows are to come.
  unfoldable pub rows_left : Event → (left : ℕ) → Run (List ℕ)
  rows_left event zero = ok []
  rows_left event (suc left) = do
    row ← row_left event (event.rows - left) event.cols
    rest ← rows_left event left
    ok (row ++ 10 ∷ rest)

  module _ (e : Event) (cols_fit : e.cols + 1 < size_mod) where
    row_agree :
        (i left j : ℕ)
        → 1 ≤ j
        → j + left ≡ e.cols + 1
        → dump_row sprintf e i (suc left) j ≡ row_left e i left
    unfolding dump_row row_left
    row_agree i zero j first at =
        let over : leb j e.cols ≡ false = ground arith in if-false _ _ over
    row_agree i (suc left) j first at =
        let under : leb j e.cols ≡ true = ground arith in
        let here : j ≡ e.cols - left = omega arith in
        let on : (j + 1) % size_mod ≡ j + 1 = omega arith in
        if-true _ _ under ∙ (λ t. do
          v ← seat e (seat_index e i (here t))
          rest ←
              (ap (dump_row sprintf e i (suc left)) on
                  ∙ row_agree i left (j + 1) (omega arith) (omega arith))
                t
          ok (sprintf v ++ (if ltb (here t) e.cols then 32 ∷ rest else rest)))

    rows_agree :
        (left i : ℕ)
        → e.rows + 1 < size_mod
        → 1 ≤ i
        → i + left ≡ e.rows + 1
        → dump_rows sprintf e (suc left) i ≡ rows_left e left
    unfolding dump_rows rows_left
    rows_agree zero i small low at =
        let over : leb i e.rows ≡ false = ground arith in if-false _ _ over
    rows_agree (suc left) i small low at =
        let under : leb i e.rows ≡ true = ground arith in
        let here : i ≡ e.rows - left = omega arith in
        let on : (i + 1) % size_mod ≡ i + 1 = omega arith in
        if-true _ _ under ∙ (λ t. do
          row ←
              (row_agree i e.cols 1 (omega arith) (omega arith)
                  ∙ ap (λ n. row_left e n e.cols) here)
                t
          rest ←
              (ap (dump_rows sprintf e (suc left)) on
                  ∙ rows_agree left (i + 1) small (omega arith) (omega arith))
                t
          ok (row ++ 10 ∷ rest))

    -- Below the largest size_t, the counters do not wrap around.
    pub dump_rows-left :
        e.rows + 1 < size_mod → dump_rows sprintf e (suc e.rows) 1 ≡ rows_left e e.rows
    dump_rows-left small = rows_agree e.rows 1 small (omega arith) (omega arith)
