-- ===== src/Part1/Output/Rounds.antt =====
-- The loops of `ems_show` of Part 1 with the rounds that are to come in place of the counters, and where
-- the two agree.
use so.Base.{
  ℕ, zero, suc, ◌+◌, ◌-◌, ◌%◌, ◌≤◌, ◌<◌, ◌≡◌, true, false, List, ap, ◌∙◌, arith, ltb, leb,
  if◌then◌else◌, if-true, if-false, size_mod,
}
use so.Base.Nodes.{Run, ok}
use so.Base.Nodes
use so.Base.Outcome.{Outcome, next, ◌>>=◌}
use so.Base.Locks.{unlocked}
use so.Common.Kernel.{Writer}
use so.Part1.Store.{Event}
use so.Part1.Seats.{read_seat, seat_index}
use so.Part1.Operations.{set_seat_lock}
use so.Part1.Output.{Printer, put_text, put_char, flush, show_row, show_rows}

module _ (k : Writer) (bufsiz : ℕ) (sprintf : ℕ → List ℕ) (fuel : ℕ) where
  -- `left` columns are to come.
  unfoldable pub row_left : Event → (i left : ℕ) → Printer k → Run (Outcome (Printer k))
  row_left event i zero c = ok (next c)
  row_left event i (suc left) c =
      Nodes.◌>>=◌ (read_seat event (seat_index event i (event.cols - left))) λ seat. (do
        c₁ ← put_text k bufsiz sprintf fuel (sprintf seat) c
        c₂ ←
            if ltb (event.cols - left) event.cols
            then put_char k bufsiz sprintf fuel 32 c₁
            else ok (next c₁)
        c₃ ← flush k bufsiz sprintf fuel (set_seat_lock unlocked) c₂
        row_left event i left c₃)

  -- `left` rows are to come.
  unfoldable pub rows_left : Event → (left : ℕ) → Printer k → Run (Outcome (Printer k))
  rows_left event zero c = ok (next c)
  rows_left event (suc left) c = do
    c₁ ← row_left event (event.rows - left) event.cols c
    c₂ ← put_char k bufsiz sprintf fuel 10 c₁
    rows_left event left c₂

  module _ (e : Event) (cols_fit : e.cols + 1 < size_mod) where
    row_agree :
        (i left j : ℕ) (c : Printer k)
        → 1 ≤ j
        → j + left ≡ e.cols + 1
        → show_row k bufsiz sprintf fuel e i (suc left) j c ≡ row_left e i left c
    unfolding show_row row_left
    row_agree i zero j c first at =
        let over : leb j e.cols ≡ false = ground arith in if-false _ _ over
    row_agree i (suc left) j c first at =
        let under : leb j e.cols ≡ true = ground arith in
        let here : j ≡ e.cols - left = omega arith in
        let on : (j + 1) % size_mod ≡ j + 1 = omega arith in
        if-true _ _ under ∙ (λ t. Nodes.◌>>=◌ (read_seat e (seat_index e i (here t))) λ seat. (do
          c₁ ← put_text k bufsiz sprintf fuel (sprintf seat) c
          c₂ ← if ltb (here t) e.cols then put_char k bufsiz sprintf fuel 32 c₁ else ok (next c₁)
          c₃ ← flush k bufsiz sprintf fuel (set_seat_lock unlocked) c₂
          (ap (λ n. show_row k bufsiz sprintf fuel e i (suc left) n c₃) on
                ∙ row_agree i left (j + 1) c₃ (omega arith) (omega arith))
              t))

    rows_agree :
        (left i : ℕ) (c : Printer k)
        → e.rows + 1 < size_mod
        → 1 ≤ i
        → i + left ≡ e.rows + 1
        → show_rows k bufsiz sprintf fuel e (suc left) i c ≡ rows_left e left c
    unfolding show_rows rows_left
    rows_agree zero i c small low at =
        let over : leb i e.rows ≡ false = ground arith in if-false _ _ over
    rows_agree (suc left) i c small low at =
        let under : leb i e.rows ≡ true = ground arith in
        let here : i ≡ e.rows - left = omega arith in
        let on : (i + 1) % size_mod ≡ i + 1 = omega arith in
        if-true _ _ under ∙ (λ t. do
          c₁ ←
              (row_agree i e.cols 1 c (omega arith) (omega arith)
                  ∙ ap (λ n. row_left e n e.cols c) here)
                t
          c₂ ← put_char k bufsiz sprintf fuel 10 c₁
          (ap (λ n. show_rows k bufsiz sprintf fuel e (suc left) n c₂) on
                ∙ rows_agree left (i + 1) c₂ small (omega arith) (omega arith))
              t)

    -- Below the largest size_t, the counters do not wrap around.
    pub show_rows-left :
        (c : Printer k)
        → e.rows + 1 < size_mod
        → show_rows k bufsiz sprintf fuel e (suc e.rows) 1 c ≡ rows_left e e.rows c
    show_rows-left c small = rows_agree e.rows 1 c small (omega arith) (omega arith)
