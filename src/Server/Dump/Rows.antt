-- ===== src/Server/Dump/Rows.antt =====
-- The loops of `ems_sigusr1_action` over the seats of an event.
use so.Base.{
  ℕ, zero, suc, ◌+◌, ◌-◌, ◌*◌, ◌≤◌, ◌<◌, ◌≡◌, true, false, some, List, [], ◌∷◌, ◌++◌, refl, sym, ap,
  ◌∙◌, arith, length, ltb, take, drop, length-drop, get_elem?, size_mod, if-true, if-false,
  if◌then◌else◌,
}
use mathlib.Core.List.{append-nil}
use so.Base.Nodes.{ok}
use so.Common.Io.Whole.{take-drop}
use so.Client.Api.Seats.{get_elem?-drop, drop_more, drop-drop}
use so.Client.Api.Grid.{row_text, grid_text, length-take}
use so.Server.Store.{Event}
use so.Server.Seats.{seat_index}
use so.Server.Seats.Index.{IsRoom, index, seat_index_lem}
use so.Server.Dump.{seat, dump_rows}
use so.Server.Dump.Rounds.{row_left, rows_left, dump_rows-left}

seat_lem : (e : Event) (i v : ℕ) → get_elem? e.seats i ≡ some v → seat e i ≡ ok v
unfolding seat
seat_lem e i v at = ground arith

module _ (sprintf : ℕ → List ℕ) (e : Event) (room : IsRoom e) where
  -- The seat at column `cols - left` of row `i`, whose place in the array is `n`.
  seat_found :
      (i left n v : ℕ) (rest : List ℕ)
      → 1 ≤ i
      → i ≤ e.rows
      → suc left ≤ e.cols
      → (i - 1) * e.cols + (e.cols - suc left) ≡ n
      → drop n e.seats ≡ v ∷ rest
      → seat e (seat_index e i (e.cols - left)) ≡ ok v
  seat_found i left n v rest low high h at d =
      let place = seat_index_lem e i (e.cols - left) room (record {
        row_low = low;
        row_high = high;
        col_low = omega arith;
        col_high = omega arith;
      }) in
      let same : index e.cols i (e.cols - left) ≡ n = omega arith in
      ap (seat e) (place ∙ same) ∙ seat_lem e n v (get_elem?-drop n e.seats v rest d)

  -- The rest `vs` of row `i`, whose first seat has the index `n`.
  row_left_lem :
      (i left n : ℕ) (vs more : List ℕ)
      → 1 ≤ i
      → i ≤ e.rows
      → length vs ≡ left
      → left ≤ e.cols
      → (i - 1) * e.cols + (e.cols - left) ≡ n
      → drop n e.seats ≡ vs ++ more
      → row_left sprintf e i left ≡ ok (row_text sprintf vs)
  unfolding row_left
  row_left_lem i zero n [] more low high len h at d = refl
  row_left_lem i zero n (v ∷ vs) more low high len h at d = absurd (omega arith)
  row_left_lem i (suc left) n [] more low high len h at d = absurd (omega arith)
  row_left_lem i (suc left) n (v ∷ vs) more low high len h at d =
      rw
        (
          seat_found i left n v (vs ++ more) low high h at d,
          row_left_lem i left (suc n) vs more low high (omega arith) (omega arith) (omega arith)
              (drop_more n e.seats v _ d),
        )
        (separated vs left v len h)
    where
      separated :
          (vs : List ℕ) (left v : ℕ)
          → length (v ∷ vs) ≡ suc left
          → suc left ≤ e.cols
          → ok (
              sprintf v
              ++ (if ltb (e.cols - left) e.cols
                  then 32 ∷ row_text sprintf vs
                  else row_text sprintf vs))
            ≡ ok (row_text sprintf (v ∷ vs))
      separated [] left v len h =
          let last : ltb (e.cols - left) e.cols ≡ false = ground arith in
          ap (λ l. ok (sprintf v ++ l)) (if-false _ _ last) ∙ ap ok (append-nil (sprintf v))
      separated (u ∷ vs) left v len h =
          let before_last : ltb (e.cols - left) e.cols ≡ true = ground arith in
          ap (λ l. ok (sprintf v ++ l)) (if-true _ _ before_last)

  rows_left_from :
      (left n : ℕ) (vs : List ℕ)
      → length vs ≡ left * e.cols
      → left ≤ e.rows
      → (e.rows - left) * e.cols ≡ n
      → drop n e.seats ≡ vs
      → rows_left sprintf e left ≡ ok (grid_text sprintf left e.cols vs)
  unfolding rows_left
  rows_left_from zero n vs len h at d = refl
  rows_left_from (suc left) n vs len h at d =
      let row = take e.cols vs in
      let above : e.rows - left - 1 ≡ e.rows - suc left = omega arith in
      let below_it : e.rows - left ≡ suc (e.rows - suc left) = omega arith in
      let start : (e.rows - left - 1) * e.cols ≡ (e.rows - suc left) * e.cols =
        ap (λ n. n * e.cols) above in
      let far : (e.rows - left) * e.cols ≡ suc (e.rows - suc left) * e.cols =
        ap (λ n. n * e.cols) below_it in
      let end : (e.rows - left) * e.cols ≡ n + e.cols = omega (arith, far, at) in
      let rest_len : length (drop e.cols vs) ≡ left * e.cols =
        omega (arith, len, length-drop e.cols vs) in
      let size : length row ≡ e.cols = length-take e.cols vs (omega (arith, len)) in
      let place : (e.rows - left - 1) * e.cols + (e.cols - e.cols) ≡ n = omega (arith, start, at) in
      rw
        (
          row_left_lem (e.rows - left) e.cols n row (drop e.cols vs) (omega arith) (omega arith)
              size (omega arith) place (d ∙ sym (take-drop e.cols vs)),
          rows_left_from left (n + e.cols) (drop e.cols vs) rest_len (omega arith) end
              (sym (drop-drop n e.cols e.seats) ∙ ap (drop e.cols) d),
        )
        refl

  -- All rows of the event.
  pub dump_rows_lem :
      e.rows + 1 < size_mod
      → e.cols + 1 < size_mod
      → dump_rows sprintf e (suc e.rows) 1 ≡ ok (grid_text sprintf e.rows e.cols e.seats)
  dump_rows_lem rows_fit cols_fit =
      dump_rows-left sprintf e cols_fit rows_fit
      ∙ rows_left_from e.rows 0 e.seats room.full (omega arith)
          (let none : e.rows - e.rows ≡ 0 = omega arith in omega (arith, ap (λ n. n * e.cols) none))
          refl
