-- ===== src/Client/Api/Rounds.antt =====
-- The loops of `ems_show` of Part2/src/client/api.c with the rounds that are to come in place of the
-- counters, and where the two agree.
use so.Base.{
  ℕ, zero, suc, ◌+◌, ◌-◌, ◌*◌, ◌%◌, ◌≤◌, ◌<◌, ◌≡◌, true, false, List, [], ◌∷◌, ap, ◌∙◌, arith, ltb,
  leb, if◌then◌else◌, if-true, if-false, size_mod,
}
use so.Base.Nodes.{Run, ok}
use so.Base.Nodes
use so.Base.Outcome.{Outcome, next, ◌>>=◌}
use so.Common.Kernel.{Reader, Writer}
use so.Client.Api.{Client, print, seat_at, minus_one, print_row, print_rows}

module _ (k : Reader) (w : Writer) (o : Writer) (sprintf : ℕ → List ℕ) where
  -- `left` columns are to come.
  unfoldable pub row_left : List ℕ → (cols i left : ℕ) → Client k w o → Run (Outcome (Client k w o))
  row_left seats cols i zero c = ok (next c)
  row_left seats cols i (suc left) c = do
    let j = cols - left
    c₁ ←
        Nodes.◌>>=◌ (seat_at seats (((i - 1) * cols + (j - 1)) % size_mod))
          λ seat. print k w o (sprintf seat) c
    c₂ ← if ltb j cols then print k w o (32 ∷ []) c₁ else ok (next c₁)
    row_left seats cols i left c₂

  -- `left` rows are to come.
  unfoldable pub rows_left :
      List ℕ → (rows cols left : ℕ) → Client k w o → Run (Outcome (Client k w o))
  rows_left seats rows cols zero c = ok (next c)
  rows_left seats rows cols (suc left) c = do
    c₁ ← row_left seats cols (rows - left) cols c
    c₂ ← print k w o (10 ∷ []) c₁
    rows_left seats rows cols left c₂

  module _ (seats : List ℕ) (cols : ℕ) (no_wrap : cols + 1 < size_mod) where
    row_agree :
        (i left j : ℕ) (c : Client k w o)
        → 1 ≤ i
        → i < size_mod
        → 1 ≤ j
        → j + left ≡ cols + 1
        → print_row k w o sprintf seats cols i (suc left) j c ≡ row_left seats cols i left c
    unfolding print_row row_left
    row_agree i zero j c low high first at =
        let over : leb j cols ≡ false = ground arith in if-false _ _ over
    row_agree i (suc left) j c low high first at =
        let under : leb j cols ≡ true = ground arith in
        let same_i : minus_one i ≡ i - 1 = omega arith in
        let same_j : minus_one j ≡ cols - left - 1 = omega arith in
        let here : j ≡ cols - left = omega arith in
        let on : (j + 1) % size_mod ≡ j + 1 = omega arith in
        if-true _ _ under ∙ (λ t. do
          c₁ ←
              Nodes.◌>>=◌ (seat_at seats ((same_i t * cols + same_j t) % size_mod))
                λ seat. print k w o (sprintf seat) c
          c₂ ← if ltb (here t) cols then print k w o (32 ∷ []) c₁ else ok (next c₁)
          (ap (λ n. print_row k w o sprintf seats cols i (suc left) n c₂) on
                ∙ row_agree i left (j + 1) c₂ low high (omega arith) (omega arith))
              t)

    rows_agree :
        (rows left i : ℕ) (c : Client k w o)
        → rows + 1 < size_mod
        → 1 ≤ i
        → i + left ≡ rows + 1
        → print_rows k w o sprintf seats rows cols (suc left) i c ≡ rows_left seats rows cols left c
    unfolding print_rows rows_left
    rows_agree rows zero i c small low at =
        let over : leb i rows ≡ false = ground arith in if-false _ _ over
    rows_agree rows (suc left) i c small low at =
        let under : leb i rows ≡ true = ground arith in
        let here : i ≡ rows - left = omega arith in
        let on : (i + 1) % size_mod ≡ i + 1 = omega arith in
        if-true _ _ under ∙ (λ t. do
          c₁ ←
              (row_agree i cols 1 c low (omega arith) (omega arith) (omega arith)
                  ∙ ap (λ n. row_left seats cols n cols c) here)
                t
          c₂ ← print k w o (10 ∷ []) c₁
          (ap (λ n. print_rows k w o sprintf seats rows cols (suc left) n c₂) on
                ∙ rows_agree rows left (i + 1) c₂ small (omega arith) (omega arith))
              t)

    -- Below the largest size_t, the counters do not wrap around.
    pub print_rows-left :
        (rows : ℕ) (c : Client k w o)
        → rows + 1 < size_mod
        → print_rows k w o sprintf seats rows cols (suc rows) 1 c ≡ rows_left seats rows cols rows c
    print_rows-left rows c small = rows_agree rows rows 1 c small (omega arith) (omega arith)
