-- ===== src/Client/Api/Grid.antt =====
-- The loops of `ems_show` of Part2/src/client/api.c, which print the seats.
use so.Base.{
  ℕ, zero, suc, ◌+◌, ◌-◌, ◌*◌, ◌%◌, ◌≤◌, ◌<◌, ◌≡◌, true, false, List, [], ◌∷◌, ◌++◌, refl, sym, ap,
  ◌∙◌, arith, length, ltb, take, drop, length-drop, size_mod, uint_mod,
}
use mathlib.Core.List.{append_assoc, append-nil}
use native.Mathlib.Nat.{mod-eq_of_lt}
use so.Base.Nodes.{ok}
use so.Base.Nodes
use so.Base.Outcome.{next}
use so.Common.Bytes.{encode_all, AllBelow}
use so.Common.Kernel.{Reader, Writer}
use so.Common.Io.Whole.{IsSource, IsSink, take-drop}
use so.Client.Api.{Client, print, seat_at}
use so.Client.Api.Rounds.{row_left, rows_left}
use so.Client.Api.Parts.{print_lem}
use so.Client.Api.Seats.{get_elem?-drop, drop_more, drop-drop, seat_at_lem}

module _ (sprintf : ℕ → List ℕ) where
  -- The numbers of a row, separated by spaces.
  abbrev pub row_text : List ℕ → List ℕ
  row_text [] = []
  row_text (v ∷ []) = sprintf v
  row_text (v ∷ u ∷ vs) = sprintf v ++ 32 ∷ row_text (u ∷ vs)

  -- The rows, each ended by a line end.
  abbrev pub grid_text : (rows cols : ℕ) → List ℕ → List ℕ
  grid_text zero cols seats = []
  grid_text (suc rows) cols seats =
      row_text (take cols seats) ++ 10 ∷ grid_text rows cols (drop cols seats)

-- What is sent in three parts.
pub three_parts :
    (before a b c s₁ s₂ s₃ : List ℕ)
    → s₁ ≡ before ++ a
    → s₂ ≡ s₁ ++ b
    → s₃ ≡ s₂ ++ c
    → s₃ ≡ before ++ (a ++ (b ++ c))
three_parts before a b c s₁ s₂ s₃ e₁ e₂ e₃ =
    e₃
    ∙ ap (λ l. l ++ c) (e₂ ∙ ap (λ l. l ++ b) e₁)
    ∙ append_assoc (before ++ a) b c
    ∙ append_assoc before a (b ++ c)

pub length-take : (n : ℕ) (xs : List ℕ) → n ≤ length xs → length (take n xs) ≡ n
length-take zero xs h = refl
length-take (suc n) [] h = absurd (omega arith)
length-take (suc n) (x ∷ xs) h = ap suc (length-take n xs (omega arith))

module _ (k : Reader) (w : Writer) (o : Writer) (source : IsSource k) (sink : IsSink w)
    (file : IsSink o) (sprintf : ℕ → List ℕ) (junk seats : List ℕ) (small : AllBelow uint_mod seats)
    (few : length seats < size_mod) (cols : ℕ) where
  -- `print_str(out_fd, buffer)` for the seat of an index that `size_t` holds.
  print_seat_lem :
      (place index v : ℕ) (rest : List ℕ) (c : Client k w o)
      → place ≡ index
      → drop index seats ≡ v ∷ rest
      → (out : o.Fd) × (Nodes.◌>>=◌
            (seat_at (encode_all 4 seats ++ junk) (place % size_mod))
            (λ seat. print k w o (sprintf seat) c)
          ≡ ok (next (record c { out = out })))
        × (file.lawful.sent out ≡ file.lawful.sent c.out ++ sprintf v)
  print_seat_lem place index v rest c at e =
      let (out, run, sent) = print_lem k w o source sink file (sprintf v) c in
      let inside : index < length seats =
        let size = ap length e in omega (arith, size, length-drop index seats) in
      let wrapped : place % size_mod ≡ index =
        ap (λ n. n % size_mod) at ∙ mod-eq_of_lt (omega (arith, inside, few)) in
      let seat = seat_at_lem junk seats index v small (get_elem?-drop index seats v rest e) in
      (
        out,
        ap
              (λ n.
                Nodes.◌>>=◌ (seat_at (encode_all 4 seats ++ junk) n)
                  (λ u. print k w o (sprintf u) c))
              wrapped
            ∙ ap (λ r. Nodes.◌>>=◌ r (λ u. print k w o (sprintf u) c)) seat
            ∙ run,
        sent,
      )

  -- The rest `vs` of row `i`, whose first seat has the index `index`.
  row_left_lem :
      (i left index : ℕ) (vs more : List ℕ) (c : Client k w o)
      → length vs ≡ left
      → left ≤ cols
      → (i - 1) * cols + (cols - left) ≡ index
      → drop index seats ≡ vs ++ more
      → (out : o.Fd) × (row_left k w o sprintf (encode_all 4 seats ++ junk) cols i left c
          ≡ ok (next (record c { out = out })))
        × (file.lawful.sent out ≡ file.lawful.sent c.out ++ row_text sprintf vs)
  unfolding row_left
  row_left_lem i zero index [] more c len h at e =
      (c.out, refl, sym (append-nil (file.lawful.sent c.out)))
  row_left_lem i zero index (v ∷ vs) more c len h at e = absurd (omega arith)
  row_left_lem i (suc left) index [] more c len h at e = absurd (omega arith)
  row_left_lem i (suc left) index (v ∷ []) more c len h at e =
      let end : left ≡ 0 = omega arith in
      let last : ltb (cols - left) cols ≡ false = ground arith in
      let (out, run, sent) =
        print_seat_lem ((i - 1) * cols + (cols - left - 1)) index v more c (omega arith) e in
      (
        out,
        rw (run, last)
            (ap
              (λ n.
                row_left k w o sprintf (encode_all 4 seats ++ junk) cols i n
                  (record c { out = out }))
              end),
        sent,
      )
  row_left_lem i (suc left) index (v ∷ u ∷ vs) more c len h at e =
      let before_last : ltb (cols - left) cols ≡ true = ground arith in
      let (out₁, run₁, sent₁) =
        print_seat_lem ((i - 1) * cols + (cols - left - 1)) index v (u ∷ vs ++ more) c (omega arith)
          e in
      let (out₂, run₂, sent₂) =
        print_lem k w o source sink file (32 ∷ []) (record c { out = out₁ }) in
      let (out, run, sent) =
        row_left_lem i left (suc index) (u ∷ vs) more (record c { out = out₂ }) (omega arith)
          (omega arith) (omega arith) (drop_more index seats v _ e) in
      let before = file.lawful.sent c.out in
      (
        out,
        rw (run₁, before_last, run₂, run) refl,
        three_parts before (sprintf v) (32 ∷ []) (row_text sprintf (u ∷ vs)) _ _ _ sent₁ sent₂ sent,
      )

  -- The rows from the seat `index` on.
  pub rows_left_lem :
      (rows left index : ℕ) (vs : List ℕ) (c : Client k w o)
      → length vs ≡ left * cols
      → left ≤ rows
      → (rows - left) * cols ≡ index
      → drop index seats ≡ vs
      → (out : o.Fd) × (rows_left k w o sprintf (encode_all 4 seats ++ junk) rows cols left c
          ≡ ok (next (record c { out = out })))
        × (file.lawful.sent out ≡ file.lawful.sent c.out ++ grid_text sprintf left cols vs)
  unfolding rows_left
  rows_left_lem rows zero index vs c len h at e =
      (c.out, refl, sym (append-nil (file.lawful.sent c.out)))
  rows_left_lem rows (suc left) index vs c len h at e =
      let row = take cols vs in
      let above : rows - left - 1 ≡ rows - suc left = omega arith in
      let below_it : rows - left ≡ suc (rows - suc left) = omega arith in
      let start : (rows - left - 1) * cols ≡ (rows - suc left) * cols = ap (λ n. n * cols) above in
      let far : (rows - left) * cols ≡ suc (rows - suc left) * cols = ap (λ n. n * cols) below_it in
      let end : (rows - left) * cols ≡ index + cols = omega (arith, far, at) in
      let rest_len : length (drop cols vs) ≡ left * cols =
        omega (arith, len, length-drop cols vs) in
      let size : length row ≡ cols = length-take cols vs (omega (arith, len)) in
      let place : (rows - left - 1) * cols + (cols - cols) ≡ index = omega (arith, start, at) in
      let (out₁, run₁, sent₁) =
        row_left_lem (rows - left) cols index row (drop cols vs) c size (omega arith) place
          (e ∙ sym (take-drop cols vs)) in
      let (out₂, run₂, sent₂) =
        print_lem k w o source sink file (10 ∷ []) (record c { out = out₁ }) in
      let (out, run, sent) =
        rows_left_lem rows left (index + cols) (drop cols vs) (record c { out = out₂ }) rest_len
          (omega arith) end (sym (drop-drop index cols seats) ∙ ap (drop cols) e) in
      let before = file.lawful.sent c.out in
      let others = grid_text sprintf left cols (drop cols vs) in
      (
        out,
        rw (run₁, run₂, run) refl,
        three_parts before (row_text sprintf row) (10 ∷ []) others _ _ _ sent₁ sent₂ sent,
      )
