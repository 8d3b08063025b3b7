-- ===== src/Part1/Output/Rows.antt =====
-- The loops of `ems_show` of Part 1: the text of the seats, however often the buffer is flushed.
use so.Base.{
  ℕ, zero, suc, ◌+◌, ◌-◌, ◌*◌, ◌≤◌, ◌<◌, ◌≡◌, true, false, some, List, [], ◌∷◌, ◌++◌, refl, sym, ap,
  ◌∙◌, arith, length, ltb, take, drop, length-drop, get_elem?, uint_mod, subst,
}
use mathlib.Core.List.{append_assoc, append-nil}
use so.Base.Nodes.{Run, ok}
use so.Base.Outcome.{Outcome}
use so.Base.Locks.{unlocked}
use so.Common.Bytes.{AllBelow}
use so.Common.Kernel.{Writer}
use so.Common.Io.Whole.{IsSink, take-drop}
use so.Client.Api.Grid.{row_text, grid_text, length-take, three_parts}
use so.Client.Api.Seats.{get_elem?-drop, drop_more, drop-drop}
use so.Server.Seats.Index.{Inside}
use so.Part1.Store.{Event}
use so.Part1.Seats.{read_seat, seat_index}
use so.Part1.Seats.Fill.{IsRoom, seat_index_lem}
use so.Part1.Operations.{Ems, set_seat_lock}
use so.Part1.Output.{Printer, buffer_flush_thold}
use so.Part1.Output.Rounds.{row_left, rows_left}
use so.Part1.Output.Buffer.{Holds, content, Puts, put_text_lem, put_char_lem, flush_lem}

-- The decimal text of an `unsigned int` has at most ten digits.
abbrev pub IsDecimal : (ℕ → List ℕ) → Type 0
IsDecimal sprintf = (n : ℕ) → n < uint_mod → length (sprintf n) ≤ 10

AllBelow-drop : (n m : ℕ) (xs : List ℕ) → AllBelow m xs → AllBelow m (drop n xs)
AllBelow-drop zero m xs a = a
AllBelow-drop (suc n) m [] a = a
AllBelow-drop (suc n) m (x ∷ xs) a = AllBelow-drop n m xs a.1

AllBelow-take : (n m : ℕ) (xs : List ℕ) → AllBelow m xs → AllBelow m (take n xs)
AllBelow-take zero m xs a = tt
AllBelow-take (suc n) m [] a = tt
AllBelow-take (suc n) m (x ∷ xs) a = (a.0, AllBelow-take n m xs a.1)

module _ (k : Writer) (s : IsSink k) (bufsiz : ℕ) (sprintf : ℕ → List ℕ) (fuel : ℕ)
    (enough : bufsiz < fuel) (large : buffer_flush_thold < bufsiz) (decimal : IsDecimal sprintf)
    (base : Ems) (e : Event) (room : IsRoom e) (small : AllBelow uint_mod e.seats) where
  abbrev Printed : Run (Outcome (Printer k)) → Printer k → List ℕ → ℕ → Type 0
  Printed = Puts k s bufsiz sprintf fuel enough large base

  abbrev Has : ℕ → Printer k → Type 0
  Has = Holds k s bufsiz sprintf fuel enough large base

  read_lem :
      (i left index v : ℕ) (rest : List ℕ)
      → 1 ≤ i
      → i ≤ e.rows
      → left < e.cols
      → (i - 1) * e.cols + (e.cols - left - 1) ≡ index
      → drop index e.seats ≡ v ∷ rest
      → read_seat e (seat_index e i (e.cols - left)) ≡ ok v
  unfolding read_seat
  read_lem i left index v rest low high inner at d =
      let inside : Inside e.rows e.cols i (e.cols - left) = record {
        row_low = low;
        row_high = high;
        col_low = omega arith;
        col_high = omega arith;
      } in
      let place = seat_index_lem e i (e.cols - left) room inside ∙ at in
      let found : get_elem? e.seats (seat_index e i (e.cols - left)) ≡ some v =
        ap (get_elem? e.seats) place ∙ get_elem?-drop index e.seats v rest d in
      rw (found, read_seat) refl

  abbrev said : Printer k → List ℕ
  said = content k s bufsiz sprintf fuel enough large

  abbrev rounds : ℕ → ℕ → Printer k → Run (Outcome (Printer k))
  rounds = row_left k bufsiz sprintf fuel e

  -- What is put in two or three parts.
  two_parts :
      (before a b s₁ s₂ s₃ : List ℕ)
      → s₁ ≡ before ++ a
      → s₂ ≡ s₁ ++ []
      → s₃ ≡ s₂ ++ b
      → s₃ ≡ before ++ (a ++ b)
  two_parts before a b s₁ s₂ s₃ e₁ e₂ e₃ =
      e₃ ∙ ap (λ l. l ++ b) (e₂ ∙ append-nil s₁ ∙ e₁) ∙ append_assoc before a b

  -- The rest of row `i`, whose next seat is `v`.
  row_lem :
      (i left index v : ℕ) (vs more : List ℕ) (c : Printer k)
      → length vs ≡ left
      → 1 ≤ i
      → i ≤ e.rows
      → left < e.cols
      → (i - 1) * e.cols + (e.cols - left - 1) ≡ index
      → drop index e.seats ≡ v ∷ (vs ++ more)
      → AllBelow uint_mod (v ∷ vs)
      → Has 20 c
      → Printed (rounds i (suc left) c) c (row_text sprintf (v ∷ vs)) 21
  unfolding row_left
  row_lem i zero index v (u ∷ us) more c len low high inner at d below h = absurd (omega arith)
  row_lem i (suc left) index v [] more c len low high inner at d below h = absurd (omega arith)
  row_lem i zero index v [] more c len low high inner at d below h =
      let read = read_lem i 0 index v more low high inner at d in
      let (c₁, run₁, said₁, h₁) =
        put_text_lem k s bufsiz sprintf fuel enough large base (sprintf v) c 20 10 h
          (omega (arith, decimal v below.0)) (omega arith) in
      let last : ltb (e.cols - 0) e.cols ≡ false = ground arith in
      let (c₂, run₂, said₂, h₂) =
        flush_lem k s bufsiz sprintf fuel enough large base (set_seat_lock unlocked) c₁
          (omega (arith, h₁.0), h₁.1) in
      (c₂, rw (read, run₁, last, run₂) refl, said₂ ∙ append-nil (said c₁) ∙ said₁, h₂)
  row_lem i (suc left) index v (u ∷ us) more c len low high inner at d below h =
      let read = read_lem i (suc left) index v (u ∷ us ++ more) low high inner at d in
      let (c₁, run₁, said₁, h₁) =
        put_text_lem k s bufsiz sprintf fuel enough large base (sprintf v) c 20 10 h
          (omega (arith, decimal v below.0)) (omega arith) in
      let before_last : ltb (e.cols - suc left) e.cols ≡ true = ground arith in
      let (c₂, run₂, said₂, h₂) =
        put_char_lem k s bufsiz sprintf fuel enough large base 32 c₁ 10 9 h₁ (omega arith) in
      let (c₃, run₃, said₃, h₃) =
        flush_lem k s bufsiz sprintf fuel enough large base (set_seat_lock unlocked) c₂
          (omega (arith, h₂.0), h₂.1) in
      let (c₄, run₄, said₄, h₄) =
        row_lem i left (suc index) u us more c₃ (omega arith) low high (omega arith) (omega arith)
          (drop_more index e.seats v _ d) below.1 (omega (arith, h₃.0), h₃.1) in
      (
        c₄,
        rw (read, run₁, before_last, run₂, run₃) run₄,
        two_parts (said c₁) (32 ∷ []) (row_text sprintf (u ∷ us)) _ _ _ said₂ said₃ said₄
            ∙ ap (λ l. l ++ 32 ∷ row_text sprintf (u ∷ us)) said₁
            ∙ append_assoc (said c) (sprintf v) (32 ∷ row_text sprintf (u ∷ us)),
        h₄,
      )

  -- A row of at least one seat.
  whole_row :
      (left index : ℕ) (vs more : List ℕ) (c : Printer k)
      → length vs ≡ e.cols
      → 1 ≤ e.rows - left
      → e.rows - left ≤ e.rows
      → (e.rows - left - 1) * e.cols ≡ index
      → drop index e.seats ≡ vs ++ more
      → AllBelow uint_mod vs
      → 0 < e.cols
      → Has 20 c
      → Printed (rounds (e.rows - left) e.cols c) c (row_text sprintf vs) 21
  whole_row left index [] more c len low high at d below wide h = absurd (omega arith)
  whole_row left index (v ∷ vs) more c len low high at d below wide h =
      subst (λ n. Printed (rounds (e.rows - left) n c) c (row_text sprintf (v ∷ vs)) 21) len
        (row_lem (e.rows - left) (length vs) index v vs more c refl low high (omega arith)
          (omega arith) d below h)

  -- The rows that are left, whose first seat has the index `index`.
  pub rows_lem :
      (left index : ℕ) (vs : List ℕ) (c : Printer k)
      → 0 < e.cols
      → length vs ≡ left * e.cols
      → left ≤ e.rows
      → (e.rows - left) * e.cols ≡ index
      → drop index e.seats ≡ vs
      → AllBelow uint_mod vs
      → Has 20 c
      → Printed (rows_left k bufsiz sprintf fuel e left c) c (grid_text sprintf left e.cols vs) 20
  unfolding rows_left
  rows_lem zero index vs c wide len h at d below has = (c, refl, sym (append-nil (said c)), has)
  rows_lem (suc left) index vs c wide len h at d below has =
      let above : e.rows - left - 1 ≡ e.rows - suc left = omega arith in
      let below_it : e.rows - left ≡ suc (e.rows - suc left) = omega arith in
      let start : (e.rows - left - 1) * e.cols ≡ (e.rows - suc left) * e.cols =
        ap (λ n. n * e.cols) above in
      let far : (e.rows - left) * e.cols ≡ suc (e.rows - suc left) * e.cols =
        ap (λ n. n * e.cols) below_it in
      let end : (e.rows - left) * e.cols ≡ index + e.cols = omega (arith, far, at) in
      let rest_len : length (drop e.cols vs) ≡ left * e.cols =
        omega (arith, len, length-drop e.cols vs) in
      let size : length (take e.cols vs) ≡ e.cols = length-take e.cols vs (omega (arith, len)) in
      let (c₁, run₁, said₁, h₁) =
        whole_row left index (take e.cols vs) (drop e.cols vs) c size (omega arith) (omega arith)
          (omega (arith, start, at)) (d ∙ sym (take-drop e.cols vs))
          (AllBelow-take e.cols uint_mod vs below) wide has in
      let (c₂, run₂, said₂, h₂) =
        put_char_lem k s bufsiz sprintf fuel enough large base 10 c₁ 21 20 h₁ (omega arith) in
      let (c₃, run₃, said₃, h₃) =
        rows_lem left (index + e.cols) (drop e.cols vs) c₂ wide rest_len (omega arith) end
          (sym (drop-drop index e.cols e.seats) ∙ ap (drop e.cols) d)
          (AllBelow-drop e.cols uint_mod vs below) h₂ in
      (
        c₃,
        rw (run₁, run₂) run₃,
        three_parts (said c) (row_text sprintf (take e.cols vs)) (10 ∷ [])
            (grid_text sprintf left e.cols (drop e.cols vs)) _ _ _ said₁ said₂ said₃,
        h₃,
      )
