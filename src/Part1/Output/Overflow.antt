-- ===== src/Part1/Output/Overflow.antt =====
-- `ems_show` of Part 1 for an event without columns: the line ends are put with no test for room.
use so.Base.{
  ℕ, zero, suc, ◌+◌, ◌%◌, size_mod, ◌≤◌, ◌<◌, ◌≡◌, some, List, [], ◌∷◌, ◌++◌, refl, sym, ◌∙◌, arith,
  length, length-append, ltb, leb, if-false, true, false, ==-false, Bool-cases, subst, inl, inr,
}
use so.Base.Nodes.{null, ok, fault, load_lem}
use so.Base.Outcome.{next}
use so.Base.Locks.{rdlocked}
use so.Chain.Owned.Search.{pointer_of-find}
use so.Common.Kernel.{Writer}
use so.Part1.Store.{Event}
use so.Part1.EventList.Shape.{find, pointer_of}
use so.Part1.Operations.{Ems, set_seat_lock}
use so.Part1.Operations.State.{Repr, find_event_lem}
use so.Part1.Output.{Printer, put_char, show_row, show_rows, show_event, ems_show, fresh_printer}

module _ (k : Writer) (bufsiz : ℕ) (sprintf : ℕ → List ℕ) (fuel : ℕ) where
  empty_row :
      (e : Event) (i : ℕ) (c : Printer k)
      → e.cols ≡ 0
      → show_row k bufsiz sprintf fuel e i (suc e.cols) 1 c ≡ ok (next c)
  unfolding show_row
  empty_row e i c none = let over : leb 1 e.cols ≡ false = ground arith in if-false _ _ over

  rows-fault :
      (e : Event) (left i : ℕ) (c : Printer k)
      → e.cols ≡ 0
      → length c.buffer ≤ bufsiz
      → bufsiz < length c.buffer + left
      → i + bufsiz ≤ e.rows + length c.buffer
      → show_rows k bufsiz sprintf fuel e left i c ≡ fault
  unfolding show_rows put_char
  rows-fault e zero i c none fits many here = absurd (omega arith)
  rows-fault e (suc left) i c none fits many here =
      let under : leb i e.rows ≡ true = ground arith in
      let row = empty_row e i c none in
      elim (Bool-cases (ltb (length c.buffer) bufsiz)) [
        | inl room ↦
            let c₁ : Printer k = record c { buffer = c.buffer ++ 10 ∷ [] } in
            let more = length-append c.buffer (10 ∷ []) in
            let less : length c.buffer < bufsiz = ground arith in
            let on : (i + 1) % size_mod ≤ i + 1 = omega arith in
            rw (under, row, room)
              (rows-fault e left ((i + 1) % size_mod) c₁ none (omega (arith, more, less))
                (omega (arith, more, many)) (omega (arith, more, on, here)))
        | inr full ↦ rw (under, row, full) refl
      ]

  -- For an event without columns and with more than BUFSIZ rows, `ems_show` writes behind its buffer.
  pub ems_show-fault :
      (m : Ems) (out : k.Fd) (vs : List Event) (r : Repr m vs) (id : ℕ) (e : Event)
      → length vs < fuel
      → find id vs ≡ some e
      → e.cols ≡ 0
      → bufsiz < e.rows
      → ems_show k bufsiz sprintf fuel id m out ≡ fault
  unfolding ems_show show_event
  ems_show-fault m out vs r id e h found no_cols many =
      elim (pointer_of-find (λ v. v.id) m.store.events id r.cells vs r.list.owns) [
        | inl (_, gone) ↦ let clash = sym gone ∙ found in cc
        | inr (e', ne, at, found', _, _) ↦
            let same : e' ≡ e = cc in
            let here = subst (λ v. m.store.events (pointer_of id r.cells vs) ≡ some v) same at in
            let c = fresh_printer k bufsiz sprintf fuel (set_seat_lock rdlocked m) out in
            let behind =
              rows-fault e (suc e.rows) 1 c no_cols (omega arith) (omega arith) (omega arith) in
            rw
              (
                find_event_lem m vs r fuel id h,
                ==-false (pointer_of id r.cells vs) null ne,
                load_lem m.store.events (pointer_of id r.cells vs) e here,
                behind,
              )
              refl
      ]
