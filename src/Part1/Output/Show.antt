-- ===== src/Part1/Output/Show.antt =====
-- `ems_show` of Part 1 on a state that stands for a list of events.
use so.Base.{
  ℕ, ◌+◌, ◌-◌, ◌*◌, ◌<◌, ◌≡◌, ◌≢◌, false, none, some, List, [], ◌++◌, refl, sym, ap, ◌∙◌, arith,
  length, uint_mod, size_mod, ==-false, subst, inl, inr,
}
use mathlib.Core.List.{append-nil}
use so.Base.Nodes.{Ptr, Run, ok, load_lem, null}
use so.Base.Outcome.{Outcome, returned}
use so.Base.Locks.{unlocked, rdlocked}
use so.Chain.Owned.Search.{pointer_of-find}
use so.Common.Bytes.{AllBelow}
use so.Common.Kernel.{Writer}
use so.Common.Io.Whole.{IsSink}
use so.Client.Api.Grid.{grid_text}
use so.Part1.Store.{Event}
use so.Part1.EventList.Shape.{find, pointer_of}
use so.Part1.Seats.Fill.{IsRoom}
use so.Part1.Operations.{Ems, set_seat_lock, set_file_lock}
use so.Part1.Operations.State.{Repr, free_locks, find_event_lem}
use so.Part1.Output.{Printer, buffer_flush_thold, show_event, ems_show, fresh_printer}
use so.Part1.Output.Buffer.{finish_lem}
use so.Part1.Output.Rounds.{show_rows-left}
use so.Part1.Output.Rows.{IsDecimal, rows_lem}

module _ (k : Writer) (s : IsSink k) (bufsiz : ℕ) (sprintf : ℕ → List ℕ) (fuel : ℕ)
    (enough : bufsiz < fuel) (large : buffer_flush_thold < bufsiz) (decimal : IsDecimal sprintf)
    (m : Ems) (out : k.Fd) where
  -- A run that returns the code, has written the text, and leaves the state as it was.
  abbrev pub Writes : Run (Outcome (Printer k)) → ℕ → List ℕ → Type 0
  Writes run code text =
      (c : Printer k) × (run ≡ ok (returned code c))
      × (s.lawful.sent c.out ≡ s.lawful.sent out ++ text)
      × (c.ems ≡ m)

  show_event_lem :
      (p : Ptr) (e : Event)
      → m.locks ≡ free_locks
      → m.store.events p ≡ some e
      → IsRoom e
      → AllBelow uint_mod e.seats
      → 0 < e.cols
      → e.rows + 1 < size_mod
      → e.cols + 1 < size_mod
      → Writes
          (show_event k bufsiz sprintf fuel p m out)
          0
          (grid_text sprintf e.rows e.cols e.seats)
  unfolding show_event
  show_event_lem p e free at room small wide rows_fit cols_fit =
      let base = set_seat_lock rdlocked m in
      let c = fresh_printer k bufsiz sprintf fuel base out in
      let unlocked_file : base ≡ set_file_lock false base =
        λ i. set_seat_lock rdlocked (record m { locks = no_file i }) in
      let none_done : e.rows - e.rows ≡ 0 = omega arith in
      let zero_rows : (e.rows - e.rows) * e.cols ≡ 0 =
        ap (λ n. n * e.cols) none_done ∙ omega arith in
      let (c₁, run₁, said₁, h₁) =
        rows_lem k s bufsiz sprintf fuel enough large decimal base e room small e.rows 0 e.seats c
          wide room.full (omega arith) zero_rows refl small (omega (arith, large), unlocked_file) in
      let all_rows = show_rows-left k bufsiz sprintf fuel e cols_fit c rows_fit ∙ run₁ in
      let after = set_seat_lock unlocked base in
      let c₂ : Printer k = record c₁ { ems = set_seat_lock unlocked c₁.ems } in
      let (c₃, run₂, sent, same) =
        finish_lem k s bufsiz sprintf fuel enough large after (λ q. q) c₂
          (omega (arith, h₁.0), ap (set_seat_lock unlocked) h₁.1) in
      (
        c₃,
        rw (load_lem m.store.events p e at, all_rows) run₂,
        sent
            ∙ said₁
            ∙ ap (λ l. l ++ grid_text sprintf e.rows e.cols e.seats)
                (append-nil (s.lawful.sent out)),
        same ∙ (λ i. record m { locks = freed i }),
      )
    where
      no_file : m.locks ≡ record m.locks { file = false }
      no_file = free ∙ (λ i. record (sym free i) { file = false })

      freed : record m.locks { file = false; seat = unlocked } ≡ m.locks
      freed = (λ i. record (free i) { file = false; seat = unlocked }) ∙ sym free

  module _ (vs : List Event) (r : Repr m vs) (h : length vs < fuel) (id : ℕ) where
    found_run :
        pointer_of id r.cells vs ≢ null
        → ems_show k bufsiz sprintf fuel id m out
          ≡ show_event k bufsiz sprintf fuel (pointer_of id r.cells vs) m out
    unfolding ems_show
    found_run ne =
        rw (find_event_lem m vs r fuel id h, ==-false (pointer_of id r.cells vs) null ne) refl

    missing_run :
        pointer_of id r.cells vs ≡ null
        → ems_show k bufsiz sprintf fuel id m out
          ≡ ok (returned 1 (fresh_printer k bufsiz sprintf fuel m out))
    unfolding ems_show
    missing_run missing = rw (find_event_lem m vs r fuel id h, missing) refl

    -- With a file that works, decimal texts of at most ten digits, BUFSIZ larger than 20 and fuel for
    -- BUFSIZ rounds and all events: for the first event with the id, if it is a room with a column,
    -- numbers of 32 bits, and rows and columns that are not the largest size_t, `ems_show` ends without a fault, returns 0 and has written its seats row by
    -- row, the text that the client of Part 2 prints for it. The state is as it was, no lock is held.
    pub ems_show-found :
        (e : Event)
        → find id vs ≡ some e
        → IsRoom e
        → AllBelow uint_mod e.seats
        → 0 < e.cols
        → e.rows + 1 < size_mod
        → e.cols + 1 < size_mod
        → Writes
            (ems_show k bufsiz sprintf fuel id m out)
            0
            (grid_text sprintf e.rows e.cols e.seats)
    ems_show-found e found room small wide rows_fit cols_fit =
        elim (pointer_of-find (λ v. v.id) m.store.events id r.cells vs r.list.owns) [
          | inl (_, gone) ↦ let clash = sym gone ∙ found in cc
          | inr (e', ne, at, found', _, _) ↦
              let same : e' ≡ e = cc in
              let here = subst (λ v. m.store.events (pointer_of id r.cells vs) ≡ some v) same at in
              let (c, run, sent, same_state) =
                show_event_lem _ e r.free here room small wide rows_fit cols_fit in
              (c, found_run ne ∙ run, sent, same_state)
        ]

    -- Without such an event it returns 1 and writes nothing.
    pub ems_show-missing : find id vs ≡ none → Writes (ems_show k bufsiz sprintf fuel id m out) 1 []
    ems_show-missing gone =
        elim (pointer_of-find (λ v. v.id) m.store.events id r.cells vs r.list.owns) [
          | inl (missing, _) ↦ (
            fresh_printer k bufsiz sprintf fuel m out,
            missing_run missing,
            sym (append-nil _),
            refl,
          )
          | inr (_, _, _, found, _, _) ↦ let clash = sym gone ∙ found in cc
        ]
