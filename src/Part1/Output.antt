-- ===== src/Part1/Output.antt =====
-- `ems_show` and `ems_list_events` of Part1/src/operations.c, which collect text in a buffer and write
-- it to the .out file when fewer than 20 bytes are free. The buffer is the text that is in it; what
-- does not fit into BUFSIZ bytes is a fault, also where snprintf would cut it short. `sprintf` is the
-- decimal text that snprintf gives for "%u"; BUFSIZ is an argument.
pub mod Buffer
pub mod Rounds
pub mod Rows
pub mod Show
pub mod Overflow
pub mod Events
use so.Base.{
  ℕ, zero, suc, ◌+◌, ◌-◌, ◌%◌, size_mod, Bool, true, false, some, List, [], ◌∷◌, ◌++◌, ◌==◌, leb,
  ltb, if◌then◌else◌, length,
}
use mathlib.Core.Bool.{not}
use so.Base.Nodes.{Ptr, null, Run, ok, fault, out_of_fuel, load}
use so.Base.Nodes
use so.Base.Outcome.{Outcome, returned, next, ◌>>=◌}
use so.Base.Locks.{unlocked, rdlocked}
use so.Common.Kernel.{Writer}
use so.Client.Api.Listed.{event_label, no_events}
use so.Part1.Store.{Event}
use so.Part1.Seats.{read_seat, seat_index}
use so.Part1.Io.{safe_write}
use so.Part1.Operations.{
  Ems, Search, returns, found, find_event, set_seat_lock, set_event_list_lock, set_file_lock,
}

abbrev pub buffer_flush_thold : ℕ
buffer_flush_thold = 20

module _ (k : Writer) where
  -- The local variables of the two functions, with the state and the .out file.
  pub record Printer : Type 0 where
    pub buffer : List ℕ
    pub flushes : Bool
    pub ems : Ems
    pub out : k.Fd

module _ (k : Writer) (bufsiz : ℕ) (sprintf : ℕ → List ℕ) (fuel : ℕ) where
  -- snprintf(buffer + n_bytes, BUFSIZ - n_bytes, ...), with the 0 behind the text.
  pub put_text : List ℕ → Printer k → Run (Outcome (Printer k))
  put_text text c =
      if ltb (length c.buffer + length text) bufsiz
      then ok (next (record c { buffer = c.buffer ++ text }))
      else fault

  -- buffer[n_bytes++] = ch
  pub put_char : ℕ → Printer k → Run (Outcome (Printer k))
  put_char ch c =
      if ltb (length c.buffer) bufsiz
      then ok (next (record c { buffer = c.buffer ++ ch ∷ [] }))
      else fault

  -- The lock of the file is taken by the first write.
  abbrev pub lock_file : Printer k → Printer k
  lock_file c = if c.flushes then c else record c { flushes = true; ems = set_file_lock true c.ems }

  -- safe_write(out_fd, buffer, n_bytes), with the locks that are released if it fails.
  pub write_out : (release : Ems → Ems) → Printer k → Run (Outcome (Printer k))
  write_out release c = Nodes.◌>>=◌ (safe_write k fuel c.buffer c.out) λ (failed, out). ok (
      if not (failed == 0)
      then returned 1 (record c { ems = release (set_file_lock false c.ems); out = out })
      else next (record c { buffer = []; out = out }))

  -- What is done after each piece of text.
  pub flush : (release : Ems → Ems) → Printer k → Run (Outcome (Printer k))
  flush release c =
      if leb (bufsiz - length c.buffer) buffer_flush_thold
      then write_out release (lock_file c)
      else ok (next c)

  -- The seats of row `i` from the column `j` on. The counters of the loops are size_t: where `cols` is
  -- the largest one, `j <= cols` is never false. `left` is fuel for the rounds.
  pub show_row : Event → (i left j : ℕ) → Printer k → Run (Outcome (Printer k))
  show_row event i zero j c = out_of_fuel
  show_row event i (suc left) j c =
      let body = Nodes.◌>>=◌ (read_seat event (seat_index event i j)) λ seat. (do
        c₁ ← put_text (sprintf seat) c
        c₂ ← if ltb j event.cols then put_char 32 c₁ else ok (next c₁)
        c₃ ← flush (set_seat_lock unlocked) c₂
        show_row event i left ((j + 1) % size_mod) c₃) in
      if leb j event.cols then body else ok (next c)

  -- The rows from `i` on.
  pub show_rows : Event → (left i : ℕ) → Printer k → Run (Outcome (Printer k))
  show_rows event zero i c = out_of_fuel
  show_rows event (suc left) i c =
      let body = (do
        c₁ ← show_row event i (suc event.cols) 1 c
        c₂ ← put_char 10 c₁
        show_rows event left ((i + 1) % size_mod) c₂) in
      if leb i event.rows then body else ok (next c)

  -- The last write, after which the file's lock is released.
  pub finish : (release : Ems → Ems) → Printer k → Run (Outcome (Printer k))
  finish release c = do
    c' ← write_out release (if c.flushes then c else record c { ems = set_file_lock true c.ems })
    ok (returned 0 (record c' { ems = release (set_file_lock false c'.ems) }))

  abbrev pub fresh_printer : Ems → k.Fd → Printer k
  fresh_printer m out = record { buffer = []; flushes = false; ems = m; out = out }

  -- From the search on.
  unfoldable pub show_event : Ptr → Ems → k.Fd → Run (Outcome (Printer k))
  unfolding show_row show_rows put_text put_char flush finish write_out
  show_event event m out = Nodes.◌>>=◌ (load m.store.events event) λ e. (do
    c ← show_rows e (suc e.rows) 1 (fresh_printer (set_seat_lock rdlocked m) out)
    finish (λ k. k) (record c { ems = set_seat_lock unlocked c.ems }))

  unfoldable pub ems_show : ℕ → Ems → k.Fd → Run (Outcome (Printer k))
  unfolding show_event
  ems_show event_id m out = Nodes.◌>>=◌ (find_event fuel event_id m) λ (search, m'). elim search [
    | returns code ↦ ok (returned code (fresh_printer m' out))
    | found event ↦ show_event event m' out
  ]

  -- The loop over the list, from the node `current` on.
  pub list_nodes : ℕ → Ptr → Printer k → Run (Outcome (Printer k))
  list_nodes zero current c = out_of_fuel
  list_nodes (suc f) current c =
      if current == null
      then ok (next c)
      else Nodes.◌>>=◌ (load c.ems.store.nodes current) λ n.
        Nodes.◌>>=◌ (load c.ems.store.events n.item) λ e. (do
          c₁ ← put_text (event_label ++ (sprintf e.id ++ 10 ∷ [])) c
          c₂ ← flush (set_event_list_lock unlocked) c₁
          list_nodes f n.next c₂)

  unfoldable pub ems_list_events : Ems → k.Fd → Run (Outcome (Printer k))
  unfolding list_nodes put_text put_char flush finish write_out
  ems_list_events m out =
      let m₁ = set_event_list_lock rdlocked m in
      let c = fresh_printer m₁ out in
      if m.event_list == null
      then ok (returned 1 (record c { ems = set_event_list_lock unlocked m₁ }))
      else Nodes.◌>>=◌ (load m.store.lists m.event_list) λ l. (do
        c' ← if l.head == null then put_text no_events c else list_nodes fuel l.head c
        finish (set_event_list_lock unlocked) c')
