-- ===== src/Server/Dump.antt =====
-- `ems_sigusr1_action` of Part2/src/server/operations.c, which prints all events. What it prints is
-- a part of the result; `sprintf` is the text that printf makes of a number for "%u". Which locks
-- are granted is an argument.
pub mod Rounds
pub mod Rows
pub mod All
use so.Base.{
  ℕ, zero, suc, ◌+◌, ◌%◌, Bool, true, false, none, some, List, [], ◌∷◌, ◌++◌, ltb, leb, size_mod,
  ◌==◌, if◌then◌else◌, get_elem?,
}
use mathlib.Core.Bool.{not}
use so.Base.Nodes.{Ptr, null, Run, ok, fault, out_of_fuel, ◌>>=◌, load}
use so.Server.Store.{Event, unlocked, rdlocked, Store, set_rwl, set_mutex}
use so.Server.Seats.{seat_index}
use so.Server.Operations.{Ems, put_store}

-- `event->data[i]`
unfoldable pub seat : Event → ℕ → Run ℕ
seat event i = elim (get_elem? event.seats i) [ none ↦ fault | some v ↦ ok v ]

-- "Event: "
abbrev pub event_word : List ℕ
event_word = 69 ∷ 118 ∷ 101 ∷ 110 ∷ 116 ∷ 58 ∷ 32 ∷ []

-- "No events" and a line end
abbrev pub no_events : List ℕ
no_events = 78 ∷ 111 ∷ 32 ∷ 101 ∷ 118 ∷ 101 ∷ 110 ∷ 116 ∷ 115 ∷ 10 ∷ []

-- The locks for a call: the list's, and the mutex of the event at each address.
pub record DumpResources : Type 0 where
  pub rdlock : Bool
  pub mutex_lock : Ptr → Bool

module _ (sprintf : ℕ → List ℕ) where
  -- The inner loop, from the column `j` on. The counters of the loops are size_t: where `cols` is the
  -- largest one, `j <= cols` is never false. Fuel bounds the rounds.
  unfoldable pub dump_row : Event → (i fuel j : ℕ) → Run (List ℕ)
  dump_row event i zero j = out_of_fuel
  dump_row event i (suc f) j =
      let body = (do
        v ← seat event (seat_index event i j)
        rest ← dump_row event i f ((j + 1) % size_mod)
        ok (sprintf v ++ (if ltb j event.cols then 32 ∷ rest else rest))) in
      if leb j event.cols then body else ok []

  -- The outer loop, from the row `i` on.
  unfoldable pub dump_rows : Event → (fuel i : ℕ) → Run (List ℕ)
  unfolding dump_row
  dump_rows event zero i = out_of_fuel
  dump_rows event (suc f) i =
      let body = (do
        row ← dump_row event i (suc event.cols) 1
        rest ← dump_rows event f ((i + 1) % size_mod)
        ok (row ++ 10 ∷ rest)) in
      if leb i event.rows then body else ok []

  -- An event under its mutex: whether the mutex is granted, and its text.
  unfoldable pub dump_event : (mutex_lock : Bool) → Ptr → Store → Run (Bool × List ℕ × Store)
  unfolding dump_rows
  dump_event mutex_lock event s = if not mutex_lock then ok (false, [], s) else do
    s₁ ← set_mutex true event s
    e ← load s₁.events event
    rows ← dump_rows e (suc e.rows) 1
    s₂ ← set_mutex false event s₁
    ok (true, event_word ++ (sprintf e.id ++ 10 ∷ rows), s₂)

  -- The loop over the list: whether it came to its end.
  unfoldable pub dump_from :
      ℕ → (mutex_lock : Ptr → Bool) → Ptr → Ptr → Store → Run (Bool × List ℕ × Store)
  unfolding dump_event
  dump_from zero mutex_lock current to s = out_of_fuel
  dump_from (suc f) mutex_lock current to s = do
    n ← load s.nodes current
    (done, text, s₁) ← dump_event (mutex_lock n.item) n.item s
    let rest = (do
      (all, more, s₂) ← dump_from f mutex_lock n.next to s₁
      ok (all, text ++ more, s₂))
    if not done then ok (false, text, s₁) else (if current == to then ok (true, text, s₁) else rest)

  -- With the list locked: the code and what is printed. When the loop breaks off, the list stays
  -- locked.
  unfoldable pub dump_locked :
      ℕ → (mutex_lock : Ptr → Bool) → Ptr → Store → Run (ℕ × List ℕ × Store)
  unfolding dump_from
  dump_locked fuel mutex_lock list s = do
    l ← load s.lists list
    let loop = (do
      (all, text, s₁) ← dump_from fuel mutex_lock l.head l.tail s
      if not all then ok (1, text, s₁) else do s₂ ← set_rwl unlocked list s₁; ok (0, text, s₂))
    if l.head == null then (do s₁ ← set_rwl unlocked list s; ok (0, no_events, s₁)) else loop

  unfoldable pub ems_sigusr1_action : ℕ → DumpResources → Ems → Run (ℕ × List ℕ × Ems)
  unfolding dump_locked
  ems_sigusr1_action fuel os m =
      if m.event_list == null
      then ok (1, [], m)
      else (if not os.rdlock then ok (1, [], m) else do
        s ← set_rwl rdlocked m.event_list m.store
        (code, text, s₁) ← dump_locked fuel os.mutex_lock m.event_list s
        ok (code, text, put_store m s₁))
