-- ===== src/Server/Output.antt =====
-- `ems_show` and `ems_list_events` of Part2/src/server/operations.c, which send what they find
-- through a pipe. Whether the lock is granted is an argument. The fuel of each `safe_write` is one
-- round for each byte and one more.
pub mod Show
pub mod Events
use so.Base.{
  ℕ, zero, suc, ◌*◌, ◌%◌, Bool, true, false, Option, none, some, List, [], ◌∷◌, ◌==◌, if◌then◌else◌,
  size_mod, length,
}
use mathlib.Core.Bool.{not}
use so.Base.Nodes.{Ptr, null, Run, ok, out_of_fuel, ◌>>=◌, load}
use so.Common.Bytes.{encode, encode_all, memory}
use so.Common.Kernel.{Writer}
use so.Common.Io.{safe_write}
use so.Server.Store.{unlocked, rdlocked, Store, set_rwl}
use so.Server.Operations.{Ems, put_store, get_event_with_delay}

module _ (w : Writer) where
  abbrev pub send : List ℕ → w.Fd → Run (Option ℕ × w.Fd)
  send bytes fd = safe_write w (suc (length bytes)) bytes fd

  -- The second and the third part of `ems_show`: the size and the seats of the event.
  unfoldable pub show_event : Ptr → w.Fd → Store → Run (ℕ × w.Fd)
  show_event event out_fd s = do
    e ← load s.events event
    (size, fd₁) ← send (encode_all 8 (e.rows ∷ e.cols ∷ [])) out_fd
    elim size [
      | none ↦ ok (1, fd₁)
      | some n ↦ do
        bytes ← memory ((e.rows * e.cols * 4) % size_mod) (encode_all 4 e.seats)
        (seats, fd₂) ← send bytes fd₁
        elim seats [ none ↦ ok (1, fd₂) | some m ↦ ok (0, fd₂) ]
    ]

  unfoldable pub ems_show : ℕ → (rdlock : Bool) → ℕ → w.Fd → Ems → Run (ℕ × w.Fd × Ems)
  unfolding show_event get_event_with_delay
  ems_show fuel rdlock event_id out_fd m =
      if m.event_list == null
      then ok (1, out_fd, m)
      else (if not rdlock then ok (1, out_fd, m) else do
        s ← set_rwl rdlocked m.event_list m.store
        l ← load s.lists m.event_list
        event ← get_event_with_delay fuel event_id l.head l.tail (put_store m s)
        s₁ ← set_rwl unlocked m.event_list s
        (code, fd) ←
            if event == null
            then (do (r, fd') ← send (encode_all 8 (0 ∷ 0 ∷ [])) out_fd; ok (1, fd'))
            else show_event event out_fd s₁
        ok (code, fd, put_store m s₁))

  -- The loop of `ems_list_events`: whether it sends all ids.
  unfoldable pub list_from : ℕ → Store → Ptr → Ptr → w.Fd → Run (Bool × w.Fd)
  list_from zero s current to out_fd = out_of_fuel
  list_from (suc f) s current to out_fd = do
    n ← load s.nodes current
    e ← load s.events n.item
    (r, fd) ← send (encode 4 e.id) out_fd
    elim r [
      | none ↦ ok (false, fd)
      | some sent ↦
          let rest = list_from f s n.next to fd in if current == to then ok (true, fd) else rest
    ]

  -- The code with the list locked.
  unfoldable pub list_locked : ℕ → Ptr → w.Fd → Store → Run (ℕ × w.Fd)
  unfolding list_from
  list_locked fuel list out_fd s = do
    l ← load s.lists list
    (r, fd) ← send (encode 8 l.event_num) out_fd
    elim r [
      | none ↦ ok (1, fd)
      | some sent ↦
          let loop = (do
            (all, fd') ← list_from fuel s l.head l.tail fd
            ok ((if all then 0 else 1), fd')) in
          if l.event_num == 0 then ok (0, fd) else loop
    ]

  unfoldable pub ems_list_events : ℕ → (rdlock : Bool) → w.Fd → Ems → Run (ℕ × w.Fd × Ems)
  unfolding list_locked
  ems_list_events fuel rdlock out_fd m =
      if m.event_list == null
      then ok (1, out_fd, m)
      else (if not rdlock then ok (1, out_fd, m) else do
        s ← set_rwl rdlocked m.event_list m.store
        (code, fd) ← list_locked fuel m.event_list out_fd s
        s₁ ← set_rwl unlocked m.event_list s
        ok (code, fd, put_store m s₁))
