-- ===== src/Server/Output/Show.antt =====
-- `ems_show` of Part2/src/server/operations.c on a pipe that works, against the abstract SHOW.
use so.Base.{
  ℕ, ◌*◌, ◌%◌, ◌≤◌, ◌<◌, ◌≡◌, Bool, true, false, none, some, List, [], ◌∷◌, ◌++◌, refl, sym, ap,
  ◌∙◌, arith, ◌==◌, length, leb, take, size_mod, ==-false, inl, inr, if-true, subst,
}
use mathlib.Core.List.{append-nil, append_assoc}
use so.Base.Nodes.{Ptr, null, Run, ok, load_lem}
use so.Common.Bytes.{encode_all, length-encode_all, memory}
use so.Common.Kernel.{Writer}
use so.Common.Io.Whole.{IsSink, safe_write_whole}
use so.Chain.Owned.Search.{pointer_of-find}
use so.Server.Store.{Event, rdlocked, Store}
use so.Server.EventList.Shape.{find, pointer_of}
use so.Server.Seats.Index.{IsRoom}
use so.Server.Database.{IsSound}
use so.Server.Database.Sound.{find-IsSound}
use so.Server.Operations.{Ems, put_store}
use so.Server.Operations.State.{
  Repr, lock-locked, load-locked, get_event_with_delay_lem, released, released-IsList,
  unlock-locked,
}
use so.Server.Output.{show_event, ems_show}

-- The size of an event and its seats, of which the size in bytes is a size_t.
abbrev pub seats_of : Event → List ℕ
seats_of e =
    encode_all 8 (e.rows ∷ e.cols ∷ [])
    ++ take ((e.rows * e.cols * 4) % size_mod) (encode_all 4 e.seats)

-- The code, and what is sent: a size of 0 for an event that does not exist.
abbrev pub shown : (rdlock : Bool) → ℕ → List Event → ℕ × List ℕ
shown false id vs = (1, [])
shown true id vs = elim (find id vs) [
  | none ↦ (1, encode_all 8 (0 ∷ 0 ∷ []))
  | some e ↦ (0, seats_of e)
]

pub shown-missing :
    (id : ℕ) (vs : List Event)
    → find id vs ≡ none
    → shown true id vs ≡ (1, encode_all 8 (0 ∷ 0 ∷ []))
shown-missing id vs gone = rw (gone, shown)

pub shown-found :
    (id : ℕ) (vs : List Event) (e : Event)
    → find id vs ≡ some e
    → shown true id vs ≡ (0, seats_of e)
shown-found id vs e found = rw (found, shown)

size_mod-le : (n : ℕ) → n % size_mod ≤ n
size_mod-le n = omega arith

seats-memory :
    (e : Event)
    → IsRoom e
    → memory ((e.rows * e.cols * 4) % size_mod) (encode_all 4 e.seats)
      ≡ ok (take ((e.rows * e.cols * 4) % size_mod) (encode_all 4 e.seats))
seats-memory e room =
    let size = length-encode_all 4 e.seats ∙ ap (λ n. n * 4) room.full in
    let fits : leb ((e.rows * e.cols * 4) % size_mod) (length (encode_all 4 e.seats)) ≡ true =
      ground (arith, size, size_mod-le (e.rows * e.cols * 4)) in
    if-true _ _ fits

module _ (w : Writer) (sink : IsSink w) where
  -- A run that ends with the code, with the bytes sent, and in a state of the events.
  abbrev pub Sends : Run (ℕ × w.Fd × Ems) → w.Fd → ℕ × List ℕ → List Event → Type 0
  Sends run fd r vs =
      (fd' : w.Fd) × (m' : Ems) × (run ≡ ok (r.0, fd', m'))
      × (sink.lawful.sent fd' ≡ sink.lawful.sent fd ++ r.1)
      × Repr m' vs

  show_event_lem :
      (s : Store) (q : Ptr) (e : Event) (fd : w.Fd)
      → s.events q ≡ some e
      → IsRoom e
      → (fd' : w.Fd) × (show_event w q fd s ≡ ok (0, fd'))
        × (sink.lawful.sent fd' ≡ sink.lawful.sent fd ++ seats_of e)
  unfolding show_event
  show_event_lem s q e fd at room =
      let size = encode_all 8 (e.rows ∷ e.cols ∷ []) in
      let bytes = take ((e.rows * e.cols * 4) % size_mod) (encode_all 4 e.seats) in
      let (fd₁, run₁, sent₁) = safe_write_whole w sink size fd in
      let (fd₂, run₂, sent₂) = safe_write_whole w sink bytes fd₁ in
      (
        fd₂,
        rw (load_lem s.events q _ at, run₁, seats-memory e room, run₂) refl,
        sent₂ ∙ ap (λ l. l ++ bytes) sent₁ ∙ append_assoc (sink.lawful.sent fd) size bytes,
      )

  module _ (fuel id : ℕ) (fd : w.Fd) (m : Ems) (vs : List Event) (r : Repr m vs)
      (h : length vs < fuel) where
    s-Repr : Repr (put_store m (released m vs r rdlocked)) vs
    s-Repr = record { cells = r.cells; list = released-IsList m vs r rdlocked }

    -- On an initialised state of a sound database, with fuel for its events, and on a pipe that
    -- works, `ems_show` ends without a fault and leaves the events. With the lock it returns 0 and
    -- sends the size and the seats of the first event with the id, or returns 1 and sends a size of
    -- 0 if there is none; without the lock it returns 1 and sends nothing.
    pub ems_show_lem :
        (rdlock : Bool)
        → IsSound vs
        → Sends (ems_show w fuel rdlock id fd m) fd (shown rdlock id vs) vs
    unfolding ems_show
    ems_show_lem false sound =
        (fd, m, rw (==-false m.event_list null r.list.ne_null) refl, sym (append-nil _), r)
    ems_show_lem true sound =
        elim (pointer_of-find (λ v. v.id) m.store.events id r.cells vs r.list.owns) [
          | inl (missing, gone) ↦
              let nothing = encode_all 8 (0 ∷ 0 ∷ []) in
              let (fd', run, sent) = safe_write_whole w sink nothing fd in
              let nowhere : (pointer_of id r.cells vs == null) ≡ true = ground arith in
              subst (λ t. Sends (ems_show w fuel true id fd m) fd t vs)
                (sym (shown-missing id vs gone))
                (
                  fd',
                  put_store m (released m vs r rdlocked),
                  rw
                      (
                        ==-false m.event_list null r.list.ne_null,
                        lock-locked m vs r rdlocked,
                        load_lem _ m.event_list _ (load-locked m vs r rdlocked),
                        get_event_with_delay_lem m vs r fuel id rdlocked h,
                        unlock-locked m vs r rdlocked,
                        nowhere,
                        run,
                      )
                      refl,
                  sent,
                  s-Repr,
                )
          | inr (e, ne, at, found, _, _) ↦
              let room = (find-IsSound id vs e sound found).0 in
              let (fd', run, sent) =
                show_event_lem (released m vs r rdlocked) (pointer_of id r.cells vs) e fd at room in
              let there : (pointer_of id r.cells vs == null) ≡ false = ground arith in
              subst (λ t. Sends (ems_show w fuel true id fd m) fd t vs)
                (sym (shown-found id vs e found))
                (
                  fd',
                  put_store m (released m vs r rdlocked),
                  rw
                      (
                        ==-false m.event_list null r.list.ne_null,
                        lock-locked m vs r rdlocked,
                        load_lem _ m.event_list _ (load-locked m vs r rdlocked),
                        get_event_with_delay_lem m vs r fuel id rdlocked h,
                        unlock-locked m vs r rdlocked,
                        there,
                        run,
                      )
                      refl,
                  sent,
                  s-Repr,
                )
        ]
