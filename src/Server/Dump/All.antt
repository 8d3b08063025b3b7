-- ===== src/Server/Dump/All.antt =====
-- What `ems_sigusr1_action` prints on an initialised state, and what it leaves.
use so.Base.{
  ℕ, zero, suc, ◌+◌, size_mod, ◌<◌, ◌≡◌, Bool, true, false, some, List, [], ◌∷◌, ◌++◌, refl, sym,
  ap, ◌∙◌, arith, length, ==-false, ==-self, if◌then◌else◌, Bool-cases, inl, inr,
}
use mathlib.Core.List.{append-nil}
use so.Base.Nodes.{Ptr, null, ok, load_lem, write, write_self, write-write, write_same}
use so.Chain.{Cells, last_of, Linked}
use so.Chain.Link.{has-last, ne_of_has}
use so.Chain.Owned.{Owns, length-Owns}
use so.Chain.Owned.Update.{All}
use so.Client.Api.Grid.{grid_text}
use so.Server.Store.{Event, RwLock, unlocked, rdlocked, Store, put_event, put_list}
use so.Server.EventList.Shape.{IsList, header_of, set_rwl_lem, IsList-set_rwl}
use so.Server.Seats.Index.{IsRoom}
use so.Server.Database.{IsSound}
use so.Server.Operations.{Ems, put_store}
use so.Server.Operations.Locked.{set_mutex_lem, with_mutex}
use so.Server.Operations.State.{Repr, locked, lock-locked, locked-IsList}
use so.Server.Dump.{
  DumpResources, event_word, no_events, dump_event, dump_from, dump_locked, ems_sigusr1_action,
}
use so.Server.Dump.Rows.{dump_rows_lem}

-- Rows and columns that are not the largest size_t.
abbrev pub Countable : Event → Type 0
Countable v = (v.rows + 1 < size_mod) × (v.cols + 1 < size_mod)

module _ (sprintf : ℕ → List ℕ) where
  -- The id of an event, and its seats row by row.
  abbrev pub event_text : Event → List ℕ
  event_text v = event_word ++ (sprintf v.id ++ 10 ∷ grid_text sprintf v.rows v.cols v.seats)

  -- The events up to the first whose mutex is refused, and whether there is none.
  abbrev pub printed : (mutex_lock : Ptr → Bool) → Cells Ptr → List Event → Bool × List ℕ
  printed mutex_lock [] [] = (true, [])
  printed mutex_lock [] (v ∷ vs) = (true, [])
  printed mutex_lock (c ∷ cs) [] = (true, [])
  printed mutex_lock ((a, e) ∷ cs) (v ∷ vs) =
      let rest = printed mutex_lock cs vs in
      if mutex_lock e then (rest.0, event_text v ++ rest.1) else (false, [])

  dump_event_lem :
      (q : Ptr) (v : Event) (s : Store)
      → s.events q ≡ some v
      → v.mutex ≡ false
      → IsRoom v
      → Countable v
      → dump_event sprintf true q s ≡ ok (true, event_text v, s)
  unfolding dump_event
  dump_event_lem q v s at free room (rows_fit, cols_fit) =
      let held = with_mutex true v in
      let s₁ = put_event s q (some held) in
      let room' : IsRoom held = record { small = room.small; full = room.full } in
      let back : put_event s₁ q (some (with_mutex false v)) ≡ s = (λ i. record s {
        events =
            (write-write s.events q (some held) (some (with_mutex false v))
                ∙ (λ j. write s.events q (some (with_mutex (sym free j) v)))
                ∙ write_same s.events q (some v) at)
              i;
      }) in
      rw
        (
          set_mutex_lem true q s v at,
          load_lem s₁.events q _ (write_self s.events q _),
          dump_rows_lem sprintf held room' rows_fit cols_fit,
          set_mutex_lem false q s₁ held (write_self s.events q _),
          back,
        )
        refl

  refused : (q : Ptr) (s : Store) → dump_event sprintf false q s ≡ ok (false, [], s)
  unfolding dump_event
  refused q s = refl

  dump_from_lem :
      (fuel : ℕ) (mutex_lock : Ptr → Bool) (s : Store) (a e : Ptr) (cs : Cells Ptr) (v : Event)
      (vs : List Event)
      → Linked s.nodes ((a, e) ∷ cs)
      → Owns s.events ((a, e) ∷ cs) (v ∷ vs)
      → IsSound (v ∷ vs)
      → All Countable (v ∷ vs)
      → length cs < fuel
      → dump_from sprintf fuel mutex_lock a (last_of ((a, e) ∷ cs)) s
        ≡ ok (
          (printed mutex_lock ((a, e) ∷ cs) (v ∷ vs)).0,
          (printed mutex_lock ((a, e) ∷ cs) (v ∷ vs)).1,
          s,
        )
  unfolding dump_from
  dump_from_lem zero mutex_lock s a e cs v vs l o sound fit h = absurd (omega arith)
  dump_from_lem (suc f) mutex_lock s a e [] v [] l o sound fit h =
      elim (Bool-cases (mutex_lock e)) [
        | inr held ↦ rw (load_lem s.nodes a _ l.1, held, refused e s) refl
        | inl free ↦
            rw
              (
                load_lem s.nodes a _ l.1,
                free,
                dump_event_lem e v s o.1 sound.1 sound.0 fit.0,
                ==-self a,
              )
              (ap (λ t. ok (true, t, s)) (sym (append-nil (event_text v))))
      ]
  dump_from_lem (suc f) mutex_lock s a e [] v (u ∷ vs) l o sound fit h = absurd o.3
  dump_from_lem (suc f) mutex_lock s a e ((b, g) ∷ cs) v [] l o sound fit h = absurd o.3
  dump_from_lem (suc f) mutex_lock s a e ((b, g) ∷ cs) v (u ∷ vs) l o sound fit h =
      let apart = ne_of_has a (last_of ((b, g) ∷ cs)) ((b, g) ∷ cs) l.2 (has-last (b, g) cs) in
      let rest = dump_from_lem f mutex_lock s b g cs u vs l.3 o.3 sound.3 fit.1 (omega arith) in
      elim (Bool-cases (mutex_lock e)) [
        | inr held ↦ rw (load_lem s.nodes a _ l.1, held, refused e s) refl
        | inl free ↦
            rw
              (
                load_lem s.nodes a _ l.1,
                free,
                dump_event_lem e v s o.1 sound.1 sound.0 fit.0,
                ==-false a _ apart,
                rest,
              )
              refl
      ]

  abbrev verdict : Bool → List ℕ → ℕ × List ℕ × RwLock
  verdict true text = (0, text, unlocked)
  verdict false text = (1, text, rdlocked)

  -- The code and the text of a call with the list's lock, and what becomes of the lock.
  abbrev pub dumped : (mutex_lock : Ptr → Bool) → Cells Ptr → List Event → ℕ × List ℕ × RwLock
  dumped mutex_lock [] vs = (0, no_events, unlocked)
  dumped mutex_lock (c ∷ cs) vs = let all = printed mutex_lock (c ∷ cs) vs in verdict all.0 all.1

  abbrev LeavesLocked :
      (fuel : ℕ) (mutex_lock : Ptr → Bool) (s : Store) (p : Ptr) (cs : Cells Ptr) (vs : List Event)
      → ℕ × List ℕ × RwLock
      → Type 0
  LeavesLocked fuel mutex_lock s p cs vs r =
      (s' : Store) × (dump_locked sprintf fuel mutex_lock p s ≡ ok (r.0, r.1, s'))
      × IsList s' p r.2 cs vs

  after_loop :
      (fuel : ℕ) (mutex_lock : Ptr → Bool) (s : Store) (p a e : Ptr) (cs : Cells Ptr)
      (vs : List Event) (all : Bool) (text : List ℕ)
      → IsList s p rdlocked ((a, e) ∷ cs) vs
      → dump_from sprintf fuel mutex_lock a (last_of ((a, e) ∷ cs)) s ≡ ok (all, text, s)
      → LeavesLocked fuel mutex_lock s p ((a, e) ∷ cs) vs (verdict all text)
  unfolding dump_locked
  after_loop fuel mutex_lock s p a e cs vs true text is run = (
    put_list s p (some (header_of ((a, e) ∷ cs) unlocked)),
    rw
        (
          load_lem s.lists p _ is.header,
          ==-false a null is.linked.0,
          run,
          set_rwl_lem s p rdlocked ((a, e) ∷ cs) vs unlocked is,
        )
        refl,
    IsList-set_rwl s p rdlocked ((a, e) ∷ cs) vs unlocked is,
  )
  after_loop fuel mutex_lock s p a e cs vs false text is run =
      (s, rw (load_lem s.lists p _ is.header, ==-false a null is.linked.0, run) refl, is)

  dump_locked_lem :
      (fuel : ℕ) (mutex_lock : Ptr → Bool) (s : Store) (p : Ptr) (cs : Cells Ptr) (vs : List Event)
      → IsList s p rdlocked cs vs
      → IsSound vs
      → All Countable vs
      → length vs < fuel
      → LeavesLocked fuel mutex_lock s p cs vs (dumped mutex_lock cs vs)
  unfolding dump_locked
  dump_locked_lem fuel mutex_lock s p [] vs is sound fit h = (
    put_list s p (some (header_of [] unlocked)),
    rw (load_lem s.lists p _ is.header, set_rwl_lem s p rdlocked [] vs unlocked is) refl,
    IsList-set_rwl s p rdlocked [] vs unlocked is,
  )
  dump_locked_lem fuel mutex_lock s p ((a, e) ∷ cs) [] is sound fit h = absurd is.owns
  dump_locked_lem fuel mutex_lock s p ((a, e) ∷ cs) (v ∷ vs) is sound fit h =
      let count = length-Owns s.events ((a, e) ∷ cs) (v ∷ vs) is.owns in
      after_loop fuel mutex_lock s p a e cs (v ∷ vs) _ _ is (
        dump_from_lem fuel mutex_lock s a e cs v vs is.linked is.owns sound fit
          (omega (arith, count)))

  -- A call that returns the code, prints the text and leaves the events, with the list's lock in that
  -- state.
  abbrev pub Dumps :
      (fuel : ℕ) (os : DumpResources) (m : Ems) (cs : Cells Ptr) (vs : List Event) (code : ℕ)
      (text : List ℕ) (k : RwLock)
      → Type 0
  Dumps fuel os m cs vs code text k =
      (m' : Ems) × (ems_sigusr1_action sprintf fuel os m ≡ ok (code, text, m'))
      × IsList m'.store m'.event_list k cs vs

  module _ (fuel : ℕ) (m : Ems) (vs : List Event) (r : Repr m vs) where
    -- On an initialised state of a sound database whose events have rows and columns that are not the
    -- largest size_t, with fuel for its events, `ems_sigusr1_action` ends
    -- without a fault and leaves the events. With the list's lock, it prints the events in order, each
    -- with its id and its seats row by row, up to the first whose mutex is refused: if there is none, it
    -- returns 0 and unlocks the list; otherwise it returns 1 and the list stays locked. Of an empty list
    -- it prints that there are no events.
    pub ems_sigusr1_action-IsList :
        (mutex_lock : Ptr → Bool)
        → IsSound vs
        → All Countable vs
        → length vs < fuel
        → Dumps fuel
            (record { rdlock = true; mutex_lock = mutex_lock })
            m
            r.cells
            vs
            (dumped mutex_lock r.cells vs).0
            (dumped mutex_lock r.cells vs).1
            (dumped mutex_lock r.cells vs).2
    unfolding ems_sigusr1_action
    ems_sigusr1_action-IsList mutex_lock sound fit h =
        let (s', run, is) =
          dump_locked_lem fuel mutex_lock (locked rdlocked m r.cells) m.event_list r.cells vs
            (locked-IsList m vs r rdlocked) sound fit h in
        (
          put_store m s',
          rw (==-false m.event_list null r.list.ne_null, lock-locked m vs r rdlocked, run) refl,
          is,
        )
