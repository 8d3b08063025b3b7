-- ===== src/Part1/Threads/Valid.antt =====
-- The invariant of a job whose threads run in any order.
use so.Base.{
  ℕ, ◌+◌, ◌*◌, ◌<◌, ◌≡◌, false, some, List, [], ◌∷◌, ◌++◌, refl, sym, subst, ◌∙◌, arith, ap, ◌==◌,
  length, size_mod, uint_mod, Bool-cases, inl, inr, if-true, if-false, length-replicate,
}
use so.Base.Nodes.{Ptr, null, Run, ok}
use so.Chain.Owned.Update.{
  All, All-append, All-update, update, Owns-update, Extends, Extends-refl, Extends-append,
  Extends-update, Extends-trans,
}
use so.Chain.Owned.Search.{pointer_of-find}
use so.Server.Seats.Request.{request}
use so.Part1.Store.{Event, put_event}
use so.Part1.EventList.Shape.{IsList, pointer_of}
use so.Part1.Seats.Fill.{IsRoom}
use so.Part1.Seats.Outcome.{reservation}
use so.Part1.Database.{new_event}
use so.Part1.Operations.{
  Ems, Search, returns, found, CreateResources, check_new, find_event, insert_new, reserve_event,
  put_store,
}
use so.Part1.Operations.State.{Repr, check_new_lem, find_event_lem, checked, looked_up}
use so.Part1.Operations.Memory.{IsFresh, has_memory, Grown}
use so.Part1.Operations.Insert.{insert_new_lem}
use so.Part1.Operations.Reserve.{reserve_event_lem}
use so.Part1.Threads.{
  Pc, idle, reserving, EndsWith, Move, Small, WithinLimits, start_create, refuse_create,
  finish_create, start_reserve, refuse_reserve, finish_reserve, Job, put_pc, pick, Reach, start,
  later,
}
use so.Part1.Threads.Ready.{
  Ready, same_state, EndsWith-unique, find-IsRoom, Ready-kept, Ready-put, write-IsRoom,
}
use so.Part1.Threads.Kept.{
  SeatsKept, SeatsKept-refl, SeatsKept-trans, reservation-SeatsKept, reservation-IsRoom,
}

-- The list is well formed and holds rooms, no lock is held between the parts, and every thread can
-- rely on what its part needs.
pub record IsValid (j : Job) : Type 0 where
  pub events : List Event
  pub repr : Repr j.ems events
  pub rooms : All IsRoom events
  pub ready : (tid : ℕ) → Ready j.ems (j.pc tid)

-- What a step from events `vs` leads to.
abbrev pub After : List Event → Job → Type 0
After vs j = (v : IsValid j) × Extends SeatsKept vs v.events

module _ (j : Job) (v : IsValid j) (tid : ℕ) where
  abbrev m : Ems
  m = j.ems

  -- A step that changes nothing but where the thread stands.
  stay :
      (m' : Ems) (p' : Pc)
      → m ≡ m'
      → Ready m p'
      → After v.events (record { ems = m'; pc = put_pc j.pc tid p' })
  stay m' p' same mine =
      subst (λ k. After v.events (record { ems = k; pc = put_pc j.pc tid p' })) same
        (
          record {
            events = v.events;
            repr = v.repr;
            rooms = v.rooms;
            ready = Ready-put m m j.pc tid p' v.ready mine;
          },
          Extends-refl SeatsKept SeatsKept-refl v.events,
        )

  check_result :
      (id : ℕ)
      → (fuel : ℕ) → length v.events < fuel
      → check_new fuel id m ≡ ok (checked (pointer_of id v.repr.cells v.events), m)
  check_result id fuel h = check_new_lem m v.events v.repr fuel id h

  find_result :
      (id : ℕ)
      → (fuel : ℕ) → length v.events < fuel
      → find_event fuel id m ≡ ok (looked_up (pointer_of id v.repr.cells v.events), m)
  find_result id fuel h = find_event_lem m v.events v.repr fuel id h

  checked_same :
      (id : ℕ) (s : Search) (m' : Ems) → EndsWith (λ fuel. check_new fuel id m) (s, m') → m ≡ m'
  checked_same id s m' ends =
      let both =
        EndsWith-unique (λ fuel. check_new fuel id m) _ _ (length v.events) ends
          (check_result id) in
      sym (ap (λ (r : Search × Ems). r.1) both)

  found_same :
      (id : ℕ) (s : Search) (m' : Ems)
      → EndsWith (λ fuel. find_event fuel id m) (s, m')
      → (s ≡ looked_up (pointer_of id v.repr.cells v.events)) × (m ≡ m')
  found_same id s m' ends =
      let both =
        EndsWith-unique (λ fuel. find_event fuel id m) _ _ (length v.events) ends
          (find_result id) in
      (ap (λ (r : Search × Ems). r.0) both, sym (ap (λ (r : Search × Ems). r.1) both))

  -- A pointer that the search of `ems_reserve` hands on leads to a room.
  found-IsRoom :
      (id : ℕ) (p : Ptr)
      → found p ≡ looked_up (pointer_of id v.repr.cells v.events)
      → (e : Event) × (m.store.events p ≡ some e) × IsRoom e
  found-IsRoom id p same =
      elim (pointer_of-find (λ e. e.id) m.store.events id v.repr.cells v.events v.repr.list.owns) [
        | inl (missing, _) ↦
            let clash : found p ≡ returns 1 = same ∙ ap looked_up missing ∙ refl in cc
        | inr (e, ne, at, here, _, _) ↦
            let there : (pointer_of id v.repr.cells v.events == null) ≡ false = ground arith in
            let pointer : found p ≡ found (pointer_of id v.repr.cells v.events) =
              same ∙ if-false _ _ there in
            (
              e,
              subst (λ q. m.store.events q ≡ some e) (sym (cc)) at,
              find-IsRoom id v.events e v.rooms here,
            )
      ]

  -- The steps that write.
  inserted_step :
      (run : Run (ℕ × Ems)) (code code' : ℕ) (vs : List Event) (m' : Ems)
      → Grown m run code vs
      → All IsRoom vs
      → Extends SeatsKept v.events vs
      → run ≡ ok (code', m')
      → After v.events (record { ems = m'; pc = put_pc j.pc tid idle })
  inserted_step run code code' vs m' (m'', done, repr, kept) rooms extends runs =
      let same = same_state _ done runs in
      let others : (i : ℕ) → Ready m'' (j.pc i) =
        λ i. Ready-kept m m'' (j.pc i) (λ p e at room. (e, kept p e at, room)) (v.ready i) in
      subst (λ k. After v.events (record { ems = k; pc = put_pc j.pc tid idle })) same
        (
          record {
            events = vs;
            repr = repr;
            rooms = rooms;
            ready = Ready-put m m'' j.pc tid idle others tt;
          },
          extends,
        )

  insert_step :
      (os : CreateResources) (id rows cols code : ℕ) (m' : Ems)
      → IsFresh os m.store
      → rows * cols * 4 < size_mod
      → insert_new os id rows cols m ≡ ok (code, m')
      → After v.events (record { ems = m'; pc = put_pc j.pc tid idle })
  insert_step os id rows cols code m' fresh small runs =
      let grown = insert_new_lem os m v.events v.repr fresh id rows cols small in
      let run = insert_new os id rows cols m in
      elim (Bool-cases (has_memory os (rows * cols))) [
        | inl granted ↦
            let here : Grown m run 0 (v.events ++ new_event id rows cols ∷ []) =
              subst (λ (r : ℕ × List Event). Grown m run r.0 r.1) (if-true _ _ granted) grown in
            let room : IsRoom (new_event id rows cols) = record {
              small = omega arith;
              full = length-replicate (rows * cols) 0;
            } in
            inserted_step run 0 code _ m' here
              (All-append IsRoom v.events (new_event id rows cols) v.rooms room)
              (Extends-append SeatsKept SeatsKept-refl v.events (new_event id rows cols ∷ [])) runs
        | inr refused ↦
            let here : Grown m run 1 v.events =
              subst (λ (r : ℕ × List Event). Grown m run r.0 r.1) (if-false _ _ refused) grown in
            inserted_step run 1 code v.events m' here v.rooms
              (Extends-refl SeatsKept SeatsKept-refl v.events) runs
      ]

  reserve_step :
      (p : Ptr) (n : ℕ) (xs ys : List ℕ) (code : ℕ) (m' : Ems)
      → Ready m (reserving p n xs ys)
      → ((e : Event) → m.store.events p ≡ some e → e.reservations + 1 < uint_mod)
      → reserve_event p n xs ys m ≡ ok (code, m')
      → After v.events (record { ems = m'; pc = put_pc j.pc tid idle })
  reserve_step p n xs ys code m' (hx, hy, e, at, room) few runs =
      let w = (reservation e (request n xs ys)).1 in
      let w_room = reservation-IsRoom e (request n xs ys) room in
      let m'' = put_store m (put_event m.store p (some w)) in
      let done = reserve_event_lem n xs ys hx hy m p e v.repr.free at room (few e at) in
      let same = same_state _ done runs in
      let vs = update p v.repr.cells w v.events in
      let is : IsList m''.store m.event_list v.repr.cells vs = record {
        ne_null = v.repr.list.ne_null;
        header = v.repr.list.header;
        linked = v.repr.list.linked;
        owns = Owns-update m.store.events p w v.repr.cells v.events v.repr.list.owns;
      } in
      let others : (i : ℕ) → Ready m'' (j.pc i) =
        λ i. Ready-kept m m'' (j.pc i) (write-IsRoom m.store.events p w w_room) (v.ready i) in
      subst (λ k. After v.events (record { ems = k; pc = put_pc j.pc tid idle })) same
        (
          record {
            events = vs;
            repr = record { cells = v.repr.cells; list = is; free = v.repr.free };
            rooms = All-update IsRoom p w v.repr.cells v.events v.rooms w_room;
            ready = Ready-put m m'' j.pc tid idle others tt;
          },
          Extends-update SeatsKept SeatsKept-refl m.store.events p e w v.repr.cells v.events
              v.repr.list.owns at (reservation-SeatsKept e (request n xs ys)),
        )

  Move-After :
      (m' : Ems) (pc p' : Pc)
      → Ready m pc
      → (mv : Move m pc m' p') → Small mv
      → After v.events (record { ems = m'; pc = put_pc j.pc tid p' })
  Move-After m' pc p' ready (start_create id rows cols granted ends) small =
      stay m' p' (checked_same id _ m' ends) small
  Move-After m' pc p' ready (refuse_create id granted ends) small =
      stay m' p' (checked_same id _ m' ends) tt
  Move-After m' pc p' ready (finish_create os granted fresh runs) small =
      insert_step os _ _ _ _ m' fresh ready runs
  Move-After m' pc p' ready (start_reserve id n xs ys granted hx hy ends) small =
      let (same, unchanged) = found_same id _ m' ends in
      let (e, at, room) = found-IsRoom id _ same in stay m' p' unchanged (hx, hy, e, at, room)
  Move-After m' pc p' ready (refuse_reserve id granted ends) small =
      stay m' p' (found_same id _ m' ends).1 tt
  Move-After m' pc p' ready (finish_reserve granted runs) few =
      reserve_step _ _ _ _ _ m' ready few runs

-- In every job that the threads reach from a valid one, in whatever order the parts of their CREATEs
-- and RESERVEs come that are granted their locks, as long as the bytes of a new event's seats are a
-- size_t and no counter of reservations wraps around, the state is valid: the list is well formed
-- and holds rooms, and no lock is held. Every event that there was is there with its size, and each of
-- its seats that had a reservation's number has it still.
pub Reach-Valid :
    (max_threads : ℕ) (j : Job) (v : IsValid j) {k : Job} (r : Reach max_threads j k)
    → WithinLimits r
    → (w : IsValid k) × Extends SeatsKept v.events w.events
Reach-Valid max_threads j v start limits = (v, Extends-refl SeatsKept SeatsKept-refl v.events)
Reach-Valid max_threads j v (later r (pick tid {m'} {p'} lt mv)) limits =
    let (w, before) = Reach-Valid max_threads j v r limits.0 in
    let (w', after) = Move-After _ w tid m' _ p' (w.ready tid) mv limits.1 in
    (w', Extends-trans SeatsKept SeatsKept-trans v.events w.events w'.events before after)
