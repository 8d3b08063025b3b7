-- ===== src/Server/Operations/Create.antt =====
-- `ems_create` against the abstract CREATE, for all answers about memory and locks.
use so.Base.{
  ℕ, ◌<◌, ◌≡◌, ◌≢◌, true, false, ◌&&◌, none, some, List, refl, sym, arith, ◌==◌, if◌then◌else◌,
  length, ==-false, Bool-cases, inl, inr, subst, ap, ◌∙◌, if-true, if-false,
}
use mathlib.Core.Bool.{not}
use so.Base.Nodes.{Ptr, null, Run, ok, ◌>>=◌, load_lem}
use so.Chain.Owned.Search.{pointer_of-find}
use so.Server.Store.{Event, wrlocked, Store}
use so.Server.EventList.Shape.{IsList, find, pointer_of}
use so.Server.Database.{create, create-new, create-old}
use so.Server.Operations.{Ems, CreateResources, create_event, ems_create, unlock}
use so.Server.Operations.State.{
  Repr, locked, lock-locked, locked-IsList, load-locked, get_event_with_delay_lem, Leaves, back,
  Ends, back-Ends,
}
-- Every allocation succeeds.
use so.Server.Operations.NewEvent.{
  has_memory, IsFresh, unlock-Leaves, create_event-granted, create_event-refused,
}

-- The command, which fails when a lock or memory is refused.
abbrev pub created : CreateResources → ℕ → ℕ → ℕ → List Event → ℕ × List Event
created os id rows cols vs = if os.wrlock && has_memory os then create id rows cols vs else (1, vs)

module _ (fuel : ℕ) (os : CreateResources) (id rows cols : ℕ) (m : Ems) (vs : List Event)
    (r : Repr m vs) where
  abbrev searched : Ptr → Run (ℕ × Store)
  searched found =
      if not (found == null)
      then unlock 1 m.event_list (locked wrlocked m r.cells)
      else create_event os m.event_list id rows cols (locked wrlocked m r.cells)

  ems_create-searched :
      os.wrlock ≡ true
      → length vs < fuel
      → ems_create fuel os id rows cols m ≡ (searched (pointer_of id r.cells vs) >>= back m)
  unfolding ems_create
  ems_create-searched w h =
      rw
        (
          ==-false m.event_list null r.list.ne_null,
          w,
          lock-locked m vs r wrlocked,
          load_lem _ m.event_list _ (load-locked m vs r wrlocked),
          get_event_with_delay_lem m vs r fuel id wrlocked h,
        )
        refl

  abbrev Spec : ℕ × List Event → Type 0
  Spec r = Ends m (ems_create fuel os id rows cols m) r.0 r.1

  created_old : (e : Event) → find id vs ≡ some e → created os id rows cols vs ≡ (1, vs)
  created_old e old = elim (Bool-cases (os.wrlock && has_memory os)) [
    | inl granted ↦ if-true _ _ granted ∙ create-old id rows cols vs e old
    | inr refused ↦ if-false _ _ refused
  ]

  no_lock : os.wrlock ≡ false → ems_create fuel os id rows cols m ≡ ok (1, m)
  unfolding ems_create
  no_lock h = rw (==-false m.event_list null r.list.ne_null, h) refl

  module _ (lock : os.wrlock ≡ true) (h : length vs < fuel) where
    -- The result of a run of what follows the search.
    from_search :
        (run : Run (ℕ × Store)) (code : ℕ) (vs' : List Event)
        → searched (pointer_of id r.cells vs) ≡ run
        → Leaves m.event_list run code vs'
        → Spec (code, vs')
    from_search run code vs' way leaves =
        let (m', done, repr) = back-Ends m run code vs' leaves in
        (m', ems_create-searched lock h ∙ ap (λ r. r >>= back m) way ∙ done, repr)

    is_locked : IsList (locked wrlocked m r.cells) m.event_list wrlocked r.cells vs
    is_locked = locked-IsList m vs r wrlocked

    old_event : pointer_of id r.cells vs ≢ null → Spec (1, vs)
    old_event ne =
        let there : not (pointer_of id r.cells vs == null) ≡ true = ground arith in
        from_search _ 1 vs (if-true _ _ there)
          (unlock-Leaves (locked wrlocked m r.cells) m.event_list wrlocked r.cells vs 1 is_locked)

    new_event-Spec :
        IsFresh os m.store
        → pointer_of id r.cells vs ≡ null
        → find id vs ≡ none
        → Spec (created os id rows cols vs)
    new_event-Spec fresh missing new =
        let nowhere : not (pointer_of id r.cells vs == null) ≡ false = ground arith in
        let way = if-false _ _ nowhere in
        let fresh' : IsFresh os (locked wrlocked m r.cells) = record {
          event = fresh.event;
          node = fresh.node;
        } in
        elim (Bool-cases (has_memory os)) [
          | inl memory ↦
              let granted : os.wrlock && has_memory os ≡ true = rw (lock, memory) in
              subst Spec (sym (if-true _ _ granted ∙ create-new id rows cols vs new)) (
                from_search _ 0 _ way (
                  create_event-granted os _ m.event_list r.cells vs is_locked fresh' id rows cols
                    memory))
          | inr refused ↦
              let denied : os.wrlock && has_memory os ≡ false = rw (lock, refused) in
              subst Spec (sym (if-false _ _ denied)) (
                from_search _ 1 _ way (
                  create_event-refused os _ m.event_list r.cells vs is_locked fresh' id rows cols
                    refused))
        ]

  -- On an initialised state that stands for the events `vs`, with fuel for all of them and with
  -- addresses from malloc that are not in use, `ems_create` ends without a fault. With the lock and
  -- the memory it returns the code of the abstract CREATE and leaves a state that stands for its
  -- database; otherwise it returns 1 and leaves one that stands for `vs`. The list is unlocked.
  pub ems_create_lem :
      length vs < fuel
      → IsFresh os m.store
      → Ends m
          (ems_create fuel os id rows cols m)
          (created os id rows cols vs).0
          (created os id rows cols vs).1
  ems_create_lem h fresh = elim (Bool-cases os.wrlock) [
    | inr bad ↦
        let denied : os.wrlock && has_memory os ≡ false = rw bad in
        subst Spec (sym (if-false _ _ denied)) (m, no_lock bad, r)
    | inl lock ↦ elim (pointer_of-find (λ v. v.id) m.store.events id r.cells vs r.list.owns) [
      | inr (e, ne, at, old, _, _) ↦ subst Spec (sym (created_old e old)) (old_event lock h ne)
      | inl (missing, new) ↦ new_event-Spec lock h fresh missing new
    ]
  ]
