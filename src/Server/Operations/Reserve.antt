-- ===== src/Server/Operations/Reserve.antt =====
-- `ems_reserve` against the abstract RESERVE: the event that the search finds is changed through its
-- pointer, under its mutex, after the list is unlocked.
use so.Base.{
  ℕ, ◌≤◌, ◌<◌, ◌≡◌, ◌≢◌, true, false, ◌&&◌, none, some, List, refl, sym, ap, arith, ◌==◌,
  if◌then◌else◌, length, ==-false, Bool-cases, inl, inr, subst, ◌∙◌, if-true, if-false,
}
use so.Base.Nodes.{Ptr, null, Run, ok, ◌>>=◌, load_lem}
use so.Chain.Owned.Search.{pointer_of-find, Owns-replace}
use so.Server.Store.{Event, unlocked, rdlocked, Store, put_event}
use so.Server.EventList.Shape.{IsList, find, replace, pointer_of}
use so.Server.Seats.Request.{Coords, request}
use so.Server.Seats.Outcome.{reservation}
use so.Server.Database.{reserve, reserve-missing, reserve-found, IsSound}
use so.Server.Database.Sound.{find-IsSound}
use so.Server.Operations.{Ems, ReserveResources, reserve_event, ems_reserve}
use so.Server.Operations.State.{
  Repr, lock-locked, load-locked, get_event_with_delay_lem, Leaves, back, Ends, back-Ends, released,
  released-IsList, unlock-locked,
}
use so.Server.Operations.Locked.{reserve_event_lem}

-- The command, which fails when a lock is refused.
abbrev pub reserved_in : ReserveResources → ℕ → Coords → List Event → ℕ × List Event
reserved_in os id ps vs = if os.rdlock && os.mutex_lock then reserve id ps vs else (1, vs)

module _ (fuel : ℕ) (os : ReserveResources) (id n : ℕ) (xs ys : List ℕ) (m : Ems) (vs : List Event)
    (r : Repr m vs) where
  abbrev p : Ptr
  p = m.event_list

  -- The store after the search.
  abbrev s : Store
  s = released m vs r rdlocked

  s-IsList : IsList s p unlocked r.cells vs
  s-IsList = released-IsList m vs r rdlocked

  abbrev searched : Ptr → Run (ℕ × Store)
  searched event = if event == null then ok (1, s) else reserve_event os.mutex_lock event n xs ys s

  ems_reserve-searched :
      os.rdlock ≡ true
      → length vs < fuel
      → ems_reserve fuel os id n xs ys m ≡ (searched (pointer_of id r.cells vs) >>= back m)
  unfolding ems_reserve
  ems_reserve-searched lock h =
      rw
        (
          ==-false p null r.list.ne_null,
          lock,
          lock-locked m vs r rdlocked,
          load_lem _ p _ (load-locked m vs r rdlocked),
          get_event_with_delay_lem m vs r fuel id rdlocked h,
          unlock-locked m vs r rdlocked,
        )
        refl

  no_lock : os.rdlock ≡ false → ems_reserve fuel os id n xs ys m ≡ ok (1, m)
  unfolding ems_reserve
  no_lock h = rw (==-false p null r.list.ne_null, h) refl

  no_mutex : (q : Ptr) → os.mutex_lock ≡ false → reserve_event os.mutex_lock q n xs ys s ≡ ok (1, s)
  unfolding reserve_event
  no_mutex q h = rw h refl

  abbrev Spec : ℕ × List Event → Type 0
  Spec r = Ends m (ems_reserve fuel os id n xs ys m) r.0 r.1

  module _ (lock : os.rdlock ≡ true) (h : length vs < fuel) where
    from_search :
        (run : Run (ℕ × Store)) (code : ℕ) (vs' : List Event)
        → searched (pointer_of id r.cells vs) ≡ run
        → Leaves p run code vs'
        → Spec (code, vs')
    from_search run code vs' way leaves =
        let (m', done, repr) = back-Ends m run code vs' leaves in
        (m', ems_reserve-searched lock h ∙ ap (λ t. t >>= back m) way ∙ done, repr)

    unchanged : Leaves p (ok (1, s)) 1 vs
    unchanged = (s, refl, r.cells, s-IsList)

    missing-Spec : pointer_of id r.cells vs ≡ null → Spec (1, vs)
    missing-Spec missing =
        let nowhere : (pointer_of id r.cells vs == null) ≡ true = ground arith in
        from_search _ 1 vs (if-true _ _ nowhere) unchanged

    module _ (e : Event) (ne : pointer_of id r.cells vs ≢ null) where
      there : (pointer_of id r.cells vs == null) ≡ false
      there = ground arith

      refused-Spec : os.mutex_lock ≡ false → Spec (1, vs)
      refused-Spec bad = from_search _ 1 vs (if-false _ _ there ∙ no_mutex _ bad) unchanged

      found-Spec :
          os.mutex_lock ≡ true
          → m.store.events (pointer_of id r.cells vs) ≡ some e
          → find id vs ≡ some e
          → IsSound vs
          → n ≤ length xs
          → n ≤ length ys
          → Spec (reserve id (request n xs ys) vs)
      found-Spec mutex at found sound hx hy =
          let (room, free, _) = find-IsSound id vs e sound found in
          let result = reservation e (request n xs ys) in
          let body = reserve_event_lem s (pointer_of id r.cells vs) e n xs ys at free room hx hy in
          let owns = Owns-replace (λ v. v.id) s.events id result.1 r.cells vs s-IsList.owns ne in
          let is : IsList (put_event s (pointer_of id r.cells vs) (some result.1)) p unlocked
              r.cells (replace id result.1 vs) =
            record {
              ne_null = r.list.ne_null;
              header = s-IsList.header;
              linked = s-IsList.linked;
              owns = owns;
            } in
          subst Spec (sym (reserve-found id (request n xs ys) vs e found)) (
            from_search _ result.0 (replace id result.1 vs)
              (if-false _ _ there
                ∙ ap (λ b. reserve_event b (pointer_of id r.cells vs) n xs ys s) mutex
                ∙ body)
              (_, refl, r.cells, is))

  reserved_missing : find id vs ≡ none → reserved_in os id (request n xs ys) vs ≡ (1, vs)
  reserved_missing gone = elim (Bool-cases (os.rdlock && os.mutex_lock)) [
    | inl granted ↦ if-true _ _ granted ∙ reserve-missing id (request n xs ys) vs gone
    | inr refused ↦ if-false _ _ refused
  ]

  denied :
      os.rdlock && os.mutex_lock ≡ false
      → Spec (1, vs)
      → Spec (reserved_in os id (request n xs ys) vs)
  denied e = subst Spec (sym (if-false _ _ e))

  -- On an initialised state that stands for a sound database `vs`, with fuel for all events and
  -- arrays of at least `num_seats` coordinates, `ems_reserve` ends without a fault. With both locks
  -- it returns the code of the abstract RESERVE and leaves a state that stands for its database;
  -- otherwise it returns 1 and leaves one that stands for `vs`. The list is unlocked.
  pub ems_reserve_lem :
      length vs < fuel
      → IsSound vs
      → n ≤ length xs
      → n ≤ length ys
      → Ends m
          (ems_reserve fuel os id n xs ys m)
          (reserved_in os id (request n xs ys) vs).0
          (reserved_in os id (request n xs ys) vs).1
  ems_reserve_lem h sound hx hy = elim (Bool-cases os.rdlock) [
    | inr bad ↦ denied (rw bad) (m, no_lock bad, r)
    | inl lock ↦ elim (pointer_of-find (λ v. v.id) m.store.events id r.cells vs r.list.owns) [
      | inl (missing, gone) ↦ subst Spec (sym (reserved_missing gone)) (missing-Spec lock h missing)
      | inr (e, ne, at, found, _, _) ↦ elim (Bool-cases os.mutex_lock) [
        | inr bad ↦ denied (rw (lock, bad)) (refused-Spec lock h e ne bad)
        | inl mutex ↦
            let granted : os.rdlock && os.mutex_lock ≡ true = rw (lock, mutex) in
            subst Spec (sym (if-true _ _ granted))
              (found-Spec lock h e ne mutex at found sound hx hy)
      ]
    ]
  ]
