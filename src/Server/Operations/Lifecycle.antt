-- ===== src/Server/Operations/Lifecycle.antt =====
-- `ems_init` and `ems_terminate` of Part2/src/server/operations.c.
use so.Base.{
  ℕ, ◌<◌, ◌≡◌, ◌≢◌, true, none, List, [], refl, arith, ◌==◌, if◌then◌else◌, length, ==-false,
  ==-self, ◌∙◌, sym, subst, if-true,
}
use so.Base.Nodes.{Ptr, null, fault, load-none}
use so.Chain.Owned.{length-Owns}
use so.Server.Store.{Event, RwLock, unlocked, wrlocked, Store, set_rwl}
use so.Server.EventList.{ListResources, create_list}
use so.Server.EventList.Append.{create_list-IsList}
use so.Server.EventList.Free.{free_list-Without}
use so.Server.EventList.Shape.{IsList}
use so.Server.Operations.{Ems, ems_init, ems_terminate}
use so.Server.Operations.State.{Repr, locked, lock-locked, locked-IsList}

first_init :
    (os : ListResources) (delay_us : ℕ) (m : Ems)
    → m.event_list ≡ null
    → ems_init os delay_us m ≡ (
      (if (create_list os m.store).0 == null then 1 else 0),
      record {
        event_list = (create_list os m.store).0;
        state_access_delay_us = delay_us;
        store = (create_list os m.store).1;
      },
    )
unfolding ems_init
first_init os delay_us m start = let e : (m.event_list == null) ≡ true = ground arith in rw e refl

-- From a state whose `event_list` is NULL, with memory and a lock, `ems_init` returns 0 and leaves
-- an initialised state of no events with the given delay.
pub ems_init-Repr :
    (os : ListResources) (delay_us : ℕ) (m : Ems)
    → m.event_list ≡ null
    → os.list ≢ null
    → os.rwlock_init ≡ true
    → ((ems_init os delay_us m).0 ≡ 0)
      × Repr (ems_init os delay_us m).1 []
      × ((ems_init os delay_us m).1.state_access_delay_us ≡ delay_us)
ems_init-Repr os delay_us m start ne init =
    let (at, is) = create_list-IsList os m.store ne init in
    let made : (create_list os m.store).0 ≢ null = λ e. ne (sym at ∙ e) in
    subst (λ r. (r.0 ≡ 0) × Repr r.1 [] × (r.1.state_access_delay_us ≡ delay_us))
      (sym (first_init os delay_us m start))
      (
        rw (==-false (create_list os m.store).0 null made) refl,
        record {
          cells = [];
          list = subst (λ p. IsList (create_list os m.store).1 p unlocked [] []) (sym at) is;
        },
        refl,
      )

-- A second call is refused and changes nothing.
pub ems_init_twice :
    (os : ListResources) (delay_us : ℕ) (m : Ems) (vs : List Event)
    → Repr m vs
    → ems_init os delay_us m ≡ (1, m)
unfolding ems_init
ems_init_twice os delay_us m vs r = rw (==-false m.event_list null r.list.ne_null) refl

set_rwl_freed : (k : RwLock) (p : Ptr) (s : Store) → s.lists p ≡ none → set_rwl k p s ≡ fault
unfolding set_rwl
set_rwl_freed k p s e = rw (load-none s.lists p e) refl

-- On every initialised state, with fuel for its events and the write lock granted, `ems_terminate`
-- ends in a fault: an access to freed memory.
pub ems_terminate-fault :
    (fuel : ℕ) (m : Ems) (vs : List Event)
    → Repr m vs
    → length vs < fuel
    → ems_terminate fuel true m ≡ fault
unfolding ems_terminate
ems_terminate-fault fuel m vs r h =
    let (s', freed, lists, _, _) =
      free_list-Without fuel (locked wrlocked m r.cells) m.event_list wrlocked r.cells vs
        (locked-IsList m vs r wrlocked) (omega (arith, length-Owns _ r.cells vs r.list.owns)) in
    let gone : s'.lists m.event_list ≡ none =
      lists m.event_list ∙ if-true _ _ (==-self m.event_list) in
    rw
      (
        ==-false m.event_list null r.list.ne_null,
        lock-locked m vs r wrlocked,
        freed,
        set_rwl_freed unlocked m.event_list s' gone,
      )
      refl
