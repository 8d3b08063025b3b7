-- ===== src/Server/Operations/State.antt =====
-- When the server's state stands for a database, and what its searches then find.
use so.Base.{ℕ, ◌<◌, ◌≡◌, some, List, arith, length, ap}
use so.Base.Nodes.{Ptr, Run, ok, ◌>>=◌}
use so.Chain.{Cells, head_of, last_of}
use so.Chain.Owned.{length-Owns}
use so.Server.Store.{Event, RwLock, unlocked, Store, put_list, set_rwl}
use so.Server.EventList.Shape.{IsList, header_of, pointer_of, set_rwl_lem, IsList-set_rwl}
use so.Server.EventList.Find.{get_event_lem}
use so.Server.Operations.{Ems, put_store, get_event_with_delay}

-- The initialised state stands for the events `vs`, and nobody holds the lock of the list.
pub record Repr (m : Ems) (vs : List Event) : Type 0 where
  pub cells : Cells Ptr
  pub list : IsList m.store m.event_list unlocked cells vs

-- The store while the list's lock is in state `k`.
abbrev pub locked : RwLock → (m : Ems) → Cells Ptr → Store
locked k m cs = put_list m.store m.event_list (some (header_of cs k))

module _ (m : Ems) (vs : List Event) (r : Repr m vs) where
  pub lock-locked : (k : RwLock) → set_rwl k m.event_list m.store ≡ ok (locked k m r.cells)
  lock-locked k = set_rwl_lem m.store m.event_list unlocked r.cells vs k r.list

  pub locked-IsList : (k : RwLock) → IsList (locked k m r.cells) m.event_list k r.cells vs
  locked-IsList k = IsList-set_rwl m.store m.event_list unlocked r.cells vs k r.list

  pub load-locked :
      (k : RwLock) → (locked k m r.cells).lists m.event_list ≡ some (header_of r.cells k)
  load-locked k = (locked-IsList k).header

  -- The store when the lock that was taken as `k` is free again.
  abbrev pub released : RwLock → Store
  released k = put_list (locked k m r.cells) m.event_list (some (header_of r.cells unlocked))

  pub unlock-locked :
      (k : RwLock) → set_rwl unlocked m.event_list (locked k m r.cells) ≡ ok (released k)
  unlock-locked k =
      set_rwl_lem (locked k m r.cells) m.event_list k r.cells vs unlocked (locked-IsList k)

  pub released-IsList : (k : RwLock) → IsList (released k) m.event_list unlocked r.cells vs
  released-IsList k =
      IsList-set_rwl (locked k m r.cells) m.event_list k r.cells vs unlocked (locked-IsList k)

  -- The search under the lock finds the event with the id, if fuel allows for all events.
  pub get_event_with_delay_lem :
      (fuel id : ℕ) (k : RwLock)
      → length vs < fuel
      → get_event_with_delay fuel id
          (head_of r.cells)
          (last_of r.cells)
          (put_store m (locked k m r.cells))
        ≡ ok (pointer_of id r.cells vs)
  unfolding get_event_with_delay
  get_event_with_delay_lem fuel id k h =
      get_event_lem fuel (locked k m r.cells) m.event_list k id r.cells vs (locked-IsList k)
        (omega (arith, length-Owns m.store.events r.cells vs r.list.owns))

-- A run that returns `code` and leaves a list of the events `vs` whose lock is free.
abbrev pub Leaves : Ptr → Run (ℕ × Store) → ℕ → List Event → Type 0
Leaves p run code vs =
    (s' : Store) × (run ≡ ok (code, s')) × (cs : Cells Ptr) × IsList s' p unlocked cs vs

abbrev pub back : Ems → ℕ × Store → Run (ℕ × Ems)
back m (code, s) = ok (code, put_store m s)

-- The state and the code that a run under the lock ends with.
abbrev pub Ends : Ems → Run (ℕ × Ems) → ℕ → List Event → Type 0
Ends m run code vs = (m' : Ems) × (run ≡ ok (code, m')) × Repr m' vs

pub back-Ends :
    (m : Ems) (run : Run (ℕ × Store)) (code : ℕ) (vs : List Event)
    → Leaves m.event_list run code vs
    → Ends m (run >>= back m) code vs
back-Ends m run code vs (s', done, cs, is) =
    (put_store m s', ap (λ r. r >>= back m) done, record { cells = cs; list = is })
