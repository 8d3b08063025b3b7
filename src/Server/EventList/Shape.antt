-- ===== src/Server/EventList/Shape.antt =====
-- When a store holds an event list, and what its fields are then.
use so.Base.{ℕ, ◌≡◌, ◌≢◌, false, Option, some, List, refl, length}
use so.Base.Nodes.{Ptr, null, write_self, ok, load_lem}
use so.Chain.{Cells, head_of, last_of, Linked}
use so.Chain.Owned.{has_item, Owns, Owns-write}
use so.Chain.Owned.Search
use so.Server.Store.{Event, EventList, RwLock, Store, put_event, put_list, set_rwl}

-- The list object of these cells, with its lock in state `k`.
abbrev pub header_of : Cells Ptr → RwLock → EventList
header_of cs k = record { event_num = length cs; head = head_of cs; tail = last_of cs; rwl = k }

-- The list object at `p` stands for the cells and the events, and its lock is in state `k`.
pub record IsList (s : Store) (p : Ptr) (k : RwLock) (cs : Cells Ptr) (vs : List Event)
    : Type 0 where
  pub ne_null : p ≢ null
  pub header : s.lists p ≡ some (header_of cs k)
  pub linked : Linked s.nodes cs
  pub owns : Owns s.events cs vs

-- The reference definition of the search: the first event with the id.
abbrev pub find : ℕ → List Event → Option Event
find = Search.find (λ v. v.id)

-- The address of that event.
abbrev pub pointer_of : ℕ → Cells Ptr → List Event → Ptr
pointer_of = Search.pointer_of (λ v. v.id)

-- Another event in place of that one.
abbrev pub replace : ℕ → Event → List Event → List Event
replace = Search.replace (λ v. v.id)

module _ (s : Store) (p : Ptr) (k : RwLock) (cs : Cells Ptr) (vs : List Event) where
  -- An event that is in no cell may be written or freed.
  pub IsList-put_event :
      (e : Ptr) (c : Option Event)
      → IsList s p k cs vs
      → has_item e cs ≡ false
      → IsList (put_event s e c) p k cs vs
  IsList-put_event e c is out = record {
    ne_null = is.ne_null;
    header = is.header;
    linked = is.linked;
    owns = Owns-write s.events e c cs vs is.owns out;
  }

  -- A call on the list's lock changes the state of the lock, and nothing else.
  pub set_rwl_lem :
      (k' : RwLock)
      → IsList s p k cs vs
      → set_rwl k' p s ≡ ok (put_list s p (some (header_of cs k')))
  unfolding set_rwl
  set_rwl_lem k' is = rw (load_lem s.lists p _ is.header) refl

  pub IsList-set_rwl :
      (k' : RwLock) → IsList s p k cs vs → IsList (put_list s p (some (header_of cs k'))) p k' cs vs
  IsList-set_rwl k' is = record {
    ne_null = is.ne_null;
    header = write_self s.lists p _;
    linked = is.linked;
    owns = is.owns;
  }
