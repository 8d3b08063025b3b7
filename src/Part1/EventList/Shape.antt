-- ===== src/Part1/EventList/Shape.antt =====
-- When a store of Part 1 holds an event list, and what its fields are then.
use so.Base.{ℕ, ◌≡◌, ◌≢◌, false, Option, some, List}
use so.Base.Nodes.{Ptr, null}
use so.Chain.{Cells, head_of, last_of, Linked}
use so.Chain.Owned.{has_item, Owns, Owns-write}
use so.Chain.Owned.Search
use so.Part1.Store.{Event, EventList, Store, put_event}

-- The list object of these cells.
abbrev pub header_of : Cells Ptr → EventList
header_of cs = record { head = head_of cs; tail = last_of cs }

-- The list object at `p` stands for the cells and the events.
pub record IsList (s : Store) (p : Ptr) (cs : Cells Ptr) (vs : List Event) : Type 0 where
  pub ne_null : p ≢ null
  pub header : s.lists p ≡ some (header_of cs)
  pub linked : Linked s.nodes cs
  pub owns : Owns s.events cs vs

-- The reference definition of the search: the first event with the id.
abbrev pub find : ℕ → List Event → Option Event
find = Search.find (λ v. v.id)

-- The address of that event.
abbrev pub pointer_of : ℕ → Cells Ptr → List Event → Ptr
pointer_of = Search.pointer_of (λ v. v.id)

-- Another event in place of that one.
abbrev pub replace : ℕ → Event → List Event → List Event
replace = Search.replace (λ v. v.id)

module _ (s : Store) (p : Ptr) (cs : Cells Ptr) (vs : List Event) where
  -- An event that is in no cell may be written or freed.
  pub IsList-put_event :
      (e : Ptr) (c : Option Event)
      → IsList s p cs vs
      → has_item e cs ≡ false
      → IsList (put_event s e c) p cs vs
  IsList-put_event e c is out = record {
    ne_null = is.ne_null;
    header = is.header;
    linked = is.linked;
    owns = Owns-write s.events e c cs vs is.owns out;
  }
