-- ===== src/Part1/EventList/Find.antt =====
-- `get_event` of Part1/src/eventlist.c: the walk from `head` to NULL and a search of the events in
-- order.
use so.Base.{
  ℕ, zero, suc, ◌<◌, ◌≡◌, List, [], ◌∷◌, refl, arith, ◌==◌, length, ==-false, Bool-cases, inl, inr,
}
use so.Base.Nodes.{Ptr, null, ok, load_lem}
use so.Chain.{Cells, head_of, Linked}
use so.Chain.Owned.{Owns}
use so.Part1.Store.{Event, Store}
use so.Part1.EventList.{get_event, search}
use so.Part1.EventList.Shape.{IsList, pointer_of}

search_lem :
    (fuel : ℕ) (s : Store) (id : ℕ) (cs : Cells Ptr) (vs : List Event)
    → Linked s.nodes cs
    → Owns s.events cs vs
    → length cs < fuel
    → search fuel s id (head_of cs) ≡ ok (pointer_of id cs vs)
unfolding search
search_lem zero s id cs vs l o h = absurd (omega arith)
search_lem (suc k) s id [] vs l o h = refl
search_lem (suc k) s id ((a, e) ∷ cs) [] l o h = absurd o
search_lem (suc k) s id ((a, e) ∷ cs) (v ∷ vs) l o h =
    let rest = search_lem k s id cs vs l.3 o.3 (omega arith) in
    rw (==-false a null l.0, load_lem s.nodes a _ l.1, load_lem s.events e _ o.1, rest)
      (elim (Bool-cases (v.id == id)) [ inl hit ↦ rw hit refl | inr miss ↦ rw miss refl ])

-- On a well-formed list and with fuel for its cells, `get_event` ends without a fault and returns the
-- pointer to the first event with the id, NULL if there is none.
pub get_event_lem :
    (fuel : ℕ) (s : Store) (p : Ptr) (id : ℕ) (cs : Cells Ptr) (vs : List Event)
    → IsList s p cs vs
    → length cs < fuel
    → get_event fuel s p id ≡ ok (pointer_of id cs vs)
unfolding get_event
get_event_lem fuel s p id cs vs is h =
    rw (==-false p null is.ne_null, load_lem s.lists p _ is.header)
      (search_lem fuel s id cs vs is.linked is.owns h)
