-- ===== src/Server/EventList/Find.antt =====
-- `get_event` of Part2/src/server/eventlist.c: the walk from `head` to `tail` and a search of the
-- events in order.
use so.Base.{
  ℕ, zero, suc, ◌<◌, ◌≡◌, List, [], ◌∷◌, refl, arith, ◌==◌, length, ==-false, ==-self, Bool-cases,
  inl, inr,
}
use so.Base.Nodes.{Ptr, null, ok, load_lem}
use so.Chain.{Cells, head_of, last_of, Linked}
use so.Chain.Link.{has-last, ne_of_has, last-ne_null}
use so.Chain.Owned.{Owns}
use so.Server.Store.{Event, RwLock, Store}
use so.Server.EventList.{get_event, search_from}
use so.Server.EventList.Shape.{IsList, pointer_of}

-- From the head of any cells, with more rounds than cells, the search ends at the first event
-- with the id, or with NULL at the last node.
search_from_lem :
    (fuel : ℕ) (s : Store) (id : ℕ) (c : Ptr × Ptr) (cs : Cells Ptr) (vs : List Event)
    → Linked s.nodes (c ∷ cs)
    → Owns s.events (c ∷ cs) vs
    → length cs < fuel
    → search_from fuel s id (head_of (c ∷ cs)) (last_of (c ∷ cs)) ≡ ok (pointer_of id (c ∷ cs) vs)
unfolding search_from
search_from_lem zero s id c cs vs l o h = absurd (omega arith)
search_from_lem (suc k) s id (a, e) cs [] l o h = absurd o
search_from_lem (suc k) s id (a, e) [] (v ∷ []) l o h =
    rw (load_lem s.nodes a _ l.1, load_lem s.events e _ o.1, ==-self a) (ground arith)
search_from_lem (suc k) s id (a, e) [] (v ∷ w ∷ vs) l o h = absurd o.3
search_from_lem (suc k) s id (a, e) ((b, f) ∷ cs) (v ∷ vs) l o h =
    let apart = ne_of_has a (last_of ((b, f) ∷ cs)) ((b, f) ∷ cs) l.2 (has-last (b, f) cs) in
    let rest = search_from_lem k s id (b, f) cs vs l.3 o.3 (omega arith) in
    rw (load_lem s.nodes a _ l.1, load_lem s.events e _ o.1, ==-false a _ apart, rest)
      (elim (Bool-cases (v.id == id)) [ inl hit ↦ rw hit refl | inr miss ↦ rw miss refl ])

-- On a well-formed list and with fuel for its cells, `get_event` from `head` to `tail` ends without
-- a fault and returns the pointer to the first event with the id, NULL if there is none.
pub get_event_lem :
    (fuel : ℕ) (s : Store) (p : Ptr) (k : RwLock) (id : ℕ) (cs : Cells Ptr) (vs : List Event)
    → IsList s p k cs vs
    → length cs < fuel
    → get_event fuel s p id (head_of cs) (last_of cs) ≡ ok (pointer_of id cs vs)
unfolding get_event
get_event_lem fuel s p k id [] vs is h = rw (==-false p null is.ne_null)
get_event_lem fuel s p k id ((a, e) ∷ cs) vs is h =
    let last = last-ne_null s.nodes (a, e) cs is.linked in
    rw (==-false p null is.ne_null, ==-false a null is.linked.0, ==-false _ null last)
      (search_from_lem fuel s id (a, e) cs vs is.linked is.owns (omega arith))
