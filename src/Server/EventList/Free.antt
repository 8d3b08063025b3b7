-- ===== src/Server/EventList/Free.antt =====
-- `free_list` of Part2/src/server/eventlist.c on a well-formed list.
use so.Base.{ℕ, zero, suc, ◌<◌, ◌≡◌, none, List, [], ◌∷◌, refl, arith, ◌==◌, length, ==-false, ◌∙◌}
use so.Base.Nodes.{Ptr, null, ok, load_lem}
use so.Chain.Erase.{Without, write-none, erased}
use so.Chain.{Cells, head_of, has, Linked}
use so.Chain.Link.{Linked-write}
use so.Chain.Owned.{Owns, has_item, Owns-write}
use so.Server.Store.{Event, RwLock, Store, put_list, put_node, put_event}
use so.Server.EventList.{free_list, free_nodes, free_event}
use so.Server.EventList.Shape.{IsList}

free_nodes-Without :
    (fuel : ℕ) (s : Store) (cs : Cells Ptr) (vs : List Event)
    → Linked s.nodes cs
    → Owns s.events cs vs
    → length cs < fuel
    → (s' : Store) × (free_nodes fuel (head_of cs) s ≡ ok s')
      × (s'.lists ≡ s.lists)
      × Without (λ a. has a cs) s.nodes s'.nodes
      × Without (λ e. has_item e cs) s.events s'.events
unfolding free_nodes free_event
free_nodes-Without zero s cs vs l o h = absurd (omega arith)
free_nodes-Without (suc k) s [] vs l o h = (s, refl, refl, λ a. refl, λ e. refl)
free_nodes-Without (suc k) s ((a, e) ∷ cs) [] l o h = absurd o
free_nodes-Without (suc k) s ((a, e) ∷ cs) (v ∷ vs) l o h =
    let s₁ = put_node (put_event s e none) a none in
    let (s', done, lists, nodes, events) =
      free_nodes-Without k s₁ cs vs (Linked-write s.nodes a none cs l.3 l.2)
        (Owns-write s.events e none cs vs o.3 o.2) (omega arith) in
    (
      s',
      rw
          (
            ==-false a null l.0,
            load_lem s.nodes a _ l.1,
            ==-false e null o.0,
            load_lem s.events e _ o.1,
          )
          done,
      lists,
      λ b. nodes b ∙ erased s.nodes a b (has b cs),
      λ f. events f ∙ erased s.events e f (has_item f cs),
    )

-- On a well-formed list and with fuel for its cells, `free_list` ends without a fault, and exactly
-- the list object, its nodes and its events are freed.
pub free_list-Without :
    (fuel : ℕ) (s : Store) (p : Ptr) (k : RwLock) (cs : Cells Ptr) (vs : List Event)
    → IsList s p k cs vs
    → length cs < fuel
    → (s' : Store) × (free_list fuel p s ≡ ok s')
      × Without (λ a. a == p) s.lists s'.lists
      × Without (λ a. has a cs) s.nodes s'.nodes
      × Without (λ e. has_item e cs) s.events s'.events
unfolding free_list
free_list-Without fuel s p k cs vs is h =
    let (s', done, lists, nodes, events) = free_nodes-Without fuel s cs vs is.linked is.owns h in
    (
      put_list s' p none,
      rw (==-false p null is.ne_null, load_lem s.lists p _ is.header, done),
      λ a. rw lists (write-none s.lists p a),
      nodes,
      events,
    )
