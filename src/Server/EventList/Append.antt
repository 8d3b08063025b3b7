-- ===== src/Server/EventList/Append.antt =====
-- `create_list` and `append_to_list` of Part2/src/server/eventlist.c on a well-formed list.
use so.Base.{
  suc, ◌+◌, ◌≡◌, ◌≢◌, true, false, none, some, List, [], ◌∷◌, ◌++◌, refl, sym, arith, length,
  length-append, ◌∙◌, ==-false,
}
use so.Base.Nodes.{Ptr, null, ok, load_lem, write_self, write_ne}
use so.Chain.{node, Cells, last_of}
use so.Chain.Link.{link-Linked, last-Linked, last-append, has-last, ne_of_has, has-false_of_none}
use so.Chain.Owned.{has_item, Owns-append}
use so.Server.Store.{Event, EventList, RwLock, unlocked, Store, put_list, put_node}
use so.Server.EventList.{ListResources, create_list, append_to_list, set_next}
use so.Server.EventList.Shape.{IsList}

-- `create_list` fails, or returns an empty list whose lock is free.
pub create_list-IsList :
    (os : ListResources) (s : Store)
    → os.list ≢ null
    → os.rwlock_init ≡ true
    → ((create_list os s).0 ≡ os.list) × IsList (create_list os s).1 os.list unlocked [] []
unfolding create_list
create_list-IsList os s ne init =
    rw (==-false os.list null ne, init)
      (refl, record { ne_null = ne; header = write_self s.lists os.list _; linked = tt; owns = tt })

module _ (s : Store) (p : Ptr) (k : RwLock) (vs : List Event) (new e : Ptr) (v : Event) where
  abbrev pub Appended : Cells Ptr → Type 0
  Appended cs =
      (s' : Store) × (append_to_list new p e s ≡ ok (0, s'))
      × IsList s' p k (cs ++ (new, e) ∷ []) (vs ++ v ∷ [])
      × (s'.events ≡ s.events)

  -- On a list with `event_num` events, of which none is `e`, `append_to_list` with memory for a node
  -- succeeds: the new cell stands at the end, `tail` points to it, the count is one more, and no
  -- event has changed.
  pub append_to_list-IsList :
      (cs : Cells Ptr)
      → IsList s p k cs vs
      → new ≢ null
      → s.nodes new ≡ none
      → e ≢ null
      → s.events e ≡ some v
      → has_item e cs ≡ false
      → Appended cs
  unfolding append_to_list set_next
  append_to_list-IsList [] is ne unused ene at out =
      let one : EventList = record { event_num = 1; head = new; tail = new; rwl = k } in
      let s₁ = put_node s new (some (node e null)) in
      (
        put_list s₁ p (some one),
        rw (==-false p null is.ne_null, ==-false new null ne, load_lem s.lists p _ is.header) refl,
        record {
          ne_null = is.ne_null;
          header = write_self s.lists p _;
          linked = (ne, write_self s.nodes new _, refl, tt);
          owns = Owns-append s.events [] vs new e v is.owns ene at out;
        },
        refl,
      )
  append_to_list-IsList ((a, x) ∷ cs) is ne unused ene at out =
      let (y, last) = last-Linked s.nodes (a, x) cs is.linked in
      let fresh = has-false_of_none s.nodes new ((a, x) ∷ cs) is.linked unused in
      let old : EventList = record {
        event_num = suc (length cs);
        head = a;
        tail = last_of ((a, x) ∷ cs);
        rwl = k;
      } in
      let more : EventList = record old { tail = new; event_num = old.event_num + 1 } in
      let s₁ = put_node s new (some (node e null)) in
      let s₂ = put_node s₁ (last_of ((a, x) ∷ cs)) (some (node y new)) in
      let apart = ne_of_has new (last_of ((a, x) ∷ cs)) ((a, x) ∷ cs) fresh (has-last (a, x) cs) in
      let at_last = write_ne s.nodes new (some (node e null)) _ (λ q. apart (sym q)) ∙ last in
      let num = length-append ((a, x) ∷ cs) ((new, e) ∷ []) in
      let sum : old.event_num + 1 ≡ length (((a, x) ∷ cs) ++ (new, e) ∷ []) = omega (arith, num) in
      let end = sym (last-append ((a, x) ∷ cs) new e) in
      let counted : some more
          ≡ some (record old {
            event_num = length (((a, x) ∷ cs) ++ (new, e) ∷ []);
            tail = last_of (((a, x) ∷ cs) ++ (new, e) ∷ []);
          }) =
        λ i. some (record old { event_num = sum i; tail = end i }) in
      (
        put_list s₂ p (some more),
        rw
            (
              ==-false p null is.ne_null,
              ==-false new null ne,
              load_lem s.lists p _ is.header,
              ==-false a null is.linked.0,
              load_lem s₁.nodes (last_of ((a, x) ∷ cs)) _ at_last,
            )
            refl,
        record {
          ne_null = is.ne_null;
          header = write_self s.lists p _ ∙ counted;
          linked = link-Linked s.nodes (a, x) cs new e y is.linked ne fresh last;
          owns = Owns-append s.events ((a, x) ∷ cs) vs new e v is.owns ene at out;
        },
        refl,
      )
