-- ===== src/Part1/EventList/Append.antt =====
-- `create_list` and `append_to_list` of Part1/src/eventlist.c on a well-formed list.
use so.Base.{◌≡◌, ◌≢◌, false, none, some, List, [], ◌∷◌, ◌++◌, refl, sym, ◌∙◌, ==-false}
use so.Base.Nodes.{Ptr, null, ok, load_lem, write_self, write_ne}
use so.Chain.{node, Cells, last_of}
use so.Chain.Link.{link-Linked, last-Linked, last-append, has-last, ne_of_has, has-false_of_none}
use so.Chain.Owned.{has_item, Owns-append}
use so.Part1.Store.{Event, EventList, Store, put_list, put_node}
use so.Part1.EventList.{create_list, append_to_list, set_next}
use so.Part1.EventList.Shape.{IsList, header_of}

-- With memory, `create_list` returns an empty list.
pub create_list-IsList :
    (list : Ptr) (s : Store)
    → list ≢ null
    → ((create_list list s).0 ≡ list) × IsList (create_list list s).1 list [] []
unfolding create_list
create_list-IsList list s ne =
    rw (==-false list null ne)
      (refl, record { ne_null = ne; header = write_self s.lists list _; linked = tt; owns = tt })

module _ (s : Store) (p : Ptr) (vs : List Event) (new e : Ptr) (v : Event) where
  abbrev pub Appended : Cells Ptr → Type 0
  Appended cs =
      (s' : Store) × (append_to_list new p e s ≡ ok (0, s'))
      × IsList s' p (cs ++ (new, e) ∷ []) (vs ++ v ∷ [])
      × (s'.events ≡ s.events)

  -- On a well-formed list of which no cell holds the event, `append_to_list` with memory for a node
  -- succeeds: the new cell stands at the end, `tail` points to it, and no event has changed.
  pub append_to_list-IsList :
      (cs : Cells Ptr)
      → IsList s p cs vs
      → new ≢ null
      → s.nodes new ≡ none
      → e ≢ null
      → s.events e ≡ some v
      → has_item e cs ≡ false
      → Appended cs
  unfolding append_to_list set_next
  append_to_list-IsList [] is ne unused ene at out =
      let one : EventList = record { head = new; tail = new } in
      let s₁ = put_node s new (some (node e null)) in
      (
        put_list s₁ p (some one),
        rw (==-false p null is.ne_null, ==-false new null ne, load_lem s.lists p _ is.header) refl,
        record {
          ne_null = is.ne_null;
          header = write_self s.lists p _;
          linked = (ne, write_self s.nodes new _, refl, tt);
          owns = Owns-append s.events [] vs new e v is.owns ene at out;
        },
        refl,
      )
  append_to_list-IsList ((a, x) ∷ cs) is ne unused ene at out =
      let (y, last) = last-Linked s.nodes (a, x) cs is.linked in
      let fresh = has-false_of_none s.nodes new ((a, x) ∷ cs) is.linked unused in
      let old : EventList = header_of ((a, x) ∷ cs) in
      let more : EventList = record old { tail = new } in
      let s₁ = put_node s new (some (node e null)) in
      let s₂ = put_node s₁ (last_of ((a, x) ∷ cs)) (some (node y new)) in
      let apart = ne_of_has new (last_of ((a, x) ∷ cs)) ((a, x) ∷ cs) fresh (has-last (a, x) cs) in
      let at_last = write_ne s.nodes new (some (node e null)) _ (λ q. apart (sym q)) ∙ last in
      let end = sym (last-append ((a, x) ∷ cs) new e) in
      let extended : some more
          ≡ some (record old { tail = last_of (((a, x) ∷ cs) ++ (new, e) ∷ []) }) =
        λ i. some (record old { tail = end i }) in
      (
        put_list s₂ p (some more),
        rw
            (
              ==-false p null is.ne_null,
              ==-false new null ne,
              load_lem s.lists p _ is.header,
              ==-false a null is.linked.0,
              load_lem s₁.nodes (last_of ((a, x) ∷ cs)) _ at_last,
            )
            refl,
        record {
          ne_null = is.ne_null;
          header = write_self s.lists p _ ∙ extended;
          linked = link-Linked s.nodes (a, x) cs new e y is.linked ne fresh last;
          owns = Owns-append s.events ((a, x) ∷ cs) vs new e v is.owns ene at out;
        },
        refl,
      )
