-- ===== src/Part1/Operations/Insert.antt =====
-- The second part of `ems_create` of Part 1: the new event, for all answers of `malloc`.
use so.Base.{
  ℕ, ◌*◌, ◌%◌, ◌<◌, ◌≡◌, ◌≢◌, true, false, Option, none, some, List, [], ◌∷◌, ◌++◌, refl, sym,
  arith, ap, ◌∙◌, ◌==◌, if◌then◌else◌, length, replicate, size_mod, ==-false, Bool-cases, inl, inr,
  Option-cases, subst, if-true, if-false,
}
use so.Base.Nodes.{Ptr, null, Run, ok, write_self, write_ne}
use so.Base.Locks.{unlocked}
use so.Chain.Owned.{has_item, has_item-false_of_none}
use so.Part1.Store.{Event, Store, put_event}
use so.Part1.EventList.{append_to_list}
use so.Part1.EventList.Shape.{IsList, IsList-put_event}
use so.Part1.EventList.Append.{append_to_list-IsList}
use so.Part1.Database.{new_event}
use so.Part1.Operations.{Ems, CreateResources, clear, append_event, insert_new, put_store}
use so.Part1.Operations.State.{Repr}
use so.Part1.Operations.Memory.{IsFresh, has_memory, Grown, clear_lem}

module _ (os : CreateResources) (m : Ems) (vs : List Event) (r : Repr m vs)
    (fresh : IsFresh os m.store) (id rows cols : ℕ) where
  abbrev p : Ptr
  p = m.event_list

  module _ (ne : os.event ≢ null) where
    out_of_cells : has_item os.event r.cells ≡ false
    out_of_cells =
        has_item-false_of_none m.store.events os.event r.cells vs r.list.owns (fresh.event ne)

    apart : (q : Ptr) (v : Event) → m.store.events q ≡ some v → q ≢ os.event
    apart q v at same =
        let here : m.store.events os.event ≡ some v =
          subst (λ a. m.store.events a ≡ some v) same at in
        let clash = sym (fresh.event ne) ∙ here in cc

    -- The new event is freed again.
    dropped :
        (c : Option Event)
        → IsList (put_event (put_event m.store os.event c) os.event none) p r.cells vs
    dropped c =
        IsList-put_event (put_event m.store os.event c) p r.cells vs os.event none
          (IsList-put_event m.store p r.cells vs os.event c r.list out_of_cells) out_of_cells

    abbrev new : Event
    new = new_event id rows cols

    abbrev made : Store
    made = put_event m.store os.event (some new)

    made-IsList : IsList made p r.cells vs
    made-IsList = IsList-put_event m.store p r.cells vs os.event (some new) r.list out_of_cells

    kept :
        (c : Option Event) (q : Ptr) (v : Event)
        → m.store.events q ≡ some v
        → (put_event m.store os.event c).events q ≡ some v
    kept c q v at = write_ne m.store.events os.event c q (apart q v at) ∙ at

    appended : os.node ≢ null → Grown m (append_event os (put_store m made)) 0 (vs ++ new ∷ [])
    unfolding append_event
    appended nn =
        let (s, run, is, same) =
          append_to_list-IsList made p vs os.node os.event new r.cells made-IsList nn
            (fresh.node nn) ne (write_self m.store.events os.event (some new)) out_of_cells in
        (
          record m { store = s; locks = record m.locks { event_list = unlocked } },
          rw run refl,
          record {
            cells = r.cells ++ (os.node, os.event) ∷ [];
            list = is;
            free = λ i. record (r.free i) { event_list = unlocked };
          },
          λ q v at. ap (λ g. g q) same ∙ kept (some new) q v at,
        )

    no_node : (os.node == null) ≡ true → append_to_list os.node p os.event made ≡ ok (1, made)
    unfolding append_to_list
    no_node bad = rw (==-false p null r.list.ne_null, bad) refl

    not_appended : (os.node == null) ≡ true → Grown m (append_event os (put_store m made)) 1 vs
    unfolding append_event
    not_appended bad = (
      record m {
        store = put_event made os.event none;
        locks = record m.locks { event_list = unlocked };
      },
      rw (no_node bad) refl,
      record {
        cells = r.cells;
        list = dropped (some new);
        free = λ i. record (r.free i) { event_list = unlocked };
      },
      λ q v at. write_ne made.events os.event none q (apart q v at) ∙ kept (some new) q v at,
    )

  module _ (small : rows * cols * 4 < size_mod) where
    bytes : ((rows * cols) % size_mod * 4) % size_mod ≡ rows * cols * 4
    bytes = omega (arith)

    cleared :
        (ws : List ℕ)
        → os.block (rows * cols * 4) ≡ some ws
        → clear ((rows * cols) % size_mod) 0 ws ≡ ok (replicate (rows * cols) 0)
    cleared ws at =
        let size = fresh.sized (rows * cols * 4) ws at in
        let all : length ws ≡ rows * cols = omega arith in
        let same : (rows * cols) % size_mod ≡ length ws = omega arith in
        ap (λ n. clear n 0 ws) same ∙ clear_lem ws [] 0 refl ∙ ap (λ n. ok (replicate n 0)) all

    -- The ways through `insert_new`.
    no_event : (os.event == null) ≡ true → insert_new os id rows cols m ≡ ok (1, m)
    unfolding insert_new
    no_event bad = rw bad refl

    no_block :
        (os.event == null) ≡ false
        → os.block (rows * cols * 4) ≡ none
        → insert_new os id rows cols m ≡ ok (1, put_store m (put_event m.store os.event none))
    unfolding insert_new
    no_block good bad = rw (good, bytes, bad) refl

    a_block :
        (ne : os.event ≢ null) (ws : List ℕ)
        → os.block (rows * cols * 4) ≡ some ws
        → insert_new os id rows cols m ≡ append_event os (put_store m (made ne))
    unfolding insert_new
    a_block ne ws at = rw (==-false os.event null ne, bytes, at, cleared ws at) refl

    by_way :
        {run : Run (ℕ × Ems)} {code : ℕ} {vs' : List Event}
        → insert_new os id rows cols m ≡ run
        → Grown m run code vs'
        → Grown m (insert_new os id rows cols m) code vs'
    by_way way (m', done, repr, kept) = (m', way ∙ done, repr, kept)

    -- The result with and without memory.
    abbrev pub inserted : ℕ × List Event
    inserted =
        if has_memory os (rows * cols) then (0, vs ++ new_event id rows cols ∷ []) else (1, vs)

    abbrev Spec : ℕ × List Event → Type 0
    Spec r = Grown m (insert_new os id rows cols m) r.0 r.1

    refused : has_memory os (rows * cols) ≡ false → Spec (1, vs) → Spec inserted
    refused bad = subst Spec (sym (if-false _ _ bad))

    with_block :
        (ne : os.event ≢ null) (ws : List ℕ) → os.block (rows * cols * 4) ≡ some ws → Spec inserted
    with_block ne ws at = elim (Bool-cases (os.node == null)) [
      | inl bad ↦
          refused (rw (at, bad) (ground arith)) (by_way (a_block ne ws at) (not_appended ne bad))
      | inr good ↦
          let all : has_memory os (rows * cols) ≡ true =
            rw (at, good, ==-false os.event null ne) refl in
          subst Spec (sym (if-true _ _ all))
            (by_way (a_block ne ws at) (appended ne (ground arith)))
    ]

    -- On a state that stands for the events `vs`, with lawful answers of `malloc` and seats whose
    -- bytes a size_t counts, the second part of `ems_create` ends without a fault: with memory it
    -- returns 0 and the new event stands at the end, otherwise it returns 1 and nothing is left
    -- behind. No lock is held, and no event that was allocated has changed.
    pub insert_new_lem : Spec inserted
    insert_new_lem = elim (Bool-cases (os.event == null)) [
      | inl bad ↦ refused (rw bad refl) (m, no_event bad, r, λ q v at. at)
      | inr good ↦
          let ne : os.event ≢ null = ground arith in
          elim (Option-cases (os.block (rows * cols * 4))) [
            | inl bad ↦
                let is =
                  IsList-put_event m.store p r.cells vs os.event none r.list (out_of_cells ne) in
                refused (rw (good, bad) refl) (
                  put_store m (put_event m.store os.event none),
                  no_block good bad,
                  record { cells = r.cells; list = is; free = r.free },
                  kept ne none,
                )
            | inr (ws, at) ↦ with_block ne ws at
          ]
    ]
