-- ===== src/Server/Output/Events.antt =====
-- `ems_list_events` of Part2/src/server/operations.c on a pipe that works, against the abstract
-- LIST.
use so.Base.{
  ℕ, zero, suc, ◌<◌, ◌≡◌, Bool, true, false, List, [], ◌∷◌, ◌++◌, refl, sym, ap, ◌∙◌, arith, ◌==◌,
  length, ==-false, ==-self,
}
use mathlib.Core.List.{append-nil, append_assoc}
use so.Base.Nodes.{Ptr, null, ok, load_lem}
use so.Chain.{Cells, last_of, Linked}
use so.Chain.Link.{has-last, ne_of_has}
use so.Common.Bytes.{encode, encode_all, encode_all-nil, encode_all-cons}
use so.Common.Kernel.{Writer}
use so.Common.Io.Whole.{IsSink, safe_write_whole}
use so.Chain.Owned.{Owns, length-Owns}
use so.Server.Store.{Event, rdlocked, Store}
use so.Server.EventList.Shape.{IsList}
use so.Server.Operations.{Ems, put_store}
use so.Server.Operations.State.{
  Repr, locked, lock-locked, locked-IsList, released, released-IsList, unlock-locked,
}
use so.Server.Output.{list_from, list_locked, ems_list_events}
use so.Server.Output.Show.{Sends}

abbrev pub ids : List Event → List ℕ
ids [] = []
ids (v ∷ vs) = v.id ∷ ids vs

-- The code, and what is sent: the number of the events and their ids, in the order of creation.
abbrev pub listed : (rdlock : Bool) → List Event → ℕ × List ℕ
listed false vs = (1, [])
listed true vs = (0, encode 8 (length vs) ++ encode_all 4 (ids vs))

one_id : (v : Event) → encode_all 4 (ids (v ∷ [])) ≡ encode 4 v.id
one_id v =
    encode_all-cons 4 v.id []
    ∙ ap (λ l. encode 4 v.id ++ l) (encode_all-nil 4)
    ∙ append-nil (encode 4 v.id)

module _ (w : Writer) (sink : IsSink w) where
  list_from_lem :
      (fuel : ℕ) (s : Store) (a e : Ptr) (cs : Cells Ptr) (v : Event) (vs : List Event) (fd : w.Fd)
      → Linked s.nodes ((a, e) ∷ cs)
      → Owns s.events ((a, e) ∷ cs) (v ∷ vs)
      → length cs < fuel
      → (fd' : w.Fd) × (list_from w fuel s a (last_of ((a, e) ∷ cs)) fd ≡ ok (true, fd'))
        × (sink.lawful.sent fd' ≡ sink.lawful.sent fd ++ encode_all 4 (ids (v ∷ vs)))
  unfolding list_from
  list_from_lem zero s a e cs v vs fd l o h = absurd (omega arith)
  list_from_lem (suc f) s a e [] v [] fd l o h =
      let (fd₁, run, sent) = safe_write_whole w sink (encode 4 v.id) fd in
      (
        fd₁,
        rw (load_lem s.nodes a _ l.1, load_lem s.events e _ o.1, run, ==-self a) refl,
        sent ∙ ap (λ x. sink.lawful.sent fd ++ x) (sym (one_id v)),
      )
  list_from_lem (suc f) s a e [] v (u ∷ vs) fd l o h = absurd o.3
  list_from_lem (suc f) s a e ((b, g) ∷ cs) v [] fd l o h = absurd o.3
  list_from_lem (suc f) s a e ((b, g) ∷ cs) v (u ∷ vs) fd l o h =
      let apart = ne_of_has a (last_of ((b, g) ∷ cs)) ((b, g) ∷ cs) l.2 (has-last (b, g) cs) in
      let (fd₁, run₁, sent₁) = safe_write_whole w sink (encode 4 v.id) fd in
      let (fd', run, sent) = list_from_lem f s b g cs u vs fd₁ l.3 o.3 (omega arith) in
      (
        fd',
        rw (load_lem s.nodes a _ l.1, load_lem s.events e _ o.1, run₁, ==-false a _ apart) run,
        sent
            ∙ ap (λ x. x ++ encode_all 4 (ids (u ∷ vs))) sent₁
            ∙ append_assoc (sink.lawful.sent fd) (encode 4 v.id) (encode_all 4 (ids (u ∷ vs)))
            ∙ ap (λ x. sink.lawful.sent fd ++ x) (sym (encode_all-cons 4 v.id (ids (u ∷ vs)))),
      )

  list_locked_lem :
      (fuel : ℕ) (s : Store) (p : Ptr) (cs : Cells Ptr) (vs : List Event) (fd : w.Fd)
      → IsList s p rdlocked cs vs
      → length vs < fuel
      → (fd' : w.Fd) × (list_locked w fuel p fd s ≡ ok (0, fd'))
        × (sink.lawful.sent fd' ≡ sink.lawful.sent fd ++ (listed true vs).1)
  unfolding list_locked
  list_locked_lem fuel s p [] [] fd is h =
      let (fd₁, run, sent) = safe_write_whole w sink (encode 8 0) fd in
      (
        fd₁,
        rw (load_lem s.lists p _ is.header, run) refl,
        sent
            ∙ ap (λ x. sink.lawful.sent fd ++ x)
                (sym (ap (λ l. encode 8 0 ++ l) (encode_all-nil 4) ∙ append-nil (encode 8 0))),
      )
  list_locked_lem fuel s p [] (v ∷ vs) fd is h = absurd is.owns
  list_locked_lem fuel s p (c ∷ cs) [] fd is h = absurd is.owns
  list_locked_lem fuel s p ((a, e) ∷ cs) (v ∷ vs) fd is h =
      let count = length-Owns s.events ((a, e) ∷ cs) (v ∷ vs) is.owns in
      let num = encode 8 (length ((a, e) ∷ cs)) in
      let (fd₁, run₁, sent₁) = safe_write_whole w sink num fd in
      let (fd', run, sent) =
        list_from_lem fuel s a e cs v vs fd₁ is.linked is.owns (omega (arith, count)) in
      let some_left : (length ((a, e) ∷ cs) == 0) ≡ false = ground arith in
      (
        fd',
        rw (load_lem s.lists p _ is.header, run₁, some_left, run) refl,
        sent
            ∙ ap (λ x. x ++ encode_all 4 (ids (v ∷ vs))) sent₁
            ∙ append_assoc (sink.lawful.sent fd) num (encode_all 4 (ids (v ∷ vs)))
            ∙ ap (λ n. sink.lawful.sent fd ++ (encode 8 n ++ encode_all 4 (ids (v ∷ vs)))) count,
      )

  module _ (fuel : ℕ) (fd : w.Fd) (m : Ems) (vs : List Event) (r : Repr m vs) where
    -- On an initialised state, with fuel for its events, and on a pipe that works,
    -- `ems_list_events` ends without a fault and leaves the events. With the lock it returns 0 and
    -- sends the number of the events and their ids in order; without it, it returns 1 and sends
    -- nothing.
    pub ems_list_events_lem :
        (rdlock : Bool)
        → length vs < fuel
        → Sends w sink (ems_list_events w fuel rdlock fd m) fd (listed rdlock vs) vs
    unfolding ems_list_events
    ems_list_events_lem false h =
        (fd, m, rw (==-false m.event_list null r.list.ne_null) refl, sym (append-nil _), r)
    ems_list_events_lem true h =
        let (fd', run, sent) =
          list_locked_lem fuel (locked rdlocked m r.cells) m.event_list r.cells vs fd
            (locked-IsList m vs r rdlocked) h in
        (
          fd',
          put_store m (released m vs r rdlocked),
          rw
              (
                ==-false m.event_list null r.list.ne_null,
                lock-locked m vs r rdlocked,
                run,
                unlock-locked m vs r rdlocked,
              )
              refl,
          sent,
          record { cells = r.cells; list = released-IsList m vs r rdlocked },
        )
