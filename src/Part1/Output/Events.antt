-- ===== src/Part1/Output/Events.antt =====
-- `ems_list_events` of Part 1 on a state that stands for a list of events.
use so.Base.{
  ℕ, zero, suc, ◌+◌, ◌<◌, ◌≡◌, false, List, [], ◌∷◌, ◌++◌, refl, sym, ap, ◌∙◌, arith, length,
  length-append, uint_mod, ==-false, ◌==◌, subst, if◌then◌else◌,
}
use mathlib.Core.List.{append_assoc, append-nil}
use so.Base.Nodes.{Ptr, load_lem, null}
use so.Base.Locks.{unlocked, rdlocked}
use so.Chain.{Cells, head_of, Linked}
use so.Chain.Owned.{Owns, length-Owns}
use so.Common.Bytes.{AllBelow}
use so.Common.Kernel.{Writer}
use so.Common.Io.Whole.{IsSink}
use so.Client.Api.Listed.{event_label, no_events, lines_text, list_text}
use so.Part1.Store.{Event}
use so.Part1.Operations.{Ems, set_event_list_lock, set_file_lock}
use so.Part1.Operations.State.{Repr, free_locks}
use so.Part1.Output.{
  Printer, buffer_flush_thold, put_text, list_nodes, ems_list_events, fresh_printer,
}
use so.Part1.Output.Buffer.{Holds, Puts, content, put_text_lem, flush_lem, finish_lem}
use so.Part1.Output.Rows.{IsDecimal}
use so.Part1.Output.Show.{Writes}

abbrev pub ids : List Event → List ℕ
ids [] = []
ids (v ∷ vs) = v.id ∷ ids vs

module _ (k : Writer) (s : IsSink k) (bufsiz : ℕ) (sprintf : ℕ → List ℕ) (fuel : ℕ)
    (enough : bufsiz < fuel) (large : buffer_flush_thold < bufsiz)
    (decimal : IsDecimal sprintf) where
  -- The loop from the head of any cells on.
  list_nodes_lem :
      (base : Ems) (f : ℕ) (cs : Cells Ptr) (vs : List Event) (c : Printer k)
      → Linked c.ems.store.nodes cs
      → Owns c.ems.store.events cs vs
      → length cs < f
      → AllBelow uint_mod (ids vs)
      → Holds k s bufsiz sprintf fuel enough large base (buffer_flush_thold + 1) c
      → Puts k s bufsiz sprintf fuel enough large base
          (list_nodes k bufsiz sprintf fuel f (head_of cs) c)
          c
          (lines_text sprintf (ids vs))
          0
  unfolding list_nodes
  list_nodes_lem base zero cs vs c l o lt small h = absurd (omega arith)
  list_nodes_lem base (suc f) [] [] c l o lt small h = (
    c,
    refl,
    sym (append-nil (content k s bufsiz sprintf fuel enough large c)),
    (omega (arith, h.0), h.1),
  )
  list_nodes_lem base (suc f) [] (v ∷ vs) c l o lt small h = absurd o
  list_nodes_lem base (suc f) ((a, p) ∷ cs) [] c l o lt small h = absurd o
  list_nodes_lem base (suc f) ((a, p) ∷ cs) (v ∷ vs) c l o lt small h =
      let line = event_label ++ (sprintf v.id ++ 10 ∷ []) in
      let size = length-append (sprintf v.id) (10 ∷ []) in
      let short = decimal v.id small.0 in
      let (c₁, run₁, said₁, h₁) =
        put_text_lem k s bufsiz sprintf fuel enough large base line c 21 3 h
          (omega (arith, size, short)) (omega arith) in
      let (c₂, run₂, said₂, h₂) =
        flush_lem k s bufsiz sprintf fuel enough large base (set_event_list_lock unlocked) c₁
          (omega (arith, h₁.0), h₁.1) in
      let same : c₂.ems.store ≡ c.ems.store =
        ap (λ (q : Ems). q.store) h₂.1 ∙ sym (ap (λ (q : Ems). q.store) h.1) in
      let (c₃, run₃, said₃, h₃) =
        list_nodes_lem base f cs vs c₂ (subst (λ q. Linked q.nodes cs) (sym same) l.3)
          (subst (λ q. Owns q.events cs vs) (sym same) o.3) (omega arith) small.1 h₂ in
      let said = content k s bufsiz sprintf fuel enough large in
      (
        c₃,
        rw
            (
              ==-false a null l.0,
              load_lem c.ems.store.nodes a _ l.1,
              load_lem c.ems.store.events p _ o.1,
              run₁,
              run₂,
            )
            run₃,
        said₃
            ∙ ap (λ t. t ++ lines_text sprintf (ids vs)) (said₂ ∙ append-nil (said c₁) ∙ said₁)
            ∙ append_assoc (said c) line (lines_text sprintf (ids vs)),
        h₃,
      )

  module _ (m : Ems) (out : k.Fd) (free : m.locks ≡ free_locks) where
    abbrev base : Ems
    base = set_event_list_lock rdlocked m

    no_file : m.locks ≡ record m.locks { file = false }
    no_file = free ∙ (λ i. record (sym free i) { file = false })

    starts : base ≡ set_file_lock false base
    starts = λ i. set_event_list_lock rdlocked (record m { locks = no_file i })

    freed : record m.locks { file = false; event_list = unlocked } ≡ m.locks
    freed = (λ i. record (free i) { file = false; event_list = unlocked }) ∙ sym free

    -- The text of the list, whether there are events or not.
    text_lem :
        (cs : Cells Ptr) (vs : List Event)
        → Linked m.store.nodes cs
        → Owns m.store.events cs vs
        → length cs < fuel
        → AllBelow uint_mod (ids vs)
        → Puts k s bufsiz sprintf fuel enough large base
            (if head_of cs == null
              then put_text k bufsiz sprintf fuel no_events
                  (fresh_printer k bufsiz sprintf fuel base out)
              else list_nodes k bufsiz sprintf fuel fuel
                  (head_of cs)
                  (fresh_printer k bufsiz sprintf fuel base out))
            (fresh_printer k bufsiz sprintf fuel base out)
            (list_text sprintf (ids vs))
            0
    text_lem [] [] l o h small =
        let (c, run, said, held) =
          put_text_lem k s bufsiz sprintf fuel enough large base no_events
            (fresh_printer k bufsiz sprintf fuel base out) 21 11 (omega (arith, large), starts)
            (omega arith) (omega arith) in
        (c, run, said, (omega (arith, held.0), held.1))
    text_lem [] (v ∷ vs) l o h small = absurd o
    text_lem ((a, p) ∷ cs) [] l o h small = absurd o
    text_lem ((a, p) ∷ cs) (v ∷ vs) l o h small = rw (==-false a null l.0) (
        list_nodes_lem base fuel ((a, p) ∷ cs) (v ∷ vs)
          (fresh_printer k bufsiz sprintf fuel base out) l o h small (omega (arith, large), starts))

  -- With a file that works, decimal texts of at most ten digits, BUFSIZ larger than 20 and fuel for
  -- BUFSIZ rounds and all events: when the ids are numbers of 32 bits, `ems_list_events` ends without
  -- a fault, returns 0 and has written a line for each event in the order of the list, or that there
  -- is none, the text that the client of Part 2 prints. The state is as it was, no lock is held.
  pub ems_list_events-lines :
      (m : Ems) (out : k.Fd) (vs : List Event) (r : Repr m vs)
      → length vs < fuel
      → AllBelow uint_mod (ids vs)
      → Writes k s bufsiz sprintf fuel enough large decimal m out
          (ems_list_events k bufsiz sprintf fuel m out)
          0
          (list_text sprintf (ids vs))
  unfolding ems_list_events
  ems_list_events-lines m out vs r h small =
      let size = length-Owns m.store.events r.cells vs r.list.owns in
      let (c₁, run₁, said₁, h₁) =
        text_lem m out r.free r.cells vs r.list.linked r.list.owns (omega arith) small in
      let (c₂, run₂, sent, same) =
        finish_lem k s bufsiz sprintf fuel enough large (base m out r.free)
          (set_event_list_lock unlocked) c₁ h₁ in
      (
        c₂,
        rw
            (
              ==-false m.event_list null r.list.ne_null,
              load_lem m.store.lists m.event_list _ r.list.header,
              run₁,
            )
            run₂,
        sent ∙ said₁ ∙ ap (λ l. l ++ list_text sprintf (ids vs)) (append-nil (s.lawful.sent out)),
        same ∙ (λ i. record m { locks = freed m out r.free i }),
      )
