-- ===== src/Server/Tests/Session.antt =====
-- A client's session with the small server, over pipes that move one byte in a round.
use so.Base.{
  ℕ, ◌≡◌, ◌≢◌, true, false, none, some, List, [], ◌∷◌, ◌++◌, refl, arith, Option-cases, inl, inr,
}
use so.Base.Nodes.{Ptr, Heap, null, ok}
use so.Base.Outcome.{next}
use so.Common.Bytes.{encode}
use so.Common.Protocol.{Request, create, show, list}
use so.Common.Tests.Pipes.{input, input-IsSource, output, output-IsSink}
use so.Server.Operations.{Ems}
use so.Server.Operations.NewEvent.{IsFresh}
use so.Server.Session.{Session, Answers, read_field}
use so.Server.Session.Prefix.{messages}
use so.Server.Session.Closed.{read_field-truncated}
use so.Server.Output.Show.{Sends, shown, ems_show_lem}
use so.Server.Output.{ems_show}
use so.Server.Tests.State.{server, events, server-Repr, events-IsSound}

-- The address `p` if it is not in use.
abbrev pub pick : {A : Type 0} → Heap A → Ptr → Ptr
pick h p = elim (h p) [ none ↦ p | some a ↦ null ]

pick_fresh : {A : Type 0} (h : Heap A) (p : Ptr) → pick h p ≢ null → h (pick h p) ≡ none
pick_fresh h p ne = elim (Option-cases (h p)) [
  | inl free ↦ rw (pick, free) free
  | inr (a, used) ↦ absurd (ne (rw (pick, used) refl))
]

abbrev pub answers : ℕ → Ems → Answers
answers i m = record {
  create = record {
    wrlock = true;
    event = pick m.store.events 21;
    mutex_init = true;
    calloc = true;
    node = pick m.store.nodes 11;
  };
  reserve = record { rdlock = true; mutex_lock = true };
  rdlock = true;
}

pub answers-IsFresh : (i : ℕ) (m : Ems) → IsFresh (answers i m).create m.store
answers-IsFresh i m = record {
  event = pick_fresh m.store.events 21;
  node = pick_fresh m.store.nodes 11;
}

-- CREATE 8 2 2, SHOW 7, LIST.
abbrev pub script : List Request
script = create 8 2 2 ∷ show 7 ∷ list ∷ []

abbrev session : List Request → Session input output
session qs = record {
  ems = server;
  req = messages qs ++ (encode 1 2 ++ []);
  resp = [];
  locals = record { op = []; event_id = []; num_matrix = []; num_seats = []; xs = []; ys = [] };
}

ems_show_lem_example :
    Sends output output-IsSink (ems_show output 2 true 7 [] server) [] (shown true 7 events) events
ems_show_lem_example =
    ems_show_lem output output-IsSink 2 7 [] server events server-Repr (omega arith) true
      events-IsSound

-- The same requests, after which the client is gone.
abbrev lost : Session input output
lost = record (session script) { req = messages script ++ [] }

-- Two bytes of an id where the variable holds an older one.
abbrev cut : Session input output
cut = record (session []) {
  req = 7 ∷ 0 ∷ [];
  locals = record (session []).locals { event_id = 1 ∷ 1 ∷ 1 ∷ 0 ∷ [] };
}

read_field-truncated_example :
    (req : List ℕ) × (read_field input output
        (λ fd. false)
        4
        (λ l. l.event_id)
        (λ b l. record l { event_id = b })
        cut
      ≡ ok (
          next (record cut {
            req = req;
            locals = record cut.locals { event_id = 7 ∷ 0 ∷ 1 ∷ 0 ∷ [] };
          })))
    × (req ≡ [])
read_field-truncated_example =
    read_field-truncated input output (λ fd. false) input-IsSource 4 7 (0 ∷ []) (λ l. l.event_id)
      (λ b l. record l { event_id = b }) cut refl (omega arith)
