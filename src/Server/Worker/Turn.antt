-- ===== src/Server/Worker/Turn.antt =====
-- A turn of a worker of Part2/src/server/sessions.c: a session served on pipes that work, and the
-- end on termination.
use so.Base.{
  ℕ, ◌≡◌, ◌≢◌, Bool, true, none, some, List, [], ◌∷◌, ◌++◌, refl, ap, length, ◌==◌, ==-false,
}
use so.Base.Nodes.{Run, ok, null}
use so.Base.Outcome.{Outcome, next}
use so.Chain.{Cells}
use so.Common.Bytes.{encode}
use so.Common.Kernel.{Reader, Writer}
use so.Common.Io.Whole.{IsSource, IsSink}
use so.Common.Protocol.{Request}
use so.Server.Store.{Event}
use so.Server.Database.{IsSound}
use so.Server.Operations.{Ems}
use so.Server.Operations.State.{Repr}
use so.Server.Queue.{Connection, Queue}
use so.Server.Queue.Shape.{IsQueue}
use so.Server.Session.{Locals, Session, Answers, opened, client_success}
use so.Server.Session.Prefix.{conversation, Given}
use so.Server.Worker.{Worker, await}

-- Queues without a connection in which termination is not asked for.
abbrev pub AllIdle : List Queue → Type 0
AllIdle [] = Unit {0}
AllIdle (q ∷ qs) = (q.front ≡ null) × (q.terminate ≡ 0) × AllIdle qs

-- A worker whose queue is empty, and empty again at each of some wake-ups, returns from its wait
-- at the first wake-up after termination was asked for, whether or not the queue has a connection
-- then.
pub await-terminated :
    (queue : Queue) (idle : List Queue) (last : Queue) (more : List Queue)
    → queue.front ≡ null
    → AllIdle idle
    → last.terminate ≢ 0
    → await queue (idle ++ last ∷ more) ≡ ok none
unfolding await
await-terminated queue [] last more empty all set =
    let none_there : (queue.front == null) ≡ true = ap (λ p. p == null) empty in
    rw (none_there, ==-false last.terminate 0 set) refl
await-terminated queue (q ∷ idle) last more empty all set =
    let none_there : (queue.front == null) ≡ true = ap (λ p. p == null) empty in
    let not_yet : (q.terminate == 0) ≡ true = ap (λ n. n == 0) all.1 in
    rw (none_there, not_yet) (await-terminated q idle last more all.0 all.2 set)

module _ (k : Reader) (w : Writer) (is_epipe : w.Fd → Bool) (source : IsSource k)
    (sink : IsSink w) where
  -- A turn that has served the connection and left a queue of the others: what the session sent and
  -- the events that it left.
  abbrev pub Completes :
      (fuel : ℕ)
      → (ℕ → Ems → Answers)
      → (stack : Locals) (wk : Worker k w) (req : k.Fd) → Run (Outcome (Worker k w))
      → Cells Connection
      → w.Fd
      → ℕ
      → List Request
      → List ℕ
      → List Event
      → Type 0
  Completes fuel os stack wk req run cs resp session_id qs rest vs =
      (given : List Answers) × (wk' : Worker k w) × (s' : Session k w) × (resp₁ : w.Fd) × (run
        ≡ ok (next wk'))
      × (wk'.last ≡ some (client_success, s'))
      × IsQueue wk'.queue cs
      × (length given ≡ length qs)
      × (sink.lawful.sent resp₁ ≡ sink.lawful.sent resp ++ encode 4 session_id)
      × Given k w is_epipe fuel os 0
          (opened k w is_epipe (record { ems = wk.ems; req = req; resp = resp₁; locals = stack }))
          given
      × (source.lawful.left s'.req ≡ rest)
      × (sink.lawful.sent s'.resp
          ≡ sink.lawful.sent resp ++ (encode 4 session_id ++ (conversation given qs vs).0))
      × Repr wk'.ems (conversation given qs vs).1
      × IsSound (conversation given qs vs).1
