-- ===== src/Server/Worker.antt =====
-- `connect_clients` of Part2/src/server/sessions.c: a worker that takes connections from the queue and
-- serves them. What open(2) gives for a path is an argument; so are the states in which a waiting
-- worker finds the queue when it is woken.
pub mod Turn
use so.Base.{
  ℕ, suc, Bool, true, false, Option, none, some, List, [], ◌∷◌, ◌==◌, if◌then◌else◌, length,
}
use mathlib.Core.Bool.{not}
use so.Base.Nodes.{Run, ok, out_of_fuel, ◌>>=◌}
use so.Base.Outcome.{Outcome, returned, next}
use so.Common.Bytes.{encode}
use so.Common.Kernel.{Reader, Writer}
use so.Server.Operations.{Ems}
use so.Server.Output.{send}
use so.Server.Queue.{Connection, Queue, is_empty, take_connection}
use so.Server.Session.{Locals, Session, Answers, handle_requests}

abbrev pub check_termination : Queue → Bool
check_termination queue = if queue.terminate == 0 then false else true

-- The wait for a connection: the queue when it has one, or `none` on termination. With no wake-up
-- left, the worker waits for ever.
unfoldable pub await : Queue → (woken : List Queue) → Run (Option Queue)
await queue [] = if is_empty queue then out_of_fuel else ok (some queue)
await queue (later ∷ woken) =
    let again = await later woken in
    if is_empty queue then (if check_termination later then ok none else again) else ok (some queue)

-- The files that the named pipes are.
pub record Pipes (k : Reader) (w : Writer) : Type 0 where
  pub open_req : List ℕ → Option k.Fd
  pub open_resp : List ℕ → Option w.Fd

-- A worker's view: the queue, the events, and how the last session ended.
pub record Worker (k : Reader) (w : Writer) : Type 0 where
  pub queue : Queue
  pub ems : Ems
  pub last : Option (ℕ × Session k w)

module _ (k : Reader) (w : Writer) (is_epipe : w.Fd → Bool) (pipes : Pipes k w) (fuel rounds : ℕ)
    (pthread_sigmask : Bool) (os : ℕ → Ems → Answers) (stack : Locals) (session_id : ℕ) where
  -- A connection, from the opening of its pipes on: how the session ended, and the events.
  unfoldable pub serve : Connection → Ems → Run (Option (ℕ × Session k w) × Ems)
  serve connection ems = elim (pipes.open_resp connection.resp_pipe_path) [
    | none ↦ ok (none, ems)
    | some resp_pipe ↦ do
      (r, resp) ← send w (encode 4 session_id) resp_pipe
      elim r [
        | none ↦ ok (none, ems)
        | some n ↦ elim (pipes.open_req connection.req_pipe_path) [
          | none ↦ ok (none, ems)
          | some req_pipe ↦ do
            (job_status, s) ←
                handle_requests k w is_epipe fuel rounds pthread_sigmask os
                  (record { ems = ems; req = req_pipe; resp = resp; locals = stack })
            ok (some (job_status, s), s.ems)
        ]
      ]
  ]

  -- One round of the loop; `woken` are the wake-ups of its wait.
  unfoldable pub turn : (woken : List Queue) → Worker k w → Run (Outcome (Worker k w))
  unfolding await serve
  turn woken wk = if check_termination wk.queue then ok (returned 0 wk) else do
    r ← await wk.queue woken
    elim r [
      | none ↦ ok (returned 0 wk)
      | some queue ↦ do
        (connection, queue') ← take_connection queue
        elim connection [
          | none ↦ ok (next (record wk { queue = queue' }))
          | some c ↦ do
            (ended, ems) ← serve c wk.ems
            ok (next (record { queue = queue'; ems = ems; last = ended }))
        ]
    ]
