-- ===== src/Server/Register.antt =====
-- The loop of main in Part2/src/server/main.c, in which the server takes the clients' setup messages
-- from its register pipe and puts them into the queue, and what it does when it ends. What the
-- signals bring and the system answers in each round is an argument.
pub mod Setup
use so.Base.{
  ℕ, zero, suc, ◌-◌, ◌%◌, Bool, true, false, ◌&&◌, ◌||◌, Option, none, some, List, [], ◌∷◌, ◌++◌,
  ◌==◌, if◌then◌else◌, replicate,
}
use so.Base.Nodes.{Run, ok, fault}
use so.Base.Nodes
use so.Base.Outcome.{Outcome, returned, next, ◌>>=◌}
use so.Common.Bytes.{overwrite}
use so.Common.Kernel.{Reader}
use so.Common.Io.{safe_read}
use so.Server.Queue.{Queue, EnqueueResources, enqueue_connection, free_queue}
use so.Server.Operations.{Ems, ems_terminate}
use so.Server.Dump.{DumpResources, ems_sigusr1_action}

abbrev pub setup_request_bufsiz : ℕ
setup_request_bufsiz = 82

abbrev pub op_setup : ℕ
op_setup = 1

pub data Signal : Type 0 where
  sigint sigusr1 other : Signal

-- The two flags that the handler sets.
pub record Flags : Type 0 where
  pub terminate : Bool
  pub usr1_sig : Bool

unfoldable pub sig_handler : Signal → Flags → Flags
sig_handler sigint f = record f { terminate = true }
sig_handler sigusr1 f = record f { usr1_sig = true }
sig_handler other f = f

abbrev pub handle_all : List Signal → Flags → Flags
handle_all [] f = f
handle_all (s ∷ ss) f = handle_all ss (sig_handler s f)

-- A round: the signals that come before the test, and during the read, whether errno is EINTR if the
-- read fails, what `enqueue_connection` gets, and what `ems_sigusr1_action` gets, with its fuel.
pub record Round : Type 0 where
  pub before : List Signal
  pub during : List Signal
  pub interrupted : Bool
  pub enqueue : EnqueueResources
  pub fuel : ℕ
  pub dump : DumpResources

-- `char setup_buffer[SETUP_REQUEST_BUFSIZ] = {0}` with the bytes that were read to it.
unfoldable pub filled : List ℕ → List ℕ
filled bytes = overwrite bytes (replicate setup_request_bufsiz 0)

module _ (k : Reader) where
  pub record Server : Type 0 where
    pub flags : Flags
    pub register_pipe : k.Fd
    pub queue : Queue
    pub ems : Ems
    pub printed : List ℕ

  -- What is done with the buffer; it is never empty.
  unfoldable pub register : EnqueueResources → List ℕ → Server → Run (Outcome Server)
  register os [] s = fault
  register os (op ∷ paths) s =
      if op == op_setup
      then Nodes.◌>>=◌ (enqueue_connection os (op ∷ paths) s.queue)
          (λ (code, q). ok (next (record s { queue = q })))
      else ok (next s)

  module _ (sprintf : ℕ → List ℕ) where
    -- safe_read has failed.
    unfoldable pub failed_read : Round → Server → Run (Outcome Server)
    failed_read r s =
        if r.interrupted && s.flags.usr1_sig
        then Nodes.◌>>=◌ (ems_sigusr1_action sprintf r.fuel r.dump s.ems) (λ (code, text, m). ok (
            next (record s {
              flags = record s.flags { usr1_sig = false };
              ems = m;
              printed = s.printed ++ text;
            })))
        else if r.interrupted && s.flags.terminate
        then ok (returned 0 s)
        else ok (next s)

    -- One round; `returned` is the break.
    unfoldable pub round : Round → Server → Run (Outcome Server)
    unfolding failed_read sig_handler
    round r s =
        let s₁ = record s { flags = handle_all r.before s.flags } in
        let go_on =
          Nodes.◌>>=◌ (safe_read k (suc setup_request_bufsiz) setup_request_bufsiz s.register_pipe)
            (λ (read_status, fd).
              let s₂ : Server = record s₁ {
                flags = handle_all r.during s₁.flags;
                register_pipe = fd;
              } in
              elim read_status [
                | none ↦ failed_read r s₂
                | some bytes ↦ register r.enqueue (filled bytes) s₂
              ]) in
        if s₁.flags.terminate then ok (returned 0 s₁) else go_on

    -- The rounds until the break; without it the loop is still running.
    unfoldable pub rounds : List Round → Server → Run (Outcome Server)
    unfolding round
    rounds [] s = ok (next s)
    rounds (r ∷ rs) s = do s' ← round r s; rounds rs s'

  -- After the loop: the workers are told to end. They are joined, and the memory is freed.
  unfoldable pub end_workers : Server → Server
  end_workers s = record s { queue = record s.queue { terminate = 1 } }

  unfoldable pub free_all : ℕ → (wrlock : Bool) → Server → Run (ℕ × Server)
  free_all fuel wrlock s = Nodes.◌>>=◌ (free_queue fuel s.queue) λ q.
      Nodes.◌>>=◌ (ems_terminate fuel wrlock s.ems)
        λ (code, m). ok (0, record s { queue = q; ems = m })
