-- ===== src/Server/Register/Setup.antt =====
-- A round of the registration loop of Part2/src/server/main.c that finds a setup message.
use so.Base.{
  ℕ, zero, suc, ◌≤◌, ◌≡◌, ◌≢◌, Bool, true, false, none, some, List, [], ◌∷◌, ◌++◌, refl, ap, ◌∙◌,
  arith, length, drop, replicate, length-replicate, get_elem?, ◌==◌,
}
use mathlib.Core.List.{append-nil}
use so.Base.Nodes.{ok, null}
use so.Base.Outcome.{next}
use so.Chain.Link.{has-false_of_none}
use so.Common.Kernel.{Reader}
use so.Common.Io.Whole.{IsSource, safe_read_whole}
use so.Server.Queue.{Connection, Queue, EnqueueResources, enqueue_connection}
use so.Server.Queue.Shape.{connection_of, enqueue_connection-IsQueue}
use so.Server.Queue.Fifo.{Runs, enqueue, Runs-Fifo}
use so.Server.Register.{
  Signal, sigint, sigusr1, other, Flags, sig_handler, handle_all, Round, Server, round,
  setup_request_bufsiz, op_setup, filled, register,
}

-- No SIGINT is among them.
abbrev pub calm : List Signal → Bool
calm [] = true
calm (sigint ∷ ss) = false
calm (sigusr1 ∷ ss) = calm ss
calm (other ∷ ss) = calm ss

pub handle_all-calm :
    (ss : List Signal) (f : Flags)
    → calm ss ≡ true
    → f.terminate ≡ false
    → (handle_all ss f).terminate ≡ false
unfolding sig_handler
handle_all-calm [] f h e = e
handle_all-calm (sigint ∷ ss) f h e = cc
handle_all-calm (sigusr1 ∷ ss) f h e = handle_all-calm ss (record f { usr1_sig = true }) h e
handle_all-calm (other ∷ ss) f h e = handle_all-calm ss f h e

-- A message as long as the buffer that starts with the code of a setup.
pub record IsSetup (buf : List ℕ) : Type 0 where
  pub size : length buf ≡ setup_request_bufsiz
  pub op : get_elem? buf 0 ≡ some op_setup

drop_all : {A : Type 0} (n : ℕ) (xs : List A) → length xs ≤ n → drop n xs ≡ []
drop_all zero [] h = refl
drop_all zero (x ∷ xs) h = absurd (omega arith)
drop_all (suc n) [] h = refl
drop_all (suc n) (x ∷ xs) h = drop_all n xs (omega arith)

filled_whole : (buf : List ℕ) → length buf ≡ setup_request_bufsiz → filled buf ≡ buf
unfolding filled
filled_whole buf size =
    ap (λ l. buf ++ l)
      (drop_all {A = ℕ} (length buf) (replicate setup_request_bufsiz 0)
        (omega (arith, length-replicate {A = ℕ} setup_request_bufsiz 0, size)))
    ∙ append-nil buf

module _ (k : Reader) (source : IsSource k) (sprintf : ℕ → List ℕ) where
  register_lem :
      (buf : List ℕ) (s : Server k) (os : EnqueueResources) (q : Queue)
      → get_elem? buf 0 ≡ some op_setup
      → enqueue_connection os buf s.queue ≡ ok (0, q)
      → register k os buf s ≡ ok (next (record s { queue = q }))
  unfolding register
  register_lem [] s os q op granted = cc
  register_lem (b ∷ bs) s os q op granted =
      let same : (b == op_setup) ≡ true = ground arith in rw (same, granted) refl

  -- On a register pipe that does not fail and goes on with a setup message, in a round without a
  -- SIGINT, with the queue's lock and an address from malloc that is not in use, the round goes on: the
  -- message is read and no more, its connection is the last that was sent to the queue, and what the
  -- queue has passed on to the workers and the events are the same.
  pub round-Runs :
      (s : Server k) (r : Round) (buf rest : List ℕ) (sent taken : List Connection)
      → s.flags.terminate ≡ false
      → calm r.before ≡ true
      → calm r.during ≡ true
      → IsSetup buf
      → source.lawful.left s.register_pipe ≡ buf ++ rest
      → r.enqueue.lock ≡ true
      → r.enqueue.connection ≢ null
      → s.queue.nodes r.enqueue.connection ≡ none
      → Runs sent taken s.queue
      → (s' : Server k) × (round k sprintf r s ≡ ok (next s'))
        × (source.lawful.left s'.register_pipe ≡ rest)
        × Runs (sent ++ connection_of buf ∷ []) taken s'.queue
        × (s'.flags.terminate ≡ false)
        × (s'.ems ≡ s.ems)
  unfolding round
  round-Runs s r buf rest sent taken going before during setup left lock ne unused runs =
      let f₁ = handle_all r.before s.flags in
      let go₁ = handle_all-calm r.before s.flags before going in
      let (fd, read, left') =
        safe_read_whole k source setup_request_bufsiz buf rest s.register_pipe left setup.size in
      let (cs, is, _) = Runs-Fifo sent taken s.queue runs in
      let out = has-false_of_none s.queue.nodes r.enqueue.connection cs is.linked unused in
      let long : 81 ≤ length buf = omega (arith, setup.size) in
      let (q, run, _) =
        enqueue_connection-IsQueue s.queue r.enqueue.connection buf long ne unused cs is out in
      let granted : enqueue_connection r.enqueue buf s.queue ≡ ok (0, q) =
        (λ i.
          enqueue_connection (record { connection = r.enqueue.connection; lock = lock i }) buf
            s.queue)
        ∙ run in
      let s₂ : Server k = record {
        flags = handle_all r.during f₁;
        register_pipe = fd;
        queue = s.queue;
        ems = s.ems;
        printed = s.printed;
      } in
      let admitted =
        ap (λ l. register k r.enqueue l s₂) (filled_whole buf setup.size)
        ∙ register_lem buf s₂ r.enqueue q setup.op granted in
      (
        record {
          flags = handle_all r.during f₁;
          register_pipe = fd;
          queue = q;
          ems = s.ems;
          printed = s.printed;
        },
        rw (go₁, read) admitted,
        left',
        enqueue sent taken s.queue r.enqueue.connection buf q runs long ne unused run,
        handle_all-calm r.during f₁ during go₁,
        refl,
      )
