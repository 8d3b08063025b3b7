-- ===== src/Part1/Turns.antt =====
-- `process_commands` of Part1/src/threaded.c: how the threads of a job share its file. A thread takes
-- its next command with parseMutex held, and gives the mutex back before it executes the command, or
-- while it waits. What happens with the mutex held is one step.

pub mod Script
pub mod Take
pub mod Order
use so.Base.{
  ℕ, zero, ◌<◌, ◌≡◌, Bool, true, false, ◌&&◌, Option, none, some, List, [], ◌∷◌, ◌++◌, ◌==◌,
  if◌then◌else◌, take, length,
}
use mathlib.Core.Bool.{not}
use so.Base.Nodes.{Run, ok, ◌>>=◌}
use so.Base.Arrays.{write_at, read_at}
use so.Common.Kernel.{Reader}
use so.Part1.Parser.{
  Command, cmd_create, cmd_reserve, cmd_show, cmd_list_events, cmd_barrier, cmd_wait, cmd_help,
  cmd_empty, cmd_invalid, eoc, get_next,
}
use so.Part1.Arguments.{parse_show, parse_create, parse_reserve, parse_wait}
use so.Part1.Waits.{Waits, inject_wait}

-- What the threads share under parseMutex.
pub record Shared (k : Reader) : Type 0 where
  pub job_fd : k.Fd
  pub waits : Waits
  pub barrier : Bool

-- What the stack of a thread holds: the arrays of `read_uint`, and xs and ys.
pub record Stack : Type 0 where
  pub bufs : ℕ → List ℕ
  pub xs : List ℕ
  pub ys : List ℕ

-- Arrays of the sizes that the source declares.
pub record IsStack (m : Stack) : Type 0 where
  pub room : (i : ℕ) → length (m.bufs i) ≡ 16
  pub xs_len : length m.xs ≡ 256
  pub ys_len : length m.ys ≡ 256

-- What a thread executes without the mutex, with the arguments of the call.
pub data Work : Type 0 where
  create : (event_id num_rows num_columns : ℕ) → Work
  reserve : (event_id num_coords : ℕ) (xs ys : List ℕ) → Work
  show : (event_id : ℕ) → Work
  list : Work
  nothing : Work

-- A thread gives the mutex back to wait, to execute a command, or because it ends.
pub data Turn : Type 0 where
  sleeps : (delay : ℕ) → Turn
  works : Work → Turn
  ends : (return_value : ℕ) → Turn

module _ (k : Reader) (strtoul : List ℕ → Run ℕ) (fuel max_threads : ℕ) where
  -- The arguments of a command; an invalid command is not executed.
  abbrev pub with_arguments :
      {A : Type 0}
      → (k.Fd → Run (Option A × k.Fd))
      → (A → Shared k → Run (Turn × Shared k))
      → Shared k
      → Run (Turn × Shared k)
  with_arguments parse run s = parse s.job_fd >>= λ (r, job_fd).
      let s₁ = record s { job_fd = job_fd } in
      elim r [ none ↦ ok (works nothing, s₁) | some a ↦ run a s₁ ]

  -- WAIT; the target is not set for a wait of all threads.
  abbrev pub add_wait : (delay : ℕ) → Option ℕ → Shared k → Run (Turn × Shared k)
  add_wait delay target s = if delay == 0 then ok (works nothing, s) else do
    (code, waits) ← elim target [
      | none ↦ inject_wait 0 0 max_threads delay s.waits
      | some tid ↦ inject_wait 1 tid max_threads delay s.waits
    ]
    ok (works nothing, record s { waits = waits })

  -- The switch, up to the unlock.
  unfoldable pub process : Stack → Command → Shared k → Run (Turn × Shared k)
  process m cmd_create s =
      with_arguments (parse_create k strtoul fuel (m.bufs 0) (m.bufs 1) (m.bufs 2))
        (λ (event_id, num_rows, num_columns) s'.
          ok (works (create event_id num_rows num_columns), s'))
        s
  process m cmd_reserve s =
      with_arguments (parse_reserve k strtoul fuel m.bufs 256 m.xs m.ys)
        (λ (num_coords, event_id, xs, ys) s'. ok (works (reserve event_id num_coords xs ys), s')) s
  process m cmd_show s =
      with_arguments (parse_show k strtoul fuel (m.bufs 0))
        (λ event_id s'. ok (works (show event_id), s')) s
  process m cmd_list_events s = ok (works list, s)
  process m cmd_wait s =
      with_arguments (parse_wait k strtoul fuel m.bufs true)
        (λ (delay, target) s'. add_wait delay target s') s
  process m cmd_barrier s = ok (ends 1, record s { barrier = true })
  process m cmd_help s = ok (works nothing, s)
  process m cmd_empty s = ok (works nothing, s)
  process m cmd_invalid s = ok (works nothing, s)
  process m eoc s = ok (ends 0, s)

  -- From the test of the barrier on.
  unfoldable pub proceed : Stack → Shared k → Run (Turn × Shared k)
  unfolding process
  proceed m s =
      let next = (do
        (command, job_fd) ← get_next k fuel s.job_fd
        process m command (record s { job_fd = job_fd })) in
      if s.barrier then ok (ends 1, s) else next

  -- A round of the loop, up to the unlock; after a wait it goes on with `proceed`.
  unfoldable pub enter : (tid : ℕ) → Stack → Shared k → Run (Turn × Shared k)
  unfolding proceed
  enter tid m s = do
    waiting ← read_at s.waits.thread_waits tid
    let wait = (do
      thread_waits ← write_at s.waits.thread_waits tid 0
      delay ← read_at s.waits.thread_delays tid
      thread_delays ← write_at s.waits.thread_delays tid 0
      ok (
        sleeps delay,
        record s { waits = record { thread_waits = thread_waits; thread_delays = thread_delays } },
      ))
    if not (waiting == 0) && not s.barrier then wait else proceed m s

-- Where a thread stands.
pub data Phase : Type 0 where
  ready asleep : Phase
  busy : Work → Phase
  ended : (return_value : ℕ) → Phase

abbrev pub phase_of : Turn → Phase
phase_of (sleeps delay) = asleep
phase_of (works w) = busy w
phase_of (ends code) = ended code

-- The call without what the arrays hold behind the coordinates.
abbrev pub seen : Work → Work
seen (create event_id num_rows num_columns) = create event_id num_rows num_columns
seen (reserve event_id num_coords xs ys) =
    reserve event_id num_coords (take num_coords xs) (take num_coords ys)
seen (show event_id) = show event_id
seen list = list
seen nothing = nothing

abbrev pub logged : Turn → List Work → List Work
logged (sleeps delay) log = log
logged (works w) log = log ++ seen w ∷ []
logged (ends code) log = log

-- `log` are the commands that were taken, in the order in which the threads had the mutex.
pub record Threads (k : Reader) : Type 0 where
  pub shared : Shared k
  pub phase : ℕ → Phase
  pub log : List Work

abbrev pub put_phase : (ℕ → Phase) → ℕ → Phase → ℕ → Phase
put_phase phases tid p i = if i == tid then p else phases i

abbrev pub after : {k : Reader} → Threads k → ℕ → Turn → Shared k → Threads k
after t tid turn s = record {
  shared = s;
  phase = put_phase t.phase tid (phase_of turn);
  log = logged turn t.log;
}

module _ (k : Reader) (strtoul : List ℕ → Run ℕ) (fuel max_threads : ℕ) where
  -- A thread takes its turn, goes on after its wait, or is through with its command.
  pub data Step (t : Threads k) : Threads k → Type 0 where
    take_turn :
        (tid : ℕ) (m : Stack) {turn : Turn} {s : Shared k}
        → tid < max_threads
        → IsStack m
        → t.phase tid ≡ ready
        → enter k strtoul fuel max_threads tid m t.shared ≡ ok (turn, s)
        → Step t (after t tid turn s)
    wake :
        (tid : ℕ) (m : Stack) {turn : Turn} {s : Shared k}
        → tid < max_threads
        → IsStack m
        → t.phase tid ≡ asleep
        → proceed k strtoul fuel max_threads m t.shared ≡ ok (turn, s)
        → Step t (after t tid turn s)
    finish :
        (tid : ℕ) {w : Work}
        → t.phase tid ≡ busy w
        → Step t (record t { phase = put_phase t.phase tid ready })

  -- What the threads make of the file, in any order of their steps.
  pub data Reach (t : Threads k) : Threads k → Type 0 where
    start : Reach t t
    later : {u v : Threads k} → Reach t u → Step u v → Reach t v
