-- ===== src/Part1/Tests/Turns.antt =====
-- Two threads and a file of CREATE 1 1 2, WAIT 5 and BARRIER, of which the first thread has taken a line.
use so.Base.{ℕ, false, none, List, [], ◌∷◌, ◌≡◌, refl, arith, replicate}
use so.Base.Nodes.{ok}
use so.Client.Tests.{file, file-IsFile, read_number, read_number-IsStrtoul}
use so.Part1.Parser.{get_next, read_uint}
use so.Part1.Arguments.{parse_create, parse_create_by}
use so.Part1.Waits.{Waits}
use so.Part1.Turns.{
  Shared, Stack, IsStack, Turn, works, Phase, ready, Threads, after, enter, take_turn, Reach, start,
  later,
}
use so.Part1.Turns
use so.Part1.Turns.Script.{Entry, create, wait, script}
use so.Part1.Turns.Order.{Ending, barrier, ending_text, InOrder, Keeps, Reach-InOrder}

abbrev stack : Stack
stack = record { bufs = λ i. replicate 16 7; xs = replicate 256 8; ys = replicate 256 9 }

stack-IsStack : IsStack stack
stack-IsStack = record { room = λ i. refl; xs_len = refl; ys_len = refl }

abbrev entries : List Entry
entries =
    create (record { event_id = 49 ∷ []; num_rows = 49 ∷ []; num_cols = 50 ∷ [] })
    ∷ wait (53 ∷ []) none
    ∷ []

abbrev ending : Ending
ending = barrier (35 ∷ [])

abbrev waits : Waits
waits = record { thread_waits = 0 ∷ 0 ∷ []; thread_delays = 0 ∷ 0 ∷ [] }

abbrev shared : List ℕ → Shared file
shared fd = record { job_fd = fd; waits = waits; barrier = false }

abbrev job : Threads file
job = record {
  shared = shared (script entries (ending_text ending));
  phase = λ tid. ready;
  log = [];
}

abbrev later_lines : List ℕ
later_lines = script (wait (53 ∷ []) none ∷ []) (ending_text ending)

abbrev taken : Turn
taken = works (Turns.create 1 1 2)

first_turn :
    enter file (read_number 0) 9 2 0 stack (shared (script entries (ending_text ending)))
    ≡ ok (taken, shared later_lines)
unfolding enter get_next parse_create read_uint parse_create_by
first_turn = refl

one_taken : Reach file (read_number 0) 9 2 job (after job 0 taken (shared later_lines))
one_taken = later start (take_turn 0 stack (omega arith) stack-IsStack refl first_turn)

Reach-InOrder_example :
    InOrder file file-IsFile 2 ending (shared later_lines) (Turns.create 1 1 2 ∷ []) entries
    × Keeps file file-IsFile 2 ending
        (enter file (read_number 0) 9 2 1 stack (shared later_lines))
        (Turns.create 1 1 2 ∷ [])
        entries
Reach-InOrder_example =
    Reach-InOrder file file-IsFile (read_number 0) read_number-IsStrtoul 9 2 ending entries
      (
        (
          ((refl, tt), omega arith, omega arith),
          ((refl, tt), omega arith, omega arith),
          ((refl, tt), omega arith, omega arith),
        ),
        ((((refl, tt), omega arith, omega arith), tt), tt),
      )
      job (after job 0 taken (shared later_lines)) 1 stack refl refl refl
      (record { waits = refl; delays = refl }) one_taken (omega arith) stack-IsStack
