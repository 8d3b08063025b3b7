-- ===== src/Part1/Waits.antt =====
-- `inject_wait` of Part1/src/threaded.c: the waits that WAIT gives to the threads. `thread_waits` and
-- `thread_delays` are arrays; a write outside them is a fault.
pub mod Inject
use so.Base.{
  ℕ, zero, suc, ◌+◌, ◌%◌, Bool, Option, none, some, List, [], ◌∷◌, ◌==◌, ltb, if◌then◌else◌,
  uint_mod, get_elem?, set, length,
}
use mathlib.Core.Bool.{not}
use so.Base.Nodes.{Run, ok, fault, ◌>>=◌}
use so.Base.Arrays.{write_at, read_at}

pub record Waits : Type 0 where
  pub thread_waits : List ℕ
  pub thread_delays : List ℕ

-- The loop over all threads, with `left` rounds to come.
unfoldable pub inject_all : (left i delay : ℕ) → Waits → Run Waits
inject_all zero i delay ws = ok ws
inject_all (suc left) i delay ws = do
  waits ← write_at ws.thread_waits i 1
  old ← read_at ws.thread_delays i
  delays ← write_at ws.thread_delays i ((old + delay) % uint_mod)
  inject_all left (i + 1) delay (record { thread_waits = waits; thread_delays = delays })

unfoldable pub inject_wait :
    (wait_option : ℕ) → (target_tid max_threads delay : ℕ) → Waits → Run (ℕ × Waits)
unfolding inject_all
inject_wait wait_option target_tid max_threads delay ws =
    let one = (do
      waits ← write_at ws.thread_waits target_tid 1
      delays ← write_at ws.thread_delays target_tid delay
      ok (0, record { thread_waits = waits; thread_delays = delays })) in
    let all = (do ws' ← inject_all max_threads 0 delay ws; ok (0, ws')) in
    if not (wait_option == 0)
    then (if not (ltb target_tid max_threads) then ok (1, ws) else one)
    else all
