-- ===== src/Part1/Waits/Inject.antt =====
-- `inject_wait` of Part1/src/threaded.c on arrays with an element for each thread.
use so.Base.{
  ℕ, zero, suc, ◌+◌, ◌%◌, ◌≡◌, true, some, List, [], ◌∷◌, ◌++◌, refl, ap, ◌∙◌, arith, ◌==◌, ltb,
  map, if◌then◌else◌, uint_mod, get_elem?, set, length, replicate, length-append, Bool-cases, inl,
  inr,
}
use mathlib.Core.List.{append_assoc}
use so.Base.Nodes.{ok}
use so.Base.Arrays.{write_at, read_at}
use so.Part1.Waits.{Waits, inject_all, inject_wait}

abbrev pub later : ℕ → ℕ → ℕ
later delay d = (d + delay) % uint_mod

-- The code, and the waits: of one thread that exists, or of all threads, whose delays add up.
abbrev pub injected : (wait_option target_tid max_threads delay : ℕ) → Waits → ℕ × Waits
injected wait_option target_tid max_threads delay ws =
    if wait_option == 0
    then (
      0,
      record {
        thread_waits = replicate max_threads 1;
        thread_delays = map (later delay) ws.thread_delays;
      },
    )
    else (if ltb target_tid max_threads
        then (
          0,
          record {
            thread_waits = set ws.thread_waits target_tid 1;
            thread_delays = set ws.thread_delays target_tid delay;
          },
        )
        else (1, ws))

set-append :
    (done : List ℕ) (g : ℕ) (gs : List ℕ) (v i : ℕ)
    → length done ≡ i
    → set (done ++ g ∷ gs) i v ≡ (done ++ v ∷ []) ++ gs
set-append [] g gs v zero e = refl
set-append [] g gs v (suc i) e = absurd (omega arith)
set-append (d ∷ ds) g gs v zero e = absurd (omega arith)
set-append (d ∷ ds) g gs v (suc i) e = ap (λ l. d ∷ l) (set-append ds g gs v i (omega arith))

get_elem?-append :
    (done : List ℕ) (g : ℕ) (gs : List ℕ) (i : ℕ)
    → length done ≡ i
    → get_elem? (done ++ g ∷ gs) i ≡ some g
get_elem?-append [] g gs zero e = refl
get_elem?-append [] g gs (suc i) e = absurd (omega arith)
get_elem?-append (d ∷ ds) g gs zero e = absurd (omega arith)
get_elem?-append (d ∷ ds) g gs (suc i) e = get_elem?-append ds g gs i (omega arith)

write_at_lem :
    (done : List ℕ) (g : ℕ) (gs : List ℕ) (v i : ℕ)
    → length done ≡ i
    → write_at (done ++ g ∷ gs) i v ≡ ok ((done ++ v ∷ []) ++ gs)
write_at_lem done g gs v i e =
    let room : ltb i (length (done ++ g ∷ gs)) ≡ true =
      let total = length-append done (g ∷ gs) in ground arith in
    rw (write_at, room) (ap ok (set-append done g gs v i e))

read_at_lem :
    (done : List ℕ) (g : ℕ) (gs : List ℕ) (i : ℕ)
    → length done ≡ i
    → read_at (done ++ g ∷ gs) i ≡ ok g
read_at_lem done g gs i e = rw (read_at, get_elem?-append done g gs i e) refl

-- The rounds from `i` on.
inject_all_lem :
    (left i delay : ℕ) (dw dd ws ds : List ℕ)
    → length dw ≡ i
    → length dd ≡ i
    → length ws ≡ left
    → length ds ≡ left
    → inject_all left i delay (record { thread_waits = dw ++ ws; thread_delays = dd ++ ds })
      ≡ ok (record {
        thread_waits = dw ++ replicate left 1;
        thread_delays = dd ++ map (later delay) ds;
      })
unfolding inject_all
inject_all_lem zero i delay dw dd [] [] lw ld ew ed = refl
inject_all_lem zero i delay dw dd [] (d ∷ ds) lw ld ew ed = absurd (omega arith)
inject_all_lem zero i delay dw dd (w ∷ ws) ds lw ld ew ed = absurd (omega arith)
inject_all_lem (suc left) i delay dw dd [] ds lw ld ew ed = absurd (omega arith)
inject_all_lem (suc left) i delay dw dd (w ∷ ws) [] lw ld ew ed = absurd (omega arith)
inject_all_lem (suc left) i delay dw dd (w ∷ ws) (d ∷ ds) lw ld ew ed =
    let rest =
      inject_all_lem left (i + 1) delay (dw ++ 1 ∷ []) (dd ++ later delay d ∷ []) ws ds
        (omega (arith, length-append dw (1 ∷ [])))
        (omega (arith, length-append dd (later delay d ∷ []))) (omega arith) (omega arith) in
    rw
      (
        write_at_lem dw w ws 1 i lw,
        read_at_lem dd d ds i ld,
        write_at_lem dd d ds (later delay d) i ld,
      )
      (rest ∙ λ j. ok (record {
        thread_waits = append_assoc dw (1 ∷ []) (replicate left 1) j;
        thread_delays = append_assoc dd (later delay d ∷ []) (map (later delay) ds) j;
      }))

-- With an element for each thread in both arrays, `inject_wait` ends without a write outside them. A
-- wait for all threads marks each of them and adds the delay, modulo 2^32, to its own; a wait for one
-- thread marks it and sets its delay, and one for a thread that does not exist returns 1 and
-- changes nothing.
pub inject_wait_lem :
    (wait_option target_tid max_threads delay : ℕ) (ws : Waits)
    → length ws.thread_waits ≡ max_threads
    → length ws.thread_delays ≡ max_threads
    → inject_wait wait_option target_tid max_threads delay ws
      ≡ ok (injected wait_option target_tid max_threads delay ws)
unfolding inject_wait
inject_wait_lem wait_option target_tid max_threads delay ws ew ed =
    elim (Bool-cases (wait_option == 0)) [
      | inl global ↦
          rw
            (
              global,
              inject_all_lem max_threads 0 delay [] [] ws.thread_waits ws.thread_delays refl refl ew
                  ed,
            )
            refl
      | inr local ↦ elim (Bool-cases (ltb target_tid max_threads)) [
        | inl there ↦
            let fits_waits : ltb target_tid (length ws.thread_waits) ≡ true = ground arith in
            let fits_delays : ltb target_tid (length ws.thread_delays) ≡ true = ground arith in
            rw (local, there, fits_waits, fits_delays) refl
        | inr missing ↦ rw (local, missing) refl
      ]
    ]
