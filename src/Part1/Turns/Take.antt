-- ===== src/Part1/Turns/Take.antt =====
-- What a thread takes from the .jobs file with parseMutex, on a regular file.
use so.Base.{
  ℕ, suc, ◌≡◌, ◌≢◌, true, false, Option, none, some, List, [], ◌∷◌, ◌++◌, refl, sym, ap, ◌∙◌, arith,
  length, map, take, drop, length-set, length-replicate, ◌==◌, Bool-cases, inl, inr, if-false, ltb,
}
use so.Base.Nodes.{Run, ok, ◌>>=◌}
use so.Common.Kernel.{Reader, IsFile}
use so.Client.Parser.Word.{Keyword, text, code, read_part, get_next-text}
use so.Client.Parser.Word
use so.Client.Arguments
use so.Client.Arguments.{is_end}
use so.Client.Main.Round.{length-rows, length-cols}
use so.Common.Bytes.{take-append}
use so.Client.Arguments.Uint.{value, IsStrtoul}
use so.Client.Arguments.Create.{number_lem, parse_create-text}
use so.Client.Reservation.Seats.{rows, cols, IsNumber-Fits}
use so.Client.Reservation.Text.{parse_reserve-text}
use so.Client.Reservation.Wait.{asked, thread}
use so.Part1.Parser.{cmd_barrier, eoc, barrier_tail, get_next, line_end}
use so.Part1.Parser.Compare.{command, commands, get_next-agree}
use so.Part1.Arguments.Compare.{parsers-agree}
use so.Part1.Waits.{Waits, inject_wait}
use so.Part1.Waits.Inject.{inject_wait_lem, injected, later}
use so.Part1.Turns.{
  Shared, Stack, IsStack, Turn, Work, sleeps, works, ends, process, proceed, enter, seen,
}
use so.Part1.Turns
use so.Part1.Turns.Script.{
  Entry, create, reserve, show, list, wait, help, blank, keyword, tail, work, IsValid, barrier_line,
}

-- An element for each thread.
pub record IsWaits (max_threads : ℕ) (ws : Waits) : Type 0 where
  pub waits : length ws.thread_waits ≡ max_threads
  pub delays : length ws.thread_delays ≡ max_threads

length-map : (f : ℕ → ℕ) (xs : List ℕ) → length (map f xs) ≡ length xs
length-map f [] = refl
length-map f (x ∷ xs) = ap suc (length-map f xs)

injected-IsWaits :
    (wait_option target_tid max_threads delay : ℕ) (ws : Waits)
    → IsWaits max_threads ws
    → IsWaits max_threads (injected wait_option target_tid max_threads delay ws).1
injected-IsWaits wait_option target_tid max_threads delay ws is =
    elim (Bool-cases (wait_option == 0)) [
      | inl all ↦ rw all (record {
        waits = length-replicate {A = ℕ} max_threads 1;
        delays = length-map (later delay) ws.thread_delays ∙ is.delays;
      })
      | inr one ↦ elim (Bool-cases (ltb target_tid max_threads)) [
        | inl there ↦
            rw (one, there)
              (record {
                waits = length-set ws.thread_waits target_tid 1 ∙ is.waits;
                delays = length-set ws.thread_delays target_tid delay ∙ is.delays;
              })
        | inr missing ↦ rw (one, missing) is
      ]
    ]

first_letter :
    (w : Keyword) (rest : List ℕ) (ch : ℕ) (cs : List ℕ)
    → some (take 1 (text w ++ rest)) ≡ some (ch ∷ cs)
    → ch ≢ 66
first_letter Word.create rest ch cs e same = let letter : 67 ≡ ch = cc in omega arith
first_letter Word.reserve rest ch cs e same = let letter : 82 ≡ ch = cc in omega arith
first_letter Word.show rest ch cs e same = let letter : 83 ≡ ch = cc in omega arith
first_letter Word.list rest ch cs e same = let letter : 76 ≡ ch = cc in omega arith
first_letter Word.wait rest ch cs e same = let letter : 87 ≡ ch = cc in omega arith
first_letter Word.help rest ch cs e same = let letter : 72 ≡ ch = cc in omega arith
first_letter Word.blank rest ch cs e same = let letter : 10 ≡ ch = cc in omega arith

module _ (k : Reader) (file : IsFile k) (fuel : ℕ) where
  -- A command word.
  word_lem :
      (w : Keyword) (rest : List ℕ) (fd : k.Fd)
      → file.left fd ≡ text w ++ rest
      → (fd' : k.Fd) × (get_next k fuel fd ≡ ok (command (code w), fd')) × (file.left fd' ≡ rest)
  word_lem w rest fd e =
      let (fd', run, left) = get_next-text k file fuel w rest fd e in
      let other : (ch : ℕ) (cs : List ℕ) → (k.read 1 fd).0 ≡ some (ch ∷ cs) → ch ≢ 66 = λ ch cs got.
        first_letter w rest ch cs (ap (λ l. some (take 1 l)) (sym e) ∙ sym (file.got 1 fd) ∙ got) in
      (fd', get_next-agree k fuel fd other ∙ ap commands run, left)

  barrier_lem :
      (rest : List ℕ) (fd : k.Fd)
      → file.left fd ≡ barrier_line ++ rest
      → (fd' : k.Fd) × (get_next k fuel fd ≡ ok (cmd_barrier, fd')) × (file.left fd' ≡ rest)
  unfolding get_next
  barrier_lem rest fd e =
      let (ch, after) = read_part k file 1 fd (66 ∷ []) (barrier_tail ++ 10 ∷ rest) refl e in
      let (word, line) = read_part k file 6 _ barrier_tail (10 ∷ rest) refl after in
      let (end, done) = read_part k file 1 _ (10 ∷ []) rest refl line in
      (_, rw (get_next, ch, word, line_end, end) refl, done)

  end_lem :
      (fd : k.Fd)
      → file.left fd ≡ []
      → (fd' : k.Fd) × (get_next k fuel fd ≡ ok (eoc, fd')) × (file.left fd' ≡ [])
  unfolding get_next
  end_lem fd e =
      let empty : (k.read 1 fd).0 ≡ some [] = file.got 1 fd ∙ ap (λ l. some (take 1 l)) e in
      (_, rw (get_next, empty) refl, file.rest 1 fd ∙ ap (drop 1) e)

take_start : (n : ℕ) (xs ys : List ℕ) → length xs ≡ n → take n (xs ++ ys) ≡ xs
take_start n xs ys same = ap (λ i. take i (xs ++ ys)) (sym same) ∙ take-append xs ys

module _ (k : Reader) (file : IsFile k) (strtoul : List ℕ → Run ℕ) (law : IsStrtoul strtoul)
    (fuel max_threads : ℕ) where
  -- A step that takes the command `w` and leaves `rest` of the file.
  abbrev pub Takes : Run (Turn × Shared k) → Work → List ℕ → Type 0
  Takes run w rest =
      (w' : Work) × (s : Shared k) × (run ≡ ok (works w', s))
      × (seen w' ≡ w)
      × (file.left s.job_fd ≡ rest)
      × (s.barrier ≡ false)
      × IsWaits max_threads s.waits

  shown :
      (buf : List ℕ) (fd fd' : k.Fd) (id : List ℕ)
      → Arguments.number k strtoul fuel buf is_end fd ≡ ok (some (value id), fd')
      → Arguments.parse_show k strtoul fuel buf fd ≡ ok (some (value id), fd')
  unfolding Arguments.parse_show
  shown buf fd fd' id run = run

  reads : (n : ℕ) (fd : k.Fd) → (k.read n fd).0 ≢ none
  reads n fd failed = let got = file.got n fd in cc

  inject :
      (wait_option tid delay : ℕ) (s : Shared k)
      → IsWaits max_threads s.waits
      → inject_wait wait_option tid max_threads delay s.waits
        ≡ ok (injected wait_option tid max_threads delay s.waits)
  inject wait_option tid delay s is =
      inject_wait_lem wait_option tid max_threads delay s.waits is.waits is.delays

  add_wait_lem :
      (delay : ℕ) (t : Option ℕ) (s : Shared k) (rest : List ℕ)
      → file.left s.job_fd ≡ rest
      → s.barrier ≡ false
      → IsWaits max_threads s.waits
      → Takes (Turns.add_wait k strtoul fuel max_threads delay t s) Turns.nothing rest
  add_wait_lem delay none s rest left going is = elim (Bool-cases (delay == 0)) [
    | inl no_delay ↦ (Turns.nothing, s, rw no_delay refl, refl, left, going, is)
    | inr some_delay ↦ (
      Turns.nothing,
      record s { waits = (injected 0 0 max_threads delay s.waits).1 },
      rw (some_delay, inject 0 0 delay s is) refl,
      refl,
      left,
      going,
      injected-IsWaits 0 0 max_threads delay s.waits is,
    )
  ]
  add_wait_lem delay (some tid) s rest left going is = elim (Bool-cases (delay == 0)) [
    | inl no_delay ↦ (Turns.nothing, s, rw no_delay refl, refl, left, going, is)
    | inr some_delay ↦ (
      Turns.nothing,
      record s { waits = (injected 1 tid max_threads delay s.waits).1 },
      rw (some_delay, inject 1 tid delay s is) refl,
      refl,
      left,
      going,
      injected-IsWaits 1 tid max_threads delay s.waits is,
    )
  ]

  module _ (m : Stack) (good : IsStack m) (s : Shared k) (going : s.barrier ≡ false)
      (waits : IsWaits max_threads s.waits) (rest : List ℕ) where
    process_lem :
        (e : Entry)
        → IsValid e
        → file.left s.job_fd ≡ tail e rest
        → Takes (process k strtoul fuel max_threads m (command (code (keyword e))) s) (work e) rest
    unfolding process
    process_lem (create l) (id_good, rows_good, cols_good) left =
        let (fd, run, left') =
          parse_create-text k file strtoul law fuel (m.bufs 0) (m.bufs 1) (m.bufs 2) l rest s.job_fd
            left (IsNumber-Fits k file strtoul law fuel m.bufs good.room 0 l.event_id id_good)
            (IsNumber-Fits k file strtoul law fuel m.bufs good.room 1 l.num_rows rows_good)
            (IsNumber-Fits k file strtoul law fuel m.bufs good.room 2 l.num_cols cols_good) in
        let same = (parsers-agree k strtoul fuel reads m.bufs 256 m.xs m.ys true s.job_fd).0 in
        (
          work (create l),
          record s { job_fd = fd },
          rw (sym same ∙ run) refl,
          refl,
          left',
          going,
          waits,
        )
    process_lem (reserve id p ps) (id_good, seats_good, few) left =
        let n = length (p ∷ ps) in
        let (fd, run, left') =
          parse_reserve-text k file strtoul law fuel m.bufs good.room 256 m.xs m.ys id p ps rest
            s.job_fd left id_good seats_good few (omega (arith, good.xs_len))
            (omega (arith, good.ys_len)) in
        let same = (parsers-agree k strtoul fuel reads m.bufs 256 m.xs m.ys true s.job_fd).2 in
        (
          Turns.reserve (value id) n (rows (p ∷ ps) ++ drop n m.xs) (cols (p ∷ ps) ++ drop n m.ys),
          record s { job_fd = fd },
          rw (sym same ∙ run) refl,
          λ i.
              Turns.reserve (value id) n
                (take_start n (rows (p ∷ ps)) (drop n m.xs) (length-rows (p ∷ ps)) i)
                (take_start n (cols (p ∷ ps)) (drop n m.ys) (length-cols (p ∷ ps)) i),
          left',
          going,
          waits,
        )
    process_lem (show id) id_good left =
        let (fd, run, left') =
          number_lem k file strtoul law fuel (m.bufs 0) is_end id 10 rest s.job_fd left
            (IsNumber-Fits k file strtoul law fuel m.bufs good.room 0 id id_good) refl refl in
        let same = (parsers-agree k strtoul fuel reads m.bufs 256 m.xs m.ys true s.job_fd).1 in
        let run' = shown (m.bufs 0) s.job_fd fd id run in
        (
          Turns.show (value id),
          record s { job_fd = fd },
          rw (sym same ∙ run') refl,
          refl,
          left',
          going,
          waits,
        )
    process_lem list valid left = (Turns.list, s, refl, refl, left, going, waits)
    process_lem (wait delay t) (delay_good, t_good) left =
        let (fd, run, left') =
          asked k file strtoul law fuel m.bufs good.room delay t rest s.job_fd left delay_good
            t_good in
        let same = (parsers-agree k strtoul fuel reads m.bufs 256 m.xs m.ys true s.job_fd).3 in
        let (w, s', run', none_seen, after, going', is) =
          add_wait_lem (value delay) (thread true t) (record s { job_fd = fd }) rest left' going
            waits in
        (w, s', rw (sym same ∙ run) run', none_seen, after, going', is)
    process_lem help valid left = (Turns.nothing, s, refl, refl, left, going, waits)
    process_lem blank valid left = (Turns.nothing, s, refl, refl, left, going, waits)

  module _ (m : Stack) (good : IsStack m) (s : Shared k) (going : s.barrier ≡ false)
      (waits : IsWaits max_threads s.waits) where
    -- A turn that starts where a line starts, at the line BARRIER, and at the end of the file.
    pub proceed_lem :
        (e : Entry) (rest : List ℕ)
        → IsValid e
        → file.left s.job_fd ≡ text (keyword e) ++ tail e rest
        → Takes (proceed k strtoul fuel max_threads m s) (work e) rest
    unfolding proceed
    proceed_lem e rest valid left =
        let (fd, run, left₁) = word_lem k file fuel (keyword e) (tail e rest) s.job_fd left in
        let (w, s', run', same, after, going', is) =
          process_lem m good (record s { job_fd = fd }) going waits rest e valid left₁ in
        let started =
          ap
            (λ r. r >>= λ (command, job_fd).
              process k strtoul fuel max_threads m command (record s { job_fd = job_fd }))
            run in
        (w, s', if-false _ _ going ∙ started ∙ run', same, after, going', is)

    pub proceed-barrier :
        (rest : List ℕ)
        → file.left s.job_fd ≡ barrier_line ++ rest
        → (fd : k.Fd) × (proceed k strtoul fuel max_threads m s
            ≡ ok (ends 1, record s { job_fd = fd; barrier = true }))
          × (file.left fd ≡ rest)
    unfolding proceed process
    proceed-barrier rest left =
        let (fd, run, after) = barrier_lem k file fuel rest s.job_fd left in
        (fd, rw (going, run) refl, after)

    pub proceed-end :
        file.left s.job_fd ≡ []
        → (fd : k.Fd) × (proceed k strtoul fuel max_threads m s
            ≡ ok (ends 0, record s { job_fd = fd }))
          × (file.left fd ≡ [])
    unfolding proceed process
    proceed-end left =
        let (fd, run, after) = end_lem k file fuel s.job_fd left in
        (fd, rw (going, run) refl, after)
