-- ===== src/Part1/Turns/Order.antt =====
-- The commands that the threads of a job take from its file, over all orders of their steps.
use so.Base.{
  ℕ, ◌<◌, ◌≡◌, true, false, ◌&&◌, List, [], ◌∷◌, ◌++◌, refl, sym, ap, ◌∙◌, arith, subst, length,
  length-set, ◌==◌, ltb, Bool-cases, inl, inr, ◌⊎◌, get_elem?-lt, set, if-true,
}
use mathlib.Core.Bool.{not}
use mathlib.Core.List.{append_assoc}
use so.Base.Nodes.{Run, ok}
use so.Base.Arrays.{read_at}
use so.Common.Kernel.{Reader, IsFile}
use so.Client.Arguments.Uint.{IsStrtoul}
use so.Part1.Turns.{
  Shared, Stack, IsStack, Turn, sleeps, works, ends, Work, proceed, enter, logged, Threads, Step,
  take_turn, wake, finish, Reach, start, later, after,
}
use so.Part1.Turns.Script.{Entry, script, work, all_work, IsValid, AllValid, barrier_line}
use so.Part1.Turns.Take.{IsWaits, proceed_lem, proceed-barrier, proceed-end}

abbrev ok-turn : {A : Type 0} → A → Run A → A
ok-turn a (ok b) = b
ok-turn a r = a

ok-injective : {A : Type 0} {a b : A} → ok a ≡ ok b → a ≡ b
ok-injective {a = a} e = ap (ok-turn a) e

all_work-append :
    (es : List Entry) (e : Entry) → all_work (es ++ e ∷ []) ≡ all_work es ++ work e ∷ []
all_work-append [] e = refl
all_work-append (d ∷ es) e = ap (λ l. work d ∷ l) (all_work-append es e)

-- What comes behind the lines: nothing, or BARRIER and the rest of the file.
pub data Ending : Type 0 where
  end_of_file : Ending
  barrier : (rest : List ℕ) → Ending

abbrev pub ending_text : Ending → List ℕ
ending_text end_of_file = []
ending_text (barrier rest) = barrier_line ++ rest

valid_at :
    (es done : List Entry) (e : Entry) (todo : List Entry)
    → es ≡ done ++ e ∷ todo
    → AllValid es
    → IsValid e
valid_at es done e todo same valid = part done (subst AllValid same valid)
  where
    part : (done : List Entry) → AllValid (done ++ e ∷ todo) → IsValid e
    part [] all = all.0
    part (d ∷ ds) all = part ds all.1

module _ (k : Reader) (file : IsFile k) (max_threads : ℕ) (ending : Ending) where
  -- The file before BARRIER, and after it.
  abbrev pub Stands : Shared k → List Entry → Type 0
  Stands s todo =
      ((s.barrier ≡ false) × (file.left s.job_fd ≡ script todo (ending_text ending)))
      ⊎ ((s.barrier ≡ true)
          × (todo ≡ [])
          × ((more : List ℕ) × (ending ≡ barrier more) × (file.left s.job_fd ≡ more)))

  -- `todo` are the lines that no thread has taken yet.
  pub record InOrder (s : Shared k) (log : List Work) (es : List Entry) : Type 0 where
    pub done : List Entry
    pub todo : List Entry
    pub lines : es ≡ done ++ todo
    pub taken : log ≡ all_work done
    pub stands : Stands s todo
    pub waits : IsWaits max_threads s.waits

  -- A turn that ends, and keeps the order.
  abbrev pub Keeps : Run (Turn × Shared k) → List Work → List Entry → Type 0
  Keeps run log es =
      (turn : Turn) × (s : Shared k) × (run ≡ ok (turn, s)) × InOrder s (logged turn log) es

module _ (k : Reader) (file : IsFile k) (strtoul : List ℕ → Run ℕ) (law : IsStrtoul strtoul)
    (fuel max_threads : ℕ) (m : Stack) (good : IsStack m) (s : Shared k) (log : List Work)
    (es : List Entry) (valid : AllValid es) where
  abbrev go : Run (Turn × Shared k)
  go = proceed k strtoul fuel max_threads m s

  behind_barrier : s.barrier ≡ true → go ≡ ok (ends 1, s)
  unfolding proceed
  behind_barrier raised = if-true _ _ raised

  proceed-open :
      (ending : Ending) (done todo : List Entry)
      → es ≡ done ++ todo
      → log ≡ all_work done
      → IsWaits max_threads s.waits
      → s.barrier ≡ false
      → file.left s.job_fd ≡ script todo (ending_text ending)
      → Keeps k file max_threads ending go log es
  proceed-open end_of_file done [] lines taken waits going left =
      let (fd, run, after) =
        proceed-end k file strtoul law fuel max_threads m good s going waits left in
      (
        ends 0,
        record s { job_fd = fd },
        run,
        record {
          done = done;
          todo = [];
          lines = lines;
          taken = taken;
          stands = inl (going, after);
          waits = waits;
        },
      )
  proceed-open (barrier more) done [] lines taken waits going left =
      let (fd, run, after) =
        proceed-barrier k file strtoul law fuel max_threads m good s going waits more left in
      (
        ends 1,
        record s { job_fd = fd; barrier = true },
        run,
        record {
          done = done;
          todo = [];
          lines = lines;
          taken = taken;
          stands = inr (refl, refl, (more, refl, after));
          waits = waits;
        },
      )
  proceed-open ending done (e ∷ todo) lines taken waits going left =
      let (w, s', run, same, after, going', waits') =
        proceed_lem k file strtoul law fuel max_threads m good s going waits e
          (script todo (ending_text ending)) (valid_at es done e todo lines valid) left in
      (
        works w,
        s',
        run,
        record {
          done = done ++ e ∷ [];
          todo = todo;
          lines = lines ∙ sym (append_assoc done (e ∷ []) todo);
          taken = (λ i. taken i ++ same i ∷ []) ∙ sym (all_work-append done e);
          stands = inl (going', after);
          waits = waits';
        },
      )

  proceed-Keeps :
      (ending : Ending)
      → InOrder k file max_threads ending s log es
      → Keeps k file max_threads ending go log es
  proceed-Keeps ending order = elim order.stands [
    | inl (going, left) ↦
        proceed-open ending order.done order.todo order.lines order.taken order.waits going left
    | inr (raised, none_left, rest) ↦ (ends 1, s, behind_barrier raised, order)
  ]

  enter-Keeps :
      (ending : Ending) (tid : ℕ)
      → tid < max_threads
      → InOrder k file max_threads ending s log es
      → Keeps k file max_threads ending (enter k strtoul fuel max_threads tid m s) log es
  unfolding enter
  enter-Keeps ending tid low order =
      let ws = s.waits.thread_waits in
      let ds = s.waits.thread_delays in
      let (w, at) = get_elem?-lt ws tid (omega (arith, order.waits.waits)) in
      let (d, at_delay) = get_elem?-lt ds tid (omega (arith, order.waits.delays)) in
      let (turn, s', run, order') = proceed-Keeps ending order in
      elim (Bool-cases (not (w == 0) && not s.barrier)) [
        | inr on ↦ (turn, s', rw (read_at, at, on) run, order')
        | inl waiting ↦
            let fits_waits : ltb tid (length ws) ≡ true = ground (arith, order.waits.waits) in
            let fits_delays : ltb tid (length ds) ≡ true = ground (arith, order.waits.delays) in
            (
              sleeps d,
              record s {
                waits = record { thread_waits = set ws tid 0; thread_delays = set ds tid 0 };
              },
              rw (read_at, at, waiting, fits_waits, at_delay, fits_delays) refl,
              record {
                done = order.done;
                todo = order.todo;
                lines = order.lines;
                taken = order.taken;
                stands = order.stands;
                waits = record {
                  waits = length-set ws tid 0 ∙ order.waits.waits;
                  delays = length-set ds tid 0 ∙ order.waits.delays;
                };
              },
            )
      ]

module _ (k : Reader) (file : IsFile k) (strtoul : List ℕ → Run ℕ) (law : IsStrtoul strtoul)
    (fuel max_threads : ℕ) (ending : Ending) (es : List Entry) (valid : AllValid es) where
  -- A turn with a given end.
  kept :
      (run : Run (Turn × Shared k)) (log : List Work) (turn : Turn) (s : Shared k)
      → run ≡ ok (turn, s)
      → Keeps k file max_threads ending run log es
      → InOrder k file max_threads ending s (logged turn log) es
  kept run log turn s ran (turn', s', ran', order) =
      subst (λ r. InOrder k file max_threads ending r.1 (logged r.0 log) es)
        (ok-injective (sym ran' ∙ ran)) order

  Step-InOrder :
      (t u : Threads k)
      → InOrder k file max_threads ending t.shared t.log es
      → Step k strtoul fuel max_threads t u
      → InOrder k file max_threads ending u.shared u.log es
  Step-InOrder t _ order (take_turn tid m {turn} {s} low good at ran) = kept _ t.log turn s ran (
      enter-Keeps k file strtoul law fuel max_threads m good t.shared t.log es valid ending tid low
        order)
  Step-InOrder t _ order (wake tid m {turn} {s} low good at ran) = kept _ t.log turn s ran (
      proceed-Keeps k file strtoul law fuel max_threads m good t.shared t.log es valid ending order)
  Step-InOrder t _ order (finish tid at) = order

  kept_order :
      (t u : Threads k)
      → InOrder k file max_threads ending t.shared t.log es
      → Reach k strtoul fuel max_threads t u
      → InOrder k file max_threads ending u.shared u.log es
  kept_order t _ order start = order
  kept_order t v order (later {u} r step) = Step-InOrder u v (kept_order t u order r) step

  -- With the promise of `strtoul`, on a regular file of valid lines that is then at its end or goes on
  -- with BARRIER: whatever steps the threads of a job have taken, in any order, the commands that they
  -- took are the first lines, each once and in order; the file stands at the next line, or, once the
  -- barrier is up, directly behind BARRIER, when all lines before it are taken. The turn that any
  -- thread takes next ends without a fault, and this holds after it.
  pub Reach-InOrder :
      (t u : Threads k) (tid : ℕ) (m : Stack)
      → t.log ≡ []
      → t.shared.barrier ≡ false
      → file.left t.shared.job_fd ≡ script es (ending_text ending)
      → IsWaits max_threads t.shared.waits
      → Reach k strtoul fuel max_threads t u
      → tid < max_threads
      → IsStack m
      → InOrder k file max_threads ending u.shared u.log es
        × Keeps k file max_threads ending (enter k strtoul fuel max_threads tid m u.shared) u.log es
  Reach-InOrder t u tid m fresh going left waits r low good =
      let order =
        kept_order t u
          (record {
            done = [];
            todo = es;
            lines = refl;
            taken = fresh;
            stands = inl (going, left);
            waits = waits;
          })
          r in
      (
        order,
        enter-Keeps k file strtoul law fuel max_threads m good u.shared u.log es valid ending tid
            low order,
      )
