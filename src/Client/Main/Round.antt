-- ===== src/Client/Main/Round.antt =====
-- One line of a .jobs file in the loop of Part2/src/client/main.c, on pipes and files that work.
use so.Base.{
  ℕ, suc, ◌*◌, ◌<◌, ◌≡◌, Bool, false, List, [], ◌∷◌, ◌++◌, refl, sym, ap, ◌∙◌, arith, length,
  length-append, drop, length-drop,
}
use mathlib.Core.List.{append-nil}
use so.Base.Nodes.{Run, ok}
use so.Base.Outcome.{Outcome, next}
use so.Common.Kernel.{Reader, Writer, IsFile}
use so.Common.Io.Whole.{IsSource, IsSink}
use so.Client.Parser.Word.{code}
use so.Client.Arguments.{is_end, parse_show}
use so.Client.Arguments.Uint.{value, IsStrtoul}
use so.Client.Arguments.Create.{number_lem, parse_create-text}
use so.Client.Reservation.Seats.{Seat, rows, cols, IsNumber-Fits}
use so.Client.Reservation.Text.{parse_reserve-text}
use so.Client.Reservation.Wait.{delay_only}
use so.Client.Api.Request.{ems_create-message, ems_reserve-message}
use so.Client.Api.Shown.{ems_show-grid}
use so.Client.Api.Listed.{ems_list_events-lines}
use so.Client.Main.{Memory, Jobs, execute}
use so.Client.Main.Script.{
  Entry, create, reserve, show, list, wait, help, blank, keyword, tail, sends, answered, prints,
  IsValid, IsMemory,
}

pub length-rows : (ps : List Seat) → length (rows ps) ≡ length ps
length-rows [] = refl
length-rows (p ∷ ps) = ap suc (length-rows ps)

pub length-cols : (ps : List Seat) → length (cols ps) ≡ length ps
length-cols [] = refl
length-cols (p ∷ ps) = ap suc (length-cols ps)

-- An array with new values at its start keeps its length.
length-written :
    (n m : ℕ) (vs array : List ℕ)
    → length vs ≡ n
    → length array ≡ m
    → n < m
    → length (vs ++ drop n array) ≡ m
length-written n m vs array same len h =
    omega (arith, length-append vs (drop n array), length-drop n array)

module _ (f : Reader) (k : Reader) (w : Writer) (o : Writer) (jobs : IsFile f) (source : IsSource k)
    (sink : IsSink w) (file : IsSink o) (strtoul : List ℕ → Run ℕ) (law : IsStrtoul strtoul)
    (sprintf : ℕ → List ℕ) (unlink_req unlink_resp : Bool) where
  -- A round that goes on, with what is left of the .jobs file and of the answers, what it sent and
  -- what it printed.
  abbrev pub Advances :
      Run (Outcome (Jobs f k w o)) → Jobs f k w o → (lines replies bytes text : List ℕ) → Type 0
  Advances run j lines replies bytes text =
      (j' : Jobs f k w o) × (run ≡ ok (next j'))
      × (jobs.left j'.in_fd ≡ lines)
      × (source.lawful.left j'.client.resp ≡ replies)
      × (sink.lawful.sent j'.client.req ≡ sink.lawful.sent j.client.req ++ bytes)
      × (file.lawful.sent j'.client.out ≡ file.lawful.sent j.client.out ++ text)

  module _ (fuel : ℕ) (mem : Memory) (good : IsMemory mem) (j : Jobs f k w o)
      (lines replies : List ℕ) where
    idle :
        jobs.left j.in_fd ≡ lines
        → source.lawful.left j.client.resp ≡ replies
        → Advances (ok (next j)) j lines replies [] []
    idle text reply = (
      j,
      refl,
      text,
      reply,
      sym (append-nil (sink.lawful.sent j.client.req)),
      sym (append-nil (file.lawful.sent j.client.out)),
    )

    pub execute_lem :
        (e : Entry)
        → IsValid e
        → jobs.left j.in_fd ≡ tail e lines
        → source.lawful.left j.client.resp ≡ answered e replies
        → Advances
            (execute f k w o strtoul sprintf unlink_req unlink_resp fuel mem (code (keyword e)) j)
            j
            lines
            replies
            (sends mem e)
            (prints sprintf e)
    unfolding execute parse_show
    execute_lem (create l code) (id_good, rows_good, cols_good, small) text reply =
        let (fd, run₁, left) =
          parse_create-text f jobs strtoul law fuel (mem.bufs 0) (mem.bufs 1) (mem.bufs 2) l lines
            j.in_fd text
            (IsNumber-Fits f jobs strtoul law fuel mem.bufs good.room 0 l.event_id id_good)
            (IsNumber-Fits f jobs strtoul law fuel mem.bufs good.room 1 l.num_rows rows_good)
            (IsNumber-Fits f jobs strtoul law fuel mem.bufs good.room 2 l.num_cols cols_good) in
        let (c', run₂, sent, rest, same) =
          ems_create-message k w o source sink file j.client code replies reply small
            (value l.event_id) (value l.num_rows) (value l.num_cols) in
        (
          record { in_fd = fd; client = c' },
          rw (run₁, run₂) refl,
          left,
          rest,
          sent,
          ap file.lawful.sent same ∙ sym (append-nil (file.lawful.sent j.client.out)),
        )
    execute_lem (reserve id p ps code) (id_good, seats_good, few, small) text reply =
        let n = length (p ∷ ps) in
        let xs = rows (p ∷ ps) ++ drop n mem.xs in
        let ys = cols (p ∷ ps) ++ drop n mem.ys in
        let (fd, run₁, left) =
          parse_reserve-text f jobs strtoul law fuel mem.bufs good.room 256 mem.xs mem.ys id p ps
            lines j.in_fd text id_good seats_good few (omega (arith, good.xs_len))
            (omega (arith, good.ys_len)) in
        let (c', run₂, sent, rest, same) =
          ems_reserve-message k w o source sink file j.client code replies reply small (value id) n
            xs ys
            (length-written n 256 (rows (p ∷ ps)) mem.xs (length-rows (p ∷ ps)) good.xs_len few)
            (length-written n 256 (cols (p ∷ ps)) mem.ys (length-cols (p ∷ ps)) good.ys_len few) in
        (
          record { in_fd = fd; client = c' },
          rw (run₁, run₂) refl,
          left,
          rest,
          sent,
          ap file.lawful.sent same ∙ sym (append-nil (file.lawful.sent j.client.out)),
        )
    execute_lem (show id num_rows num_cols seats code)
          (id_good, rows_fit, cols_fit, fits, full, seats_small, small) text reply =
        let (fd, run₁, left) =
          number_lem f jobs strtoul law fuel (mem.bufs 0) is_end id 10 lines j.in_fd text
            (IsNumber-Fits f jobs strtoul law fuel mem.bufs good.room 0 id id_good) refl refl in
        let (block, alloc, sized) = good.memory (4 * (num_rows * num_cols)) in
        let (c', run₂, sent, printed, rest) =
          ems_show-grid k w o source sink file sprintf mem.malloc block num_rows num_cols seats code
            replies full fits seats_small alloc sized small rows_fit cols_fit (value id)
            mem.num_matrix j.client reply in
        (record { in_fd = fd; client = c' }, rw (run₁, run₂) refl, left, rest, sent, printed)
    execute_lem (list ids code) (fits, ids_small, small) text reply =
        let (block, alloc, sized) = good.memory (4 * length ids) in
        let (c', run, sent, printed, rest) =
          ems_list_events-lines k w o source sink file sprintf mem.malloc block ids code replies
            fits ids_small alloc sized small j.client reply in
        (record j { client = c' }, rw run refl, text, rest, sent, printed)
    execute_lem (wait delay) delay_good text reply =
        let (fd, run, left) =
          delay_only f jobs strtoul law fuel mem.bufs good.room false delay lines j.in_fd text
            delay_good in
        (
          record j { in_fd = fd },
          rw run refl,
          left,
          reply,
          sym (append-nil (sink.lawful.sent j.client.req)),
          sym (append-nil (file.lawful.sent j.client.out)),
        )
    execute_lem help valid text reply = idle text reply
    execute_lem blank valid text reply = idle text reply
