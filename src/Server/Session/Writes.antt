-- ===== src/Server/Session/Writes.antt =====
-- CREATE and RESERVE in a round of `handle_requests` on pipes that work, against the abstract server.
use so.Base.{ℕ, ◌*◌, ◌<◌, ◌≡◌, Bool, List, [], ◌∷◌, ◌++◌, refl, ap, ◌∙◌, arith, length}
use mathlib.Core.List.{append_assoc}
use so.Base.Nodes.{Run, ok}
use so.Common.Bytes.{encode, encode_all, overwrite, length-encode, length-encode_all}
use so.Common.Kernel.{Reader, Writer}
use so.Common.Io.Whole.{IsSource, IsSink}
use so.Common.Protocol.{create, reserve, operands, Fits}
use so.Server.Store.{Event}
use so.Server.Seats.Request.{request}
use so.Server.Database.{IsSound}
use so.Server.Invariant.{created-IsSound, reserved_in-IsSound}
use so.Server.Operations.State.{Repr}
use so.Server.Operations.NewEvent.{IsFresh}
use so.Server.Operations.Create.{created, ems_create_lem}
use so.Server.Operations.Reserve.{reserved_in, ems_reserve_lem}
use so.Base.Outcome.{Outcome, next}
use so.Server.Session.{Locals, Session, Answers, run_create, run_reserve, create_case, reserve_case}
use so.Server.Session.Request.{answer, with_code}
use so.Server.Session.Fields.{decode-overwrite, decode_all-overwrite, read_field_lem, reply_lem}

-- What is sent by a command that sends something itself and by the reply that follows.
pub after_code :
    (before middle after : List ℕ) (result : ℕ × List ℕ)
    → after ≡ middle ++ encode 4 result.0
    → middle ≡ before ++ result.1
    → after ≡ before ++ with_code result
after_code before middle after result e f =
    e ∙ ap (λ l. l ++ encode 4 result.0) f ∙ append_assoc before result.1 (encode 4 result.0)

module _ (k : Reader) (w : Writer) (is_epipe : w.Fd → Bool) (source : IsSource k)
    (sink : IsSink w) where
  -- A run that goes on, with `rest` left to read, the reply sent and a state of the events.
  abbrev pub Replies :
      Run (Outcome (Session k w)) → Session k w → List ℕ → List ℕ × List Event → Type 0
  Replies run s rest (bytes, vs) =
      (s' : Session k w) × (run ≡ ok (next s'))
      × (source.lawful.left s'.req ≡ rest)
      × (sink.lawful.sent s'.resp ≡ sink.lawful.sent s.resp ++ bytes)
      × Repr s'.ems vs
      × IsSound vs
      × (s'.locals.op ≡ s.locals.op)

  module _ (fuel : ℕ) (os : Answers) (s : Session k w) (vs : List Event) (r : Repr s.ems vs)
      (sound : IsSound vs) (h : length vs < fuel) (rest : List ℕ) where
    pub create_case_lem :
        (id rows cols : ℕ)
        → source.lawful.left s.req ≡ operands (create id rows cols) ++ rest
        → Fits (create id rows cols)
        → IsFresh os.create s.ems.store
        → Replies (create_case k w is_epipe fuel os s) s rest (answer os (create id rows cols) vs)
    unfolding create_case
    create_case_lem id rows cols e (id_fits, rows_fit, cols_fit, seats_fit) fresh =
        let matrix = encode_all 8 (rows ∷ cols ∷ []) in
        let (req₁, run₁, left₁) =
          read_field_lem k w is_epipe source sink 4 (λ l. l.event_id)
            (λ b l. record l { event_id = b }) (encode 4 id) (matrix ++ rest) s
            (e ∙ append_assoc (encode 4 id) matrix rest) (length-encode 4 id) (omega arith) in
        let l₁ : Locals = record s.locals {
          event_id = overwrite (encode 4 id) s.locals.event_id;
        } in
        let (req₂, run₂, left₂) =
          read_field_lem k w is_epipe source sink 16 (λ l. l.num_matrix)
            (λ b l. record l { num_matrix = b }) matrix rest (record s { req = req₁; locals = l₁ })
            left₁ (length-encode_all 8 (rows ∷ cols ∷ [])) (omega arith) in
        let l₂ : Locals = record l₁ { num_matrix = overwrite matrix s.locals.num_matrix } in
        let id_read = decode-overwrite 4 id s.locals.event_id id_fits in
        let matrix_read =
          decode_all-overwrite 8 2 (rows ∷ cols ∷ []) s.locals.num_matrix refl
            (rows_fit, (cols_fit, tt)) in
        let (m', ran, repr) = ems_create_lem fuel os.create id rows cols s.ems vs r h fresh in
        let (resp, run₃, sent) =
          reply_lem k w is_epipe source sink (created os.create id rows cols vs).0
            (record s { ems = m'; req = req₂; locals = l₂ }) in
        (
          record s { ems = m'; req = req₂; resp = resp; locals = l₂ },
          rw (run₁, run₂, run_create, matrix_read, id_read, ran, run₃) refl,
          left₂,
          sent,
          repr,
          created-IsSound os.create id rows cols vs seats_fit sound,
          refl,
        )

    pub reserve_case_lem :
        (id n : ℕ) (xs ys : List ℕ)
        → source.lawful.left s.req ≡ operands (reserve id n xs ys) ++ rest
        → Fits (reserve id n xs ys)
        → Replies (reserve_case k w is_epipe fuel os s) s rest (answer os (reserve id n xs ys) vs)
    unfolding reserve_case
    reserve_case_lem id n xs ys e (id_fits, few, x_len, y_len, xs_fit, ys_fit) =
        let bx = encode_all 8 xs in
        let by = encode_all 8 ys in
        let start =
          e
          ∙ append_assoc (encode 4 id) (encode 8 n ++ (bx ++ by)) rest
          ∙ ap (λ b. encode 4 id ++ b)
              (append_assoc (encode 8 n) (bx ++ by) rest
                ∙ ap (λ b. encode 8 n ++ b) (append_assoc bx by rest)) in
        let (req₁, run₁, left₁) =
          read_field_lem k w is_epipe source sink 4 (λ l. l.event_id)
            (λ b l. record l { event_id = b }) (encode 4 id) (encode 8 n ++ (bx ++ (by ++ rest))) s
            start (length-encode 4 id) (omega arith) in
        let l₁ : Locals = record s.locals {
          event_id = overwrite (encode 4 id) s.locals.event_id;
        } in
        let (req₂, run₂, left₂) =
          read_field_lem k w is_epipe source sink 8 (λ l. l.num_seats)
            (λ b l. record l { num_seats = b }) (encode 8 n) (bx ++ (by ++ rest))
            (record s { req = req₁; locals = l₁ }) left₁ (length-encode 8 n) (omega arith) in
        let l₂ : Locals = record l₁ { num_seats = overwrite (encode 8 n) s.locals.num_seats } in
        let (req₃, run₃, left₃) =
          read_field_lem k w is_epipe source sink 2048 (λ l. l.xs) (λ b l. record l { xs = b }) bx
            (by ++ rest) (record s { req = req₂; locals = l₂ }) left₂
            (length-encode_all 8 xs ∙ ap (λ m. m * 8) x_len) (omega arith) in
        let l₃ : Locals = record l₂ { xs = overwrite bx s.locals.xs } in
        let (req₄, run₄, left₄) =
          read_field_lem k w is_epipe source sink 2048 (λ l. l.ys) (λ b l. record l { ys = b }) by
            rest (record s { req = req₃; locals = l₃ }) left₃
            (length-encode_all 8 ys ∙ ap (λ m. m * 8) y_len) (omega arith) in
        let l₄ : Locals = record l₃ { ys = overwrite by s.locals.ys } in
        let (m', ran, repr) =
          ems_reserve_lem fuel os.reserve id n xs ys s.ems vs r h sound (omega arith)
            (omega arith) in
        let id_read = decode-overwrite 4 id s.locals.event_id id_fits in
        let n_read = decode-overwrite 8 n s.locals.num_seats (omega arith) in
        let xs_read = decode_all-overwrite 8 256 xs s.locals.xs x_len xs_fit in
        let ys_read = decode_all-overwrite 8 256 ys s.locals.ys y_len ys_fit in
        let (resp, run₅, sent) =
          reply_lem k w is_epipe source sink (reserved_in os.reserve id (request n xs ys) vs).0
            (record s { ems = m'; req = req₄; locals = l₄ }) in
        (
          record s { ems = m'; req = req₄; resp = resp; locals = l₄ },
          rw (run₁, run₂, run₃, run₄, run_reserve, id_read, n_read, xs_read, ys_read, ran, run₅)
              refl,
          left₄,
          sent,
          repr,
          reserved_in-IsSound os.reserve id (request n xs ys) vs sound,
          refl,
        )
