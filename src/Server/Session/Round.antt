-- ===== src/Server/Session/Round.antt =====
-- One round of `handle_requests` on pipes that work, against the abstract server.
use so.Base.{ℕ, ◌<◌, ◌≡◌, Bool, List, ◌++◌, refl, ap, ◌∙◌, arith, length, take}
use mathlib.Core.List.{append_assoc}
use so.Base.Nodes.{ok}
use so.Common.Bytes.{encode, decode, overwrite, length-encode}
use so.Common.Kernel.{Reader, Writer}
use so.Common.Io.Whole.{IsSource, IsSink}
use so.Common.Protocol.{Request, create, reserve, show, list, operands, op_code, message, Fits}
use so.Server.Store.{Event}
use so.Server.Database.{IsSound}
use so.Server.Operations.{Ems}
use so.Server.Operations.State.{Repr}
use so.Server.Operations.NewEvent.{IsFresh}
use so.Server.Output.Show.{shown, ems_show_lem}
use so.Server.Output.Events.{listed, ems_list_events_lem}
use so.Base.Outcome.{next}
use so.Server.Session.{Locals, Session, Answers, run_show, show_case, list_case, switch, round}
use so.Server.Session.Request.{answer}
use so.Server.Session.Writes.{after_code, Replies, create_case_lem, reserve_case_lem}
use so.Server.Session.Fields.{decode-overwrite, read_field_lem, reply_lem}

op_code-lt : (q : Request) → op_code q < 256
op_code-lt (create id rows cols) = omega arith
op_code-lt (reserve id n xs ys) = omega arith
op_code-lt (show id) = omega arith
op_code-lt list = omega arith

module _ (k : Reader) (w : Writer) (is_epipe : w.Fd → Bool) (source : IsSource k)
    (sink : IsSink w) where
  module _ (fuel : ℕ) (os : Answers) (s : Session k w) (vs : List Event) (r : Repr s.ems vs)
      (sound : IsSound vs) (h : length vs < fuel) (rest : List ℕ) where
    show_case_lem :
        (id : ℕ)
        → source.lawful.left s.req ≡ operands (show id) ++ rest
        → Fits (show id)
        → Replies k w is_epipe source sink
            (show_case k w is_epipe fuel os s)
            s
            rest
            (answer os (show id) vs)
    unfolding show_case
    show_case_lem id e id_fits =
        let (req₁, run₁, left₁) =
          read_field_lem k w is_epipe source sink 4 (λ l. l.event_id)
            (λ b l. record l { event_id = b }) (encode 4 id) rest s e (length-encode 4 id)
            (omega arith) in
        let l₁ : Locals = record s.locals {
          event_id = overwrite (encode 4 id) s.locals.event_id;
        } in
        let id_read = decode-overwrite 4 id s.locals.event_id id_fits in
        let (fd, m', ran, shows, repr) =
          ems_show_lem w sink fuel id s.resp s.ems vs r h os.rdlock sound in
        let (resp, run₂, sent) =
          reply_lem k w is_epipe source sink (shown os.rdlock id vs).0
            (record s { ems = m'; resp = fd; req = req₁; locals = l₁ }) in
        (
          record s { ems = m'; req = req₁; resp = resp; locals = l₁ },
          rw (run₁, run_show, id_read, ran, run₂) refl,
          left₁,
          after_code _ _ _ (shown os.rdlock id vs) sent shows,
          repr,
          sound,
          refl,
        )

    list_case_lem :
        source.lawful.left s.req ≡ rest
        → Replies k w is_epipe source sink
            (list_case k w is_epipe fuel os s)
            s
            rest
            (answer os list vs)
    unfolding list_case
    list_case_lem e =
        let (fd, m', ran, lists, repr) =
          ems_list_events_lem w sink fuel s.resp s.ems vs r os.rdlock h in
        let (resp, run, sent) =
          reply_lem k w is_epipe source sink (listed os.rdlock vs).0
            (record s { ems = m'; resp = fd }) in
        (
          record s { ems = m'; resp = resp },
          rw (ran, run) refl,
          e,
          after_code _ _ _ (listed os.rdlock vs) sent lists,
          repr,
          sound,
          refl,
        )

    switch_lem :
        (q : Request)
        → source.lawful.left s.req ≡ operands q ++ rest
        → Fits q
        → IsFresh os.create s.ems.store
        → Replies k w is_epipe source sink
            (switch k w is_epipe fuel os (op_code q) s)
            s
            rest
            (answer os q vs)
    unfolding switch
    switch_lem (create id rows cols) e fits fresh =
        create_case_lem k w is_epipe source sink fuel os s vs r sound h rest id rows cols e fits
          fresh
    switch_lem (reserve id n xs ys) e fits fresh =
        reserve_case_lem k w is_epipe source sink fuel os s vs r sound h rest id n xs ys e fits
    switch_lem (show id) e fits fresh = show_case_lem id e fits
    switch_lem list e fits fresh = list_case_lem e

  -- On pipes that work, in an initialised state of a sound database, with fuel for its events: when
  -- the request pipe goes on with the message of a request whose numbers fit, and malloc returns
  -- addresses that are not in use, a round of `handle_requests` ends without a fault, reads exactly
  -- the message, and sends the reply and leaves the database of the abstract server.
  pub round_lem :
      (fuel : ℕ) (os : Ems → Answers) (s : Session k w) (vs : List Event) (q : Request)
      (rest : List ℕ)
      → Repr s.ems vs
      → IsSound vs
      → length vs < fuel
      → source.lawful.left s.req ≡ message q ++ rest
      → Fits q
      → IsFresh (os s.ems).create s.ems.store
      → (s' : Session k w) × (round k w is_epipe fuel os s ≡ ok (next s'))
        × (source.lawful.left s'.req ≡ rest)
        × (sink.lawful.sent s'.resp ≡ sink.lawful.sent s.resp ++ (answer (os s.ems) q vs).0)
        × Repr s'.ems (answer (os s.ems) q vs).1
        × IsSound (answer (os s.ems) q vs).1
        × (decode (take 1 s'.locals.op) ≡ op_code q)
  unfolding round
  round_lem fuel os s vs q rest r sound h e fits fresh =
      let (req, run, left) =
        read_field_lem k w is_epipe source sink 1 (λ l. l.op) (λ b l. record l { op = b })
          (encode 1 (op_code q)) (operands q ++ rest) s
          (e ∙ append_assoc (encode 1 (op_code q)) (operands q) rest) (length-encode 1 (op_code q))
          (omega arith) in
      let l : Locals = record s.locals { op = overwrite (encode 1 (op_code q)) s.locals.op } in
      let op_read = decode-overwrite 1 (op_code q) s.locals.op (op_code-lt q) in
      let (s', ran, left', sent, repr, sound', same) =
        switch_lem fuel (os s.ems) (record s { req = req; locals = l }) vs r sound h rest q left
          fits fresh in
      (
        s',
        rw (run, op_read, ran) refl,
        left',
        sent,
        repr,
        sound',
        ap (λ b. decode (take 1 b)) same ∙ op_read,
      )
