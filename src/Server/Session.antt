-- ===== src/Server/Session.antt =====
-- `handle_requests` of Part2/src/server/sessions.c: the requests of one client. The two pipes are
-- any reader and writer; `is_epipe` says whether errno is EPIPE after a write that failed. What the
-- C library answers in a round is a function of the round and of the state.
pub mod Request
pub mod Fields
pub mod Writes
pub mod Round
pub mod Prefix
pub mod Conversation
pub mod Closed
use so.Base.{
  ℕ, zero, suc, ◌+◌, Bool, true, false, Option, none, some, List, [], ◌∷◌, ◌==◌, if◌then◌else◌,
  take,
}
use mathlib.Core.Bool.{not}
use so.Base.Nodes.{Run, ok, fault, out_of_fuel}
use so.Base.Nodes
use so.Base.Outcome.{Outcome, returned, next, ◌>>=◌}
use so.Common.Bytes.{encode, decode, decode_all, overwrite}
use so.Common.Kernel.{Reader, Writer}
use so.Common.Io.{safe_read}
use so.Server.Operations.{Ems, CreateResources, ReserveResources, ems_create, ems_reserve}
use so.Server.Output.{send, ems_show, ems_list_events}

-- The values of OpCodes and of the result.
abbrev pub op_none : ℕ
op_none = 0

abbrev pub op_quit : ℕ
op_quit = 2

abbrev pub op_create : ℕ
op_create = 3

abbrev pub op_reserve : ℕ
op_reserve = 4

abbrev pub op_show : ℕ
op_show = 5

abbrev pub op_list : ℕ
op_list = 6

abbrev pub client_success : ℕ
client_success = 0

abbrev pub client_failed : ℕ
client_failed = 1

abbrev pub client_unresponsive : ℕ
client_unresponsive = 2

-- The memory of the local variables, as bytes. A short read leaves the rest of a variable alone.
pub record Locals : Type 0 where
  pub op : List ℕ
  pub event_id : List ℕ
  pub num_matrix : List ℕ
  pub num_seats : List ℕ
  pub xs : List ℕ
  pub ys : List ℕ

pub record Answers : Type 0 where
  pub create : CreateResources
  pub reserve : ReserveResources
  pub rdlock : Bool

pub record Session (k : Reader) (w : Writer) : Type 0 where
  pub ems : Ems
  pub req : k.Fd
  pub resp : w.Fd
  pub locals : Locals

module _ (k : Reader) (w : Writer) (is_epipe : w.Fd → Bool) where
  -- `safe_read(req_fd, &x, n)` with the tests of its result, where `get` and `put` are the variable.
  unfoldable pub read_field :
      ℕ → (Locals → List ℕ) → (List ℕ → Locals → Locals) → Session k w → Run (Outcome (Session k w))
  read_field n get put s = Nodes.◌>>=◌ (safe_read k (suc n) n s.req) λ (r, req).
      let s₁ = record s { req = req } in
      elim r [
        | none ↦ ok (returned client_failed s₁)
        | some [] ↦ ok (returned client_unresponsive s₁)
        | some (b ∷ bs) ↦
            ok (next (record s₁ { locals = put (overwrite (b ∷ bs) (get s.locals)) s.locals }))
      ]

  abbrev pub read_op : Session k w → Run (Outcome (Session k w))
  read_op = read_field 1 (λ l. l.op) (λ b l. record l { op = b })

  abbrev pub read_event_id : Session k w → Run (Outcome (Session k w))
  read_event_id = read_field 4 (λ l. l.event_id) (λ b l. record l { event_id = b })

  abbrev pub read_num_matrix : Session k w → Run (Outcome (Session k w))
  read_num_matrix = read_field 16 (λ l. l.num_matrix) (λ b l. record l { num_matrix = b })

  abbrev pub read_num_seats : Session k w → Run (Outcome (Session k w))
  read_num_seats = read_field 8 (λ l. l.num_seats) (λ b l. record l { num_seats = b })

  abbrev pub read_xs : Session k w → Run (Outcome (Session k w))
  read_xs = read_field 2048 (λ l. l.xs) (λ b l. record l { xs = b })

  abbrev pub read_ys : Session k w → Run (Outcome (Session k w))
  read_ys = read_field 2048 (λ l. l.ys) (λ b l. record l { ys = b })

  -- The response status goes to the client.
  unfoldable pub reply : ℕ → Session k w → Run (Outcome (Session k w))
  reply response_status s = Nodes.◌>>=◌ (send w (encode 4 response_status) s.resp) λ (r, resp).
      let s₁ = record s { resp = resp } in
      elim r [
        | none ↦ ok (returned (if is_epipe resp then client_unresponsive else client_failed) s₁)
        | some n ↦ ok (next s₁)
      ]

  abbrev pub run_create : ℕ → Answers → Session k w → Run (Outcome (Session k w))
  run_create fuel os s =
      let id = decode (take 4 s.locals.event_id) in
      let matrix = decode_all 8 2 s.locals.num_matrix in
      elim matrix [
        | rows ∷ cols ∷ [] ↦
            Nodes.◌>>=◌ (ems_create fuel os.create id rows cols s.ems)
              λ (code, ems). reply code (record s { ems = ems })
        | _ ↦ fault
      ]

  unfoldable pub create_case : ℕ → Answers → Session k w → Run (Outcome (Session k w))
  unfolding read_field reply
  create_case fuel os s = do s₁ ← read_event_id s; s₂ ← read_num_matrix s₁; run_create fuel os s₂

  abbrev pub run_reserve : ℕ → Answers → Session k w → Run (Outcome (Session k w))
  run_reserve fuel os s =
      let id = decode (take 4 s.locals.event_id) in
      let xs = decode_all 8 256 s.locals.xs in
      let ys = decode_all 8 256 s.locals.ys in
      Nodes.◌>>=◌ (ems_reserve fuel os.reserve id (decode (take 8 s.locals.num_seats)) xs ys s.ems)
        λ (code, ems). reply code (record s { ems = ems })

  unfoldable pub reserve_case : ℕ → Answers → Session k w → Run (Outcome (Session k w))
  unfolding read_field reply
  reserve_case fuel os s = do
    s₁ ← read_event_id s
    s₂ ← read_num_seats s₁
    s₃ ← read_xs s₂
    s₄ ← read_ys s₃
    run_reserve fuel os s₄

  abbrev pub run_show : ℕ → Answers → Session k w → Run (Outcome (Session k w))
  run_show fuel os s =
      Nodes.◌>>=◌ (ems_show w fuel os.rdlock (decode (take 4 s.locals.event_id)) s.resp s.ems)
        λ (code, resp, ems). reply code (record s { resp = resp; ems = ems })

  unfoldable pub show_case : ℕ → Answers → Session k w → Run (Outcome (Session k w))
  unfolding read_field reply
  show_case fuel os s = do s₁ ← read_event_id s; run_show fuel os s₁

  unfoldable pub list_case : ℕ → Answers → Session k w → Run (Outcome (Session k w))
  unfolding reply
  list_case fuel os s =
      Nodes.◌>>=◌ (ems_list_events w fuel os.rdlock s.resp s.ems)
        λ (code, resp, ems). reply code (record s { resp = resp; ems = ems })

  unfoldable pub switch : ℕ → Answers → ℕ → Session k w → Run (Outcome (Session k w))
  unfolding create_case reserve_case show_case list_case
  switch fuel os op s =
      if op == op_quit
      then ok (next s)
      else (if op == op_create
          then create_case fuel os s
          else (if op == op_reserve
              then reserve_case fuel os s
              else (if op == op_show
                  then show_case fuel os s
                  else (if op == op_list then list_case fuel os s else ok (next s)))))

  -- One round of the loop. The answers are those of the round, in the state that it finds.
  unfoldable pub round : ℕ → (Ems → Answers) → Session k w → Run (Outcome (Session k w))
  unfolding switch
  round fuel os s = do s₁ ← read_op s; switch fuel (os s.ems) (decode (take 1 s₁.locals.op)) s₁

  -- The loop, at its test, with fuel for the rounds; `i` counts them.
  unfoldable pub requests : ℕ → ℕ → (ℕ → Ems → Answers) → ℕ → Session k w → Run (ℕ × Session k w)
  unfolding round
  requests fuel zero os i s = out_of_fuel
  requests fuel (suc f) os i s =
      let body = Nodes.◌>>=◌ (round fuel (os i) s) λ o. elim o [
        | returned code s' ↦ ok (code, s')
        | next s' ↦ requests fuel f os (i + 1) s'
      ] in
      if decode (take 1 s.locals.op) == op_quit then ok (client_success, s) else body

  -- The session when the loop starts.
  abbrev pub opened : Session k w → Session k w
  opened s = record s { locals = record s.locals { op = encode 1 op_none } }

  unfoldable pub handle_requests :
      ℕ → ℕ → (pthread_sigmask : Bool) → (ℕ → Ems → Answers) → Session k w → Run (ℕ × Session k w)
  unfolding requests
  handle_requests fuel rounds pthread_sigmask os s =
      if not pthread_sigmask then ok (client_failed, s) else requests fuel rounds os 0 (opened s)
