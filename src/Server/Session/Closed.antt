-- ===== src/Server/Session/Closed.antt =====
-- `handle_requests` when the request pipe is at its end, or ends inside a request.
use so.Base.{
  ℕ, ◌≤◌, ◌<◌, ◌≡◌, Bool, List, [], ◌∷◌, ◌++◌, refl, sym, ap, some, ◌∙◌, arith, length, subst,
}
use so.Base.Nodes.{Run, ok}
use so.Base.Outcome.{next}
use so.Common.Bytes.{overwrite}
use so.Common.Kernel.{Reader, Writer}
use so.Common.Io.Whole.{IsSource, IsSink, safe_read_short}
use so.Common.Protocol.{Request}
use so.Server.Store.{Event}
use so.Server.Database.{IsSound}
use so.Server.Operations.{Ems}
use so.Server.Operations.State.{Repr}
use so.Server.Session.{Locals, Session, Answers, read_field, opened, client_unresponsive}
use so.Server.Session.Prefix.{conversation, Given}

module _ (k : Reader) (w : Writer) (is_epipe : w.Fd → Bool) (source : IsSource k) where
  -- When the request pipe ends after a first part of a variable, of at least one byte, the read of
  -- the variable goes on as after a whole one: the part is written over the start of the variable,
  -- and the rest of it stays what it was.
  pub read_field-truncated :
      (n b : ℕ) (bs : List ℕ) (get : Locals → List ℕ) (put : List ℕ → Locals → Locals)
      (s : Session k w)
      → source.lawful.left s.req ≡ b ∷ bs
      → length (b ∷ bs) < n
      → (req : k.Fd) × (read_field k w is_epipe n get put s
          ≡ ok (
              next (record s {
                req = req;
                locals = put (overwrite (b ∷ bs) (get s.locals)) s.locals;
              })))
        × (source.lawful.left req ≡ [])
  unfolding read_field
  read_field-truncated n b bs get put s e few =
      let (req, run, left) =
        safe_read_short k source n s.req (subst (λ l. length l ≤ n) (sym e) (omega arith)) in
      let part = run ∙ ap (λ l. ok (some l, req)) e in (req, rw part refl, left)

  module _ (sink : IsSink w) where
    -- A run that ends as for a client that is gone, having served the requests.
    abbrev pub Loses :
        (fuel : ℕ)
        → (ℕ → Ems → Answers)
        → Run (ℕ × Session k w)
        → Session k w
        → List Request
        → List Event
        → Type 0
    Loses fuel os run s qs vs =
        (given : List Answers) × (s' : Session k w) × (run ≡ ok (client_unresponsive, s'))
        × (length given ≡ length qs)
        × Given k w is_epipe fuel os 0 (opened k w is_epipe s) given
        × (sink.lawful.sent s'.resp ≡ sink.lawful.sent s.resp ++ (conversation given qs vs).0)
        × Repr s'.ems (conversation given qs vs).1
        × IsSound (conversation given qs vs).1
