-- ===== src/Server/Session/Conversation.antt =====
-- The whole of `handle_requests` for a client that sends requests and then quits.
use so.Base.{ℕ, ◌≡◌, Bool, List, ◌++◌, length}
use so.Base.Nodes.{Run, ok}
use so.Common.Kernel.{Reader, Writer}
use so.Common.Io.Whole.{IsSource, IsSink}
use so.Common.Protocol.{Request}
use so.Server.Store.{Event}
use so.Server.Database.{IsSound}
use so.Server.Operations.{Ems}
use so.Server.Operations.State.{Repr}
use so.Server.Session.{Session, Answers, opened, client_success}
use so.Server.Session.Prefix.{conversation, Given}

module _ (k : Reader) (w : Writer) (is_epipe : w.Fd → Bool) (source : IsSource k)
    (sink : IsSink w) where
  -- A run that ends with success, having read the messages and the code of QUIT.
  abbrev pub Serves :
      (fuel : ℕ)
      → (ℕ → Ems → Answers)
      → Run (ℕ × Session k w)
      → Session k w
      → List Request
      → List ℕ
      → List Event
      → Type 0
  Serves fuel os run s qs rest vs =
      (given : List Answers) × (s' : Session k w) × (run ≡ ok (client_success, s'))
      × (length given ≡ length qs)
      × Given k w is_epipe fuel os 0 (opened k w is_epipe s) given
      × (source.lawful.left s'.req ≡ rest)
      × (sink.lawful.sent s'.resp ≡ sink.lawful.sent s.resp ++ (conversation given qs vs).0)
      × Repr s'.ems (conversation given qs vs).1
      × IsSound (conversation given qs vs).1
