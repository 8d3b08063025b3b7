-- ===== src/Exchange/Setup.antt =====
-- A new client of Part 2 and the server: `ems_setup` of Part2/src/client/api.c, and the round of main in
-- Part2/src/server/main.c that reads its message.
use so.Base.{
  ℕ, suc, ◌<◌, ◌≡◌, ◌≢◌, true, false, none, some, List, [], ◌∷◌, ◌++◌, refl, ap, ◌∙◌, length, take,
  drop, uint_mod,
}
use so.Base.Nodes.{ok, null, ◌>>=◌}
use so.Base.Outcome.{next}
use so.Common.Bytes.{encode, decode, overwrite, take-encode, decode-encode, length-encode}
use so.Common.Kernel.{Reader, Writer}
use so.Common.Io.{safe_write}
use so.Common.Io.Whole.{IsSource, IsSink, safe_read_whole, safe_write_whole}
use so.Server.Queue.{Connection}
use so.Server.Queue.Shape.{connection_of}
use so.Server.Queue.Fifo.{Runs}
use so.Server.Register.{Round, Server, round}
use so.Server.Register.Setup.{calm, round-Runs}
use so.Client.Setup.{SetupAnswers, Setup, ems_setup, send_setup, receive_session, strncpy, named}
use so.Client.Setup.Message.{
  IsPath, c_string, message, setup_message_lem, message-IsSetup, connection_of-message,
}

-- mkfifo and open succeed.
abbrev pub opened : (k : Reader) (w : Writer) → w.Fd → k.Fd → w.Fd → SetupAnswers k w
opened k w server resp req = record {
  mkfifo_req = true;
  mkfifo_resp = true;
  open_server = some server;
  open_resp = some resp;
  open_req = some req;
}

module _ (k : Reader) (w : Writer) (source : IsSource k) (sink : IsSink w) (server : w.Fd)
    (resp : k.Fd) (req : w.Fd) (junk req_path resp_path : List ℕ) (req-IsPath : IsPath req_path)
    (resp-IsPath : IsPath resp_path) where
  abbrev os : SetupAnswers k w
  os = opened k w server resp req

  abbrev pub bytes : List ℕ
  bytes = message req_path resp_path req-IsPath resp-IsPath

  session_lem :
      (s : Setup k w) (id : ℕ) (rest : List ℕ)
      → id < uint_mod
      → source.lawful.left resp ≡ encode 4 id ++ rest
      → (fd : k.Fd) × (receive_session k w os junk s
          ≡ ok (0, record s { resp = some fd; session_id = id; req = some req }))
        × (source.lawful.left fd ≡ rest)
  unfolding receive_session
  session_lem s id rest small left =
      let (fd, run, left') =
        safe_read_whole k source 4 (encode 4 id) rest resp left (length-encode 4 id) in
      let number : decode (take 4 (overwrite (encode 4 id) junk)) ≡ id =
        ap decode (take-encode 4 id (drop (length (encode 4 id)) junk))
        ∙ decode-encode 4 id small in
      (fd, rw (run, number) refl, left')

  send_setup_lem :
      (buff : List ℕ) (pipes : Setup k w) (server' : w.Fd) (r : ℕ × Setup k w)
      → safe_write w (suc (length buff)) buff server ≡ ok (some (length buff), server')
      → receive_session k w os junk (record pipes { server = some server' }) ≡ ok r
      → send_setup k w os junk buff pipes ≡ ok r
  unfolding send_setup
  send_setup_lem buff pipes server' r run received = rw (run) received

  -- What the client ends with: the server's pipe has the message, and the session id is read.
  abbrev pub IsConnected : ℕ → List ℕ → Type 0
  IsConnected id rest =
      (server' : w.Fd) × (resp' : k.Fd) × (ems_setup k w os junk req_path resp_path
        ≡ ok (
          0,
          record {
            req_pipe = strncpy 40 req_path;
            resp_pipe = strncpy 40 resp_path;
            server = some server';
            resp = some resp';
            req = some req;
            session_id = id;
          },
        ))
      × (sink.lawful.sent server' ≡ sink.lawful.sent server ++ bytes)
      × (source.lawful.left resp' ≡ rest)

  pub ems_setup_lem :
      (id : ℕ) (rest : List ℕ)
      → id < uint_mod
      → source.lawful.left resp ≡ encode 4 id ++ rest
      → IsConnected id rest
  unfolding ems_setup
  ems_setup_lem id rest small left =
      let (server', run, sent) = safe_write_whole w sink bytes server in
      let pipes : Setup k w = named k w req_path resp_path in
      let s : Setup k w = record pipes { server = some server' } in
      let (resp', run', left') = session_lem s id rest small left in
      (
        server',
        resp',
        ap (λ r. r >>= (λ buff. send_setup k w os junk buff pipes))
              (setup_message_lem req_path resp_path req-IsPath resp-IsPath)
            ∙ send_setup_lem bytes pipes server'
                (0, record s { resp = some resp'; session_id = id; req = some req }) run run',
        sent,
        left',
      )

  -- What the server ends a round with in which it has read that message.
  abbrev pub IsRegistered :
      (j : Reader) (other : IsSource j) (sprintf : ℕ → List ℕ) (s : Server j) (r : Round)
      (more : List ℕ) (sent taken : List Connection)
      → Type 0
  IsRegistered j other sprintf s r more sent taken =
      (s' : Server j) × (c : Connection) × (round j sprintf r s ≡ ok (next s'))
      × (other.lawful.left s'.register_pipe ≡ more)
      × Runs (sent ++ c ∷ []) taken s'.queue
      × (c_string c.req_pipe_path ≡ req_path)
      × (c_string c.resp_pipe_path ≡ resp_path)

  -- For paths of fewer than 40 bytes without a 0, on pipes that work, when mkfifo and open succeed: if the
  -- response pipe holds the bytes of a session id, `ems_setup` returns 0, has sent one message to the
  -- server's pipe and knows the id. If the register pipe goes on with that message, a round of the
  -- server without a SIGINT, with the queue's lock and memory that is not in use, reads it and no
  -- more, and the last connection sent to the queue has the client's paths.
  pub ems_setup-IsRegistered :
      (id : ℕ) (rest : List ℕ) (j : Reader) (other : IsSource j) (sprintf : ℕ → List ℕ)
      (s : Server j) (r : Round) (more : List ℕ) (sent taken : List Connection)
      → id < uint_mod
      → source.lawful.left resp ≡ encode 4 id ++ rest
      → s.flags.terminate ≡ false
      → calm r.before ≡ true
      → calm r.during ≡ true
      → other.lawful.left s.register_pipe ≡ bytes ++ more
      → r.enqueue.lock ≡ true
      → r.enqueue.connection ≢ null
      → s.queue.nodes r.enqueue.connection ≡ none
      → Runs sent taken s.queue
      → IsConnected id rest × IsRegistered j other sprintf s r more sent taken
  ems_setup-IsRegistered id rest j other sprintf s r more sent taken small left going before during
        left' lock ne unused runs =
      let (s', run, left'', runs', _, _) =
        round-Runs j other sprintf s r bytes more sent taken going before during
          (message-IsSetup req_path resp_path req-IsPath resp-IsPath) left' lock ne unused runs in
      let (same_req, same_resp) = connection_of-message req_path resp_path req-IsPath resp-IsPath in
      (
        ems_setup_lem id rest small left,
        (s', connection_of bytes, run, left'', runs', same_req, same_resp),
      )
