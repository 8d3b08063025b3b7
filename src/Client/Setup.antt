-- ===== src/Client/Setup.antt =====
-- `ems_setup` of Part2/src/client/api.c, which sends the paths of the client's pipes to the server
-- and opens them. What mkfifo and open answer is an argument. A path is its bytes without the 0 at
-- the end.
pub mod Message
use so.Base.{
  ℕ, suc, ◌+◌, Bool, true, false, Option, none, some, List, [], ◌∷◌, ◌++◌, leb, if◌then◌else◌,
  length, take, drop, replicate, set,
}
use mathlib.Core.Bool.{not}
use so.Base.Nodes.{Run, ok, fault, ◌>>=◌}
use so.Common.Bytes.{decode, overwrite}
use so.Common.Kernel.{Reader, Writer}
use so.Common.Io.{safe_read, safe_write}

-- strcpy(buf + offset, path): the bytes and the 0, a fault if they do not fit.
abbrev pub strcpy : ℕ → List ℕ → List ℕ → Run (List ℕ)
strcpy offset path buf =
    let whole = path ++ 0 ∷ [] in
    if leb (offset + length whole) (length buf)
    then ok (take offset buf ++ (whole ++ drop (offset + length whole) buf))
    else fault

-- strncpy to an array of n bytes, which pads with 0; the array need not end in one.
abbrev pub strncpy : ℕ → List ℕ → List ℕ
strncpy n path = take n (path ++ replicate n 0)

-- The setup message: OP_SETUP and the two paths.
unfoldable pub setup_message : List ℕ → List ℕ → Run (List ℕ)
setup_message req_pipe_path resp_pipe_path = do
  let request_buff = set (replicate 82 0) 0 1
  with_req ← strcpy 1 req_pipe_path request_buff
  strcpy 41 resp_pipe_path with_req

module _ (k : Reader) (w : Writer) where
  -- What the system answers: `none` and `false` are errors.
  pub record SetupAnswers : Type 0 where
    pub mkfifo_req : Bool
    pub mkfifo_resp : Bool
    pub open_server : Option w.Fd
    pub open_resp : Option k.Fd
    pub open_req : Option w.Fd

  -- What `ems_setup` leaves: the names and the descriptors in `pipes`, the server's pipe, if it was
  -- written to, and the session id.
  pub record Setup : Type 0 where
    pub req_pipe : List ℕ
    pub resp_pipe : List ℕ
    pub server : Option w.Fd
    pub resp : Option k.Fd
    pub req : Option w.Fd
    pub session_id : ℕ

  abbrev pub named : (req_pipe_path resp_pipe_path : List ℕ) → Setup
  named req_pipe_path resp_pipe_path = record {
    req_pipe = strncpy 40 req_pipe_path;
    resp_pipe = strncpy 40 resp_pipe_path;
    server = none;
    resp = none;
    req = none;
    session_id = 0;
  }

  -- From the open of the response pipe on; `junk` is what `session_id` holds before.
  unfoldable pub receive_session : SetupAnswers → (junk : List ℕ) → Setup → Run (ℕ × Setup)
  receive_session os junk s = elim os.open_resp [
    | none ↦ ok (1, s)
    | some resp ↦ do
      (r, resp') ← safe_read k 5 4 resp
      elim r [
        | none ↦ ok (1, record s { resp = some resp' })
        | some bytes ↦
            let s' : Setup = record s {
              resp = some resp';
              session_id = decode (take 4 (overwrite bytes junk));
            } in
            elim os.open_req [ none ↦ ok (1, s') | some req ↦ ok (0, record s' { req = some req }) ]
      ]
  ]

  -- From the first mkfifo on.
  unfoldable pub send_setup : SetupAnswers → (junk request_buff : List ℕ) → Setup → Run (ℕ × Setup)
  send_setup os junk request_buff pipes =
      if not os.mkfifo_req
      then ok (1, pipes)
      else (if not os.mkfifo_resp then ok (1, pipes) else elim os.open_server [
        | none ↦ ok (1, pipes)
        | some server ↦ do
          (r, server') ← safe_write w (suc (length request_buff)) request_buff server
          let s = record pipes { server = some server' }
          elim r [ none ↦ ok (1, s) | some n ↦ receive_session os junk s ]
      ])

  unfoldable pub ems_setup :
      SetupAnswers → (junk req_pipe_path resp_pipe_path : List ℕ) → Run (ℕ × Setup)
  unfolding send_setup receive_session
  ems_setup os junk req_pipe_path resp_pipe_path = do
    request_buff ← setup_message req_pipe_path resp_pipe_path
    send_setup os junk request_buff (named req_pipe_path resp_pipe_path)
