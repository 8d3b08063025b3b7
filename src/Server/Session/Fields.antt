-- ===== src/Server/Session/Fields.antt =====
-- The reads and the reply of `handle_requests` on pipes that work.
use so.Base.{ℕ, ◌<◌, ◌≡◌, Bool, List, [], ◌∷◌, ◌++◌, refl, ap, ◌∙◌, arith, length, take, subst}
use so.Base.Nodes.{ok}
use so.Common.Bytes.{
  encode, decode, encode_all, decode_all, overwrite, bytes_mod, AllBelow, take-encode,
  decode-encode, decode_all-encode_all,
}
use so.Common.Kernel.{Reader, Writer}
use so.Common.Io.Whole.{IsSource, IsSink, safe_read_whole, safe_write_whole}
use so.Base.Outcome.{next}
use so.Server.Session.{Locals, Session, read_field, reply}

-- What the memory of a variable then holds, however it is followed.
pub decode-overwrite :
    (n v : ℕ) (old : List ℕ) → v < bytes_mod n → decode (take n (overwrite (encode n v) old)) ≡ v
decode-overwrite n v old h = ap decode (take-encode n v _) ∙ decode-encode n v h

pub decode_all-overwrite :
    (size n : ℕ) (vs old : List ℕ)
    → length vs ≡ n
    → AllBelow (bytes_mod size) vs
    → decode_all size n (overwrite (encode_all size vs) old) ≡ vs
decode_all-overwrite size n vs old len small =
    subst (λ m. decode_all size m (overwrite (encode_all size vs) old) ≡ vs) len
      (decode_all-encode_all size vs _ small)

module _ (k : Reader) (w : Writer) (is_epipe : w.Fd → Bool) (source : IsSource k)
    (sink : IsSink w) where
  pub read_field_lem :
      (n : ℕ) (get : Locals → List ℕ) (put : List ℕ → Locals → Locals) (bytes rest : List ℕ)
      (s : Session k w)
      → source.lawful.left s.req ≡ bytes ++ rest
      → length bytes ≡ n
      → 0 < n
      → (req : k.Fd) × (read_field k w is_epipe n get put s
          ≡ ok (
              next
                (record s { req = req; locals = put (overwrite bytes (get s.locals)) s.locals })))
        × (source.lawful.left req ≡ rest)
  unfolding read_field
  read_field_lem n get put [] rest s e len pos = absurd (omega arith)
  read_field_lem n get put (b ∷ bs) rest s e len pos =
      let (req, run, left) = safe_read_whole k source n (b ∷ bs) rest s.req e len in
      (req, rw run refl, left)

  pub reply_lem :
      (code : ℕ) (s : Session k w)
      → (resp : w.Fd) × (reply k w is_epipe code s ≡ ok (next (record s { resp = resp })))
        × (sink.lawful.sent resp ≡ sink.lawful.sent s.resp ++ encode 4 code)
  unfolding reply
  reply_lem code s =
      let (resp, run, sent) = safe_write_whole w sink (encode 4 code) s.resp in
      (resp, rw run refl, sent)
