-- ===== src/Client/Api/Parts.antt =====
-- The steps of the requests of Part2/src/client/api.c on pipes and a file that work.
use so.Base.{
  ℕ, suc, ◌<◌, ◌≡◌, List, [], ◌∷◌, ◌++◌, refl, ap, ◌∙◌, arith, length, take, uint_mod, drop,
}
use so.Base.Nodes.{ok}
use so.Base.Outcome.{returned, next}
use so.Common.Bytes.{encode, decode, overwrite, length-encode, take-encode, decode-encode}
use so.Common.Kernel.{Reader, Writer}
use so.Common.Io.Whole.{IsSource, IsSink, safe_read_whole, safe_write_whole}
use so.Common.Io.Print.{print_str_whole}
use so.Client.Api.{Client, put, read_status, print}

module _ (k : Reader) (w : Writer) (o : Writer) (source : IsSource k) (sink : IsSink w)
    (file : IsSink o) where
  pub put_lem :
      (bytes : List ℕ) (c : Client k w o)
      → (req : w.Fd) × (put k w o bytes c ≡ ok (next (record c { req = req })))
        × (sink.lawful.sent req ≡ sink.lawful.sent c.req ++ bytes)
  unfolding put
  put_lem bytes c =
      let (req, run, sent) = safe_write_whole w sink bytes c.req in (req, rw run refl, sent)

  status_read :
      (code : ℕ) (bytes rest : List ℕ) (c : Client k w o)
      → source.lawful.left c.resp ≡ bytes ++ rest
      → bytes ≡ encode 4 code
      → length bytes ≡ 4
      → code < uint_mod
      → (resp : k.Fd) × (read_status k w o c ≡ ok (returned code (record c { resp = resp })))
        × (source.lawful.left resp ≡ rest)
  unfolding read_status
  status_read code [] rest c e same len small = absurd (omega arith)
  status_read code (b ∷ bs) rest c e same len small =
      let (resp, run, left) = safe_read_whole k source 4 (b ∷ bs) rest c.resp e len in
      let value : decode (take 4 (overwrite (b ∷ bs) (encode 4 1))) ≡ code =
        ap (λ l. decode (take 4 (overwrite l (encode 4 1)))) same
        ∙ ap decode (take-encode 4 code (drop (length (encode 4 code)) (encode 4 1)))
        ∙ decode-encode 4 code small in
      (resp, rw run (ap (λ n. ok (returned n (record c { resp = resp }))) value), left)

  pub read_status_lem :
      (code : ℕ) (rest : List ℕ) (c : Client k w o)
      → source.lawful.left c.resp ≡ encode 4 code ++ rest
      → code < uint_mod
      → (resp : k.Fd) × (read_status k w o c ≡ ok (returned code (record c { resp = resp })))
        × (source.lawful.left resp ≡ rest)
  read_status_lem code rest c e small =
      status_read code (encode 4 code) rest c e refl (length-encode 4 code) small

  pub print_lem :
      (str : List ℕ) (c : Client k w o)
      → (out : o.Fd) × (print k w o str c ≡ ok (next (record c { out = out })))
        × (file.lawful.sent out ≡ file.lawful.sent c.out ++ str)
  unfolding print
  print_lem str c =
      let (out, run, sent) = print_str_whole o file (suc (length str)) str c.out (omega arith) in
      (out, rw run refl, sent)
