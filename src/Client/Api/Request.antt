-- ===== src/Client/Api/Request.antt =====
-- CREATE, RESERVE and QUIT of Part2/src/client/api.c on pipes that work.
use so.Base.{
  ℕ, ◌*◌, ◌<◌, ◌≡◌, Bool, true, List, [], ◌∷◌, ◌++◌, refl, sym, ap, ◌∙◌, arith, length, leb, take,
  uint_mod, if-true,
}
use mathlib.Core.List.{append_assoc, append-nil}
use so.Base.Nodes.{Run, ok}
use so.Base.Outcome.{Outcome, returned}
use so.Common.Bytes.{encode, encode_all, memory, length-encode_all, take-append}
use so.Common.Kernel.{Reader, Writer}
use so.Common.Io.Whole.{IsSource, IsSink}
use so.Common.Protocol.{create, reserve, message}
use so.Client.Api.{Client, ems_create, ems_reserve, ems_quit}
use so.Client.Api.Parts.{put_lem, read_status_lem}

-- An array of 256 elements is sent whole.
memory-array :
    (vs : List ℕ) → length vs ≡ 256 → memory 2048 (encode_all 8 vs) ≡ ok (encode_all 8 vs)
memory-array vs len =
    let size : length (encode_all 8 vs) ≡ 2048 = length-encode_all 8 vs ∙ ap (λ n. n * 8) len in
    let fits : leb 2048 (length (encode_all 8 vs)) ≡ true = ground (arith, size) in
    let all : take 2048 (encode_all 8 vs) ≡ encode_all 8 vs =
      ap (λ n. take n (encode_all 8 vs)) (sym size)
      ∙ ap (take (length (encode_all 8 vs))) (sym (append-nil (encode_all 8 vs)))
      ∙ take-append (encode_all 8 vs) [] in
    if-true _ _ fits ∙ ap ok all

five_parts :
    (before a b c d e : List ℕ)
    → ((((before ++ a) ++ b) ++ c) ++ d) ++ e ≡ before ++ (a ++ (b ++ (c ++ (d ++ e))))
five_parts before a b c d e = simp append_assoc

module _ (k : Reader) (w : Writer) (o : Writer) (source : IsSource k) (sink : IsSink w)
    (file : IsSink o) where
  -- A call that sent `sent`, read the code from its reply and left `rest` of the response pipe.
  abbrev pub Exchanges : Run (Outcome (Client k w o)) → Client k w o → List ℕ → ℕ → List ℕ → Type 0
  Exchanges run c bytes code rest =
      (c' : Client k w o) × (run ≡ ok (returned code c'))
      × (sink.lawful.sent c'.req ≡ sink.lawful.sent c.req ++ bytes)
      × (source.lawful.left c'.resp ≡ rest)
      × (c'.out ≡ c.out)

  module _ (c : Client k w o) (code : ℕ) (rest : List ℕ)
      (e : source.lawful.left c.resp ≡ encode 4 code ++ rest) (small : code < uint_mod) where
    -- On pipes that work and when the response pipe goes on with a code, the client's `ems_create`
    -- ends, has sent exactly the message of the request, and returns the code.
    pub ems_create-message :
        (id rows cols : ℕ)
        → Exchanges (ems_create k w o id rows cols c) c (message (create id rows cols)) code rest
    unfolding ems_create
    ems_create-message id rows cols =
        let matrix = encode_all 8 (rows ∷ cols ∷ []) in
        let (req₁, run₁, sent₁) = put_lem k w o source sink file (encode 1 3) c in
        let (req₂, run₂, sent₂) =
          put_lem k w o source sink file (encode 4 id) (record c { req = req₁ }) in
        let (req₃, run₃, sent₃) = put_lem k w o source sink file matrix (record c { req = req₂ }) in
        let (resp, run₄, left) =
          read_status_lem k w o source sink file code rest (record c { req = req₃ }) e small in
        (
          record c { req = req₃; resp = resp },
          rw (run₁, run₂, run₃, run₄) refl,
          sent₃
              ∙ ap (λ l. l ++ matrix) (sent₂ ∙ ap (λ l. l ++ encode 4 id) sent₁)
              ∙ append_assoc (sink.lawful.sent c.req ++ encode 1 3) (encode 4 id) matrix
              ∙ append_assoc (sink.lawful.sent c.req) (encode 1 3) (encode 4 id ++ matrix),
          left,
          refl,
        )

    -- The same for `ems_reserve` with two arrays of 256 elements.
    pub ems_reserve-message :
        (id n : ℕ) (xs ys : List ℕ)
        → length xs ≡ 256
        → length ys ≡ 256
        → Exchanges (ems_reserve k w o id n xs ys c) c (message (reserve id n xs ys)) code rest
    unfolding ems_reserve
    ems_reserve-message id n xs ys x_len y_len =
        let bx = encode_all 8 xs in
        let by = encode_all 8 ys in
        let before = sink.lawful.sent c.req in
        let (req₁, run₁, sent₁) = put_lem k w o source sink file (encode 1 4) c in
        let (req₂, run₂, sent₂) =
          put_lem k w o source sink file (encode 4 id) (record c { req = req₁ }) in
        let (req₃, run₃, sent₃) =
          put_lem k w o source sink file (encode 8 n) (record c { req = req₂ }) in
        let (req₄, run₄, sent₄) = put_lem k w o source sink file bx (record c { req = req₃ }) in
        let (req₅, run₅, sent₅) = put_lem k w o source sink file by (record c { req = req₄ }) in
        let (resp, run₆, left) =
          read_status_lem k w o source sink file code rest (record c { req = req₅ }) e small in
        let four =
          sent₄
          ∙ ap (λ l. l ++ bx)
              (sent₃ ∙ ap (λ l. l ++ encode 8 n) (sent₂ ∙ ap (λ l. l ++ encode 4 id) sent₁)) in
        (
          record c { req = req₅; resp = resp },
          rw (run₁, run₂, run₃, memory-array xs x_len, run₄, memory-array ys y_len, run₅, run₆)
              refl,
          sent₅
              ∙ ap (λ l. l ++ by) four
              ∙ five_parts before (encode 1 4) (encode 4 id) (encode 8 n) bx by,
          left,
          refl,
        )

  -- `ems_quit` sends the code of QUIT and returns 0, whether or not the pipes can be unlinked.
  pub ems_quit-message :
      (unlink_req unlink_resp : Bool) (c : Client k w o)
      → Exchanges
          (ems_quit k w o unlink_req unlink_resp c)
          c
          (encode 1 2)
          0
          (source.lawful.left c.resp)
  unfolding ems_quit
  ems_quit-message unlink_req unlink_resp c =
      let (req, run, sent) = put_lem k w o source sink file (encode 1 2) c in
      (record c { req = req }, rw run refl, sent, refl, refl)
