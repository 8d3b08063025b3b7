-- ===== src/Client/Api/Listed.antt =====
-- LIST of Part2/src/client/api.c on pipes and a file that work.
use so.Base.{
  ℕ, zero, suc, ◌+◌, ◌*◌, ◌%◌, ◌<◌, ◌≡◌, false, Option, some, List, [], ◌∷◌, ◌++◌, refl, sym, ap,
  ◌∙◌, arith, length, drop, ◌==◌, size_mod, uint_mod,
}
use mathlib.Core.List.{append-nil}
use so.Base.Nodes.{ok}
use so.Base.Outcome.{returned, next}
use so.Common.Bytes.{
  encode, decode, encode_all, AllBelow, length-encode, length-encode_all, take-encode,
  decode-encode,
}
use so.Common.Kernel.{Reader, Writer}
use so.Common.Io.Whole.{IsSource, IsSink, safe_read_whole}
use so.Common.Protocol.{list, message}
use so.Client.Api.{Client, print_ids, read_ids, list_ids, ems_list_events}
use so.Client.Api.Parts.{put_lem, print_lem, read_status_lem}
use so.Client.Api.Seats.{get_elem?-drop, drop_more, seat_at_lem}
use so.Client.Api.Grid.{three_parts}
use so.Client.Api.Shown.{Prints, fill_lem}

abbrev pub event_label : List ℕ
event_label = 69 ∷ 118 ∷ 101 ∷ 110 ∷ 116 ∷ 58 ∷ 32 ∷ []

abbrev pub no_events : List ℕ
no_events = 78 ∷ 111 ∷ 32 ∷ 101 ∷ 118 ∷ 101 ∷ 110 ∷ 116 ∷ 115 ∷ 10 ∷ []

module _ (sprintf : ℕ → List ℕ) where
  -- "Event: " and the id, on a line for each.
  abbrev pub lines_text : List ℕ → List ℕ
  lines_text [] = []
  lines_text (v ∷ vs) = event_label ++ ((sprintf v ++ 10 ∷ []) ++ lines_text vs)

  abbrev pub list_text : List ℕ → List ℕ
  list_text [] = no_events
  list_text (v ∷ vs) = lines_text (v ∷ vs)

module _ (k : Reader) (w : Writer) (o : Writer) (source : IsSource k) (sink : IsSink w)
    (file : IsSink o) (sprintf : ℕ → List ℕ) where
  module _ (junk ids : List ℕ) (ids_small : AllBelow uint_mod ids) where
    print_ids_lem :
        (i left : ℕ) (vs : List ℕ) (c : Client k w o)
        → length vs ≡ left
        → drop i ids ≡ vs
        → (out : o.Fd) × (print_ids k w o sprintf (encode_all 4 ids ++ junk) i left c
            ≡ ok (next (record c { out = out })))
          × (file.lawful.sent out ≡ file.lawful.sent c.out ++ lines_text sprintf vs)
    unfolding print_ids
    print_ids_lem i zero [] c len e = (c.out, refl, sym (append-nil (file.lawful.sent c.out)))
    print_ids_lem i zero (v ∷ vs) c len e = absurd (omega arith)
    print_ids_lem i (suc left) [] c len e = absurd (omega arith)
    print_ids_lem i (suc left) (v ∷ vs) c len e =
        let next_one : suc i ≡ i + 1 = omega arith in
        let (out₁, run₁, sent₁) = print_lem k w o source sink file event_label c in
        let seat = seat_at_lem junk ids i v ids_small (get_elem?-drop i ids v vs e) in
        let (out₂, run₂, sent₂) =
          print_lem k w o source sink file (sprintf v ++ 10 ∷ []) (record c { out = out₁ }) in
        let (out, run, sent) =
          print_ids_lem (i + 1) left vs (record c { out = out₂ }) (omega arith)
            (ap (λ n. drop n ids) (sym next_one) ∙ drop_more i ids v vs e) in
        (
          out,
          rw (run₁, seat, run₂, run) refl,
          three_parts (file.lawful.sent c.out) event_label (sprintf v ++ 10 ∷ [])
              (lines_text sprintf vs) _ _ _ sent₁ sent₂ sent,
        )

  module _ (malloc : ℕ → Option (List ℕ)) (block ids : List ℕ) (code : ℕ) (rest : List ℕ)
      (fits : 4 * length ids < size_mod) (ids_small : AllBelow uint_mod ids)
      (alloc : malloc (4 * length ids) ≡ some block) (sized : length block ≡ 4 * length ids)
      (small : code < uint_mod) where
    read_ids_lem :
        (vs : List ℕ) (c : Client k w o)
        → ids ≡ vs
        → source.lawful.left c.resp ≡ encode_all 4 ids ++ (encode 4 code ++ rest)
        → (resp : k.Fd) × (out : o.Fd) × (read_ids k w o sprintf malloc
              (4 * length ids)
              (length vs)
              c
            ≡ ok (returned code (record c { resp = resp; out = out })))
          × (file.lawful.sent out ≡ file.lawful.sent c.out ++ list_text sprintf vs)
          × (source.lawful.left resp ≡ rest)
    unfolding read_ids
    read_ids_lem [] c same e =
        let len : length (encode_all 4 ids) ≡ 4 * length ids =
          length-encode_all 4 ids ∙ omega arith in
        let room = fill_lem (encode_all 4 ids) block (omega (arith, len, sized)) in
        let (resp₁, run₁, left₁) =
          safe_read_whole k source (4 * length ids) (encode_all 4 ids) (encode 4 code ++ rest)
            c.resp e len in
        let (out, run₂, sent) =
          print_lem k w o source sink file no_events (record c { resp = resp₁ }) in
        let (resp, run₃, left) =
          read_status_lem k w o source sink file code rest (record c { resp = resp₁; out = out })
            left₁ small in
        (resp, out, rw (read_ids, alloc, run₁, room, run₂, run₃) refl, sent, left)
    read_ids_lem (v ∷ vs) c same e =
        let len : length (encode_all 4 ids) ≡ 4 * length ids =
          length-encode_all 4 ids ∙ omega arith in
        let room = fill_lem (encode_all 4 ids) block (omega (arith, len, sized)) in
        let junk = drop (length (encode_all 4 ids)) block in
        let (resp₁, run₁, left₁) =
          safe_read_whole k source (4 * length ids) (encode_all 4 ids) (encode 4 code ++ rest)
            c.resp e len in
        let (out, run₂, sent) =
          print_ids_lem junk ids ids_small 0 (length (v ∷ vs)) (v ∷ vs) (record c { resp = resp₁ })
            refl same in
        let (resp, run₃, left) =
          read_status_lem k w o source sink file code rest (record c { resp = resp₁; out = out })
            left₁ small in
        let some_there : (length (v ∷ vs) == 0) ≡ false = ground arith in
        (resp, out, rw (read_ids, alloc, run₁, room, some_there, run₂, run₃) refl, sent, left)

    -- On pipes and a file that work, with memory: when the response pipe goes on with a number, as
    -- many ids, of less than 2^64 bytes, and a code, `ems_list_events` ends, has sent exactly the
    -- message of the request, has printed a line for each id, or that there is none, and returns the
    -- code.
    pub ems_list_events-lines :
        (c : Client k w o)
        → source.lawful.left c.resp
          ≡ encode 8 (length ids) ++ (encode_all 4 ids ++ (encode 4 code ++ rest))
        → Prints k w o source sink file
            (ems_list_events k w o sprintf malloc c)
            c
            (message list)
            (list_text sprintf ids)
            code
            rest
    unfolding ems_list_events list_ids
    ems_list_events-lines c e =
        let size : (4 * length ids) % size_mod ≡ 4 * length ids = omega (arith, fits) in
        let (req, run₁, sent₁) = put_lem k w o source sink file (encode 1 6) c in
        let (resp₁, run₂, left₁) =
          safe_read_whole k source 8 (encode 8 (length ids))
            (encode_all 4 ids ++ (encode 4 code ++ rest)) c.resp e (length-encode 8 (length ids)) in
        let number =
          ap decode
            (take-encode 8 (length ids) (drop (length (encode 8 (length ids))) (encode 8 0)))
          ∙ decode-encode 8 (length ids) (omega (arith, fits)) in
        let (resp, out, run₃, sent, left) =
          read_ids_lem ids (record c { req = req; resp = resp₁ }) refl left₁ in
        let listing =
          ap
            (λ n.
              read_ids k w o sprintf malloc n (length ids) (record c { req = req; resp = resp₁ }))
            size
          ∙ run₃ in
        (
          record c { req = req; resp = resp; out = out },
          rw (run₁, run₂, number, list_ids, listing) refl,
          sent₁ ∙ ap (λ l. sink.lawful.sent c.req ++ l) (sym (append-nil (encode 1 6))),
          sent,
          left,
        )
