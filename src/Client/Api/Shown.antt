-- ===== src/Client/Api/Shown.antt =====
-- SHOW of Part2/src/client/api.c on pipes and a file that work.
use so.Base.{
  ℕ, ◌+◌, ◌-◌, ◌*◌, ◌%◌, ◌≤◌, ◌<◌, ◌≡◌, true, leb, if-true, Option, some, List, [], ◌∷◌, ◌++◌, refl,
  ap, ◌∙◌, arith, length, take, drop, size_mod, uint_mod,
}
use mathlib.Core.List.{append_assoc}
use so.Base.Nodes.{Run, ok}
use so.Base.Outcome.{Outcome, returned}
use so.Common.Bytes.{
  encode, decode, encode_all, overwrite, AllBelow, encode_all-cons, length-encode_all, take-encode,
  drop-encode, decode-encode,
}
use so.Common.Kernel.{Reader, Writer}
use so.Common.Io.Whole.{IsSource, IsSink, safe_read_whole}
use so.Common.Protocol.{show, message}
use so.Client.Api.{Client, fill, read_seats, show_seats, ems_show}
use so.Client.Api.Parts.{put_lem, read_status_lem}
use so.Client.Api.Rounds.{print_rows-left}
use so.Client.Api.Grid.{grid_text, rows_left_lem}

-- The two numbers of the size, whatever the array held.
two_words :
    (a b : ℕ) (old : List ℕ)
    → a < size_mod
    → b < size_mod
    → (decode (take 8 (overwrite (encode_all 8 (a ∷ b ∷ [])) old)) ≡ a)
      × (decode (take 8 (drop 8 (overwrite (encode_all 8 (a ∷ b ∷ [])) old))) ≡ b)
two_words a b old fa fb =
    let junk = drop (length (encode_all 8 (a ∷ b ∷ []))) old in
    let whole =
      ap (λ l. l ++ junk) (encode_all-cons 8 a (b ∷ []))
      ∙ append_assoc (encode 8 a) (encode_all 8 (b ∷ [])) junk in
    let second =
      ap (λ l. l ++ junk) (encode_all-cons 8 b [])
      ∙ append_assoc (encode 8 b) (encode_all 8 []) junk in
    (
      ap (λ l. decode (take 8 l)) whole ∙ ap decode (take-encode 8 a _) ∙ decode-encode 8 a fa,
      ap (λ l. decode (take 8 (drop 8 l))) whole
          ∙ ap (λ l. decode (take 8 l)) (drop-encode 8 a _)
          ∙ ap (λ l. decode (take 8 l)) second
          ∙ ap decode (take-encode 8 b _)
          ∙ decode-encode 8 b fb,
    )

-- A block with room for the bytes.
pub fill_lem :
    (bytes block : List ℕ)
    → length bytes ≤ length block
    → fill bytes block ≡ ok (overwrite bytes block)
fill_lem bytes block room =
    let fits : leb (length bytes) (length block) ≡ true = ground arith in if-true _ _ fits

module _ (k : Reader) (w : Writer) (o : Writer) (source : IsSource k) (sink : IsSink w)
    (file : IsSink o) where
  -- A call that sent `sent`, printed `text`, read the code and left `rest` of the response pipe.
  abbrev pub Prints :
      Run (Outcome (Client k w o)) → Client k w o → List ℕ → List ℕ → ℕ → List ℕ → Type 0
  Prints run c bytes text code rest =
      (c' : Client k w o) × (run ≡ ok (returned code c'))
      × (sink.lawful.sent c'.req ≡ sink.lawful.sent c.req ++ bytes)
      × (file.lawful.sent c'.out ≡ file.lawful.sent c.out ++ text)
      × (source.lawful.left c'.resp ≡ rest)

  module _ (sprintf : ℕ → List ℕ) (malloc : ℕ → Option (List ℕ)) (block : List ℕ) (rows cols : ℕ)
      (seats : List ℕ) (code : ℕ) (rest : List ℕ) (full : length seats ≡ rows * cols)
      (fits : 4 * (rows * cols) < size_mod) (seats_small : AllBelow uint_mod seats)
      (alloc : malloc (4 * (rows * cols)) ≡ some block) (sized : length block ≡ 4 * (rows * cols))
      (small : code < uint_mod) (rows_fit : rows + 1 < size_mod)
      (cols_fit : cols + 1 < size_mod) where
    read_seats_lem :
        (c : Client k w o)
        → source.lawful.left c.resp ≡ encode_all 4 seats ++ (encode 4 code ++ rest)
        → (resp : k.Fd) × (out : o.Fd) × (read_seats k w o sprintf malloc
              (4 * (rows * cols))
              rows
              cols
              c
            ≡ ok (returned code (record c { resp = resp; out = out })))
          × (file.lawful.sent out ≡ file.lawful.sent c.out ++ grid_text sprintf rows cols seats)
          × (source.lawful.left resp ≡ rest)
    unfolding read_seats
    read_seats_lem c e =
        let len : length (encode_all 4 seats) ≡ 4 * (rows * cols) =
          length-encode_all 4 seats ∙ omega (arith, full) in
        let junk = drop (length (encode_all 4 seats)) block in
        let room = fill_lem (encode_all 4 seats) block (omega (arith, len, sized)) in
        let top : (rows - rows) * cols ≡ 0 =
          let none_above : rows - rows ≡ 0 = omega arith in
          ap (λ n. n * cols) none_above ∙ omega arith in
        let (resp₁, run₁, left₁) =
          safe_read_whole k source (4 * (rows * cols)) (encode_all 4 seats) (encode 4 code ++ rest)
            c.resp e len in
        let (out, run₂, sent) =
          rows_left_lem k w o source sink file sprintf junk seats seats_small (omega (arith, full))
            cols rows rows 0 seats (record c { resp = resp₁ }) full (omega arith) top refl in
        let (resp, run₃, left) =
          read_status_lem k w o source sink file code rest (record c { resp = resp₁; out = out })
            left₁ small in
        let rounds =
          print_rows-left k w o sprintf (encode_all 4 seats ++ junk) cols cols_fit rows
            (record c { resp = resp₁ }) rows_fit
          ∙ run₂ in
        (resp, out, rw (read_seats, alloc, run₁, room, rounds, run₃) refl, sent, left)

    show_seats_lem :
        (c : Client k w o)
        → source.lawful.left c.resp ≡ encode_all 4 seats ++ (encode 4 code ++ rest)
        → (resp : k.Fd) × (out : o.Fd) × (show_seats k w o sprintf malloc rows cols c
            ≡ ok (returned code (record c { resp = resp; out = out })))
          × (file.lawful.sent out ≡ file.lawful.sent c.out ++ grid_text sprintf rows cols seats)
          × (source.lawful.left resp ≡ rest)
    unfolding show_seats
    show_seats_lem c e =
        let size : (4 * ((rows * cols) % size_mod)) % size_mod ≡ 4 * (rows * cols) =
          omega (arith, fits) in
        let (resp, out, run, sent, left) = read_seats_lem c e in
        (resp, out, ap (λ n. read_seats k w o sprintf malloc n rows cols c) size ∙ run, sent, left)

    -- The same from the first read on, for the bytes of the size.
    sized_lem :
        (id : ℕ) (num_matrix bytes : List ℕ) (c : Client k w o)
        → bytes ≡ encode_all 8 (rows ∷ cols ∷ [])
        → length bytes ≡ 16
        → source.lawful.left c.resp ≡ bytes ++ (encode_all 4 seats ++ (encode 4 code ++ rest))
        → decode (take 8 (overwrite bytes num_matrix)) ≡ rows
        → decode (take 8 (drop 8 (overwrite bytes num_matrix))) ≡ cols
        → Prints
            (ems_show k w o sprintf malloc num_matrix id c)
            c
            (message (show id))
            (grid_text sprintf rows cols seats)
            code
            rest
    unfolding ems_show
    sized_lem id num_matrix [] c same len e is_rows is_cols = absurd (omega arith)
    sized_lem id num_matrix (b ∷ bs) c same len e is_rows is_cols =
        let (req₁, run₁, sent₁) = put_lem k w o source sink file (encode 1 5) c in
        let (req₂, run₂, sent₂) =
          put_lem k w o source sink file (encode 4 id) (record c { req = req₁ }) in
        let (resp₁, run₃, left₁) =
          safe_read_whole k source 16 (b ∷ bs) (encode_all 4 seats ++ (encode 4 code ++ rest))
            c.resp e len in
        let (resp, out, run₄, printed, left) =
          show_seats_lem (record c { req = req₂; resp = resp₁ }) left₁ in
        (
          record c { req = req₂; resp = resp; out = out },
          rw (run₁, run₂, run₃, is_rows, is_cols, run₄) refl,
          sent₂
              ∙ ap (λ l. l ++ encode 4 id) sent₁
              ∙ append_assoc (sink.lawful.sent c.req) (encode 1 5) (encode 4 id),
          printed,
          left,
        )

    -- On pipes and a file that work, with memory: when the response pipe goes on with a size of less
    -- than 2^64 bytes, in rows and columns that are not the largest size_t, as many seats, and a code, `ems_show` ends, has sent exactly the message of
    -- the request, has printed the seats row by row, and returns the code.
    pub ems_show-grid :
        (id : ℕ) (num_matrix : List ℕ) (c : Client k w o)
        → source.lawful.left c.resp
          ≡ encode_all 8 (rows ∷ cols ∷ []) ++ (encode_all 4 seats ++ (encode 4 code ++ rest))
        → Prints
            (ems_show k w o sprintf malloc num_matrix id c)
            c
            (message (show id))
            (grid_text sprintf rows cols seats)
            code
            rest
    ems_show-grid id num_matrix c e =
        let (is_rows, is_cols) =
          two_words rows cols num_matrix (omega (arith, rows_fit)) (omega (arith, cols_fit)) in
        sized_lem id num_matrix (encode_all 8 (rows ∷ cols ∷ [])) c refl
          (length-encode_all 8 (rows ∷ cols ∷ [])) e is_rows is_cols
