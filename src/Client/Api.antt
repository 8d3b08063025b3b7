-- ===== src/Client/Api.antt =====
-- The requests of Part2/src/client/api.c. The static variable `pipes` is the state, with the file
-- that the output goes to; the pipes and the file are any reader and writers. What the C library
-- answers (memory, the text that `sprintf` makes of "%u") is an argument.
pub mod Parts
pub mod Request
pub mod Seats
pub mod Rounds
pub mod Grid
pub mod Shown
pub mod Listed
use so.Base.{
  ℕ, zero, suc, ◌+◌, ◌-◌, ◌*◌, ◌%◌, Bool, true, false, ◌||◌, Option, none, some, List, [], ◌∷◌,
  ◌++◌, ◌==◌, ltb, leb, if◌then◌else◌, length, take, drop, size_mod,
}
use mathlib.Core.Bool.{not}
use so.Base.Nodes.{Run, ok, fault, out_of_fuel}
use so.Base.Nodes
use so.Base.Outcome.{Outcome, returned, next, ◌>>=◌}
use so.Common.Bytes.{encode, decode, encode_all, decode_all, memory, overwrite}
use so.Common.Kernel.{Reader, Writer}
use so.Common.Io.{safe_read, safe_write}
use so.Common.Io.Print.{print_str}

pub record Client (k : Reader) (w : Writer) (o : Writer) : Type 0 where
  pub req : w.Fd
  pub resp : k.Fd
  pub out : o.Fd

-- `i - 1` on size_t
abbrev pub minus_one : ℕ → ℕ
minus_one i = (i + size_mod - 1) % size_mod

-- A block of malloc after a read into it, a fault if the bytes do not fit.
abbrev pub fill : List ℕ → List ℕ → Run (List ℕ)
fill bytes block = if leb (length bytes) (length block) then ok (overwrite bytes block) else fault

-- `seats[index]`
abbrev pub seat_at : List ℕ → ℕ → Run ℕ
seat_at seats index = Nodes.◌>>=◌ (memory 4 (drop (4 * index) seats)) λ bytes. ok (decode bytes)

module _ (k : Reader) (w : Writer) (o : Writer) where
  -- `if (safe_write(...) < 0) return 1;`
  unfoldable pub put : List ℕ → Client k w o → Run (Outcome (Client k w o))
  put bytes c = Nodes.◌>>=◌ (safe_write w (suc (length bytes)) bytes c.req) λ (r, req).
      let c₁ = record c { req = req } in
      elim r [ none ↦ ok (returned 1 c₁) | some n ↦ ok (next c₁) ]

  -- `if (safe_read(...) <= 0) return 1; return return_value;`
  unfoldable pub read_status : Client k w o → Run (Outcome (Client k w o))
  read_status c = Nodes.◌>>=◌ (safe_read k 5 4 c.resp) λ (r, resp).
      let c₁ = record c { resp = resp } in
      elim r [
        | none ↦ ok (returned 1 c₁)
        | some [] ↦ ok (returned 1 c₁)
        | some (b ∷ bs) ↦ ok (returned (decode (take 4 (overwrite (b ∷ bs) (encode 4 1)))) c₁)
      ]

  unfoldable pub ems_create : ℕ → ℕ → ℕ → Client k w o → Run (Outcome (Client k w o))
  unfolding put read_status
  ems_create event_id num_rows num_cols c = do
    c₁ ← put (encode 1 3) c
    c₂ ← put (encode 4 event_id) c₁
    c₃ ← put (encode_all 8 (num_rows ∷ num_cols ∷ [])) c₂
    read_status c₃

  -- The arrays are sent whole, with the elements behind the last seat.
  unfoldable pub ems_reserve : ℕ → ℕ → List ℕ → List ℕ → Client k w o → Run (Outcome (Client k w o))
  unfolding put read_status
  ems_reserve event_id num_seats xs ys c = do
    c₁ ← put (encode 1 4) c
    c₂ ← put (encode 4 event_id) c₁
    c₃ ← put (encode 8 num_seats) c₂
    c₄ ← Nodes.◌>>=◌ (memory 2048 (encode_all 8 xs)) λ bytes. put bytes c₃
    c₅ ← Nodes.◌>>=◌ (memory 2048 (encode_all 8 ys)) λ bytes. put bytes c₄
    read_status c₅

  -- Whether the two pipes can be unlinked.
  abbrev pub close_pipes : Bool → Bool → ℕ
  close_pipes unlink_req unlink_resp =
      if not unlink_req then 1 else (if not unlink_resp then 1 else 0)

  unfoldable pub ems_quit : Bool → Bool → Client k w o → Run (Outcome (Client k w o))
  unfolding put
  ems_quit unlink_req unlink_resp c = do
    c₁ ← put (encode 1 2) c
    let closed = close_pipes unlink_req unlink_resp
    ok (returned 0 c₁)

  -- `if (print_str(...)) return 1;`
  unfoldable pub print : List ℕ → Client k w o → Run (Outcome (Client k w o))
  print str c =
      Nodes.◌>>=◌ (print_str o (suc (length str)) str c.out) λ (r, out).
        let c₁ = record c { out = out } in ok (if r == 0 then next c₁ else returned 1 c₁)

  module _ (sprintf : ℕ → List ℕ) where
    -- The inner loop of `ems_show` in row `i`, from the column `j` on. The counters of the loops are
    -- size_t: where `cols` is the largest one, `j <= cols` is never false. Fuel bounds the rounds.
    unfoldable pub print_row :
        List ℕ → (cols i fuel j : ℕ) → Client k w o → Run (Outcome (Client k w o))
    unfolding print
    print_row seats cols i zero j c = out_of_fuel
    print_row seats cols i (suc f) j c =
        let body = (do
          c₁ ←
              Nodes.◌>>=◌ (seat_at seats ((minus_one i * cols + minus_one j) % size_mod))
                λ seat. print (sprintf seat) c
          c₂ ← if ltb j cols then print (32 ∷ []) c₁ else ok (next c₁)
          print_row seats cols i f ((j + 1) % size_mod) c₂) in
        if leb j cols then body else ok (next c)

    -- The outer loop, from the row `i` on.
    unfoldable pub print_rows :
        List ℕ → (rows cols fuel i : ℕ) → Client k w o → Run (Outcome (Client k w o))
    unfolding print_row
    print_rows seats rows cols zero i c = out_of_fuel
    print_rows seats rows cols (suc f) i c =
        let body = (do
          c₁ ← print_row seats cols i (suc cols) 1 c
          c₂ ← print (10 ∷ []) c₁
          print_rows seats rows cols f ((i + 1) % size_mod) c₂) in
        if leb i rows then body else ok (next c)

    -- `ems_show` from `malloc` on, which gives the block's old contents.
    unfoldable pub read_seats :
        (malloc : ℕ → Option (List ℕ))
        → (size rows cols : ℕ) → Client k w o
        → Run (Outcome (Client k w o))
    unfolding print_rows read_status
    read_seats malloc size rows cols c = elim (malloc size) [
      | none ↦ ok (returned 1 c)
      | some block ↦ Nodes.◌>>=◌ (safe_read k (suc size) size c.resp) λ (r, resp).
          let c₁ = record c { resp = resp } in
          elim r [
            | none ↦ ok (returned 1 c₁)
            | some bytes ↦
                Nodes.◌>>=◌ (fill bytes block)
                  λ seats. (do c₂ ← print_rows seats rows cols (suc rows) 1 c₁; read_status c₂)
          ]
    ]

    unfoldable pub show_seats :
        (malloc : ℕ → Option (List ℕ))
        → (rows cols : ℕ) → Client k w o
        → Run (Outcome (Client k w o))
    unfolding read_seats
    show_seats malloc rows cols c =
        let num_seats = (rows * cols) % size_mod in
        read_seats malloc ((4 * num_seats) % size_mod) rows cols c

    -- `num_matrix` is what the stack holds there.
    unfoldable pub ems_show :
        (malloc : ℕ → Option (List ℕ))
        → (num_matrix : List ℕ) → ℕ
        → Client k w o
        → Run (Outcome (Client k w o))
    unfolding put show_seats
    ems_show malloc num_matrix event_id c = do
      c₁ ← put (encode 1 5) c
      c₂ ← put (encode 4 event_id) c₁
      Nodes.◌>>=◌ (safe_read k 17 16 c₂.resp) λ (r, resp).
          let c₃ = record c₂ { resp = resp } in
          elim r [
            | none ↦ ok (returned 1 c₃)
            | some [] ↦ ok (returned 1 c₃)
            | some (b ∷ bs) ↦
                let matrix = overwrite (b ∷ bs) num_matrix in
                show_seats malloc (decode (take 8 matrix)) (decode (take 8 (drop 8 matrix))) c₃
          ]

    -- The loop of `ems_list_events`, with `left` ids to come: "Event: ", the number, the line end.
    unfoldable pub print_ids : List ℕ → ℕ → ℕ → Client k w o → Run (Outcome (Client k w o))
    unfolding print
    print_ids ids i zero c = ok (next c)
    print_ids ids i (suc left) c = do
      c₁ ← print (69 ∷ 118 ∷ 101 ∷ 110 ∷ 116 ∷ 58 ∷ 32 ∷ []) c
      c₂ ← Nodes.◌>>=◌ (seat_at ids i) λ id. print (sprintf id ++ 10 ∷ []) c₁
      print_ids ids (i + 1) left c₂

    -- `ems_list_events` from `malloc` on; "No events" and a line end if there is none.
    unfoldable pub read_ids :
        (malloc : ℕ → Option (List ℕ))
        → (size num : ℕ) → Client k w o
        → Run (Outcome (Client k w o))
    unfolding print_ids read_status
    read_ids malloc size num c = elim (malloc size) [
      | none ↦ ok (returned 1 c)
      | some block ↦ Nodes.◌>>=◌ (safe_read k (suc size) size c.resp) λ (r, resp).
          let c₁ = record c { resp = resp } in
          elim r [
            | none ↦ ok (returned 1 c₁)
            | some bytes ↦ Nodes.◌>>=◌ (fill bytes block) λ ids. (do
              c₂ ←
                  if num == 0
                  then print (78 ∷ 111 ∷ 32 ∷ 101 ∷ 118 ∷ 101 ∷ 110 ∷ 116 ∷ 115 ∷ 10 ∷ []) c₁
                  else print_ids ids 0 num c₁
              read_status c₂)
          ]
    ]

    unfoldable pub list_ids :
        (malloc : ℕ → Option (List ℕ)) → ℕ → Client k w o → Run (Outcome (Client k w o))
    unfolding read_ids
    list_ids malloc num c = read_ids malloc ((4 * num) % size_mod) num c

    -- The number of events is 0 until it is read.
    unfoldable pub ems_list_events :
        (malloc : ℕ → Option (List ℕ)) → Client k w o → Run (Outcome (Client k w o))
    unfolding put list_ids
    ems_list_events malloc c = do
      c₁ ← put (encode 1 6) c
      Nodes.◌>>=◌ (safe_read k 9 8 c₁.resp) λ (r, resp).
          let c₂ = record c₁ { resp = resp } in
          elim r [
            | none ↦ ok (returned 1 c₂)
            | some bytes ↦ list_ids malloc (decode (take 8 (overwrite bytes (encode 8 0)))) c₂
          ]
