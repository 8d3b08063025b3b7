-- ===== src/Client/Reservation/Text.antt =====
-- `parse_reserve` of Part2/src/client/parser.c on the text of a RESERVE line's arguments.
use so.Base.{
  ℕ, zero, suc, ◌+◌, ◌≤◌, ◌<◌, ◌≡◌, false, true, none, some, List, [], ◌∷◌, ◌++◌, refl, ap, ◌∙◌,
  arith, length, length-append, drop, ◌==◌, ==-false,
}
use so.Base.Nodes.{Run, ok}
use so.Common.Kernel.{Reader, IsFile}
use so.Client.Parser.Next.{cleanup-next_line}
use so.Client.Arguments.{is_end}
use so.Client.Arguments.Uint.{value, IsStrtoul}
use so.Client.Arguments.Create.{number_lem}
use so.Client.Reservation
use so.Client.Reservation.{read_coords, parse_reserve}
use so.Client.Reservation.Seats.{
  Seat, seat_text, seats_text, rows, cols, IsNumber, AllNumbers, expect_lem, IsNumber-Fits,
  round_lem, one_more, seats_lem,
}

-- The id, a space, and the seats in brackets.
abbrev pub arguments : List ℕ → Seat → List Seat → List ℕ → List ℕ
arguments id p ps rest = id ++ 32 ∷ 91 ∷ seats_text p ps rest

module _ (k : Reader) (file : IsFile k) (strtoul : List ℕ → Run ℕ) (law : IsStrtoul strtoul)
    (fuel : ℕ) (bufs : ℕ → List ℕ) (room : (i : ℕ) → length (bufs i) ≡ 16) where
  -- With the promise of `strtoul` and arrays of 16 bytes for the digits: on a regular file that goes
  -- on with an id and seats in digits of numbers that fit, fewer seats than `max`, in the format of
  -- RESERVE and ended by a line end, `parse_reserve` with arrays of at least `max` elements returns
  -- the number of the seats, the id, and the arrays with the rows and the columns at their start,
  -- and leaves exactly what follows the line.
  pub parse_reserve-text :
      (max : ℕ) (xs ys id : List ℕ) (p : Seat) (ps : List Seat) (rest : List ℕ) (fd : k.Fd)
      → file.left fd ≡ arguments id p ps (10 ∷ rest)
      → IsNumber id
      → AllNumbers (p ∷ ps)
      → length (p ∷ ps) < max
      → max ≤ length xs
      → max ≤ length ys
      → (fd' : k.Fd) × (parse_reserve k strtoul fuel bufs max xs ys fd
          ≡ ok (
            some (
              length (p ∷ ps),
              value id,
              rows (p ∷ ps) ++ drop (length (p ∷ ps)) xs,
              cols (p ∷ ps) ++ drop (length (p ∷ ps)) ys,
            ),
            fd',
          ))
        × (file.left fd' ≡ rest)
  unfolding parse_reserve
  parse_reserve-text max xs ys id p ps rest fd e good all few hx hy =
      let (fd₁, run₁, e₁) =
        number_lem k file strtoul law fuel (bufs 0) (λ c. c == 32) id 32 _ fd e
          (IsNumber-Fits k file strtoul law fuel bufs room 0 id good) refl refl in
      let (fd₂, run₂, e₂) = expect_lem k file strtoul law fuel (λ c. c == 91) 91 _ fd₁ e₁ refl in
      let (fd₃, run₃, e₃) =
        seats_lem k file strtoul law fuel bufs room max 0 p ps (10 ∷ rest) [] [] xs ys fd₂ e₂ all
          refl refl (omega arith) (omega arith) (omega arith) in
      let none_before : 0 + length (p ∷ ps) ≡ length (p ∷ ps) = omega arith in
      let under : (0 + length (p ∷ ps) == max) ≡ false =
        ==-false (0 + length (p ∷ ps)) max (λ same. omega arith) in
      let (fd₄, run₄, e₄) = expect_lem k file strtoul law fuel is_end 10 rest fd₃ e₃ refl in
      (
        fd₄,
        rw (parse_reserve, Reservation.◌>>=◌, run₁, run₂, run₃, under, run₄) refl ∙ λ i. ok (
          some (
            none_before i,
            value id,
            rows (p ∷ ps) ++ drop (length (p ∷ ps)) xs,
            cols (p ∷ ps) ++ drop (length (p ∷ ps)) ys,
          ),
          fd₄,
        ),
        e₄,
      )

  shorter :
      (fd fd' : k.Fd) (p : Seat) (ch : ℕ) (cs : List ℕ)
      → file.left fd ≡ seat_text p (ch ∷ cs)
      → file.left fd' ≡ cs
      → length (file.left fd') ≤ length (file.left fd)
  shorter fd fd' (x, y) ch cs e after = omega (
    arith,
    ap length e,
    ap length after,
    length-append x (44 ∷ (y ++ 41 ∷ ch ∷ cs)),
    length-append y (41 ∷ ch ∷ cs),
  )

  -- The loop on as many seats as it has rounds, or more.
  full_lem :
      (left n : ℕ) (p : Seat) (ps : List Seat) (rest donex doney freex freey : List ℕ) (fd : k.Fd)
      → file.left fd ≡ seats_text p ps rest
      → AllNumbers (p ∷ ps)
      → length donex ≡ n
      → length doney ≡ n
      → left ≤ length (p ∷ ps)
      → left ≤ length freex
      → left ≤ length freey
      → (fd' : k.Fd) × (xs : List ℕ) × (ys : List ℕ) × (read_coords k strtoul fuel bufs left n
            (donex ++ freex)
            (doney ++ freey)
            fd
          ≡ ok (some (n + left, xs, ys), fd'))
        × (length (file.left fd') ≤ length (file.left fd))
  unfolding read_coords
  full_lem zero n p ps rest donex doney freex freey fd e all lx ly h hx hy =
      let count : n ≡ n + 0 = omega arith in
      (
        fd,
        donex ++ freex,
        doney ++ freey,
        λ i. ok (some (count i, donex ++ freex, doney ++ freey), fd),
        omega arith,
      )
  full_lem (suc left) n p ps rest donex doney [] freey fd e all lx ly h hx hy = absurd (omega arith)
  full_lem (suc left) n p ps rest donex doney (gx ∷ freex) [] fd e all lx ly h hx hy =
      absurd (omega arith)
  full_lem (suc left) n p [] rest donex doney (gx ∷ freex) (gy ∷ freey) fd e all lx ly h hx hy =
      let (fd', run, after) =
        round_lem k file strtoul law fuel bufs room left n p 93 rest donex doney freex freey gx gy
          fd e all refl lx ly in
      let last : left ≡ 0 = omega arith in
      let count : n + 1 ≡ n + suc left = omega arith in
      let xs = (donex ++ value p.0 ∷ []) ++ freex in
      let ys = (doney ++ value p.1 ∷ []) ++ freey in
      (fd', xs, ys, run ∙ λ i. ok (some (count i, xs, ys), fd'), shorter fd fd' p 93 rest e after)
  full_lem (suc left) n p (q ∷ ps) rest donex doney (gx ∷ freex) (gy ∷ freey) fd e all lx ly h hx
        hy =
      let (fd₁, run₁, after) =
        round_lem k file strtoul law fuel bufs room left n p 32 (seats_text q ps rest) donex doney
          freex freey gx gy fd e (all.0, all.1, tt) refl lx ly in
      let (fd', xs, ys, run, short) =
        full_lem left (n + 1) q ps rest (donex ++ value p.0 ∷ []) (doney ++ value p.1 ∷ []) freex
          freey fd₁ after all.2 (one_more k file strtoul law fuel bufs room n donex (value p.0) lx)
          (one_more k file strtoul law fuel bufs room n doney (value p.1) ly) (omega arith)
          (omega arith) (omega arith) in
      let count : n + 1 + left ≡ n + suc left = omega arith in
      (
        fd',
        xs,
        ys,
        run₁ ∙ run ∙ λ i. ok (some (count i, xs, ys), fd'),
        omega (arith, shorter fd fd₁ p 32 (seats_text q ps rest) e after),
      )

  -- With the promise of `strtoul` and arrays of 16 bytes for the digits: on a regular file that goes
  -- on with an id and `max` seats or more, in digits of numbers that fit, and with fuel for the
  -- file's bytes, `parse_reserve` with arrays of at least `max` elements, writes
  -- inside them, ends and returns 0.
  pub parse_reserve-full :
      (max : ℕ) (xs ys id : List ℕ) (p : Seat) (ps : List Seat) (rest : List ℕ) (fd : k.Fd)
      → file.left fd ≡ arguments id p ps rest
      → IsNumber id
      → AllNumbers (p ∷ ps)
      → max ≤ length (p ∷ ps)
      → max ≤ length xs
      → max ≤ length ys
      → length (file.left fd) < fuel
      → (fd' : k.Fd) × (parse_reserve k strtoul fuel bufs max xs ys fd ≡ ok (none, fd'))
  unfolding parse_reserve
  parse_reserve-full max xs ys id p ps rest fd e good all many hx hy enough =
      let (fd₁, run₁, e₁) =
        number_lem k file strtoul law fuel (bufs 0) (λ c. c == 32) id 32 _ fd e
          (IsNumber-Fits k file strtoul law fuel bufs room 0 id good) refl refl in
      let (fd₂, run₂, e₂) = expect_lem k file strtoul law fuel (λ c. c == 91) 91 _ fd₁ e₁ refl in
      let (fd₃, xs', ys', run₃, short) =
        full_lem max 0 p ps rest [] [] xs ys fd₂ e₂ all refl refl many hx hy in
      let bound : length (file.left fd₃) < fuel = omega (
        arith,
        ap length e,
        ap length e₂,
        short,
        enough,
        length-append id (32 ∷ 91 ∷ seats_text p ps rest),
      ) in
      let (fd₄, run₄, after) = cleanup-next_line k file fuel (file.left fd₃) fd₃ refl bound in
      let at_max : (0 + max == max) ≡ true = ground arith in
      (fd₄, rw (parse_reserve, Reservation.◌>>=◌, run₁, run₂, run₃, at_max, run₄) refl)
