-- ===== src/Client/Reservation/Seats.antt =====
-- The loop of `parse_reserve` of Part2/src/client/parser.c on the text of seats.
use so.Base.{
  ℕ, zero, suc, ◌+◌, ◌*◌, ◌<◌, ◌≡◌, Bool, true, ◌||◌, some, List, [], ◌∷◌, ◌++◌, refl, sym, ap, ◌∙◌,
  arith, length, length-append, drop, set, ltb, ◌==◌, uint_mod, subst, if◌then◌else◌,
}
use mathlib.Core.List.{append_assoc}
use so.Base.Nodes.{Run, ok}
use so.Common.Kernel.{Reader, IsFile}
use so.Client.Arguments.Uint.{AllDigits, value, IsStrtoul, first}
use so.Client.Arguments.Create.{Fits, number_lem}
use so.Client.Reservation
use so.Client.Reservation.{give, expect, store, refuse, read_coords, parse_reserve}

-- The digits of a row and of a column.
abbrev pub Seat : Type 0
Seat = List ℕ × List ℕ

abbrev pub seat_text : Seat → List ℕ → List ℕ
seat_text (x, y) rest = 40 ∷ (x ++ 44 ∷ (y ++ 41 ∷ rest))

-- "(x,y) (x,y) ... (x,y)]" for a first seat and the others, and what follows.
abbrev pub seats_text : Seat → List Seat → List ℕ → List ℕ
seats_text p [] rest = seat_text p (93 ∷ rest)
seats_text p (q ∷ ps) rest = seat_text p (32 ∷ seats_text q ps rest)

abbrev pub rows : List Seat → List ℕ
rows [] = []
rows ((x, y) ∷ ps) = value x ∷ rows ps

abbrev pub cols : List Seat → List ℕ
cols [] = []
cols ((x, y) ∷ ps) = value y ∷ cols ps

-- Digits that fit into an array of 16 bytes with a zero byte, of a number below 2^32.
abbrev pub IsNumber : List ℕ → Type 0
IsNumber ds = AllDigits ds × (length ds < 16) × (value ds < uint_mod)

abbrev pub AllNumbers : List Seat → Type 0
AllNumbers [] = Unit {0}
AllNumbers ((x, y) ∷ ps) = IsNumber x × IsNumber y × AllNumbers ps

set-append :
    (done : List ℕ) (g : ℕ) (gs : List ℕ) (v : ℕ)
    → set (done ++ g ∷ gs) (length done) v ≡ (done ++ v ∷ []) ++ gs
set-append [] g gs v = refl
set-append (d ∷ ds) g gs v = ap (λ l. d ∷ l) (set-append ds g gs v)

module _ (k : Reader) (file : IsFile k) (strtoul : List ℕ → Run ℕ) (law : IsStrtoul strtoul)
    (fuel : ℕ) where
  pub expect_lem :
      (accepts : ℕ → Bool) (ch : ℕ) (cs : List ℕ) (fd : k.Fd)
      → file.left fd ≡ ch ∷ cs
      → accepts ch ≡ true
      → (fd' : k.Fd) × (expect k fuel accepts fd ≡ ok (some ch, fd')) × (file.left fd' ≡ cs)
  expect_lem accepts ch cs fd e good =
      let (char, after) = first k file fd ch cs e in
      ((k.read 1 fd).1, rw (expect, char, good) refl, after)

  store_lem :
      (done : List ℕ) (g : ℕ) (gs : List ℕ) (v n : ℕ) (fd : k.Fd)
      → length done ≡ n
      → store k (done ++ g ∷ gs) n v fd ≡ ok (some ((done ++ v ∷ []) ++ gs), fd)
  store_lem done g gs v n fd len =
      let room : ltb n (length (done ++ g ∷ gs)) ≡ true =
        let total = length-append done (g ∷ gs) in ground arith in
      let written =
        subst (λ i. set (done ++ g ∷ gs) i v ≡ (done ++ v ∷ []) ++ gs) len
          (set-append done g gs v) in
      rw (room, written) refl

  module _ (bufs : ℕ → List ℕ) (room : (i : ℕ) → length (bufs i) ≡ 16) where
    pub IsNumber-Fits : (i : ℕ) (ds : List ℕ) → IsNumber ds → Fits (bufs i) ds
    IsNumber-Fits i ds (all, short, small) =
        (all, subst (λ n. length ds < n) (sym (room i)) short, small)

    -- One round, up to the character after the seat.
    pub round_lem :
        (left n : ℕ) (p : Seat) (ch : ℕ) (cs donex doney freex freey : List ℕ) (gx gy : ℕ)
        (fd : k.Fd)
        → file.left fd ≡ seat_text p (ch ∷ cs)
        → AllNumbers (p ∷ [])
        → (ch == 32) || (ch == 93) ≡ true
        → length donex ≡ n
        → length doney ≡ n
        → (fd' : k.Fd) × (read_coords k strtoul fuel bufs
              (suc left)
              n
              (donex ++ gx ∷ freex)
              (doney ++ gy ∷ freey)
              fd
            ≡ (if ch == 93
                  then give k (
                    n + 1,
                    (donex ++ value p.0 ∷ []) ++ freex,
                    (doney ++ value p.1 ∷ []) ++ freey,
                  )
                  else read_coords k strtoul fuel bufs left
                      (n + 1)
                      ((donex ++ value p.0 ∷ []) ++ freex)
                      ((doney ++ value p.1 ∷ []) ++ freey))
                fd')
          × (file.left fd' ≡ cs)
    unfolding read_coords
    round_lem left n (x, y) ch cs donex doney freex freey gx gy fd e (fx, fy, done) good lx ly =
        let (fd₁, run₁, e₁) = expect_lem (λ c. c == 40) 40 _ fd e refl in
        let (fd₂, run₂, e₂) =
          number_lem k file strtoul law fuel (bufs (2 * n + 1)) (λ c. c == 44) x 44 _ fd₁ e₁
            (IsNumber-Fits (2 * n + 1) x fx) refl refl in
        let s₁ = store_lem donex gx freex (value x) n fd₂ lx in
        let (fd₃, run₃, e₃) =
          number_lem k file strtoul law fuel (bufs (2 * n + 2)) (λ c. c == 41) y 41 _ fd₂ e₂
            (IsNumber-Fits (2 * n + 2) y fy) refl refl in
        let s₂ = store_lem doney gy freey (value y) n fd₃ ly in
        let (fd₄, run₄, e₄) = expect_lem (λ c. (c == 32) || (c == 93)) ch cs fd₃ e₃ good in
        (fd₄, rw (read_coords, Reservation.◌>>=◌, run₁, run₂, s₁, run₃, s₂, run₄) refl, e₄)

    pub one_more :
        (n : ℕ) (done : List ℕ) (v : ℕ) → length done ≡ n → length (done ++ v ∷ []) ≡ n + 1
    one_more n done v len = omega (arith, length-append done (v ∷ []))

    -- The rounds for the seats that are left in the text, which leave the arrays' other elements.
    pub seats_lem :
        (left n : ℕ) (p : Seat) (ps : List Seat) (rest donex doney freex freey : List ℕ) (fd : k.Fd)
        → file.left fd ≡ seats_text p ps rest
        → AllNumbers (p ∷ ps)
        → length donex ≡ n
        → length doney ≡ n
        → length ps < left
        → length ps < length freex
        → length ps < length freey
        → (fd' : k.Fd) × (read_coords k strtoul fuel bufs left n
              (donex ++ freex)
              (doney ++ freey)
              fd
            ≡ ok (
              some (
                n + length (p ∷ ps),
                donex ++ (rows (p ∷ ps) ++ drop (length (p ∷ ps)) freex),
                doney ++ (cols (p ∷ ps) ++ drop (length (p ∷ ps)) freey),
              ),
              fd',
            ))
          × (file.left fd' ≡ rest)
    seats_lem zero n p ps rest donex doney freex freey fd e all lx ly h hx hy = absurd (omega arith)
    seats_lem (suc left) n p ps rest donex doney [] freey fd e all lx ly h hx hy =
        absurd (omega arith)
    seats_lem (suc left) n p ps rest donex doney (gx ∷ freex) [] fd e all lx ly h hx hy =
        absurd (omega arith)
    seats_lem (suc left) n p [] rest donex doney (gx ∷ freex) (gy ∷ freey) fd e all lx ly h hx hy =
        let (fd', run, after) =
          round_lem left n p 93 rest donex doney freex freey gx gy fd e all refl lx ly in
        (
          fd',
          run ∙ λ i. ok (
            some (
              n + 1,
              append_assoc donex (value p.0 ∷ []) freex i,
              append_assoc doney (value p.1 ∷ []) freey i,
            ),
            fd',
          ),
          after,
        )
    seats_lem (suc left) n p (q ∷ ps) rest donex doney (gx ∷ freex) (gy ∷ freey) fd e all lx ly h hx
          hy =
        let (fd₁, run₁, after) =
          round_lem left n p 32 (seats_text q ps rest) donex doney freex freey gx gy fd e
            (all.0, all.1, tt) refl lx ly in
        let (fd', run, end) =
          seats_lem left (n + 1) q ps rest (donex ++ value p.0 ∷ []) (doney ++ value p.1 ∷ []) freex
            freey fd₁ after all.2 (one_more n donex (value p.0) lx)
            (one_more n doney (value p.1) ly) (omega arith) (omega arith) (omega arith) in
        let count : n + 1 + length (q ∷ ps) ≡ n + length (p ∷ q ∷ ps) = omega arith in
        let xs = rows (q ∷ ps) ++ drop (length (q ∷ ps)) freex in
        let ys = cols (q ∷ ps) ++ drop (length (q ∷ ps)) freey in
        (
          fd',
          run₁ ∙ run ∙ λ i. ok (
            some (
              count i,
              append_assoc donex (value p.0 ∷ []) xs i,
              append_assoc doney (value p.1 ∷ []) ys i,
            ),
            fd',
          ),
          end,
        )
