-- ===== src/Client/Tests/Reservation.antt =====
-- Lines of RESERVE and WAIT, read from a list of bytes.
use so.Base.{ℕ, ◌≡◌, true, none, some, List, [], ◌∷◌, refl, arith, replicate}
use so.Base.Nodes.{ok}
use so.Client.Tests.{file, file-IsFile, read_number, read_number-IsStrtoul}
use so.Client.Reservation.{parse_reserve, parse_wait}
use so.Client.Reservation.Seats.{Seat}
use so.Client.Reservation.Text.{arguments, parse_reserve-text, parse_reserve-full}
use so.Client.Reservation.Wait.{parse_wait-text}

abbrev stack : ℕ → List ℕ
stack i = replicate 16 7

-- The digits of (1,2).
abbrev seat : Seat
seat = (49 ∷ [], 50 ∷ [])

-- "1 [(1,2)]", an end of line and "C", with arrays of two elements.
abbrev line : List ℕ
line = arguments (49 ∷ []) seat [] (10 ∷ 67 ∷ [])

parse_reserve-text_example :
    (fd : List ℕ) × (parse_reserve file (read_number 0) 9 stack 2 (8 ∷ 8 ∷ []) (9 ∷ 9 ∷ []) line
      ≡ ok (some (1, 1, 1 ∷ 8 ∷ [], 2 ∷ 9 ∷ []), fd))
    × (fd ≡ 67 ∷ [])
parse_reserve-text_example =
    parse_reserve-text file file-IsFile (read_number 0) read_number-IsStrtoul 9 stack (λ i. refl) 2
      (8 ∷ 8 ∷ []) (9 ∷ 9 ∷ []) (49 ∷ []) seat [] (67 ∷ []) line refl
      ((refl, tt), omega arith, omega arith)
      (((refl, tt), omega arith, omega arith), ((refl, tt), omega arith, omega arith), tt)
      (omega arith) (omega arith) (omega arith)

-- The same line where one seat is the most.
parse_reserve-full_example :
    (fd : List ℕ) × (parse_reserve file (read_number 0) 20 stack 1 (8 ∷ 8 ∷ []) (9 ∷ 9 ∷ []) line
      ≡ ok (none, fd))
parse_reserve-full_example =
    parse_reserve-full file file-IsFile (read_number 0) read_number-IsStrtoul 20 stack (λ i. refl) 1
      (8 ∷ 8 ∷ []) (9 ∷ 9 ∷ []) (49 ∷ []) seat [] (10 ∷ 67 ∷ []) line refl
      ((refl, tt), omega arith, omega arith)
      (((refl, tt), omega arith, omega arith), ((refl, tt), omega arith, omega arith), tt)
      (omega arith) (omega arith) (omega arith) (omega arith)

-- "5 2", an end of line and "C".
parse_wait-text_example :
    (fd : List ℕ) × (parse_wait file (read_number 0) 9 stack true (53 ∷ 32 ∷ 50 ∷ 10 ∷ 67 ∷ [])
      ≡ ok (some (5, some 2), fd))
    × (fd ≡ 67 ∷ [])
parse_wait-text_example =
    parse_wait-text file file-IsFile (read_number 0) read_number-IsStrtoul 9 stack (λ i. refl) true
      (53 ∷ []) (some (50 ∷ [])) (67 ∷ []) (53 ∷ 32 ∷ 50 ∷ 10 ∷ 67 ∷ []) refl
      ((refl, tt), omega arith, omega arith) ((refl, tt), omega arith, omega arith) (omega arith)
