-- ===== src/Client/Tests.antt =====
-- Command files, read from a list of bytes.
mod Reservation
mod Main
use so.Base.{
  zero, suc, ◌+◌, ◌-◌, ◌*◌, replicate, if◌then◌else◌, ℕ, ◌≡◌, ◌<◌, ◌⊎◌, some, Option, List, [], ◌∷◌,
  ◌++◌, refl, arith, length, take, drop,
}
use so.Base.Nodes.{Run, ok, fault}
use so.Client.Arguments.{no_digit, parse_uint, parse_create}
use so.Client.Arguments.Create.{Line, parse_create-text}
use so.Client.Arguments.Uint.{AllDigits, value_from, IsStrtoul, parse_uint-value, parse_uint-fault}
use so.Common.Kernel.{Reader, IsFile}
use so.Client.Parser.{Command, cmd_create, cmd_invalid, eoc, cleanup, get_next, create_tail}
use so.Client.Parser.Next.{cleanup-next_line, get_next-progress, next_line}
use so.Client.Parser.Word.{create, get_next-text}

abbrev pub read_file : ℕ → List ℕ → Option (List ℕ) × List ℕ
read_file n bytes = (some (take n bytes), drop n bytes)

abbrev pub file : Reader
file = record { Fd = List ℕ; read = read_file }

abbrev pub file-IsFile : IsFile file
file-IsFile = record { left = λ fd. fd; got = λ n fd. refl; rest = λ n fd. refl }

-- "CREATE 1"
abbrev line : List ℕ
line = 67 ∷ create_tail ++ 49 ∷ []

get_next-text_example :
    (fd : List ℕ) × (get_next file 1 line ≡ ok (cmd_create, fd)) × (fd ≡ 49 ∷ [])
get_next-text_example = get_next-text file file-IsFile 1 create (49 ∷ []) line refl

get_next-progress_example :
    (c : Command) × (fd : List ℕ) × (get_next file 9 line ≡ ok (c, fd))
    × (((line ≡ []) × (c ≡ eoc)) ⊎ (length fd < length line))
get_next-progress_example = get_next-progress file file-IsFile 9 line (omega arith)

-- A short line that starts like RESERVE takes the next line with it: "R", end of line, "CREATE 1",
-- end of line, is one invalid command, with nothing left.
short_line : get_next file 20 (82 ∷ 10 ∷ line ++ 10 ∷ []) ≡ ok (cmd_invalid, [])
unfolding get_next cleanup
short_line = refl

-- A `strtoul` that reads digits up to the first character that is none.
abbrev pub read_number : ℕ → List ℕ → Run ℕ
read_number n [] = fault
read_number n (ch ∷ cs) =
    let rest = read_number (n * 10 + (ch - 48)) cs in if no_digit ch then ok n else rest

pub read_number_lem :
    (n : ℕ) (ds rest : List ℕ)
    → AllDigits ds
    → read_number n (ds ++ 0 ∷ rest) ≡ ok (value_from n ds)
read_number_lem n [] rest all = refl
read_number_lem n (d ∷ ds) rest all = rw all.0 (read_number_lem (n * 10 + (d - 48)) ds rest all.1)

pub read_number-IsStrtoul : IsStrtoul (read_number 0)
read_number-IsStrtoul ds rest all small = read_number_lem 0 ds rest all

-- What the stack holds.
abbrev stack : List ℕ
stack = replicate 16 7

zeros : (n : ℕ) → AllDigits (replicate n 48)
zeros zero = tt
zeros (suc n) = (refl, zeros n)

-- Sixteen zeros and a space.
parse_uint-fault_example :
    parse_uint file (read_number 0) stack (replicate 16 48 ++ 32 ∷ []) ≡ fault
parse_uint-fault_example =
    parse_uint-fault file file-IsFile (read_number 0) stack (replicate 16 48) 32 []
      (replicate 16 48 ++ 32 ∷ []) refl (zeros 16) refl

-- "1 2 3" and an end of line.
abbrev arguments : Line
arguments = record { event_id = 49 ∷ []; num_rows = 50 ∷ []; num_cols = 51 ∷ [] }

parse_create-text_example :
    (fd : List ℕ) × (parse_create file
        (read_number 0)
        1
        stack
        stack
        stack
        (49 ∷ 32 ∷ 50 ∷ 32 ∷ 51 ∷ 10 ∷ 67 ∷ [])
      ≡ ok (some (1, 2, 3), fd))
    × (fd ≡ 67 ∷ [])
parse_create-text_example =
    parse_create-text file file-IsFile (read_number 0) read_number-IsStrtoul 1 stack stack stack
      arguments (67 ∷ []) (49 ∷ 32 ∷ 50 ∷ 32 ∷ 51 ∷ 10 ∷ 67 ∷ []) refl
      ((refl, tt), (omega arith), (omega arith)) ((refl, tt), (omega arith), (omega arith))
      ((refl, tt), (omega arith), (omega arith))
