-- ===== src/Client/Parser.antt =====
-- `cleanup` and `get_next` of Part2/src/client/parser.c: the command word of a line. Characters are
-- numbers in ASCII. Fuel bounds the loop of `cleanup`.
pub mod Next
pub mod Word
use so.Base.{
  ℕ, zero, suc, Bool, true, false, ◌&&◌, Option, none, some, List, [], ◌∷◌, ◌==◌, if◌then◌else◌,
  length,
}
use so.Base.Nodes.{Run, ok, fault, out_of_fuel, ◌>>=◌}
use so.Common.Kernel.{Reader}

pub data Command : Type 0 where
  cmd_create : Command
  cmd_reserve : Command
  cmd_show : Command
  cmd_list_events : Command
  cmd_wait : Command
  cmd_help : Command
  cmd_empty : Command
  cmd_invalid : Command
  eoc : Command

-- What follows the first letter of "CREATE ", "RESERVE ", "SHOW ", "LIST", "WAIT " and "HELP".
abbrev pub create_tail : List ℕ
create_tail = 82 ∷ 69 ∷ 65 ∷ 84 ∷ 69 ∷ 32 ∷ []

abbrev pub reserve_tail : List ℕ
reserve_tail = 69 ∷ 83 ∷ 69 ∷ 82 ∷ 86 ∷ 69 ∷ 32 ∷ []

abbrev pub show_tail : List ℕ
show_tail = 72 ∷ 79 ∷ 87 ∷ 32 ∷ []

abbrev pub list_tail : List ℕ
list_tail = 73 ∷ 83 ∷ 84 ∷ []

abbrev pub wait_tail : List ℕ
wait_tail = 65 ∷ 73 ∷ 84 ∷ 32 ∷ []

abbrev pub help_tail : List ℕ
help_tail = 69 ∷ 76 ∷ 80 ∷ []

abbrev pub same_bytes : List ℕ → List ℕ → Bool
same_bytes [] [] = true
same_bytes [] (y ∷ ys) = false
same_bytes (x ∷ xs) [] = false
same_bytes (x ∷ xs) (y ∷ ys) = (x == y) && same_bytes xs ys

-- `read(...) != n || strncmp(...) != 0`, negated.
abbrev pub is_word : List ℕ → Option (List ℕ) → Bool
is_word word none = false
is_word word (some bytes) = same_bytes word bytes

module _ (k : Reader) where
  unfoldable pub cleanup : ℕ → k.Fd → Run k.Fd
  cleanup zero fd = out_of_fuel
  cleanup (suc f) fd =
      let fd' = (k.read 1 fd).1 in
      let rest = cleanup f fd' in
      elim (k.read 1 fd).0 [
        | none ↦ ok fd'
        | some [] ↦ ok fd'
        | some (ch ∷ []) ↦ if ch == 10 then ok fd' else rest
        | some (ch ∷ c ∷ cs) ↦ ok fd'
      ]

  -- The rest of the line is skipped.
  abbrev pub skip : ℕ → Command → k.Fd → Run (Command × k.Fd)
  skip fuel c fd = do fd' ← cleanup fuel fd; ok (c, fd')

  -- A case of the switch with a word that ends in a space.
  abbrev pub word_case : ℕ → List ℕ → Command → k.Fd → Run (Command × k.Fd)
  word_case fuel word c fd =
      let fd' = (k.read (length word) fd).1 in
      if is_word word (k.read (length word) fd).0 then ok (c, fd') else skip fuel cmd_invalid fd'

  -- The character after LIST or HELP: the end of the input or of the line. If the read fails,
  -- the code looks at a character that was never written.
  abbrev pub line_end : ℕ → Command → k.Fd → Run (Command × k.Fd)
  line_end fuel c fd =
      let fd' = (k.read 1 fd).1 in
      elim (k.read 1 fd).0 [
        | none ↦ fault
        | some [] ↦ ok (c, fd')
        | some (ch ∷ cs) ↦ if ch == 10 then ok (c, fd') else skip fuel cmd_invalid fd'
      ]

  -- A case of the switch with a word that ends the line.
  abbrev pub line_case : ℕ → List ℕ → Command → k.Fd → Run (Command × k.Fd)
  line_case fuel word c fd =
      let fd' = (k.read (length word) fd).1 in
      if is_word word (k.read (length word) fd).0
      then line_end fuel c fd'
      else skip fuel cmd_invalid fd'

  abbrev pub switch : ℕ → ℕ → k.Fd → Run (Command × k.Fd)
  switch fuel ch fd =
      if ch == 67
      then word_case fuel create_tail cmd_create fd
      else (if ch == 82
          then word_case fuel reserve_tail cmd_reserve fd
          else (if ch == 83
              then word_case fuel show_tail cmd_show fd
              else (if ch == 76
                  then line_case fuel list_tail cmd_list_events fd
                  else (if ch == 87
                      then word_case fuel wait_tail cmd_wait fd
                      else (if ch == 72
                          then line_case fuel help_tail cmd_help fd
                          else (if ch == 35
                              then skip fuel cmd_empty fd
                              else (if ch == 10
                                  then ok (cmd_empty, fd)
                                  else skip fuel cmd_invalid fd)))))))

  unfoldable pub get_next : ℕ → k.Fd → Run (Command × k.Fd)
  get_next fuel fd = elim (k.read 1 fd).0 [
    | none ↦ ok (eoc, (k.read 1 fd).1)
    | some [] ↦ ok (eoc, (k.read 1 fd).1)
    | some (ch ∷ []) ↦ switch fuel ch (k.read 1 fd).1
    | some (ch ∷ c ∷ cs) ↦ ok (eoc, (k.read 1 fd).1)
  ]
