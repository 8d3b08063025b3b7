-- ===== src/Part1/Parser.antt =====
-- `read_uint`, `cleanup` and `get_next` of Part1/src/parser.c, over any reader. The words that Part 2
-- has too are those of its parser, and `cleanup` is the same code; BARRIER is Part 1's own.
pub mod Compare
use so.Base.{
  ℕ, ◌-◌, Bool, true, false, Option, none, some, List, [], ◌∷◌, ◌++◌, ◌==◌, ltb, if◌then◌else◌,
  length, uint_mod,
}
use so.Base.Nodes.{Run, ok, fault, ◌>>=◌}
use so.Common.Kernel.{Reader}
use so.Client.Arguments.{no_digit}
use so.Client.Parser.{
  create_tail, reserve_tail, show_tail, list_tail, wait_tail, help_tail, is_word,
}
use so.Client.Parser

pub data Command : Type 0 where
  cmd_create : Command
  cmd_reserve : Command
  cmd_show : Command
  cmd_list_events : Command
  cmd_barrier : Command
  cmd_wait : Command
  cmd_help : Command
  cmd_empty : Command
  cmd_invalid : Command
  eoc : Command

-- What follows the first letter of "BARRIER".
abbrev pub barrier_tail : List ℕ
barrier_tail = 65 ∷ 82 ∷ 82 ∷ 73 ∷ 69 ∷ 82 ∷ []

module _ (k : Reader) where
  abbrev pub cleanup : ℕ → k.Fd → Run k.Fd
  cleanup fuel fd = Parser.cleanup k fuel fd

  abbrev pub skip : ℕ → Command → k.Fd → Run (Command × k.Fd)
  skip fuel c fd = do fd' ← cleanup fuel fd; ok (c, fd')

  -- A case of the switch with a word that ends in a space.
  abbrev pub word_case : ℕ → List ℕ → Command → k.Fd → Run (Command × k.Fd)
  word_case fuel word c fd =
      let fd' = (k.read (length word) fd).1 in
      if is_word word (k.read (length word) fd).0 then ok (c, fd') else skip fuel cmd_invalid fd'

  -- The character after LIST, BARRIER or HELP; a character that was never written if the read fails.
  abbrev pub line_end : ℕ → Command → k.Fd → Run (Command × k.Fd)
  line_end fuel c fd =
      let fd' = (k.read 1 fd).1 in
      elim (k.read 1 fd).0 [
        | none ↦ fault
        | some [] ↦ ok (c, fd')
        | some (ch ∷ cs) ↦ if ch == 10 then ok (c, fd') else skip fuel cmd_invalid fd'
      ]

  abbrev pub line_case : ℕ → List ℕ → Command → k.Fd → Run (Command × k.Fd)
  line_case fuel word c fd =
      let fd' = (k.read (length word) fd).1 in
      if is_word word (k.read (length word) fd).0
      then line_end fuel c fd'
      else skip fuel cmd_invalid fd'

  abbrev pub switch : ℕ → ℕ → k.Fd → Run (Command × k.Fd)
  switch fuel ch fd =
      if ch == 67
      then word_case fuel create_tail cmd_create fd
      else (if ch == 82
          then word_case fuel reserve_tail cmd_reserve fd
          else (if ch == 83
              then word_case fuel show_tail cmd_show fd
              else (if ch == 76
                  then line_case fuel list_tail cmd_list_events fd
                  else (if ch == 66
                      then line_case fuel barrier_tail cmd_barrier fd
                      else (if ch == 87
                          then word_case fuel wait_tail cmd_wait fd
                          else (if ch == 72
                              then line_case fuel help_tail cmd_help fd
                              else (if ch == 35
                                  then skip fuel cmd_empty fd
                                  else (if ch == 10
                                      then ok (cmd_empty, fd)
                                      else skip fuel cmd_invalid fd))))))))

  unfoldable pub get_next : ℕ → k.Fd → Run (Command × k.Fd)
  get_next fuel fd = elim (k.read 1 fd).0 [
    | none ↦ ok (eoc, (k.read 1 fd).1)
    | some [] ↦ ok (eoc, (k.read 1 fd).1)
    | some (ch ∷ []) ↦ switch fuel ch (k.read 1 fd).1
    | some (ch ∷ c ∷ cs) ↦ ok (eoc, (k.read 1 fd).1)
  ]

  -- The loop of `read_uint`: `done` is the part of buf that is written, `free` the rest, with what the
  -- stack held, which a read that fails leaves there. A character behind the array is a fault.
  unfoldable pub read_digits : (done free : List ℕ) → k.Fd → Run ((List ℕ × ℕ) × k.Fd)
  read_digits done [] fd = fault
  read_digits done (g ∷ gs) fd =
      let fd' = (k.read 1 fd).1 in
      elim (k.read 1 fd).0 [
        | none ↦
            let rest = read_digits (done ++ g ∷ []) gs fd' in
            if no_digit g then ok ((done ++ 0 ∷ gs, g), fd') else rest
        | some [] ↦ ok ((done ++ g ∷ gs, 0), fd')
        | some (ch ∷ cs) ↦
            let rest = read_digits (done ++ ch ∷ []) gs fd' in
            if no_digit ch then ok ((done ++ 0 ∷ gs, ch), fd') else rest
      ]

  unfoldable pub read_uint :
      (strtoul : List ℕ → Run ℕ) → List ℕ → k.Fd → Run (Option (ℕ × ℕ) × k.Fd)
  unfolding read_digits
  read_uint strtoul buf fd = do
    ((text, next), fd') ← read_digits [] buf fd
    ul ← strtoul text
    if ltb (uint_mod - 1) ul then ok (none, fd') else ok (some (ul, next), fd')
