-- ===== src/Part1/Parser/Compare.antt =====
-- The parser of Part1/src/parser.c against that of Part2/src/client/parser.c.
use so.Base.{
  ℕ, ◌≡◌, ◌≢◌, Bool, true, false, Option, none, some, List, [], ◌∷◌, ◌++◌, refl, ◌∙◌, ◌==◌,
  if◌then◌else◌, inl, inr, if-false, ==-false, ltb, uint_mod, ◌-◌, length,
}
use so.Base.Nodes.{Run, ok, fault, out_of_fuel, ◌>>=◌}
use so.Common.Kernel.{Reader}
use so.Common.Io.Read.{read_outcome}
use so.Client.Parser
use so.Client.Arguments
use so.Client.Arguments.{no_digit}
use so.Client.Parser.{
  create_tail, reserve_tail, show_tail, list_tail, wait_tail, help_tail, is_word,
}
use so.Part1.Parser.{
  Command, cmd_create, cmd_reserve, cmd_show, cmd_list_events, cmd_wait, cmd_help, cmd_empty,
  cmd_invalid, eoc, skip, word_case, line_end, line_case, switch, get_next, read_digits, read_uint,
}

-- A command of Part 2 as one of Part 1.
abbrev pub command : Parser.Command → Command
command Parser.cmd_create = cmd_create
command Parser.cmd_reserve = cmd_reserve
command Parser.cmd_show = cmd_show
command Parser.cmd_list_events = cmd_list_events
command Parser.cmd_wait = cmd_wait
command Parser.cmd_help = cmd_help
command Parser.cmd_empty = cmd_empty
command Parser.cmd_invalid = cmd_invalid
command Parser.eoc = eoc

abbrev pub commands : {Fd : Type 0} → Run (Parser.Command × Fd) → Run (Command × Fd)
commands run = run >>= λ (c, fd). ok (command c, fd)

module _ (k : Reader) (fuel : ℕ) where
  commands-if :
      (b : Bool) (x y : Run (Parser.Command × k.Fd)) (x' y' : Run (Command × k.Fd))
      → x' ≡ commands x
      → y' ≡ commands y
      → (if b then x' else y') ≡ commands (if b then x else y)
  commands-if true x y x' y' e f = e
  commands-if false x y x' y' e f = f

  skipped :
      (c : Parser.Command) (fd : k.Fd) (r : Run k.Fd)
      → (r >>= λ f. ok (command c, f)) ≡ commands (r >>= λ f. ok (c, f))
  skipped c fd (ok f) = refl
  skipped c fd fault = refl
  skipped c fd out_of_fuel = refl

  skip-agree :
      (c : Parser.Command) (fd : k.Fd)
      → skip k fuel (command c) fd ≡ commands (Parser.skip k fuel c fd)
  skip-agree c fd = skipped c fd (Parser.cleanup k fuel fd)

  word_case-agree :
      (word : List ℕ) (c : Parser.Command) (fd : k.Fd)
      → word_case k fuel word (command c) fd ≡ commands (Parser.word_case k fuel word c fd)
  word_case-agree word c fd =
      commands-if (is_word word (k.read (length word) fd).0) _ _ _ _ refl
        (skip-agree Parser.cmd_invalid (k.read (length word) fd).1)

  line_end-agree :
      (c : Parser.Command) (fd : k.Fd)
      → line_end k fuel (command c) fd ≡ commands (Parser.line_end k fuel c fd)
  line_end-agree c fd = elim (read_outcome (k.read 1 fd).0) [
    | inl failed ↦ rw (line_end, Parser.line_end, failed) refl
    | inr (inl eof) ↦ rw (line_end, Parser.line_end, eof) refl
    | inr (inr (ch, cs, got)) ↦
        rw (line_end, Parser.line_end, got)
          (commands-if (ch == 10) _ _ _ _ refl (skip-agree Parser.cmd_invalid (k.read 1 fd).1))
  ]

  line_case-agree :
      (word : List ℕ) (c : Parser.Command) (fd : k.Fd)
      → line_case k fuel word (command c) fd ≡ commands (Parser.line_case k fuel word c fd)
  line_case-agree word c fd =
      commands-if (is_word word (k.read (length word) fd).0) _ _ _ _
        (line_end-agree c (k.read (length word) fd).1)
        (skip-agree Parser.cmd_invalid (k.read (length word) fd).1)

  switch-agree :
      (ch : ℕ) (fd : k.Fd)
      → (ch == 66) ≡ false
      → switch k fuel ch fd ≡ commands (Parser.switch k fuel ch fd)
  switch-agree ch fd other =
      commands-if (ch == 67) _ _ _ _ (word_case-agree create_tail Parser.cmd_create fd) (
        commands-if (ch == 82) _ _ _ _ (word_case-agree reserve_tail Parser.cmd_reserve fd) (
          commands-if (ch == 83) _ _ _ _ (word_case-agree show_tail Parser.cmd_show fd) (
            commands-if (ch == 76) _ _ _ _ (line_case-agree list_tail Parser.cmd_list_events fd) (
              if-false _ _ other
              ∙ commands-if (ch == 87) _ _ _ _ (word_case-agree wait_tail Parser.cmd_wait fd) (
                  commands-if (ch == 72) _ _ _ _ (line_case-agree help_tail Parser.cmd_help fd) (
                    commands-if (ch == 35) _ _ _ _ (skip-agree Parser.cmd_empty fd)
                      (commands-if (ch == 10) _ _ _ _ refl (skip-agree Parser.cmd_invalid fd))))))))

  -- On any reader and with any fuel: where the next byte is not the letter B, the `get_next` of Part 1
  -- reads what that of Part 2 reads and returns the same command, or fails like it.
  pub get_next-agree :
      (fd : k.Fd)
      → ((ch : ℕ) (cs : List ℕ) → (k.read 1 fd).0 ≡ some (ch ∷ cs) → ch ≢ 66)
      → get_next k fuel fd ≡ commands (Parser.get_next k fuel fd)
  unfolding get_next Parser.get_next
  get_next-agree fd other = elim (read_outcome (k.read 1 fd).0) [
    | inl failed ↦ rw (get_next, Parser.get_next, failed) refl
    | inr (inl eof) ↦ rw (get_next, Parser.get_next, eof) refl
    | inr (inr (ch, [], got)) ↦
        rw (get_next, Parser.get_next, got)
          (switch-agree ch (k.read 1 fd).1 (==-false ch 66 (other ch [] got)))
    | inr (inr (ch, c ∷ cs, got)) ↦ rw (get_next, Parser.get_next, got) refl
  ]

-- The result of Part 1's loop as one of Part 2's, which can fail.
abbrev pub succeeded : {A Fd : Type 0} → Run (A × Fd) → Run (Option A × Fd)
succeeded run = run >>= λ (a, fd). ok (some a, fd)

bind-succeeded :
    {A B Fd : Type 0} (r : Run (A × Fd)) (f : Option A → Fd → Run B)
    → (succeeded r >>= λ (o, fd). f o fd) ≡ (r >>= λ (a, fd). f (some a) fd)
bind-succeeded (ok (a, fd)) f = refl
bind-succeeded fault f = refl
bind-succeeded out_of_fuel f = refl

module _ (k : Reader) (works : (n : ℕ) (fd : k.Fd) → (k.read n fd).0 ≢ none) where
  succeeded-if :
      {A Fd : Type 0} (b : Bool) (x y : Run (A × Fd)) (x' y' : Run (Option A × Fd))
      → x' ≡ succeeded x
      → y' ≡ succeeded y
      → (if b then x' else y') ≡ succeeded (if b then x else y)
  succeeded-if true x y x' y' e f = e
  succeeded-if false x y x' y' e f = f

  read_digits-agree :
      (done free : List ℕ) (fd : k.Fd)
      → Arguments.read_digits k done free fd ≡ succeeded (read_digits k done free fd)
  unfolding read_digits Arguments.read_digits
  read_digits-agree done [] fd = elim (read_outcome (k.read 1 fd).0) [
    | inl failed ↦ absurd (works 1 fd failed)
    | inr (inl eof) ↦ rw (Arguments.read_digits, eof) refl
    | inr (inr (ch, cs, got)) ↦ rw (Arguments.read_digits, got) refl
  ]
  read_digits-agree done (g ∷ gs) fd = elim (read_outcome (k.read 1 fd).0) [
    | inl failed ↦ absurd (works 1 fd failed)
    | inr (inl eof) ↦ rw (Arguments.read_digits, read_digits, eof) refl
    | inr (inr (ch, cs, got)) ↦
        rw (Arguments.read_digits, read_digits, got)
          (succeeded-if (no_digit ch) _ _ _ _ refl
            (read_digits-agree (done ++ ch ∷ []) gs (k.read 1 fd).1))
  ]

  -- Where reads never fail, `read_uint` of Part 1 and `parse_uint` of Part 2 are one function.
  pub read_uint-agree :
      (strtoul : List ℕ → Run ℕ) (buf : List ℕ) (fd : k.Fd)
      → Arguments.parse_uint k strtoul buf fd ≡ read_uint k strtoul buf fd
  unfolding read_uint Arguments.parse_uint
  read_uint-agree strtoul buf fd = rw (read_digits-agree [] buf fd) (
      bind-succeeded (read_digits k [] buf fd) λ r fd'. elim r [
        | none ↦ ok (none, fd')
        | some (text, next) ↦ strtoul text >>= λ ul.
            if ltb (uint_mod - 1) ul then ok (none, fd') else ok (some (ul, next), fd')
      ])
