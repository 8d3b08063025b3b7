-- ===== src/Client/Arguments.antt =====
-- `parse_uint` of Part2/src/common/io.c and the parsers of arguments of Part2/src/client/parser.c
-- that take a fixed number of them. A result is the numbers for the code 0, `none` for 1.
pub mod Uint
pub mod Create
use so.Base.{
  ℕ, ◌-◌, Bool, ◌||◌, Option, none, some, List, [], ◌∷◌, ◌++◌, ltb, ◌==◌, if◌then◌else◌, uint_mod,
}
use so.Base.Nodes.{Run, ok, fault, ◌>>=◌}
use so.Common.Kernel.{Reader}
use so.Client.Parser.{cleanup}

-- Not a decimal digit: `ch > '9' || ch < '0'`.
abbrev pub no_digit : ℕ → Bool
no_digit ch = ltb 57 ch || ltb ch 48

-- The end of the line or of the input: `ch == '\n' || ch == '\0'`.
abbrev pub is_end : ℕ → Bool
is_end ch = (ch == 10) || (ch == 0)

module _ (k : Reader) where
  -- The loop of `parse_uint`. `done` is the part of buf that is written, `free` the rest, with what
  -- the stack held. The result is buf and `*next`. When the array is full, the next character is
  -- written behind it, and at the end of the input `strtoul` reads behind it.
  unfoldable pub read_digits : (done free : List ℕ) → k.Fd → Run (Option (List ℕ × ℕ) × k.Fd)
  read_digits done [] fd = elim (k.read 1 fd).0 [
    | none ↦ ok (none, (k.read 1 fd).1)
    | some bytes ↦ fault
  ]
  read_digits done (g ∷ gs) fd =
      let fd' = (k.read 1 fd).1 in
      elim (k.read 1 fd).0 [
        | none ↦ ok (none, fd')
        | some [] ↦ ok (some (done ++ g ∷ gs, 0), fd')
        | some (ch ∷ cs) ↦
            let rest = read_digits (done ++ ch ∷ []) gs fd' in
            if no_digit ch then ok (some (done ++ 0 ∷ gs, ch), fd') else rest
      ]

-- `strtoul` of the C library on a buffer; a buffer without an end of the number is a fault.
module _ (k : Reader) (strtoul : List ℕ → Run ℕ) where
  -- `buf` is what the stack holds where the array of 16 bytes is. The result is the value and the
  -- character after it.
  unfoldable pub parse_uint : List ℕ → k.Fd → Run (Option (ℕ × ℕ) × k.Fd)
  parse_uint buf fd = do
    (r, fd') ← read_digits k [] buf fd
    elim r [
      | none ↦ ok (none, fd')
      | some (text, next) ↦ do
        ul ← strtoul text
        if ltb (uint_mod - 1) ul then ok (none, fd') else ok (some (ul, next), fd')
    ]

  -- A number that a parser of arguments asks for, followed by a character that it accepts; if not,
  -- the rest of the line is skipped.
  abbrev pub number : ℕ → List ℕ → (ℕ → Bool) → k.Fd → Run (Option ℕ × k.Fd)
  number fuel buf accepts fd = do
    (r, fd') ← parse_uint buf fd
    let refused : Run (Option ℕ × k.Fd) = (do fd'' ← cleanup k fuel fd'; ok (none, fd''))
    elim r [
      | none ↦ refused
      | some (value, ch) ↦ if accepts ch then ok (some value, fd') else refused
    ]

  unfoldable pub parse_show : ℕ → List ℕ → k.Fd → Run (Option ℕ × k.Fd)
  parse_show fuel buf fd = number fuel buf is_end fd

  -- Each of the three calls of `parse_uint` has its own array.
  unfoldable pub parse_create :
      ℕ → (buf₁ buf₂ buf₃ : List ℕ) → k.Fd → Run (Option (ℕ × ℕ × ℕ) × k.Fd)
  parse_create fuel buf₁ buf₂ buf₃ fd = do
    (event_id, fd₁) ← number fuel buf₁ (λ ch. ch == 32) fd
    elim event_id [
      | none ↦ ok (none, fd₁)
      | some id ↦ do
        (num_rows, fd₂) ← number fuel buf₂ (λ ch. ch == 32) fd₁
        elim num_rows [
          | none ↦ ok (none, fd₂)
          | some rows ↦ do
            (num_cols, fd₃) ← number fuel buf₃ is_end fd₂
            elim num_cols [ none ↦ ok (none, fd₃) | some cols ↦ ok (some (id, rows, cols), fd₃) ]
        ]
    ]
