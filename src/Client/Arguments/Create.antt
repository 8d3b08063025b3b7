-- ===== src/Client/Arguments/Create.antt =====
-- `parse_create` of Part2/src/client/parser.c on the text of a CREATE line's arguments.
use so.Base.{ℕ, ◌≡◌, ◌<◌, Bool, true, some, List, ◌∷◌, ◌++◌, refl, length, uint_mod, ◌==◌}
use so.Base.Nodes.{Run, ok}
use so.Common.Kernel.{Reader, IsFile}
use so.Client.Arguments.{no_digit, number, is_end, parse_create}
use so.Client.Arguments.Uint.{AllDigits, value, IsStrtoul, parse_uint-value}

-- The digits of the three numbers.
pub record Line : Type 0 where
  pub event_id : List ℕ
  pub num_rows : List ℕ
  pub num_cols : List ℕ

-- Digits that stand for a number below 2^32 and fit into the array `buf` with a zero byte.
abbrev pub Fits : List ℕ → List ℕ → Type 0
Fits buf ds = AllDigits ds × (length ds < length buf) × (value ds < uint_mod)

abbrev pub print : Line → List ℕ → List ℕ
print l rest = l.event_id ++ 32 ∷ (l.num_rows ++ 32 ∷ (l.num_cols ++ 10 ∷ rest))

module _ (k : Reader) (file : IsFile k) (strtoul : List ℕ → Run ℕ) (law : IsStrtoul strtoul) where
  pub number_lem :
      (fuel : ℕ) (buf : List ℕ) (accepts : ℕ → Bool) (ds : List ℕ) (ch : ℕ) (cs : List ℕ)
      (fd : k.Fd)
      → file.left fd ≡ ds ++ ch ∷ cs
      → Fits buf ds
      → no_digit ch ≡ true
      → accepts ch ≡ true
      → (fd' : k.Fd) × (number k strtoul fuel buf accepts fd ≡ ok (some (value ds), fd'))
        × (file.left fd' ≡ cs)
  number_lem fuel buf accepts ds ch cs fd e (all, fit, small) stop good =
      let (fd', run, rest) =
        parse_uint-value k file strtoul buf ds ch cs fd law e all stop fit small in
      (fd', rw (number, run, good) refl, rest)

  -- With the promise of `strtoul`: on a regular file that goes on with three numbers in digits,
  -- separated by spaces and ended by a line end, each below 2^32 and shorter than its array,
  -- `parse_create` returns the three numbers and leaves exactly what follows the line.
  pub parse_create-text :
      (fuel : ℕ) (buf₁ buf₂ buf₃ : List ℕ) (l : Line) (rest : List ℕ) (fd : k.Fd)
      → file.left fd ≡ print l rest
      → Fits buf₁ l.event_id
      → Fits buf₂ l.num_rows
      → Fits buf₃ l.num_cols
      → (fd' : k.Fd) × (parse_create k strtoul fuel buf₁ buf₂ buf₃ fd
          ≡ ok (some (value l.event_id, value l.num_rows, value l.num_cols), fd'))
        × (file.left fd' ≡ rest)
  unfolding parse_create
  parse_create-text fuel buf₁ buf₂ buf₃ l rest fd e f₁ f₂ f₃ =
      let (fd₁, run₁, after₁) =
        number_lem fuel buf₁ (λ c. c == 32) l.event_id 32 _ fd e f₁ refl refl in
      let (fd₂, run₂, after₂) =
        number_lem fuel buf₂ (λ c. c == 32) l.num_rows 32 _ fd₁ after₁ f₂ refl refl in
      let (fd₃, run₃, after₃) =
        number_lem fuel buf₃ is_end l.num_cols 10 rest fd₂ after₂ f₃ refl refl in
      (fd₃, rw (parse_create, run₁, run₂, run₃) refl, after₃)
