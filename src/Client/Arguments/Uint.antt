-- ===== src/Client/Arguments/Uint.antt =====
-- `parse_uint` on the text of numbers.
use so.Base.{
  ℕ, ◌+◌, ◌-◌, ◌*◌, ◌<◌, ◌≡◌, true, false, some, List, [], ◌∷◌, ◌++◌, refl, ◌∙◌, ap, arith, length,
  ltb, uint_mod, take, drop,
}
use mathlib.Core.List.{append_assoc}
use so.Base.Nodes.{Run, ok, fault}
use so.Common.Kernel.{Reader, IsFile}
use so.Client.Arguments.{no_digit, read_digits, parse_uint}

abbrev pub AllDigits : List ℕ → Type 0
AllDigits [] = Unit {0}
AllDigits (d ∷ ds) = (no_digit d ≡ false) × AllDigits ds

abbrev pub value_from : ℕ → List ℕ → ℕ
value_from n [] = n
value_from n (d ∷ ds) = value_from (n * 10 + (d - 48)) ds

-- The number that decimal digits stand for.
abbrev pub value : List ℕ → ℕ
value ds = value_from 0 ds

-- What `strtoul` promises for a number below 2^32 that a zero byte ends.
abbrev pub IsStrtoul : (List ℕ → Run ℕ) → Type 0
IsStrtoul strtoul =
    (ds rest : List ℕ)
    → AllDigits ds
    → value ds < uint_mod
    → strtoul (ds ++ 0 ∷ rest) ≡ ok (value ds)

module _ (k : Reader) (file : IsFile k) where
  pub first :
      (fd : k.Fd) (ch : ℕ) (cs : List ℕ)
      → file.left fd ≡ ch ∷ cs
      → ((k.read 1 fd).0 ≡ some (ch ∷ [])) × (file.left (k.read 1 fd).1 ≡ cs)
  first fd ch cs e = (file.got 1 fd ∙ ap (λ l. some (take 1 l)) e, file.rest 1 fd ∙ ap (drop 1) e)

  read_digits_lem :
      (done free ds : List ℕ) (ch : ℕ) (cs : List ℕ) (fd : k.Fd)
      → file.left fd ≡ ds ++ ch ∷ cs
      → AllDigits ds
      → no_digit ch ≡ true
      → length ds < length free
      → (fd' : k.Fd) × (gs : List ℕ) × (read_digits k done free fd
          ≡ ok (some (done ++ (ds ++ 0 ∷ gs), ch), fd'))
        × (file.left fd' ≡ cs)
  unfolding read_digits
  read_digits_lem done [] ds ch cs fd e all stop h = absurd (omega arith)
  read_digits_lem done (g ∷ gs) [] ch cs fd e all stop h =
      let (char, after) = first fd ch cs e in
      ((k.read 1 fd).1, gs, rw (read_digits, char, stop) refl, after)
  read_digits_lem done (g ∷ gs) (d ∷ ds) ch cs fd e all stop h =
      let (char, after) = first fd d (ds ++ ch ∷ cs) e in
      let (fd', gs', run, rest) =
        read_digits_lem (done ++ d ∷ []) gs ds ch cs (k.read 1 fd).1 after all.1 stop
          (omega arith) in
      let text = append_assoc done (d ∷ []) (ds ++ 0 ∷ gs') in
      (fd', gs', rw (read_digits, char, all.0) (run ∙ ap (λ t. ok (some (t, ch), fd')) text), rest)

  -- A buffer of `length buf` bytes overflows: as many digits and one more character are a fault.
  pub read_digits-fault :
      (done free ds : List ℕ) (ch : ℕ) (cs : List ℕ) (fd : k.Fd)
      → file.left fd ≡ ds ++ ch ∷ cs
      → AllDigits ds
      → length ds ≡ length free
      → read_digits k done free fd ≡ fault
  unfolding read_digits
  read_digits-fault done [] [] ch cs fd e all h = rw (read_digits, (first fd ch cs e).0) refl
  read_digits-fault done [] (d ∷ ds) ch cs fd e all h = absurd (omega arith)
  read_digits-fault done (g ∷ gs) [] ch cs fd e all h = absurd (omega arith)
  read_digits-fault done (g ∷ gs) (d ∷ ds) ch cs fd e all h =
      let (char, after) = first fd d (ds ++ ch ∷ cs) e in
      rw (read_digits, char, all.0)
        (read_digits-fault (done ++ d ∷ []) gs ds ch cs (k.read 1 fd).1 after all.1 (omega arith))

  -- On a regular file that goes on with as many digits as the array has bytes and any character
  -- after them, `parse_uint` writes outside its array.
  pub parse_uint-fault :
      (strtoul : List ℕ → Run ℕ) (buf ds : List ℕ) (ch : ℕ) (cs : List ℕ) (fd : k.Fd)
      → file.left fd ≡ ds ++ ch ∷ cs
      → AllDigits ds
      → length ds ≡ length buf
      → parse_uint k strtoul buf fd ≡ fault
  unfolding parse_uint
  parse_uint-fault strtoul buf ds ch cs fd e all h =
      rw (read_digits-fault [] buf ds ch cs fd e all h) refl

  -- With the promise of `strtoul`: on a regular file that goes on with digits that stand for a
  -- number below 2^32, fewer than the array has bytes, and a character that is not a digit,
  -- `parse_uint` returns the number and that character, and leaves exactly what follows it.
  pub parse_uint-value :
      (strtoul : List ℕ → Run ℕ) (buf ds : List ℕ) (ch : ℕ) (cs : List ℕ) (fd : k.Fd)
      → IsStrtoul strtoul
      → file.left fd ≡ ds ++ ch ∷ cs
      → AllDigits ds
      → no_digit ch ≡ true
      → length ds < length buf
      → value ds < uint_mod
      → (fd' : k.Fd) × (parse_uint k strtoul buf fd ≡ ok (some (value ds, ch), fd'))
        × (file.left fd' ≡ cs)
  unfolding parse_uint
  parse_uint-value strtoul buf ds ch cs fd law e all stop h small =
      let (fd', gs, run, rest) = read_digits_lem [] buf ds ch cs fd e all stop h in
      let fits : ltb (uint_mod - 1) (value ds) ≡ false = ground arith in
      (fd', rw (run, law ds gs all small, fits) refl, rest)
