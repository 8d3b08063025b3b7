-- ===== src/Client/Reservation/Wait.antt =====
-- `parse_wait` of Part2/src/client/parser.c on the text of a WAIT line's arguments.
use so.Base.{
  ℕ, ◌<◌, ◌≡◌, Bool, true, false, Option, none, some, List, [], ◌∷◌, ◌++◌, refl, ◌∙◌, ap, arith,
  length, length-append, ◌==◌, if-false,
}
use so.Base.Nodes.{Run, ok}
use so.Common.Kernel.{Reader, IsFile}
use so.Client.Parser.Next.{cleanup-next_line, next_line}
use so.Client.Arguments.{is_end}
use so.Client.Arguments.Uint.{AllDigits, value, IsStrtoul, parse_uint-value}
use so.Client.Arguments.Create.{number_lem}
use so.Client.Reservation.{parse_wait}
use so.Client.Reservation
use so.Client.Reservation.Seats.{IsNumber, IsNumber-Fits}

-- A thread in digits after the delay, and the line end.
abbrev pub after_delay : Option (List ℕ) → List ℕ → List ℕ
after_delay none rest = 10 ∷ rest
after_delay (some id) rest = 32 ∷ (id ++ 10 ∷ rest)

abbrev pub IsThread : Option (List ℕ) → Type 0
IsThread none = Unit {0}
IsThread (some id) = IsNumber id

-- The thread, for a caller that asks for it.
abbrev pub thread : Bool → Option (List ℕ) → Option ℕ
thread wants none = none
thread false (some id) = none
thread true (some id) = some (value id)

next_line-digits : (ds rest : List ℕ) → AllDigits ds → next_line (ds ++ 10 ∷ rest) ≡ rest
next_line-digits [] rest all = refl
next_line-digits (d ∷ ds) rest (digit, all) =
    let inside : (d == 10) ≡ false = ground arith in
    if-false _ _ inside ∙ next_line-digits ds rest all

module _ (k : Reader) (file : IsFile k) (strtoul : List ℕ → Run ℕ) (law : IsStrtoul strtoul)
    (fuel : ℕ) (bufs : ℕ → List ℕ) (room : (i : ℕ) → length (bufs i) ≡ 16) where
  pub delay_only :
      (thread_id : Bool) (delay rest : List ℕ) (fd : k.Fd)
      → file.left fd ≡ delay ++ 10 ∷ rest
      → IsNumber delay
      → (fd' : k.Fd) × (parse_wait k strtoul fuel bufs thread_id fd
          ≡ ok (some (value delay, none), fd'))
        × (file.left fd' ≡ rest)
  unfolding parse_wait
  delay_only thread_id delay rest fd e good =
      let (all, fit, small) = IsNumber-Fits k file strtoul law fuel bufs room 0 delay good in
      let (fd₁, run, after) =
        parse_uint-value k file strtoul (bufs 0) delay 10 rest fd law e all refl fit small in
      (fd₁, rw (parse_wait, run) refl, after)

  -- A caller that asks for the thread.
  pub asked :
      (delay : List ℕ) (t : Option (List ℕ)) (rest : List ℕ) (fd : k.Fd)
      → file.left fd ≡ delay ++ after_delay t rest
      → IsNumber delay
      → IsThread t
      → (fd' : k.Fd) × (parse_wait k strtoul fuel bufs true fd
          ≡ ok (some (value delay, thread true t), fd'))
        × (file.left fd' ≡ rest)
  unfolding parse_wait
  asked delay none rest fd e good t_good = delay_only true delay rest fd e good
  asked delay (some id) rest fd e good t_good =
      let (all, fit, small) = IsNumber-Fits k file strtoul law fuel bufs room 0 delay good in
      let (fd₁, run, e₁) =
        parse_uint-value k file strtoul (bufs 0) delay 32 (id ++ 10 ∷ rest) fd law e all refl fit
          small in
      let (fd₂, run₂, after) =
        number_lem k file strtoul law fuel (bufs 1) is_end id 10 rest fd₁ e₁
          (IsNumber-Fits k file strtoul law fuel bufs room 1 id t_good) refl refl in
      (fd₂, rw (parse_wait, Reservation.◌>>=◌, run, run₂) refl, after)

  -- With the promise of `strtoul` and arrays of 16 bytes for the digits: on a regular file that goes
  -- on with a delay and, or not, a thread, in digits of numbers that fit, and a line end, with fuel
  -- for the file's bytes, `parse_wait` returns the delay, with the thread if the line has one and
  -- the caller asks for it, and leaves exactly what follows the line.
  pub parse_wait-text :
      (thread_id : Bool) (delay : List ℕ) (t : Option (List ℕ)) (rest : List ℕ) (fd : k.Fd)
      → file.left fd ≡ delay ++ after_delay t rest
      → IsNumber delay
      → IsThread t
      → length (file.left fd) < fuel
      → (fd' : k.Fd) × (parse_wait k strtoul fuel bufs thread_id fd
          ≡ ok (some (value delay, thread thread_id t), fd'))
        × (file.left fd' ≡ rest)
  unfolding parse_wait
  parse_wait-text thread_id delay none rest fd e good t_good enough =
      delay_only thread_id delay rest fd e good
  parse_wait-text true delay (some id) rest fd e good t_good enough =
      asked delay (some id) rest fd e good t_good
  parse_wait-text false delay (some id) rest fd e good t_good enough =
      let (all, fit, small) = IsNumber-Fits k file strtoul law fuel bufs room 0 delay good in
      let (fd₁, run, e₁) =
        parse_uint-value k file strtoul (bufs 0) delay 32 (id ++ 10 ∷ rest) fd law e all refl fit
          small in
      let bound : length (id ++ 10 ∷ rest) < fuel =
        omega (arith, ap length e, enough, length-append delay (32 ∷ (id ++ 10 ∷ rest))) in
      let (fd₂, run₂, after) = cleanup-next_line k file fuel (id ++ 10 ∷ rest) fd₁ e₁ bound in
      (fd₂, rw (parse_wait, run, run₂) refl, after ∙ next_line-digits id rest t_good.0)
