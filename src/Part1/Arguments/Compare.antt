-- ===== src/Part1/Arguments/Compare.antt =====
-- The parsers of arguments of Part1/src/parser.c against those of Part2/src/client/parser.c.
use so.Base.{
  ℕ, zero, suc, ◌+◌, ◌*◌, ◌≡◌, ◌≢◌, Bool, ◌||◌, none, List, refl, ap, ◌∙◌, ◌==◌, if◌then◌else◌,
}
use mathlib.Core.Path.{fun_ext}
use so.Base.Nodes.{Run}
use so.Common.Kernel.{Reader}
use so.Client.Arguments
use so.Client.Arguments.{is_end, number}
use so.Client.Reservation
use so.Client.Reservation.{Parser, ◌>>=◌, give, refuse, expect, store}
use so.Part1.Parser.{read_uint}
use so.Part1.Parser.Compare.{read_uint-agree}
use so.Part1.Arguments.{
  parse_show_by, parse_create_by, read_coords_by, parse_reserve_by, parse_wait_by, parse_show,
  parse_create, parse_reserve, parse_wait,
}

module _ (k : Reader) (strtoul : List ℕ → Run ℕ) (fuel : ℕ)
    (works : (n : ℕ) (fd : k.Fd) → (k.read n fd).0 ≢ none) where
  uint : Arguments.parse_uint k strtoul ≡ read_uint k strtoul
  uint = fun_ext λ buf. fun_ext λ fd. read_uint-agree k works strtoul buf fd

  read_coords-agree :
      (bufs : ℕ → List ℕ) (left n : ℕ) (xs ys : List ℕ)
      → Reservation.read_coords k strtoul fuel bufs left n xs ys
        ≡ read_coords_by k (Arguments.parse_uint k strtoul) fuel bufs left n xs ys
  unfolding Reservation.read_coords read_coords_by
  read_coords-agree bufs zero n xs ys = refl
  read_coords-agree bufs (suc left) n xs ys = λ i. do
    bracket ← expect k fuel (λ ch. ch == 40)
    x ← number k strtoul fuel (bufs (2 * n + 1)) (λ ch. ch == 44)
    xs' ← store k xs n x
    y ← number k strtoul fuel (bufs (2 * n + 2)) (λ ch. ch == 41)
    ys' ← store k ys n y
    ch ← expect k fuel (λ ch. (ch == 32) || (ch == 93))
    let more = read_coords-agree bufs left (n + 1) xs' ys' i
    if ch == 93 then give k (n + 1, xs', ys') else more

  parse_create-agree :
      (buf₁ buf₂ buf₃ : List ℕ) (fd : k.Fd)
      → Arguments.parse_create k strtoul fuel buf₁ buf₂ buf₃ fd
        ≡ parse_create k strtoul fuel buf₁ buf₂ buf₃ fd
  unfolding Arguments.parse_create parse_create parse_create_by
  parse_create-agree buf₁ buf₂ buf₃ fd = λ i. parse_create_by k (uint i) fuel buf₁ buf₂ buf₃ fd

  parse_show-agree :
      (buf : List ℕ) (fd : k.Fd)
      → Arguments.parse_show k strtoul fuel buf fd ≡ parse_show k strtoul fuel buf fd
  unfolding Arguments.parse_show parse_show parse_show_by
  parse_show-agree buf fd = λ i. parse_show_by k (uint i) fuel buf fd

  parse_wait-agree :
      (bufs : ℕ → List ℕ) (thread_id : Bool) (fd : k.Fd)
      → Reservation.parse_wait k strtoul fuel bufs thread_id fd
        ≡ parse_wait k strtoul fuel bufs thread_id fd
  unfolding Reservation.parse_wait parse_wait parse_wait_by
  parse_wait-agree bufs thread_id fd = λ i. parse_wait_by k (uint i) fuel bufs thread_id fd

  parse_reserve-by :
      (bufs : ℕ → List ℕ) (max : ℕ) (xs ys : List ℕ)
      → Reservation.parse_reserve k strtoul fuel bufs max xs ys
        ≡ parse_reserve_by k (Arguments.parse_uint k strtoul) fuel bufs max xs ys
  unfolding Reservation.parse_reserve parse_reserve_by
  parse_reserve-by bufs max xs ys = λ i. do
    event_id ← number k strtoul fuel (bufs 0) (λ ch. ch == 32)
    bracket ← expect k fuel (λ ch. ch == 91)
    (num_coords, xs', ys') ← read_coords-agree bufs max 0 xs ys i
    let last = (do ch ← expect k fuel is_end; give k (num_coords, event_id, xs', ys'))
    if num_coords == max then refuse k fuel else last

  parse_reserve-agree :
      (bufs : ℕ → List ℕ) (max : ℕ) (xs ys : List ℕ) (fd : k.Fd)
      → Reservation.parse_reserve k strtoul fuel bufs max xs ys fd
        ≡ parse_reserve k strtoul fuel bufs max xs ys fd
  unfolding parse_reserve
  parse_reserve-agree bufs max xs ys fd = ap (λ p. p fd) (parse_reserve-by bufs max xs ys) ∙ λ i.
      parse_reserve_by k (uint i) fuel bufs max xs ys fd

  -- Where reads never fail, the four parsers of arguments of Part 1 and those of Part 2 are the same
  -- functions, with any `strtoul`, fuel and memory.
  pub parsers-agree :
      (bufs : ℕ → List ℕ) (max : ℕ) (xs ys : List ℕ) (thread_id : Bool) (fd : k.Fd)
      → (Arguments.parse_create k strtoul fuel (bufs 0) (bufs 1) (bufs 2) fd
          ≡ parse_create k strtoul fuel (bufs 0) (bufs 1) (bufs 2) fd)
        × (Arguments.parse_show k strtoul fuel (bufs 0) fd ≡ parse_show k strtoul fuel (bufs 0) fd)
        × (Reservation.parse_reserve k strtoul fuel bufs max xs ys fd
            ≡ parse_reserve k strtoul fuel bufs max xs ys fd)
        × (Reservation.parse_wait k strtoul fuel bufs thread_id fd
            ≡ parse_wait k strtoul fuel bufs thread_id fd)
  parsers-agree bufs max xs ys thread_id fd = (
    parse_create-agree (bufs 0) (bufs 1) (bufs 2) fd,
    parse_show-agree (bufs 0) fd,
    parse_reserve-agree bufs max xs ys fd,
    parse_wait-agree bufs thread_id fd,
  )
