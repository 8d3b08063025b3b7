-- ===== src/Part1/Arguments.antt =====
-- The parsers of arguments of Part1/src/parser.c, with the reader of their numbers as an argument; the
-- program's have `read_uint` there.
pub mod Compare
use so.Base.{ℕ, zero, suc, ◌+◌, ◌*◌, Bool, ◌||◌, Option, none, some, List, ◌==◌, if◌then◌else◌}
use so.Base.Nodes.{Run, ok}
use so.Base.Nodes
use so.Common.Kernel.{Reader}
use so.Client.Arguments.{is_end}
use so.Client.Reservation.{Parser, ◌>>=◌, give, refuse, expect, store}
use so.Part1.Parser.{cleanup, read_uint}

module _ (k : Reader) (uint : List ℕ → Parser k.Fd (ℕ × ℕ)) (fuel : ℕ) where
  abbrev pub number_by : List ℕ → (ℕ → Bool) → Parser k.Fd ℕ
  number_by buf accepts fd = Nodes.◌>>=◌ (uint buf fd) λ (r, fd').
      let refused : Run (Option ℕ × k.Fd) =
        Nodes.◌>>=◌ (cleanup k fuel fd') λ fd''. ok (none, fd'') in
      elim r [
        | none ↦ refused
        | some (value, ch) ↦ if accepts ch then ok (some value, fd') else refused
      ]

  unfoldable pub parse_show_by : List ℕ → Parser k.Fd ℕ
  parse_show_by buf fd = number_by buf is_end fd

  unfoldable pub parse_create_by : (buf₁ buf₂ buf₃ : List ℕ) → Parser k.Fd (ℕ × ℕ × ℕ)
  parse_create_by buf₁ buf₂ buf₃ fd =
      Nodes.◌>>=◌ (number_by buf₁ (λ ch. ch == 32) fd) λ (event_id, fd₁). elim event_id [
        | none ↦ ok (none, fd₁)
        | some id ↦ Nodes.◌>>=◌ (number_by buf₂ (λ ch. ch == 32) fd₁) λ (num_rows, fd₂).
            elim num_rows [
              | none ↦ ok (none, fd₂)
              | some rows ↦ Nodes.◌>>=◌ (number_by buf₃ is_end fd₂) λ (num_cols, fd₃).
                  elim num_cols [
                    | none ↦ ok (none, fd₃)
                    | some cols ↦ ok (some (id, rows, cols), fd₃)
                  ]
            ]
      ]

  -- The loop, with `left` rounds until `max`.
  unfoldable pub read_coords_by :
      (bufs : ℕ → List ℕ) (left num_coords : ℕ) (xs ys : List ℕ) → Parser k.Fd (ℕ × List ℕ × List ℕ)
  read_coords_by bufs zero num_coords xs ys = give k (num_coords, xs, ys)
  read_coords_by bufs (suc left) num_coords xs ys = do
    bracket ← expect k fuel (λ ch. ch == 40)
    x ← number_by (bufs (2 * num_coords + 1)) (λ ch. ch == 44)
    xs' ← store k xs num_coords x
    y ← number_by (bufs (2 * num_coords + 2)) (λ ch. ch == 41)
    ys' ← store k ys num_coords y
    ch ← expect k fuel (λ ch. (ch == 32) || (ch == 93))
    let more = read_coords_by bufs left (num_coords + 1) xs' ys'
    if ch == 93 then give k (num_coords + 1, xs', ys') else more

  unfoldable pub parse_reserve_by :
      (bufs : ℕ → List ℕ) (max : ℕ) (xs ys : List ℕ) → Parser k.Fd (ℕ × ℕ × List ℕ × List ℕ)
  unfolding read_coords_by
  parse_reserve_by bufs max xs ys = do
    event_id ← number_by (bufs 0) (λ ch. ch == 32)
    bracket ← expect k fuel (λ ch. ch == 91)
    (num_coords, xs', ys') ← read_coords_by bufs max 0 xs ys
    let last = (do ch ← expect k fuel is_end; give k (num_coords, event_id, xs', ys'))
    if num_coords == max then refuse k fuel else last

  unfoldable pub parse_wait_by : (bufs : ℕ → List ℕ) (thread_id : Bool) → Parser k.Fd (ℕ × Option ℕ)
  parse_wait_by bufs thread_id fd = Nodes.◌>>=◌ (uint (bufs 0) fd) λ (r, fd₁). elim r [
    | none ↦ refuse k fuel fd₁
    | some (delay, ch) ↦
        if ch == 32
        then (if thread_id
            then (number_by (bufs 1) is_end >>= λ id. give k (delay, some id)) fd₁
            else Nodes.◌>>=◌ (cleanup k fuel fd₁) λ fd₂. ok (some (delay, none), fd₂))
        else (if is_end ch then ok (some (delay, none), fd₁) else refuse k fuel fd₁)
  ]

module _ (k : Reader) (strtoul : List ℕ → Run ℕ) (fuel : ℕ) where
  unfoldable pub parse_show : List ℕ → Parser k.Fd ℕ
  parse_show = parse_show_by k (read_uint k strtoul) fuel

  unfoldable pub parse_create : (buf₁ buf₂ buf₃ : List ℕ) → Parser k.Fd (ℕ × ℕ × ℕ)
  parse_create = parse_create_by k (read_uint k strtoul) fuel

  unfoldable pub parse_reserve :
      (bufs : ℕ → List ℕ) (max : ℕ) (xs ys : List ℕ) → Parser k.Fd (ℕ × ℕ × List ℕ × List ℕ)
  parse_reserve = parse_reserve_by k (read_uint k strtoul) fuel

  unfoldable pub parse_wait : (bufs : ℕ → List ℕ) (thread_id : Bool) → Parser k.Fd (ℕ × Option ℕ)
  parse_wait = parse_wait_by k (read_uint k strtoul) fuel
