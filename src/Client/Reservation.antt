-- ===== src/Client/Reservation.antt =====
-- `parse_reserve` and `parse_wait` of Part2/src/client/parser.c. A parser takes the state of the
-- file; `none` is the code of a refused line.
pub mod Seats
pub mod Text
pub mod Wait
use so.Base.{
  ℕ, zero, suc, ◌+◌, ◌*◌, Bool, true, false, ◌||◌, Option, none, some, List, [], ◌∷◌, ◌==◌, ltb,
  if◌then◌else◌, length, set,
}
use so.Base.Nodes.{Run, ok, fault}
use so.Base.Nodes
use so.Common.Kernel.{Reader}
use so.Client.Parser.{cleanup}
use so.Client.Arguments.{is_end, number, parse_uint}

abbrev pub Parser : Type 0 → Type 0 → Type 0
Parser F A = F → Run (Option A × F)

module _ {F A B : Type 0} where
  infixl 5 ◌>>=◌
  abbrev pub ◌>>=◌ : Parser F A → (A → Parser F B) → Parser F B
  (p >>= f) fd = Nodes.◌>>=◌ (p fd) λ (r, fd'). elim r [ none ↦ ok (none, fd') | some a ↦ f a fd' ]

module _ (k : Reader) where
  abbrev pub give : {A : Type 0} → A → Parser k.Fd A
  give a fd = ok (some a, fd)

  -- `cleanup(fd); return 0;`
  abbrev pub refuse : {A : Type 0} → ℕ → Parser k.Fd A
  refuse fuel fd = Nodes.◌>>=◌ (cleanup k fuel fd) λ fd'. ok (none, fd')

  -- `read(fd, &ch, 1) != 1 ||` a test of ch
  abbrev pub expect : ℕ → (ℕ → Bool) → Parser k.Fd ℕ
  expect fuel accepts fd =
      let fd' = (k.read 1 fd).1 in
      elim (k.read 1 fd).0 [
        | some (ch ∷ []) ↦ if accepts ch then ok (some ch, fd') else refuse fuel fd'
        | _ ↦ refuse fuel fd'
      ]

  -- `array[i] = v`
  abbrev pub store : List ℕ → ℕ → ℕ → Parser k.Fd (List ℕ)
  store array i v fd = if ltb i (length array) then ok (some (set array i v), fd) else fault

-- `bufs i` is what the stack holds where the i-th call of `parse_uint` has its array.
module _ (k : Reader) (strtoul : List ℕ → Run ℕ) (fuel : ℕ) (bufs : ℕ → List ℕ) where
  -- The loop, with `left` rounds until `max`.
  unfoldable pub read_coords :
      (left num_coords : ℕ) (xs ys : List ℕ) → Parser k.Fd (ℕ × List ℕ × List ℕ)
  read_coords zero num_coords xs ys = give k (num_coords, xs, ys)
  read_coords (suc left) num_coords xs ys = do
    bracket ← expect k fuel (λ ch. ch == 40)
    x ← number k strtoul fuel (bufs (2 * num_coords + 1)) (λ ch. ch == 44)
    xs' ← store k xs num_coords x
    y ← number k strtoul fuel (bufs (2 * num_coords + 2)) (λ ch. ch == 41)
    ys' ← store k ys num_coords y
    ch ← expect k fuel (λ ch. (ch == 32) || (ch == 93))
    let more = read_coords left (num_coords + 1) xs' ys'
    if ch == 93 then give k (num_coords + 1, xs', ys') else more

  -- The number of coordinates, with `*event_id` and the arrays.
  unfoldable pub parse_reserve : (max : ℕ) (xs ys : List ℕ) → Parser k.Fd (ℕ × ℕ × List ℕ × List ℕ)
  unfolding read_coords
  parse_reserve max xs ys = do
    event_id ← number k strtoul fuel (bufs 0) (λ ch. ch == 32)
    bracket ← expect k fuel (λ ch. ch == 91)
    (num_coords, xs', ys') ← read_coords max 0 xs ys
    let last = (do ch ← expect k fuel is_end; give k (num_coords, event_id, xs', ys'))
    if num_coords == max then refuse k fuel else last

  -- The delay, and the thread if one is named; the thread is not asked for if `thread_id` is NULL.
  unfoldable pub parse_wait : (thread_id : Bool) → Parser k.Fd (ℕ × Option ℕ)
  parse_wait thread_id fd = Nodes.◌>>=◌ (parse_uint k strtoul (bufs 0) fd) λ (r, fd₁). elim r [
    | none ↦ refuse k fuel fd₁
    | some (delay, ch) ↦
        if ch == 32
        then (if thread_id
            then (number k strtoul fuel (bufs 1) is_end >>= λ id. give k (delay, some id)) fd₁
            else Nodes.◌>>=◌ (cleanup k fuel fd₁) λ fd₂. ok (some (delay, none), fd₂))
        else (if is_end ch then ok (some (delay, none), fd₁) else refuse k fuel fd₁)
  ]
