-- ===== src/Client/Main.antt =====
-- The loop of `main` in Part2/src/client/main.c: the commands of a .jobs file. The times that it
-- sleeps and its messages on the terminal are left out.
pub mod Script
pub mod Round
pub mod Whole
use so.Base.{ℕ, zero, suc, ◌+◌, Bool, false, Option, none, some, List}
use so.Base.Nodes.{Run, ok, out_of_fuel}
use so.Base.Nodes
use so.Base.Outcome.{Outcome, returned, next}
use so.Common.Kernel.{Reader, Writer}
use so.Client.Parser.{
  Command, cmd_create, cmd_reserve, cmd_show, cmd_list_events, cmd_wait, cmd_help, cmd_empty,
  cmd_invalid, eoc, get_next,
}
use so.Client.Arguments.{parse_create, parse_show}
use so.Client.Reservation.{parse_reserve, parse_wait}
use so.Client.Api.{Client, ems_create, ems_reserve, ems_show, ems_list_events, ems_quit}

-- The memory of a round: the arrays of `parse_uint`, xs and ys, and that of `ems_show`.
pub record Memory : Type 0 where
  pub bufs : ℕ → List ℕ
  pub xs : List ℕ
  pub ys : List ℕ
  pub num_matrix : List ℕ
  pub malloc : ℕ → Option (List ℕ)

pub record Jobs (f : Reader) (k : Reader) (w : Writer) (o : Writer) : Type 0 where
  pub in_fd : f.Fd
  pub client : Client k w o

module _ (f : Reader) (k : Reader) (w : Writer) (o : Writer) (strtoul : List ℕ → Run ℕ)
    (sprintf : ℕ → List ℕ) (unlink_req unlink_resp : Bool) where
  -- A request, whose code is only printed.
  abbrev pub call :
      (Client k w o → Run (Outcome (Client k w o))) → Jobs f k w o → Run (Outcome (Jobs f k w o))
  call request j = Nodes.◌>>=◌ (request j.client) λ o. elim o [
    | returned code client ↦ ok (next (record j { client = client }))
    | next client ↦ ok (next (record j { client = client }))
  ]

  -- The arguments of a command, and what is done with them.
  abbrev pub with_arguments :
      {A : Type 0}
      → (f.Fd → Run (Option A × f.Fd))
      → (A → Jobs f k w o → Run (Outcome (Jobs f k w o)))
      → Jobs f k w o
      → Run (Outcome (Jobs f k w o))
  with_arguments parse run j = Nodes.◌>>=◌ (parse j.in_fd) λ (r, in_fd).
      let j₁ = record j { in_fd = in_fd } in elim r [ none ↦ ok (next j₁) | some a ↦ run a j₁ ]

  unfoldable pub execute : ℕ → Memory → Command → Jobs f k w o → Run (Outcome (Jobs f k w o))
  execute fuel mem cmd_create j =
      with_arguments (parse_create f strtoul fuel (mem.bufs 0) (mem.bufs 1) (mem.bufs 2))
        (λ (event_id, num_rows, num_columns). call (ems_create k w o event_id num_rows num_columns))
        j
  execute fuel mem cmd_reserve j =
      with_arguments (parse_reserve f strtoul fuel mem.bufs 256 mem.xs mem.ys)
        (λ (num_coords, event_id, xs, ys). call (ems_reserve k w o event_id num_coords xs ys)) j
  execute fuel mem cmd_show j =
      with_arguments (parse_show f strtoul fuel (mem.bufs 0))
        (λ event_id. call (ems_show k w o sprintf mem.malloc mem.num_matrix event_id)) j
  execute fuel mem cmd_list_events j = call (ems_list_events k w o sprintf mem.malloc) j
  execute fuel mem cmd_wait j =
      with_arguments (parse_wait f strtoul fuel mem.bufs false) (λ delay j'. ok (next j')) j
  execute fuel mem cmd_help j = ok (next j)
  execute fuel mem cmd_empty j = ok (next j)
  execute fuel mem cmd_invalid j = ok (next j)
  execute fuel mem eoc j = Nodes.◌>>=◌ (ems_quit k w o unlink_req unlink_resp j.client) λ o.
      elim o [
        | returned code client ↦ ok (returned 0 (record j { client = client }))
        | next client ↦ ok (returned 0 (record j { client = client }))
      ]

  -- The loop, with fuel for the rounds; `i` counts them.
  unfoldable pub commands : ℕ → ℕ → (ℕ → Memory) → ℕ → Jobs f k w o → Run (ℕ × Jobs f k w o)
  unfolding execute
  commands fuel zero mem i j = out_of_fuel
  commands fuel (suc rounds) mem i j = Nodes.◌>>=◌ (get_next f fuel j.in_fd) λ (command, in_fd).
      Nodes.◌>>=◌ (execute fuel (mem i) command (record j { in_fd = in_fd })) λ o. elim o [
        | returned code j' ↦ ok (code, j')
        | next j' ↦ commands fuel rounds mem (i + 1) j'
      ]
