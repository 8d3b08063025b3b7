-- ===== src/Common/Tests.antt =====
-- Reading and writing with a kernel that moves one byte in a round.
pub mod Pipes
use so.Base.{
  ℕ, zero, suc, ◌≤◌, ◌<◌, ◌≡◌, Option, none, some, List, [], ◌∷◌, ◌++◌, refl, sym, arith, length,
  take, subst,
}
use mathlib.Core.List.{append-nil}
use so.Base.Nodes.{ok}
use so.Common.Tests.Pipes.{
  input, input-IsReader, input-IsSource, output, output-IsWriter, output-IsSink,
}
use so.Common.Io.{safe_read, safe_write}
use so.Common.Io.Read.{Reads, safe_read-Reads}
use so.Common.Io.Write.{Writes, safe_write-Writes}
use so.Common.Io.Whole.{safe_read_whole, safe_write_whole}

-- Three bytes of four, one at a time.
three_bytes : safe_read input 4 3 (1 ∷ 2 ∷ 3 ∷ 4 ∷ []) ≡ ok (some (1 ∷ 2 ∷ 3 ∷ []), 4 ∷ [])
unfolding safe_read
three_bytes = refl

safe_read-Reads_example :
    Reads input input-IsReader (1 ∷ 2 ∷ 3 ∷ 4 ∷ []) 3 (safe_read input 4 3 (1 ∷ 2 ∷ 3 ∷ 4 ∷ []))
safe_read-Reads_example =
    safe_read-Reads input input-IsReader 4 3 (1 ∷ 2 ∷ 3 ∷ 4 ∷ []) (omega arith)
