-- ===== src/Base/Arrays.antt =====
-- Arrays of C as lists: an access outside of the array is a fault.
use Prim.Native.Nat.{ℕ}
use mathlib.Core.List.{List}
use mathlib.Core.Option.{none, some}
use so.Base.Tests.{ltb, if◌then◌else◌}
use so.Base.Lists.{get_elem?, set, length}
use so.Base.Nodes.{Run, ok, fault}

-- `array[i] = v` and `array[i]`
abbrev pub write_at : List ℕ → ℕ → ℕ → Run (List ℕ)
write_at array i v = if ltb i (length array) then ok (set array i v) else fault

abbrev pub read_at : List ℕ → ℕ → Run ℕ
read_at array i = elim (get_elem? array i) [ none ↦ fault | some v ↦ ok v ]
