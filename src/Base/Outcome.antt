-- ===== src/Base/Outcome.antt =====
-- Parts of a function that returns early.
use Prim.Native.Nat.{ℕ}
use so.Base.Nodes.{Run, ok, fault, out_of_fuel}

-- A part of a function returns a code from it, or goes on.
pub data Outcome (S : Type 0) : Type 0 where
  returned : ℕ → S → Outcome S
  next : S → Outcome S

module _ {S : Type 0} where
  infixl 5 ◌>>=◌
  abbrev pub ◌>>=◌ : Run (Outcome S) → (S → Run (Outcome S)) → Run (Outcome S)
  ok (returned code s) >>= f = ok (returned code s)
  ok (next s) >>= f = f s
  fault >>= f = fault
  out_of_fuel >>= f = out_of_fuel
