-- ===== src/Base/Nodes.antt =====
-- Pointers, heaps of one type of object, and the outcome of running C code on them.
use Prim.Native.Nat.{ℕ}
use mathlib.Core.Path.{◌≡◌, fun_ext, refl, sym, ap, ◌∙◌}
use mathlib.Core.Option.{Option, none, some}
use mathlib.Core.Logic.{◌≢◌, inl, inr}
use native.Mathlib.Omega.{arith}
use so.Base.Tests.{◌==◌, if◌then◌else◌, Bool-cases}

abbrev pub Ptr : Type 0
Ptr = ℕ

abbrev pub null : Ptr
null = 0

-- What is allocated at each address.
abbrev pub Heap : Type 0 → Type 0
Heap A = Ptr → Option A

module _ {A : Type 0} where
  -- `some a` fills the address, `none` frees it.
  unfoldable pub write : Heap A → Ptr → Option A → Heap A
  write h p c a = if a == p then c else h a

  pub write_self : (h : Heap A) (p : Ptr) (c : Option A) → write h p c p ≡ c
  unfolding write
  write_self h p c = ground arith

  pub write_ne : (h : Heap A) (p : Ptr) (c : Option A) (a : Ptr) → a ≢ p → write h p c a ≡ h a
  unfolding write
  write_ne h p c a ne = ground arith

  pub write-write : (h : Heap A) (p : Ptr) (c d : Option A) → write (write h p c) p d ≡ write h p d
  unfolding write
  write-write h p c d = fun_ext λ a. ground arith

  -- Writing what is there changes nothing.
  pub write_same : (h : Heap A) (p : Ptr) (c : Option A) → h p ≡ c → write h p c ≡ h
  unfolding write
  write_same h p c e = fun_ext λ a. elim (Bool-cases (a == p)) [
    | inl same ↦ let at : a ≡ p = ground arith in rw same (sym (ap h at ∙ e))
    | inr apart ↦ rw apart refl
  ]

-- `fault` is undefined behaviour: an access to memory that is not there. `out_of_fuel` is a
-- loop that was not given enough rounds.
pub data Run (A : Type 0) : Type 0 where
  ok : A → Run A
  fault : Run A
  out_of_fuel : Run A

module _ {A B : Type 0} where
  infixl 5 ◌>>=◌
  abbrev pub ◌>>=◌ : Run A → (A → Run B) → Run B
  ok a >>= k = k a
  fault >>= k = fault
  out_of_fuel >>= k = out_of_fuel

-- `*p`
unfoldable pub load : {A : Type 0} → Heap A → Ptr → Run A
load h p = elim (h p) [ none ↦ fault | some a ↦ ok a ]

pub load_lem : {A : Type 0} (h : Heap A) (p : Ptr) (a : A) → h p ≡ some a → load h p ≡ ok a
unfolding load
load_lem h p a e = ground arith

pub load-none : {A : Type 0} (h : Heap A) (p : Ptr) → h p ≡ none → load h p ≡ fault
unfolding load
load-none h p e = ground arith
