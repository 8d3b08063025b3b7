-- ===== src/Chain/Owned.antt =====
-- Lists of addresses: the items of a chain point to objects that stand in another heap.
pub mod Search
pub mod Update
use so.Base.{
  ℕ, ◌≡◌, ◌≢◌, Bool, false, ◌||◌, Option, none, some, List, [], ◌∷◌, ◌++◌, refl, arith, ◌==◌,
  if◌then◌else◌, length, ◌∙◌,
}
use so.Base.Nodes.{Ptr, null, Heap, write, write_ne, write_self}
use so.Chain.{Cells}

-- Whether an item pointer is in one of the cells.
abbrev pub has_item : Ptr → Cells Ptr → Bool
has_item p [] = false
has_item p ((a, e) ∷ cs) = (p == e) || has_item p cs

pub has_item-append :
    (p : Ptr) (cs ds : Cells Ptr) → has_item p (cs ++ ds) ≡ (has_item p cs || has_item p ds)
has_item-append p [] ds = refl
has_item-append p ((a, e) ∷ cs) ds = ground (arith, has_item-append p cs ds)

module _ {A : Type 0} where
  -- The cells' item pointers lead to distinct objects that hold the objects `vs`, in order.
  abbrev pub Owns : Heap A → Cells Ptr → List A → Type 0
  Owns g [] [] = Unit {0}
  Owns g [] (v ∷ vs) = ⊥
  Owns g (c ∷ cs) [] = ⊥
  Owns g ((a, e) ∷ cs) (v ∷ vs) =
      (e ≢ null) × (g e ≡ some v) × (has_item e cs ≡ false) × Owns g cs vs

  pub Owns-write :
      (g : Heap A) (p : Ptr) (c : Option A) (cs : Cells Ptr) (vs : List A)
      → Owns g cs vs
      → has_item p cs ≡ false
      → Owns (write g p c) cs vs
  Owns-write g p c [] [] o out = tt
  Owns-write g p c [] (v ∷ vs) o out = o
  Owns-write g p c (b ∷ cs) [] o out = o
  Owns-write g p c ((a, e) ∷ cs) (v ∷ vs) o out =
      (o.0, write_ne g p c e (ground arith) ∙ o.1, o.2, Owns-write g p c cs vs o.3 (ground arith))

  pub Owns-append :
      (g : Heap A) (cs : Cells Ptr) (vs : List A) (a e : Ptr) (v : A)
      → Owns g cs vs
      → e ≢ null
      → g e ≡ some v
      → has_item e cs ≡ false
      → Owns g (cs ++ (a, e) ∷ []) (vs ++ v ∷ [])
  Owns-append g [] [] a e v o ne at out = (ne, at, refl, tt)
  Owns-append g [] (w ∷ vs) a e v o ne at out = absurd o
  Owns-append g (b ∷ cs) [] a e v o ne at out = absurd o
  Owns-append g ((b, f) ∷ cs) (w ∷ vs) a e v o ne at out = (
    o.0,
    o.1,
    has_item-append f cs ((a, e) ∷ []) ∙ ground arith,
    Owns-append g cs vs a e v o.3 ne at (ground arith),
  )

  -- An unused address is in no cell.
  pub has_item-false_of_none :
      (g : Heap A) (p : Ptr) (cs : Cells Ptr) (vs : List A)
      → Owns g cs vs
      → g p ≡ none
      → has_item p cs ≡ false
  has_item-false_of_none g p [] [] o e = refl
  has_item-false_of_none g p [] (v ∷ vs) o e = refl
  has_item-false_of_none g p (c ∷ cs) [] o e = absurd o
  has_item-false_of_none g p ((a, f) ∷ cs) (v ∷ vs) o e =
      ground (arith, has_item-false_of_none g p cs vs o.3 e)

  pub length-Owns :
      (g : Heap A) (cs : Cells Ptr) (vs : List A) → Owns g cs vs → length cs ≡ length vs
  length-Owns g [] [] o = refl
  length-Owns g [] (v ∷ vs) o = absurd o
  length-Owns g (c ∷ cs) [] o = absurd o
  length-Owns g ((a, e) ∷ cs) (v ∷ vs) o = omega (arith, length-Owns g cs vs o.3)
