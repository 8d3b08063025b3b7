-- ===== src/Chain/Owned/Search.antt =====
-- The search for an object by a key through such a list, and what a write through the pointer that
-- it finds changes.
use so.Base.{
  ℕ, ◌≡◌, ◌≢◌, true, false, Option, none, some, List, [], ◌∷◌, ◌⊎◌, inl, inr, refl, sym, subst, ◌∙◌,
  arith, ◌==◌, if◌then◌else◌, Bool-cases, if-true, if-false,
}
use mathlib.Core.Path.{subst₂}
use so.Base.Nodes.{Ptr, null, Heap, write, write_self, write_ne}
use so.Chain.{Cells}
use so.Chain.Owned.{has_item, Owns, Owns-write}

module _ {A : Type 0} (key : A → ℕ) where
  -- The reference definition of the search: the first object with the key.
  abbrev pub find : ℕ → List A → Option A
  find id [] = none
  find id (v ∷ vs) = if key v == id then some v else find id vs

  -- The address of that object.
  abbrev pub pointer_of : ℕ → Cells Ptr → List A → Ptr
  pointer_of id [] vs = null
  pointer_of id (c ∷ cs) [] = null
  pointer_of id ((a, e) ∷ cs) (v ∷ vs) = if key v == id then e else pointer_of id cs vs

  -- Another object in place of that one.
  abbrev pub replace : ℕ → A → List A → List A
  replace id w [] = []
  replace id w (v ∷ vs) = if key v == id then w ∷ vs else v ∷ replace id w vs

  -- What is known of the pointer `p` that a search returns, and of the reference's answer `o`.
  abbrev pub FoundAt : Heap A → ℕ → Cells Ptr → Ptr → Option A → Type 0
  FoundAt g id cs p o =
      ((p ≡ null) × (o ≡ none))
      ⊎ ((v : A) × (p ≢ null)
          × (g p ≡ some v)
          × (o ≡ some v)
          × (key v ≡ id)
          × (has_item p cs ≡ true))

  module _ (g : Heap A) (id : ℕ) where
    -- The pointer leads to the object that the reference search returns.
    pub pointer_of-find :
        (cs : Cells Ptr) (vs : List A)
        → Owns g cs vs
        → FoundAt g id cs (pointer_of id cs vs) (find id vs)
    pointer_of-find [] [] o = inl (refl, refl)
    pointer_of-find [] (v ∷ vs) o = absurd o
    pointer_of-find (c ∷ cs) [] o = absurd o
    pointer_of-find ((a, e) ∷ cs) (v ∷ vs) o = elim (Bool-cases (key v == id)) [
      | inl hit ↦
          subst₂ (FoundAt g id ((a, e) ∷ cs)) (sym (if-true _ _ hit)) (sym (if-true _ _ hit))
            (inr (v, o.0, o.1, refl, ground arith, ground arith))
      | inr miss ↦
          subst₂ (FoundAt g id ((a, e) ∷ cs)) (sym (if-false _ _ miss)) (sym (if-false _ _ miss))
            (FoundAt-cons a e cs _ _ (pointer_of-find cs vs o.3))
    ]
      where
        FoundAt-cons :
            (a e : Ptr) (cs : Cells Ptr) (p : Ptr) (r : Option A)
            → FoundAt g id cs p r
            → FoundAt g id ((a, e) ∷ cs) p r
        FoundAt-cons a e cs p r (inl gone) = inl gone
        FoundAt-cons a e cs p r (inr (v, ne, at, found, same, inside)) =
            inr (v, ne, at, found, same, ground arith)

    -- A write through that pointer replaces the object with that key, and no other.
    pub Owns-replace :
        (w : A) (cs : Cells Ptr) (vs : List A)
        → Owns g cs vs
        → pointer_of id cs vs ≢ null
        → Owns (write g (pointer_of id cs vs) (some w)) cs (replace id w vs)
    Owns-replace w [] [] o ne = tt
    Owns-replace w [] (v ∷ vs) o ne = absurd o
    Owns-replace w (c ∷ cs) [] o ne = absurd o
    Owns-replace w ((a, e) ∷ cs) (v ∷ vs) o ne = elim (Bool-cases (key v == id)) [
      | inl hit ↦
          subst₂ (λ p r. Owns (write g p (some w)) ((a, e) ∷ cs) r) (sym (if-true _ _ hit))
            (sym (if-true _ _ hit))
            (o.0, write_self g e _, o.2, Owns-write g e (some w) cs vs o.3 o.2)
      | inr miss ↦
          let there : pointer_of id cs vs ≢ null = subst (λ p. p ≢ null) (if-false _ _ miss) ne in
          let apart = apart_from_tail e cs vs o.2 o.3 there in
          subst₂ (λ p r. Owns (write g p (some w)) ((a, e) ∷ cs) r) (sym (if-false _ _ miss))
            (sym (if-false _ _ miss))
            (o.0, write_ne g _ _ e apart ∙ o.1, o.2, Owns-replace w cs vs o.3 there)
    ]
      where
        apart_from_tail :
            (e : Ptr) (cs : Cells Ptr) (vs : List A)
            → has_item e cs ≡ false
            → Owns g cs vs
            → pointer_of id cs vs ≢ null
            → e ≢ pointer_of id cs vs
        apart_from_tail e cs vs out o there q = elim (pointer_of-find cs vs o) [
          | inl (p, _) ↦ absurd (there p)
          | inr (v, _, _, _, _, inside) ↦
              let e_inside = subst (λ p. has_item p cs ≡ true) (sym q) inside in cc
        ]
