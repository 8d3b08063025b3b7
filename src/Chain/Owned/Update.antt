-- ===== src/Chain/Owned/Update.antt =====
-- A write through a pointer to an object of a list, and lists that go on with other versions of their
-- objects.
use so.Base.{
  ◌≡◌, ◌≢◌, false, some, List, [], ◌∷◌, ◌++◌, sym, subst, ◌∙◌, arith, ◌==◌, if◌then◌else◌,
  Bool-cases, inl, inr, ap,
}
use so.Base.Nodes.{Ptr, Heap, write, write_self, write_ne}
use so.Chain.{Cells}
use so.Chain.Owned.{has_item, Owns, Owns-write}

module _ {A : Type 0} where
  abbrev pub All : (A → Type 0) → List A → Type 0
  All P [] = Unit {0}
  All P (v ∷ vs) = P v × All P vs

  pub All-append : (P : A → Type 0) (vs : List A) (w : A) → All P vs → P w → All P (vs ++ w ∷ [])
  All-append P [] w a p = (p, tt)
  All-append P (v ∷ vs) w a p = (a.0, All-append P vs w a.1 p)

  -- The list with another object where the pointer is `p`.
  abbrev pub update : Ptr → Cells Ptr → A → List A → List A
  update p [] w vs = vs
  update p (c ∷ cs) w [] = []
  update p ((a, e) ∷ cs) w (v ∷ vs) = if e == p then w ∷ vs else v ∷ update p cs w vs

  pub Owns-update :
      (g : Heap A) (p : Ptr) (w : A) (cs : Cells Ptr) (vs : List A)
      → Owns g cs vs
      → Owns (write g p (some w)) cs (update p cs w vs)
  Owns-update g p w [] [] o = tt
  Owns-update g p w [] (v ∷ vs) o = absurd o
  Owns-update g p w (c ∷ cs) [] o = absurd o
  Owns-update g p w ((a, e) ∷ cs) (v ∷ vs) o = elim (Bool-cases (e == p)) [
    | inl hit ↦
        let same : e ≡ p = ground arith in
        let out : has_item p cs ≡ false = subst (λ q. has_item q cs ≡ false) same o.2 in
        rw hit (
          o.0,
          ap (write g p (some w)) same ∙ write_self g p (some w),
          o.2,
          Owns-write g p (some w) cs vs o.3 out,
        )
    | inr miss ↦
        let apart : e ≢ p = ground arith in
        rw miss (o.0, write_ne g p (some w) e apart ∙ o.1, o.2, Owns-update g p w cs vs o.3)
  ]

  pub All-update :
      (P : A → Type 0) (p : Ptr) (w : A) (cs : Cells Ptr) (vs : List A)
      → All P vs
      → P w
      → All P (update p cs w vs)
  All-update P p w [] vs a h = a
  All-update P p w (c ∷ cs) [] a h = tt
  All-update P p w ((b, e) ∷ cs) (v ∷ vs) a h = elim (Bool-cases (e == p)) [
    | inl hit ↦ rw hit (h, a.1)
    | inr miss ↦ rw miss (a.0, All-update P p w cs vs a.1 h)
  ]

  module _ (R : A → A → Type 0) where
    -- The objects `vs` are the first of `ws`, in later versions.
    abbrev pub Extends : List A → List A → Type 0
    Extends [] ws = Unit {0}
    Extends (v ∷ vs) [] = ⊥
    Extends (v ∷ vs) (w ∷ ws) = R v w × Extends vs ws

    module _ (same : (v : A) → R v v) where
      pub Extends-refl : (vs : List A) → Extends vs vs
      Extends-refl [] = tt
      Extends-refl (v ∷ vs) = (same v, Extends-refl vs)

      pub Extends-append : (vs ws : List A) → Extends vs (vs ++ ws)
      Extends-append [] ws = tt
      Extends-append (v ∷ vs) ws = (same v, Extends-append vs ws)

      pub Extends-update :
          (g : Heap A) (p : Ptr) (v w : A) (cs : Cells Ptr) (vs : List A)
          → Owns g cs vs
          → g p ≡ some v
          → R v w
          → Extends vs (update p cs w vs)
      Extends-update g p v w [] vs o at r = Extends-refl vs
      Extends-update g p v w (c ∷ cs) [] o at r = tt
      Extends-update g p v w ((a, e) ∷ cs) (u ∷ us) o at r = elim (Bool-cases (e == p)) [
        | inl hit ↦
            let pointer : e ≡ p = ground arith in
            let both : some v ≡ some u = sym at ∙ ap g (sym pointer) ∙ o.1 in
            rw hit (subst (λ t. R t w) (cc) r, Extends-refl us)
        | inr miss ↦ rw miss (same u, Extends-update g p v w cs us o.3 at r)
      ]

    pub Extends-trans :
        ((u v w : A) → R u v → R v w → R u w)
        → (us vs ws : List A) → Extends us vs
        → Extends vs ws
        → Extends us ws
    Extends-trans t [] vs ws f g = tt
    Extends-trans t (u ∷ us) [] ws f g = absurd f
    Extends-trans t (u ∷ us) (v ∷ vs) [] f g = absurd g
    Extends-trans t (u ∷ us) (v ∷ vs) (w ∷ ws) f g =
        (t u v w f.0 g.0, Extends-trans t us vs ws f.1 g.1)
