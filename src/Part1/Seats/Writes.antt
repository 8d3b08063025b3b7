-- ===== src/Part1/Seats/Writes.antt =====
-- Writing one number at some seats and then 0 at the same seats.
use so.Base.{
  ℕ, ◌<◌, ◌≡◌, Bool, true, false, ◌||◌, some, List, [], ◌∷◌, refl, sym, ◌∙◌, arith, ◌==◌,
  if◌then◌else◌, length, get_elem?, set, length-set, get_elem?-set_self, get_elem?-set_ne, list_ext,
  Bool-cases, inl, inr, subst,
}
use so.Server.Seats.Index.{index}
use so.Server.Seats.Request.{Coords}
use so.Server.Seats.Commit.{marked, length-marked}

-- Whether the cell `i` belongs to one of the seats.
abbrev pub hits : ℕ → Coords → ℕ → Bool
hits cols [] i = false
hits cols ((x, y) ∷ ps) i = (index cols x y == i) || hits cols ps i

pub get_elem?-set :
    (seats : List ℕ) (k i r : ℕ)
    → i < length seats
    → get_elem? (set seats k r) i ≡ (if k == i then some r else get_elem? seats i)
get_elem?-set seats k i r h = elim (Bool-cases (k == i)) [
  | inl hit ↦
      let same : k ≡ i = ground arith in
      rw hit (
        subst (λ j. get_elem? (set seats j r) i ≡ some r) (sym same)
          (get_elem?-set_self seats i r h))
  | inr miss ↦ rw miss (get_elem?-set_ne seats k i r (ground arith))
]

pub get_elem?-marked_at :
    (r cols : ℕ) (seats : List ℕ) (ps : Coords) (i : ℕ)
    → i < length seats
    → get_elem? (marked r cols seats ps) i ≡ (if hits cols ps i then some r else get_elem? seats i)
get_elem?-marked_at r cols seats [] i h = refl
get_elem?-marked_at r cols seats ((x, y) ∷ ps) i h =
    let k = index cols x y in
    let fits : i < length (set seats k r) = omega (arith, length-set seats k r) in
    get_elem?-marked_at r cols (set seats k r) ps i fits
    ∙ rw (get_elem?-set seats k i r h) (ground arith)

abbrev pub AllFree : ℕ → List ℕ → Coords → Type 0
AllFree cols seats ps =
    (i : ℕ) → i < length seats → hits cols ps i ≡ true → get_elem? seats i ≡ some 0

pub marked-marked :
    (r cols : ℕ) (seats : List ℕ) (ps : Coords)
    → AllFree cols seats ps
    → marked 0 cols (marked r cols seats ps) ps ≡ seats
marked-marked r cols seats ps free =
    let once = length-marked r cols seats ps in
    let twice = length-marked 0 cols (marked r cols seats ps) ps in
    list_ext _ seats (twice ∙ once) λ i h.
      let fits : i < length seats = omega arith in
      get_elem?-marked_at 0 cols (marked r cols seats ps) ps i (omega arith)
      ∙ rw (get_elem?-marked_at r cols seats ps i fits) (elim (Bool-cases (hits cols ps i)) [
        | inl hit ↦ rw hit (sym (free i fits hit))
        | inr miss ↦ rw miss refl
      ])
