-- ===== src/Part1/Threads/Kept.antt =====
-- What a reservation of Part1/src/operations.c leaves of the seats that are reserved already.
use so.Base.{
  ℕ, suc, ◌<◌, ◌≡◌, true, false, some, List, [], ◌∷◌, refl, sym, subst, ◌∙◌, arith, ◌==◌, length,
  get_elem?, get_elem?-ge, uint_mod, ◌+◌, ◌%◌, Bool-cases, inl, inr, if-false, ltb,
}
use so.Server.Seats.Index.{index}
use so.Server.Seats.Request.{Coords}
use so.Server.Seats.Conflict.{conflicts, is_taken, is_taken_lem}
use so.Server.Seats.Commit.{length-marked}
use so.Part1.Store.{Event}
use so.Part1.Seats.Fill.{IsRoom}
use so.Part1.Seats.Writes.{hits, get_elem?-marked_at}
use so.Part1.Seats.Outcome.{grants, reserved, reservation}

-- The same room, in which every seat that had a reservation's number has it still.
pub record SeatsKept (v w : Event) : Type 0 where
  pub id : w.id ≡ v.id
  pub rows : w.rows ≡ v.rows
  pub cols : w.cols ≡ v.cols
  pub seats : (i r : ℕ) → get_elem? v.seats i ≡ some (suc r) → get_elem? w.seats i ≡ some (suc r)

pub SeatsKept-refl : (v : Event) → SeatsKept v v
SeatsKept-refl v = record { id = refl; rows = refl; cols = refl; seats = λ i r at. at }

pub SeatsKept-trans : (u v w : Event) → SeatsKept u v → SeatsKept v w → SeatsKept u w
SeatsKept-trans u v w a b = record {
  id = b.id ∙ a.id;
  rows = b.rows ∙ a.rows;
  cols = b.cols ∙ a.cols;
  seats = λ i r at. b.seats i r (a.seats i r at);
}

taken-not_hit :
    (cols : ℕ) (seats : List ℕ) (ps : Coords) (i r : ℕ)
    → conflicts cols seats ps ≡ false
    → get_elem? seats i ≡ some (suc r)
    → hits cols ps i ≡ false
taken-not_hit cols seats [] i r free at = refl
taken-not_hit cols seats ((x, y) ∷ ps) i r free at = elim (Bool-cases (index cols x y == i)) [
  | inl hit ↦
      let same : index cols x y ≡ i = ground arith in
      let taken : is_taken seats (index cols x y) ≡ true =
        subst (λ k. is_taken seats k ≡ true) (sym same)
          (is_taken_lem seats i (suc r) at ∙ ground arith) in
      absurd (ground arith)
  | inr miss ↦ ground (arith, taken-not_hit cols seats ps i r (ground arith) at)
]

inside_of_some : (seats : List ℕ) (i v : ℕ) → get_elem? seats i ≡ some v → i < length seats
inside_of_some seats i v at = elim (Bool-cases (ltb i (length seats))) [
  | inl inside ↦ ground arith
  | inr outside ↦ let gone = get_elem?-ge seats i (ground arith) in absurd (ground (arith, gone))
]

module _ (v : Event) (ps : Coords) where
  reserved-SeatsKept : conflicts v.cols v.seats ps ≡ false → SeatsKept v (reserved v ps)
  reserved-SeatsKept free = record {
    id = refl;
    rows = refl;
    cols = refl;
    seats = λ i r at.
        get_elem?-marked_at ((v.reservations + 1) % uint_mod) v.cols v.seats ps i
          (inside_of_some v.seats i (suc r) at)
        ∙ if-false _ _ (taken-not_hit v.cols v.seats ps i r free at)
        ∙ at;
  }

  -- A reservation, granted or refused, changes no seat that had a number.
  pub reservation-SeatsKept : SeatsKept v (reservation v ps).1
  reservation-SeatsKept = elim (Bool-cases (grants v ps)) [
    | inl granted ↦ rw granted (reserved-SeatsKept (ground arith))
    | inr refused ↦ rw refused (SeatsKept-refl v)
  ]

  pub reservation-IsRoom : IsRoom v → IsRoom (reservation v ps).1
  reservation-IsRoom room = elim (Bool-cases (grants v ps)) [
    | inl granted ↦
        rw granted
          (record { small = room.small; full = length-marked _ v.cols v.seats ps ∙ room.full })
    | inr refused ↦ rw refused room
  ]
