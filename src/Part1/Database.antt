-- ===== src/Part1/Database.antt =====
-- The abstract view of the state of a job of Part 1: a list of events, in the order of creation, and
-- what CREATE and RESERVE mean on it when no other thread comes in between.
use so.Base.{
  ℕ, ◌*◌, ◌≡◌, none, some, List, [], ◌∷◌, ◌++◌, replicate, ◌==◌, Bool-cases, inl, inr, if-true,
  if-false, sym, ◌∙◌, subst, uint_mod, ◌<◌, ◌+◌,
}
use so.Server.Seats.Request.{Coords}
use so.Part1.Store.{Event}
use so.Part1.Seats.Fill.{IsRoom}
use so.Part1.Seats.Outcome.{reservation}
use so.Part1.EventList.Shape.{find, replace}

-- An event as `ems_create` makes it.
abbrev pub new_event : ℕ → ℕ → ℕ → Event
new_event id rows cols = record {
  id = id;
  reservations = 0;
  seats = replicate (rows * cols) 0;
  cols = cols;
  rows = rows;
}

-- An id can be created once.
abbrev pub create : ℕ → ℕ → ℕ → List Event → ℕ × List Event
create id rows cols vs = elim (find id vs) [
  | none ↦ (0, vs ++ new_event id rows cols ∷ [])
  | some e ↦ (1, vs)
]

abbrev pub after_reservation : ℕ → List Event → ℕ × Event → ℕ × List Event
after_reservation id vs (code, e) = (code, replace id e vs)

abbrev pub reserve : ℕ → Coords → List Event → ℕ × List Event
reserve id ps vs = elim (find id vs) [
  | none ↦ (1, vs)
  | some e ↦ after_reservation id vs (reservation e ps)
]

-- Every event is a room, and its counter has not come to its end.
abbrev pub AllOpen : List Event → Type 0
AllOpen [] = Unit {0}
AllOpen (v ∷ vs) = IsRoom v × (v.reservations + 1 < uint_mod) × AllOpen vs

module _ (id : ℕ) (vs : List Event) where
  pub create-new :
      (rows cols : ℕ)
      → find id vs ≡ none
      → create id rows cols vs ≡ (0, vs ++ new_event id rows cols ∷ [])
  create-new rows cols h = rw (h, create)

  pub create-old :
      (rows cols : ℕ) (e : Event) → find id vs ≡ some e → create id rows cols vs ≡ (1, vs)
  create-old rows cols e h = rw (h, create)

  pub reserve-missing : (ps : Coords) → find id vs ≡ none → reserve id ps vs ≡ (1, vs)
  reserve-missing ps h = rw (h, reserve)

  pub reserve-found :
      (ps : Coords) (e : Event)
      → find id vs ≡ some e
      → reserve id ps vs ≡ after_reservation id vs (reservation e ps)
  reserve-found ps e h = rw (h, reserve)

pub find-AllOpen :
    (id : ℕ) (vs : List Event) (e : Event)
    → AllOpen vs
    → find id vs ≡ some e
    → IsRoom e × (e.reservations + 1 < uint_mod)
find-AllOpen id [] e s h = cc
find-AllOpen id (v ∷ vs) e s h = elim (Bool-cases (v.id == id)) [
  | inl hit ↦
      let at : some v ≡ some e = sym (if-true _ _ hit) ∙ h in
      subst (λ w. IsRoom w × (w.reservations + 1 < uint_mod)) (cc) (s.0, s.1)
  | inr miss ↦ find-AllOpen id vs e s.2 (sym (if-false _ _ miss) ∙ h)
]
