-- ===== src/Server/Database.antt =====
-- The abstract view of the server's state: a list of events, in the order of creation, and what
-- the commands CREATE and RESERVE mean on it. No pointers, locks or loops over seats.
pub mod Sound
use so.Base.{
  ℕ, ◌+◌, ◌*◌, ◌%◌, ◌<◌, ◌≡◌, ◌≢◌, Bool, true, false, Option, none, some, List, [], ◌∷◌, ◌++◌,
  arith, refl, ◌==◌, if◌then◌else◌, size_mod, replicate, length-replicate, Bool-cases, inl, inr,
  ◌⊎◌,
}
use native.Mathlib.Nat.{mod-eq_of_lt}
use so.Server.Store.{Event}
use so.Server.EventList.Shape.{find, replace}
use so.Server.Seats.Index.{IsRoom}
use so.Server.Seats.Request.{Coords}
use so.Server.Seats.Outcome.{reservation, reserved, reserved-IsRoom, grants}

-- An event as `ems_create` makes it.
abbrev pub new_event : ℕ → ℕ → ℕ → Event
new_event id rows cols = record {
  id = id;
  reservations = 0;
  cols = cols;
  rows = rows;
  seats = replicate ((rows * cols) % size_mod) 0;
  mutex = false;
}

-- An id can be created once.
abbrev pub create : ℕ → ℕ → ℕ → List Event → ℕ × List Event
create id rows cols vs = elim (find id vs) [
  | none ↦ (0, vs ++ new_event id rows cols ∷ [])
  | some e ↦ (1, vs)
]

abbrev pub after_reservation : ℕ → List Event → ℕ × Event → ℕ × List Event
after_reservation id vs (code, e) = (code, replace id e vs)

abbrev pub reserve : ℕ → Coords → List Event → ℕ × List Event
reserve id ps vs = elim (find id vs) [
  | none ↦ (1, vs)
  | some e ↦ after_reservation id vs (reservation e ps)
]

-- The events are rooms that nobody has locked, and no two have one id.
abbrev pub IsSound : List Event → Type 0
IsSound [] = Unit {0}
IsSound (v ∷ vs) = IsRoom v × (v.mutex ≡ false) × (find v.id vs ≡ none) × IsSound vs

pub create-new :
    (id rows cols : ℕ) (vs : List Event)
    → find id vs ≡ none
    → create id rows cols vs ≡ (0, vs ++ new_event id rows cols ∷ [])
create-new id rows cols vs h = rw (h, create)

pub create-old :
    (id rows cols : ℕ) (vs : List Event) (e : Event)
    → find id vs ≡ some e
    → create id rows cols vs ≡ (1, vs)
create-old id rows cols vs e h = rw (h, create)

pub reserve-missing :
    (id : ℕ) (ps : Coords) (vs : List Event) → find id vs ≡ none → reserve id ps vs ≡ (1, vs)
reserve-missing id ps vs h = rw (h, reserve)

pub reserve-found :
    (id : ℕ) (ps : Coords) (vs : List Event) (e : Event)
    → find id vs ≡ some e
    → reserve id ps vs ≡ after_reservation id vs (reservation e ps)
reserve-found id ps vs e h = rw (h, reserve)
