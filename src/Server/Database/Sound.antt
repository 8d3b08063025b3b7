-- ===== src/Server/Database/Sound.antt =====
-- The commands of the abstract database, and soundness: distinct ids, rooms of the right size.
use so.Base.{
  ℕ, ◌*◌, ◌%◌, ◌<◌, ◌≡◌, ◌≢◌, false, none, some, List, [], ◌∷◌, ◌++◌, arith, refl, sym, ◌∙◌, subst,
  ◌==◌, size_mod, length-replicate, Bool-cases, Option-cases, inl, inr, if-true, if-false,
}
use native.Mathlib.Nat.{mod-eq_of_lt}
use so.Server.Store.{Event}
use so.Server.EventList.Shape.{find, replace}
use so.Server.Seats.Index.{IsRoom}
use so.Server.Seats.Request.{Coords}
use so.Server.Seats.Outcome.{reserved, reserved-IsRoom, grants}
use so.Server.Database.{
  new_event, create, reserve, after_reservation, IsSound, create-new, create-old, reserve-missing,
  reserve-found,
}

pub new_event-IsRoom : (id rows cols : ℕ) → rows * cols < size_mod → IsRoom (new_event id rows cols)
new_event-IsRoom id rows cols h = record {
  small = h;
  full = length-replicate ((rows * cols) % size_mod) 0 ∙ mod-eq_of_lt h;
}

find-append : (i : ℕ) (vs : List Event) (e : Event) → i ≢ e.id → find i (vs ++ e ∷ []) ≡ find i vs
find-append i [] e ne = ground arith
find-append i (v ∷ vs) e ne = ground (arith, find-append i vs e ne)

IsSound-append :
    (vs : List Event) (e : Event)
    → IsSound vs
    → find e.id vs ≡ none
    → IsRoom e
    → e.mutex ≡ false
    → IsSound (vs ++ e ∷ [])
IsSound-append [] e s fresh room free = (room, free, refl, tt)
IsSound-append (v ∷ vs) e s fresh room free = elim (Bool-cases (v.id == e.id)) [
  | inl same ↦ let none_some = sym (if-true _ _ same) ∙ fresh in cc
  | inr other ↦ (
    s.0,
    s.1,
    find-append v.id vs e (ground arith) ∙ s.2,
    IsSound-append vs e s.3 (sym (if-false _ _ other) ∙ fresh) room free,
  )
]

-- CREATE keeps the ids distinct and makes a room for the event.
pub create-IsSound :
    (id rows cols : ℕ) (vs : List Event)
    → rows * cols < size_mod
    → IsSound vs
    → IsSound (create id rows cols vs).1
create-IsSound id rows cols vs h s = elim (Option-cases (find id vs)) [
  | inl fresh ↦
      subst (λ r. IsSound r.1) (sym (create-new id rows cols vs fresh))
        (IsSound-append vs (new_event id rows cols) s fresh (new_event-IsRoom id rows cols h) refl)
  | inr (e, old) ↦ subst (λ r. IsSound r.1) (sym (create-old id rows cols vs e old)) s
]

find-replace :
    (i id : ℕ) (w : Event) (vs : List Event)
    → w.id ≡ id
    → find i vs ≡ none
    → find i (replace id w vs) ≡ none
find-replace i id w [] e fresh = refl
find-replace i id w (v ∷ vs) e fresh = ground (arith, find-replace i id w vs e)

pub find-IsSound :
    (id : ℕ) (vs : List Event) (e : Event)
    → IsSound vs
    → find id vs ≡ some e
    → IsRoom e × (e.mutex ≡ false) × (e.id ≡ id)
find-IsSound id [] e s h = cc
find-IsSound id (v ∷ vs) e s h = elim (Bool-cases (v.id == id)) [
  | inl hit ↦
      let at : some v ≡ some e = sym (if-true _ _ hit) ∙ h in
      subst (λ w. IsRoom w × (w.mutex ≡ false) × (w.id ≡ id)) (cc) (s.0, s.1, ground arith)
  | inr miss ↦ find-IsSound id vs e s.3 (sym (if-false _ _ miss) ∙ h)
]

pub IsSound-replace :
    (id : ℕ) (w : Event) (vs : List Event)
    → IsSound vs
    → w.id ≡ id
    → IsRoom w
    → w.mutex ≡ false
    → IsSound (replace id w vs)
IsSound-replace id w [] s e room free = tt
IsSound-replace id w (v ∷ vs) s e room free = elim (Bool-cases (v.id == id)) [
  | inl hit ↦
      let same : v.id ≡ w.id = ground arith in
      rw hit (room, free, subst (λ i. find i vs ≡ none) same s.2, s.3)
  | inr miss ↦
      rw miss (s.0, s.1, find-replace v.id id w vs e s.2, IsSound-replace id w vs s.3 e room free)
]

-- RESERVE keeps the database sound, whatever it is asked for.
pub reserve-IsSound :
    (id : ℕ) (ps : Coords) (vs : List Event) → IsSound vs → IsSound (reserve id ps vs).1
reserve-IsSound id ps vs s = elim (Option-cases (find id vs)) [
  | inl gone ↦ subst (λ r. IsSound r.1) (sym (reserve-missing id ps vs gone)) s
  | inr (e, at) ↦
      let (room, free, same) = find-IsSound id vs e s at in
      subst (λ r. IsSound r.1) (sym (reserve-found id ps vs e at))
        (elim (Bool-cases (grants e ps)) [
          | inl granted ↦
              subst (λ r. IsSound (after_reservation id vs r).1) (sym (if-true _ _ granted))
                (IsSound-replace id (reserved e ps) vs s same (reserved-IsRoom e ps room) free)
          | inr refused ↦
              subst (λ r. IsSound (after_reservation id vs r).1) (sym (if-false _ _ refused))
                (IsSound-replace id e vs s same room free)
        ])
]
