-- ===== src/Server/Invariant.antt =====
-- The invariant of the server's state in Part2/src/server/operations.c.
use so.Base.{
  ℕ, ◌*◌, ◌≤◌, ◌<◌, ◌≡◌, ◌&&◌, List, length, size_mod, Bool-cases, inl, inr, if-true, if-false,
  subst, sym,
}
use so.Base.Nodes.{Run, ok}
use so.Server.Store.{Event}
use so.Server.Seats.Request.{Coords, request}
use so.Server.Database.{IsSound}
use so.Server.Database.Sound.{create-IsSound, reserve-IsSound}
use so.Server.Operations.{Ems, CreateResources, ReserveResources, ems_create, ems_reserve}
use so.Server.Operations.State.{Repr}
use so.Server.Operations.NewEvent.{has_memory, IsFresh}
use so.Server.Operations.Create.{created, ems_create_lem}
use so.Server.Operations.Reserve.{reserved_in, ems_reserve_lem}

-- The list is well formed and unlocked, ids are distinct, every event has rows * cols seats, and
-- no event's mutex is held.
pub record IsValid (m : Ems) : Type 0 where
  pub events : List Event
  pub repr : Repr m events
  pub sound : IsSound events

pub created-IsSound :
    (os : CreateResources) (id rows cols : ℕ) (vs : List Event)
    → rows * cols < size_mod
    → IsSound vs
    → IsSound (created os id rows cols vs).1
created-IsSound os id rows cols vs h s = elim (Bool-cases (os.wrlock && has_memory os)) [
  | inl granted ↦
      subst (λ (r : ℕ × List Event). IsSound r.1) (sym (if-true _ _ granted))
        (create-IsSound id rows cols vs h s)
  | inr refused ↦ subst (λ (r : ℕ × List Event). IsSound r.1) (sym (if-false _ _ refused)) s
]

pub reserved_in-IsSound :
    (os : ReserveResources) (id : ℕ) (ps : Coords) (vs : List Event)
    → IsSound vs
    → IsSound (reserved_in os id ps vs).1
reserved_in-IsSound os id ps vs s = elim (Bool-cases (os.rdlock && os.mutex_lock)) [
  | inl granted ↦
      subst (λ (r : ℕ × List Event). IsSound r.1) (sym (if-true _ _ granted))
        (reserve-IsSound id ps vs s)
  | inr refused ↦ subst (λ (r : ℕ × List Event). IsSound r.1) (sym (if-false _ _ refused)) s
]

-- A run that ends with a code and a valid state.
abbrev pub Keeps : Run (ℕ × Ems) → Type 0
Keeps run = (code : ℕ) × (m' : Ems) × (run ≡ ok (code, m')) × IsValid m'

-- On a valid state, with fuel for its events, addresses from malloc that are not in use, and
-- rows * cols below 2^64, `ems_create` ends without a fault in a valid state, whatever locks and
-- memory it gets.
pub ems_create-IsValid :
    (fuel : ℕ) (os : CreateResources) (id rows cols : ℕ) (m : Ems) (v : IsValid m)
    → length v.events < fuel
    → IsFresh os m.store
    → rows * cols < size_mod
    → Keeps (ems_create fuel os id rows cols m)
ems_create-IsValid fuel os id rows cols m v h fresh small =
    let (m', done, repr) = ems_create_lem fuel os id rows cols m v.events v.repr h fresh in
    let sound = created-IsSound os id rows cols v.events small v.sound in
    (
      (created os id rows cols v.events).0,
      m',
      done,
      record { events = (created os id rows cols v.events).1; repr = repr; sound = sound },
    )

-- On a valid state, with fuel for its events and arrays of at least `num_seats` coordinates,
-- `ems_reserve` ends without a fault in a valid state, whatever locks it gets.
pub ems_reserve-IsValid :
    (fuel : ℕ) (os : ReserveResources) (id n : ℕ) (xs ys : List ℕ) (m : Ems) (v : IsValid m)
    → length v.events < fuel
    → n ≤ length xs
    → n ≤ length ys
    → Keeps (ems_reserve fuel os id n xs ys m)
ems_reserve-IsValid fuel os id n xs ys m v h hx hy =
    let vs = v.events in
    let (m', done, repr) = ems_reserve_lem fuel os id n xs ys m vs v.repr h v.sound hx hy in
    let sound = reserved_in-IsSound os id (request n xs ys) vs v.sound in
    (
      (reserved_in os id (request n xs ys) vs).0,
      m',
      done,
      record { events = (reserved_in os id (request n xs ys) vs).1; repr = repr; sound = sound },
    )
