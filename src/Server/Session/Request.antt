-- ===== src/Server/Session/Request.antt =====
-- The abstract server: what a request does to the database, and the bytes of the reply.
use so.Base.{
  ℕ, ◌+◌, ◌≤◌, ◌≡◌, ◌&&◌, List, [], ◌∷◌, ◌++◌, refl, arith, length, length-append, Bool-cases,
  Option-cases, inl, inr,
}
use so.Common.Bytes.{encode}
use so.Common.Protocol.{Request, create, reserve, show, list}
use so.Server.Store.{Event}
use so.Server.EventList.Shape.{find, replace}
use so.Server.Seats.Request.{Coords, request}
use so.Server.Seats.Outcome.{reservation}
use so.Server.Database.{new_event, create-new, create-old, reserve-missing, reserve-found}
use so.Server.Database
use so.Server.Operations.NewEvent.{has_memory}
use so.Server.Operations.Create.{created}
use so.Server.Operations.Reserve.{reserved_in}
use so.Server.Output.Show.{shown}
use so.Server.Output.Events.{listed}
use so.Server.Session.{Answers}

-- What the command sends itself, then its code.
abbrev pub with_code : ℕ × List ℕ → List ℕ
with_code (code, bytes) = bytes ++ encode 4 code

abbrev pub answer : Answers → Request → List Event → List ℕ × List Event
answer os (create id rows cols) vs =
    (encode 4 (created os.create id rows cols vs).0, (created os.create id rows cols vs).1)
answer os (reserve id n xs ys) vs = (
  encode 4 (reserved_in os.reserve id (request n xs ys) vs).0,
  (reserved_in os.reserve id (request n xs ys) vs).1,
)
answer os (show id) vs = (with_code (shown os.rdlock id vs), vs)
answer os list vs = (with_code (listed os.rdlock vs), vs)

length-replace : (id : ℕ) (e : Event) (vs : List Event) → length (replace id e vs) ≡ length vs
length-replace id e [] = refl
length-replace id e (v ∷ vs) = ground (arith, length-replace id e vs)

length-create :
    (id rows cols : ℕ) (vs : List Event)
    → length (Database.create id rows cols vs).1 ≤ length vs + 1
length-create id rows cols vs = elim (Option-cases (find id vs)) [
  | inl fresh ↦
      rw (create-new id rows cols vs fresh)
        (omega (arith, length-append vs (new_event id rows cols ∷ [])))
  | inr (e, old) ↦ rw (create-old id rows cols vs e old) (omega arith)
]

length-reserve :
    (id : ℕ) (ps : Coords) (vs : List Event) → length (Database.reserve id ps vs).1 ≤ length vs + 1
length-reserve id ps vs = elim (Option-cases (find id vs)) [
  | inl gone ↦ rw (reserve-missing id ps vs gone) (omega arith)
  | inr (e, found) ↦
      rw (reserve-found id ps vs e found) (omega (arith, length-replace id (reservation e ps).1 vs))
]

-- A request adds at most one event.
pub length-answer :
    (os : Answers) (q : Request) (vs : List Event) → length (answer os q vs).1 ≤ length vs + 1
length-answer os (create id rows cols) vs =
    elim (Bool-cases (os.create.wrlock && has_memory os.create)) [
      | inl granted ↦ rw granted (length-create id rows cols vs)
      | inr refused ↦ rw refused (omega arith)
    ]
length-answer os (reserve id n xs ys) vs =
    elim (Bool-cases (os.reserve.rdlock && os.reserve.mutex_lock)) [
      | inl granted ↦ rw granted (length-reserve id (request n xs ys) vs)
      | inr refused ↦ rw refused (omega arith)
    ]
length-answer os (show id) vs = omega arith
length-answer os list vs = omega arith
