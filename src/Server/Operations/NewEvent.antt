-- ===== src/Server/Operations/NewEvent.antt =====
-- `create_event`, the part of `ems_create` that holds the lock, for all answers about memory.
use so.Base.{
  ℕ, ◌≡◌, ◌≢◌, Bool, true, false, ◌&&◌, none, some, List, [], ◌∷◌, ◌++◌, refl, arith, ◌==◌,
  if◌then◌else◌, ==-false, Bool-cases, inl, inr, ap, ◌∙◌,
}
use mathlib.Core.Bool.{not}
use so.Base.Nodes.{Ptr, null, Run, ok, ◌>>=◌, write_self}
use so.Chain.{Cells}
use so.Chain.Owned.{has_item, has_item-false_of_none}
use so.Server.Store.{Event, RwLock, unlocked, wrlocked, Store, put_event, put_list}
use so.Server.EventList.{append_to_list}
use so.Server.EventList.Shape.{IsList, header_of, set_rwl_lem, IsList-set_rwl, IsList-put_event}
use so.Server.EventList.Append.{append_to_list-IsList}
use so.Server.Database.{new_event}
use so.Server.Operations.{CreateResources, create_event, unlock, give_up, event_of}
use so.Server.Operations.State.{Leaves}

-- Every allocation succeeds.
abbrev pub has_memory : CreateResources → Bool
has_memory os = not (os.event == null) && (os.mutex_init && (os.calloc && not (os.node == null)))

-- What `malloc` promises: an address that it returns is not in use.
pub record IsFresh (os : CreateResources) (s : Store) : Type 0 where
  pub event : os.event ≢ null → s.events os.event ≡ none
  pub node : os.node ≢ null → s.nodes os.node ≡ none

module _ (s : Store) (p : Ptr) (k : RwLock) (cs : Cells Ptr) (vs : List Event) where
  pub unlock-Leaves : (code : ℕ) → IsList s p k cs vs → Leaves p (unlock code p s) code vs
  unlock-Leaves code is = (
    put_list s p (some (header_of cs unlocked)),
    rw (set_rwl_lem s p k cs vs unlocked is) refl,
    cs,
    IsList-set_rwl s p k cs vs unlocked is,
  )

  give_up-Leaves :
      (e : Ptr) → IsList s p k cs vs → has_item e cs ≡ false → Leaves p (give_up p e s) 1 vs
  give_up-Leaves e is out =
      let s₁ = put_list s p (some (header_of cs unlocked)) in
      let is₁ = IsList-set_rwl s p k cs vs unlocked is in
      (
        put_event s₁ e none,
        rw (set_rwl_lem s p k cs vs unlocked is) refl,
        cs,
        IsList-put_event s₁ p unlocked cs vs e none is₁ out,
      )

-- The ways through `create_event`.
module _ (os : CreateResources) (p : Ptr) (id rows cols : ℕ) (s : Store) where
  no_event : (os.event == null) ≡ true → create_event os p id rows cols s ≡ unlock 1 p s
  unfolding create_event
  no_event h = rw h

  abbrev half_made : Store
  half_made = put_event s os.event (some (event_of id rows cols []))

  no_mutex :
      (os.event == null) ≡ false
      → os.mutex_init ≡ false
      → create_event os p id rows cols s ≡ give_up p os.event half_made
  unfolding create_event
  no_mutex h m = rw (h, m)

  no_seats :
      (os.event == null) ≡ false
      → os.mutex_init ≡ true
      → os.calloc ≡ false
      → create_event os p id rows cols s ≡ give_up p os.event half_made
  unfolding create_event
  no_seats h m c = rw (h, m, c)

  abbrev pub made : Store
  made = put_event s os.event (some (new_event id rows cols))

  abbrev after_append : ℕ × Store → Run (ℕ × Store)
  after_append r = if not (r.0 == 0) then give_up p os.event r.1 else unlock 0 p r.1

  all_made :
      (os.event == null) ≡ false
      → os.mutex_init ≡ true
      → os.calloc ≡ true
      → create_event os p id rows cols s ≡ (append_to_list os.node p os.event made >>= after_append)
  unfolding create_event
  all_made h m c = rw (h, m, c)

  no_node :
      (p == null) ≡ false
      → (os.node == null) ≡ true
      → append_to_list os.node p os.event made ≡ ok (1, made)
  unfolding append_to_list
  no_node h n = rw (h, n)

module _ (os : CreateResources) (s : Store) (p : Ptr) (cs : Cells Ptr) (vs : List Event)
    (is : IsList s p wrlocked cs vs) (fresh : IsFresh os s) (id rows cols : ℕ) where
  out_of_cells : os.event ≢ null → has_item os.event cs ≡ false
  out_of_cells ne = has_item-false_of_none s.events os.event cs vs is.owns (fresh.event ne)

  -- With memory, the new event is appended.
  pub create_event-granted :
      has_memory os ≡ true
      → Leaves p (create_event os p id rows cols s) 0 (vs ++ new_event id rows cols ∷ [])
  create_event-granted h =
      let ne : os.event ≢ null = ground arith in
      let nn : os.node ≢ null = ground arith in
      let new = new_event id rows cols in
      let s₂ = put_event s os.event (some new) in
      let out = out_of_cells ne in
      let is₂ = IsList-put_event s p wrlocked cs vs os.event (some new) is out in
      let (s₃, appended, is₃, _) =
        append_to_list-IsList s₂ p wrlocked vs os.node os.event new cs is₂ nn (fresh.node nn) ne
          (write_self s.events os.event (some new)) out in
      let (s', done, cs', is') = unlock-Leaves s₃ p wrlocked _ _ 0 is₃ in
      let way =
        all_made os p id rows cols s (==-false os.event null ne) (ground arith) (ground arith) in
      (s', way ∙ ap (λ r. r >>= after_append os p id rows cols s) appended ∙ done, cs', is')

  give_up_with :
      (v : Event)
      → os.event ≢ null
      → Leaves p (give_up p os.event (put_event s os.event (some v))) 1 vs
  give_up_with v ne =
      give_up-Leaves (put_event s os.event (some v)) p wrlocked cs vs os.event
        (IsList-put_event s p wrlocked cs vs os.event (some v) is (out_of_cells ne))
        (out_of_cells ne)

  abbrev pub Refused : Type 0
  Refused = Leaves p (create_event os p id rows cols s) 1 vs

  by_way :
      {run : Run (ℕ × Store)} → create_event os p id rows cols s ≡ run → Leaves p run 1 vs → Refused
  by_way way (s', done, cs', is') = (s', way ∙ done, cs', is')

  -- Without, nothing is left behind.
  pub create_event-refused : has_memory os ≡ false → Refused
  create_event-refused h = elim (Bool-cases (os.event == null)) [
    | inl bad ↦ by_way (no_event os p id rows cols s bad) (unlock-Leaves s p wrlocked cs vs 1 is)
    | inr event ↦
        let ne : os.event ≢ null = ground arith in
        let half = give_up_with (event_of id rows cols []) ne in
        elim (Bool-cases os.mutex_init) [
          | inr bad ↦ by_way (no_mutex os p id rows cols s event bad) half
          | inl mutex ↦ elim (Bool-cases os.calloc) [
            | inr bad ↦ by_way (no_seats os p id rows cols s event mutex bad) half
            | inl seats ↦
                let way = all_made os p id rows cols s event mutex seats in
                let fails =
                  no_node os p id rows cols s (==-false p null is.ne_null) (ground arith) in
                by_way (way ∙ ap (λ r. r >>= after_append os p id rows cols s) fails)
                  (give_up_with (new_event id rows cols) ne)
          ]
        ]
  ]
