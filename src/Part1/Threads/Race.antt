-- ===== src/Part1/Threads/Race.antt =====
-- Two threads of Part 1 that create one id: both look for it before one of them appends its event.
use so.Base.{
  ℕ, ◌*◌, ◌<◌, ◌≡◌, ◌≢◌, true, none, List, [], ◌∷◌, ◌++◌, refl, sym, subst, ◌∙◌, ap, length,
  size_mod, ==-self, ==-false, inl, inr, if-true,
}
use so.Base.Nodes.{null, ok}
use so.Chain.Owned.Search.{pointer_of-find}
use so.Part1.Store.{Event}
use so.Part1.EventList.Shape.{find}
use so.Part1.Database.{new_event}
use so.Part1.Operations.{Ems, CreateResources, found, check_new, insert_new}
use so.Part1.Operations.State.{Repr, check_new_lem, checked}
use so.Part1.Operations.Memory.{IsFresh, has_memory, Grown}
use so.Part1.Operations.Insert.{insert_new_lem}
use so.Part1.Threads.{
  Pc, idle, inserting, EndsWith, Move, start_create, finish_create, Job, put_pc, Step, pick, Reach,
  start, later, search_granted, insert_granted,
}
use so.Part1.Threads.Valid.{IsValid}

put_pc_self : (pcs : ℕ → Pc) (i : ℕ) (p : Pc) → put_pc pcs i p i ≡ p
put_pc_self pcs i p = rw (==-self i) refl

put_pc_ne : (pcs : ℕ → Pc) (i k : ℕ) (p : Pc) → k ≢ i → put_pc pcs i p k ≡ pcs k
put_pc_ne pcs i k p ne = rw (==-false k i ne) refl

step_by :
    (n tid : ℕ) (j : Job) (pc : Pc) {m' : Ems} {p' : Pc}
    → tid < n
    → j.pc tid ≡ pc
    → Move j.ems pc m' p'
    → Step n j (record { ems = m'; pc = put_pc j.pc tid p' })
step_by n tid j pc {m'} {p'} lt at mv = pick tid lt (subst (λ q. Move j.ems q m' p') (sym at) mv)

-- With memory, the second part of `ems_create` appends, whatever has come in between.
appends :
    (os : CreateResources) (m : Ems) (vs : List Event) (r : Repr m vs) (id rows cols : ℕ)
    → IsFresh os m.store
    → has_memory os (rows * cols) ≡ true
    → rows * cols * 4 < size_mod
    → (m' : Ems) × (insert_new os id rows cols m ≡ ok (0, m'))
      × Repr m' (vs ++ new_event id rows cols ∷ [])
appends os m vs r id rows cols fresh granted small =
    let grown = insert_new_lem os m vs r fresh id rows cols small in
    let (m', done, repr, _) =
      subst (λ (t : ℕ × List Event). Grown m (insert_new os id rows cols m) t.0 t.1)
        (if-true _ _ granted) grown in
    (m', done, repr)

module _ (max_threads : ℕ) (j : Job) (v : IsValid j) (i k : ℕ) (id rows cols rows' cols' : ℕ)
    (os os' : CreateResources) where
  check_ends :
      find id v.events ≡ none → EndsWith (λ fuel. check_new fuel id j.ems) (found null, j.ems)
  check_ends new =
      elim (pointer_of-find (λ e. e.id) j.ems.store.events id v.repr.cells v.events
        v.repr.list.owns) [
          | inr (e, _, _, old, _, _) ↦ let clash = sym new ∙ old in cc
          | inl (missing, _) ↦ (
            length v.events,
            λ fuel h.
                check_new_lem j.ems v.events v.repr fuel id h
                ∙ ap (λ q. ok (checked q, j.ems)) missing,
          )
        ]

  -- From any valid job in which no event has the id and two threads are between commands, and with
  -- memory and seats whose bytes a size_t counts, the threads reach a job with two new events of
  -- that id at the end of the list, in steps that are granted their locks: both look for the id, and then
  -- both append.
  pub ems_create-twice :
      i < max_threads
      → k < max_threads
      → i ≢ k
      → j.pc i ≡ idle
      → j.pc k ≡ idle
      → find id v.events ≡ none
      → rows * cols * 4 < size_mod
      → rows' * cols' * 4 < size_mod
      → IsFresh os j.ems.store
      → ((m : Ems) → insert_new os id rows cols j.ems ≡ ok (0, m) → IsFresh os' m.store)
      → has_memory os (rows * cols) ≡ true
      → has_memory os' (rows' * cols') ≡ true
      → (l : Job) × Reach max_threads j l
        × Repr l.ems ((v.events ++ new_event id rows cols ∷ []) ++ new_event id rows' cols' ∷ [])
  ems_create-twice lt lt' ne at at' new small small' fresh fresh' memory memory' =
      let (m₁, done₁, repr₁) = appends os j.ems v.events v.repr id rows cols fresh memory small in
      let (m₂, done₂, repr₂) =
        appends os' m₁ _ repr₁ id rows' cols' (fresh' m₁ done₁) memory' small' in
      let ends = check_ends new in
      let p₁ = inserting id rows cols in
      let p₂ = inserting id rows' cols' in
      let j₁ : Job = record { ems = j.ems; pc = put_pc j.pc i p₁ } in
      let j₂ : Job = record { ems = j.ems; pc = put_pc j₁.pc k p₂ } in
      let j₃ : Job = record { ems = m₁; pc = put_pc j₂.pc i idle } in
      let ne' : k ≢ i = λ e. ne (sym e) in
      let at₁ : j₁.pc k ≡ idle = put_pc_ne j.pc i k p₁ ne' ∙ at' in
      let at₂ : j₂.pc i ≡ p₁ = put_pc_ne j₁.pc k i p₂ ne ∙ put_pc_self j.pc i p₁ in
      let at₃ : j₃.pc k ≡ p₂ = put_pc_ne j₂.pc i k idle ne' ∙ put_pc_self j₁.pc k p₂ in
      let s₁ =
        step_by max_threads i j idle lt at
          (start_create id rows cols (ap search_granted v.repr.free) ends) in
      let s₂ =
        step_by max_threads k j₁ idle lt' at₁
          (start_create id rows' cols' (ap search_granted v.repr.free) ends) in
      let s₃ =
        step_by max_threads i j₂ p₁ lt at₂
          (finish_create os (ap insert_granted v.repr.free) fresh done₁) in
      let s₄ =
        step_by max_threads k j₃ p₂ lt' at₃
          (finish_create os' (ap insert_granted repr₁.free) (fresh' m₁ done₁) done₂) in
      (
        record { ems = m₂; pc = put_pc j₃.pc k idle },
        later (later (later (later start s₁) s₂) s₃) s₄,
        repr₂,
      )
