-- ===== src/Part1/Operations/Create.antt =====
-- `ems_create` of Part 1 when no other thread comes in between its two parts.
use so.Base.{
  ℕ, ◌*◌, ◌%◌, ◌<◌, ◌≤◌, ◌≡◌, ◌≢◌, none, some, List, refl, sym, arith, ap, ◌∙◌, if◌then◌else◌,
  length, size_mod, ==-false, Bool-cases, inl, inr, subst, if-true, if-false,
}
use so.Base.Nodes.{null, ok, fault}
use so.Chain.Owned.Search.{pointer_of-find}
use so.Part1.Store.{Event}
use so.Part1.EventList.Shape.{find, pointer_of}
use so.Part1.Database.{create, create-new, create-old}
use so.Part1.Operations.{Ems, CreateResources, clear, insert_new, ems_create}
use so.Part1.Operations.State.{Repr, check_new_lem}
use so.Part1.Operations.Memory.{IsFresh, has_memory, Grown, clear-fault}
use so.Part1.Operations.Insert.{insert_new_lem}

-- The command, which fails when memory is refused.
abbrev pub created : CreateResources → ℕ → ℕ → ℕ → List Event → ℕ × List Event
created os id rows cols vs = if has_memory os (rows * cols) then create id rows cols vs else (1, vs)

insert_behind :
    (os : CreateResources) (id rows cols : ℕ) (m : Ems) (ws : List ℕ)
    → os.event ≢ null
    → os.block (((rows * cols) % size_mod * 4) % size_mod) ≡ some ws
    → clear ((rows * cols) % size_mod) 0 ws ≡ fault
    → insert_new os id rows cols m ≡ fault
unfolding insert_new
insert_behind os id rows cols m ws ne at behind = rw (==-false os.event null ne, at, behind) refl

module _ (fuel : ℕ) (os : CreateResources) (id rows cols : ℕ) (m : Ems) (vs : List Event)
    (r : Repr m vs) (h : length vs < fuel) where
  checked_new :
      pointer_of id r.cells vs ≡ null
      → ems_create fuel os id rows cols m ≡ insert_new os id rows cols m
  unfolding ems_create
  checked_new missing = rw (check_new_lem m vs r fuel id h, missing) refl

  checked_old : pointer_of id r.cells vs ≢ null → ems_create fuel os id rows cols m ≡ ok (1, m)
  unfolding ems_create
  checked_old ne =
      rw (check_new_lem m vs r fuel id h, ==-false (pointer_of id r.cells vs) null ne) refl

  abbrev Spec : ℕ × List Event → Type 0
  Spec r = Grown m (ems_create fuel os id rows cols m) r.0 r.1

  created_old : (e : Event) → find id vs ≡ some e → created os id rows cols vs ≡ (1, vs)
  created_old e old = elim (Bool-cases (has_memory os (rows * cols))) [
    | inl granted ↦ if-true _ _ granted ∙ create-old id vs rows cols e old
    | inr refused ↦ if-false _ _ refused
  ]

  -- On an initialised state that stands for the events `vs`, with fuel for all of them, lawful answers
  -- of malloc and seats whose bytes a size_t counts, `ems_create` ends without a fault. With the
  -- memory it returns the code of the abstract CREATE and leaves a state that stands for its
  -- database; otherwise it returns 1 and leaves one that stands for `vs`. No lock is held, and no
  -- event that was allocated has changed.
  pub ems_create-created :
      IsFresh os m.store
      → rows * cols * 4 < size_mod
      → Grown m
          (ems_create fuel os id rows cols m)
          (created os id rows cols vs).0
          (created os id rows cols vs).1
  ems_create-created fresh small =
      elim (pointer_of-find (λ v. v.id) m.store.events id r.cells vs r.list.owns) [
        | inr (e, ne, at, old, _, _) ↦
            subst Spec (sym (created_old e old)) (m, checked_old ne, r, λ q v here. here)
        | inl (missing, new) ↦
            let (m', done, rest, kept) = insert_new_lem os m vs r fresh id rows cols small in
            let same = create-new id vs rows cols new in
            subst Spec (λ i. if has_memory os (rows * cols) then sym same i else (1, vs))
              (m', checked_new missing ∙ done, rest, kept)
      ]

  -- When the id is new, the seats are fewer than 2^64 but their bytes are not, and `malloc` returns
  -- an event and a block of the bytes that it is asked for, `ems_create` writes behind the block.
  pub ems_create-fault :
      (ws : List ℕ)
      → IsFresh os m.store
      → find id vs ≡ none
      → rows * cols < size_mod
      → size_mod ≤ rows * cols * 4
      → os.event ≢ null
      → os.block ((rows * cols * 4) % size_mod) ≡ some ws
      → ems_create fuel os id rows cols m ≡ fault
  ems_create-fault ws fresh new few large ne at =
      elim (pointer_of-find (λ v. v.id) m.store.events id r.cells vs r.list.owns) [
        | inr (e, _, _, old, _, _) ↦ let clash = sym new ∙ old in cc
        | inl (missing, _) ↦ checked_new missing ∙ insert_fault
      ]
    where
      unwrapped : ((rows * cols) % size_mod * 4) % size_mod ≡ (rows * cols * 4) % size_mod
      unwrapped = omega arith

      short : length ws < (rows * cols) % size_mod
      short = let size = fresh.sized ((rows * cols * 4) % size_mod) ws at in omega arith

      insert_fault : insert_new os id rows cols m ≡ fault
      insert_fault =
          insert_behind os id rows cols m ws ne (ap os.block unwrapped ∙ at)
            (clear-fault ((rows * cols) % size_mod) 0 ws (omega arith) (omega (arith, short)))
