-- ===== src/Part1/Operations/Memory.antt =====
-- What `ems_create` of Part 1 needs of `malloc`, and the loop that clears the seats.
use so.Base.{
  ℕ, zero, suc, ◌+◌, ◌*◌, ◌/◌, ◌<◌, ◌≤◌, ◌≡◌, ◌≢◌, Bool, true, false, ◌&&◌, Option, none, some,
  List, [], ◌∷◌, ◌++◌, refl, arith, ap, ◌∙◌, ◌==◌, ltb, length, length-set, set, replicate,
  Bool-cases, inl, inr, length-append,
}
use mathlib.Core.Bool.{not}
use mathlib.Core.List.{append_assoc}
use so.Base.Nodes.{Ptr, null, Run, ok, fault}
use so.Part1.Store.{Event, Store}
use so.Part1.Operations.{Ems, CreateResources, clear}
use so.Part1.Operations.State.{Repr}

set-append : (zs ws : List ℕ) (w v : ℕ) → set (zs ++ w ∷ ws) (length zs) v ≡ (zs ++ v ∷ []) ++ ws
set-append [] ws w v = refl
set-append (z ∷ zs) ws w v = ap (λ l. z ∷ l) (set-append zs ws w v)

-- The loop on a block of as many words as it has rounds.
pub clear_lem :
    (ws zs : List ℕ) (i : ℕ)
    → i ≡ length zs
    → clear (length ws) i (zs ++ ws) ≡ ok (zs ++ replicate (length ws) 0)
unfolding clear
clear_lem [] zs i e = refl
clear_lem (w ∷ ws) zs i e =
    let inside : ltb i (length (zs ++ w ∷ ws)) ≡ true = ground (arith, length-append zs (w ∷ ws)) in
    let written : set (zs ++ w ∷ ws) i 0 ≡ (zs ++ 0 ∷ []) ++ ws =
      ap (λ n. set (zs ++ w ∷ ws) n 0) e ∙ set-append zs ws w 0 in
    rw (inside, written)
      (clear_lem ws (zs ++ 0 ∷ []) (i + 1) (omega (arith, length-append zs (0 ∷ []), e))
        ∙ ap ok (append_assoc zs (0 ∷ []) (replicate (length ws) 0)))

-- The loop on a block of fewer words.
pub clear-fault :
    (left i : ℕ) (ws : List ℕ) → i ≤ length ws → length ws < i + left → clear left i ws ≡ fault
unfolding clear
clear-fault zero i ws h k = absurd (omega arith)
clear-fault (suc left) i ws h k = elim (Bool-cases (ltb i (length ws))) [
  | inl inside ↦
      let more : i + 1 ≤ length ws = ground arith in
      rw inside (
        clear-fault left (i + 1) (set ws i 0) (omega (arith, length-set ws i 0, more))
          (omega (arith, length-set ws i 0, k)))
  | inr outside ↦ rw outside refl
]

-- What `malloc` promises: an address that it returns is not in use, and a block has the size that
-- was asked for.
pub record IsFresh (os : CreateResources) (s : Store) : Type 0 where
  pub event : os.event ≢ null → s.events os.event ≡ none
  pub node : os.node ≢ null → s.nodes os.node ≡ none
  pub sized : (n : ℕ) (ws : List ℕ) → os.block n ≡ some ws → length ws ≡ n / 4

abbrev pub is_some : Option (List ℕ) → Bool
is_some none = false
is_some (some ws) = true

-- Every allocation for an event of so many seats succeeds.
abbrev pub has_memory : CreateResources → ℕ → Bool
has_memory os count =
    not (os.event == null) && (is_some (os.block (count * 4)) && not (os.node == null))

-- Nothing that is allocated has moved, and a new list stands for `vs`.
abbrev pub Grown : Ems → Run (ℕ × Ems) → ℕ → List Event → Type 0
Grown m run code vs =
    (m' : Ems) × (run ≡ ok (code, m'))
    × Repr m' vs
    × ((p : Ptr) (v : Event) → m.store.events p ≡ some v → m'.store.events p ≡ some v)
