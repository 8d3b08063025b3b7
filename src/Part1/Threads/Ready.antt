-- ===== src/Part1/Threads/Ready.antt =====
-- What a thread of Part 1 relies on between the two parts of a command.
use so.Base.{
  ℕ, suc, ◌+◌, ◌*◌, ◌≤◌, ◌<◌, ◌≡◌, some, List, [], ◌∷◌, sym, subst, ◌∙◌, arith, ap, ◌==◌, length,
  size_mod, Bool-cases, inl, inr, if-true, if-false,
}
use so.Base.Nodes.{Ptr, Run, ok, write, write_self, write_ne, Heap}
use so.Chain.Owned.Update.{All}
use so.Part1.Store.{Event}
use so.Part1.EventList.Shape.{find}
use so.Part1.Seats.Fill.{IsRoom}
use so.Part1.Operations.{Ems}
use so.Part1.Threads.{Pc, idle, inserting, reserving, EndsWith, put_pc}

-- What a thread between two parts can rely on.
abbrev pub Ready : Ems → Pc → Type 0
Ready m idle = Unit {0}
Ready m (inserting id rows cols) = rows * cols * 4 < size_mod
Ready m (reserving p n xs ys) =
    (n ≤ length xs) × (n ≤ length ys) × (v : Event) × (m.store.events p ≡ some v) × IsRoom v

-- A run has one result.
pub same_state :
    (run : Run (ℕ × Ems)) {code code' : ℕ} {m m' : Ems}
    → run ≡ ok (code, m)
    → run ≡ ok (code', m')
    → m ≡ m'
same_state run a b = cc

-- A part with enough fuel has one result.
pub EndsWith-unique :
    {A : Type 0} (run : ℕ → Run A) (a b : A) (k : ℕ)
    → EndsWith run a
    → ((fuel : ℕ) → k < fuel → run fuel ≡ ok b)
    → a ≡ b
EndsWith-unique run a b k (l, ends) same =
    let here = sym (ends (suc (k + l)) (omega arith)) ∙ same (suc (k + l)) (omega arith) in cc

pub find-IsRoom :
    (id : ℕ) (vs : List Event) (e : Event) → All IsRoom vs → find id vs ≡ some e → IsRoom e
find-IsRoom id [] e s h = cc
find-IsRoom id (v ∷ vs) e s h = elim (Bool-cases (v.id == id)) [
  | inl hit ↦ let at : some v ≡ some e = sym (if-true _ _ hit) ∙ h in subst IsRoom (cc) s.0
  | inr miss ↦ find-IsRoom id vs e s.1 (sym (if-false _ _ miss) ∙ h)
]

-- What a thread relies on survives where the events are still there as rooms.
pub Ready-kept :
    (m m' : Ems) (pc : Pc)
    → ((p : Ptr) (v : Event)
        → m.store.events p ≡ some v
        → IsRoom v
        → (w : Event) × (m'.store.events p ≡ some w) × IsRoom w)
    → Ready m pc
    → Ready m' pc
Ready-kept m m' idle kept r = tt
Ready-kept m m' (inserting id rows cols) kept r = r
Ready-kept m m' (reserving p n xs ys) kept (hx, hy, v, at, room) =
    let (w, at', room') = kept p v at room in (hx, hy, w, at', room')

pub Ready-put :
    (m m' : Ems) (pc : ℕ → Pc) (tid : ℕ) (p' : Pc)
    → ((i : ℕ) → Ready m' (pc i))
    → Ready m' p'
    → (i : ℕ) → Ready m' (put_pc pc tid p' i)
Ready-put m m' pc tid p' others mine i = elim (Bool-cases (i == tid)) [
  | inl hit ↦ rw hit mine
  | inr miss ↦ rw miss (others i)
]

-- A write through `p` leaves rooms where there were rooms.
pub write-IsRoom :
    (g : Heap Event) (p : Ptr) (w : Event)
    → IsRoom w
    → (q : Ptr) (v : Event) → g q ≡ some v
    → IsRoom v
    → (u : Event) × (write g p (some w) q ≡ some u) × IsRoom u
write-IsRoom g p w w_room q v at room = elim (Bool-cases (q == p)) [
  | inl hit ↦
      let same : q ≡ p = ground arith in
      (w, ap (write g p (some w)) same ∙ write_self g p (some w), w_room)
  | inr miss ↦ (v, write_ne g p (some w) q (ground arith) ∙ at, room)
]
