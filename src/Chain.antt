-- ===== src/Chain.antt =====
-- Singly linked lists with a pointer to the first and to the last node, which
-- Part2/src/server/eventlist.c, Part2/src/server/queue.c and Part1/src/eventlist.c build by hand.
-- A node is an item and the address of the next node; the heap of nodes is explicit.
pub mod Link
pub mod Erase
pub mod Owned
use so.Base.{ℕ, ◌≡◌, ◌≢◌, Bool, true, false, ◌||◌, some, List, [], ◌∷◌, ◌++◌, refl, arith, ◌==◌}
use so.Base.Nodes.{Ptr, null, Heap}

pub record Node (A : Type 0) : Type 0 where
  pub item : A
  pub next : Ptr

abbrev pub node : {A : Type 0} → A → Ptr → Node A
node x q = record { item = x; next = q }

-- What a list stands for: the address and the item of each node, in order.
abbrev pub Cells : Type 0 → Type 0
Cells A = List (Ptr × A)

module _ {A : Type 0} where
  abbrev pub head_of : Cells A → Ptr
  head_of [] = null
  head_of ((a, x) ∷ cs) = a

  abbrev pub last_of : Cells A → Ptr
  last_of [] = null
  last_of ((a, x) ∷ []) = a
  last_of ((a, x) ∷ c ∷ cs) = last_of (c ∷ cs)

  abbrev pub has : Ptr → Cells A → Bool
  has p [] = false
  has p ((a, x) ∷ cs) = (p == a) || has p cs

  -- The `next` pointers lead through the distinct nodes of the cells to NULL.
  abbrev pub Linked : Heap (Node A) → Cells A → Type 0
  Linked h [] = Unit {0}
  Linked h ((a, x) ∷ cs) =
      (a ≢ null) × (h a ≡ some (node x (head_of cs))) × (has a cs ≡ false) × Linked h cs
