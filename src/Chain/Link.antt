-- ===== src/Chain/Link.antt =====
-- What a write to the heap of nodes does to a linked list: elsewhere nothing, at the last node
-- an appended cell.
use so.Base.{◌≡◌, ◌≢◌, true, false, ◌||◌, none, some, [], ◌∷◌, ◌++◌, refl, arith, Option, ◌∙◌}
use so.Base.Nodes.{Ptr, null, Heap, write, write_self, write_ne}
use so.Chain.{Node, node, Cells, head_of, last_of, has, Linked}

module _ {A : Type 0} where
  pub has-append : (p : Ptr) (cs ds : Cells A) → has p (cs ++ ds) ≡ (has p cs || has p ds)
  has-append p [] ds = refl
  has-append p ((a, x) ∷ cs) ds = ground (arith, has-append p cs ds)

  pub head-append : (c : Ptr × A) (cs ds : Cells A) → head_of ((c ∷ cs) ++ ds) ≡ head_of (c ∷ cs)
  head-append (a, x) cs ds = refl

  pub last-append : (cs : Cells A) (a : Ptr) (x : A) → last_of (cs ++ (a, x) ∷ []) ≡ a
  last-append [] a x = refl
  last-append ((b, y) ∷ []) a x = refl
  last-append ((b, y) ∷ c ∷ cs) a x = last-append (c ∷ cs) a x

  pub has-last : (c : Ptr × A) (cs : Cells A) → has (last_of (c ∷ cs)) (c ∷ cs) ≡ true
  has-last (a, x) [] = ground arith
  has-last (a, x) (c ∷ cs) = ground (arith, has-last c cs)

  pub ne_of_has : (a b : Ptr) (cs : Cells A) → has a cs ≡ false → has b cs ≡ true → a ≢ b
  ne_of_has a b cs e f p = ground (arith)

  pub has-false_of_none :
      (h : Heap (Node A)) (p : Ptr) (cs : Cells A) → Linked h cs → h p ≡ none → has p cs ≡ false
  has-false_of_none h p [] l e = refl
  has-false_of_none h p ((a, x) ∷ cs) l e = ground (arith, has-false_of_none h p cs l.3 e)

  pub Linked-write :
      (h : Heap (Node A)) (p : Ptr) (c : Option (Node A)) (cs : Cells A)
      → Linked h cs
      → has p cs ≡ false
      → Linked (write h p c) cs
  Linked-write h p c [] l out = tt
  Linked-write h p c ((a, x) ∷ cs) l out =
      (l.0, rw (write_ne h p c a (ground arith)) l.1, l.2, Linked-write h p c cs l.3 (ground arith))

  -- The last node of a list that is not empty holds some item and leads to NULL.
  pub last-Linked :
      (h : Heap (Node A)) (c : Ptr × A) (cs : Cells A)
      → Linked h (c ∷ cs)
      → (y : A) × (h (last_of (c ∷ cs)) ≡ some (node y null))
  last-Linked h (a, x) [] l = (x, l.1)
  last-Linked h (a, x) (c ∷ cs) l = last-Linked h c cs l.3

  pub last-ne_null :
      (h : Heap (Node A)) (c : Ptr × A) (cs : Cells A) → Linked h (c ∷ cs) → last_of (c ∷ cs) ≢ null
  last-ne_null h (a, x) [] l = l.0
  last-ne_null h (a, x) (c ∷ cs) l = last-ne_null h c cs l.3

  -- `new->next = NULL; last->next = new` appends a cell.
  pub link-Linked :
      (h : Heap (Node A)) (c : Ptr × A) (cs : Cells A) (new : Ptr) (x y : A)
      → Linked h (c ∷ cs)
      → new ≢ null
      → has new (c ∷ cs) ≡ false
      → h (last_of (c ∷ cs)) ≡ some (node y null)
      → Linked
          (write (write h new (some (node x null))) (last_of (c ∷ cs)) (some (node y new)))
          ((c ∷ cs) ++ (new, x) ∷ [])
  link-Linked h (a, z) [] new x y l ne out e =
      let apart : new ≢ a = ground arith in
      (
        l.0,
        rw (write_self (write h new (some (node x null))) a (some (node y new)))
            (ground (arith, l.1)),
        ground arith,
        (ne, write_ne _ a _ new apart ∙ write_self h new _, refl, tt),
      )
  link-Linked h (a, z) ((b, w) ∷ cs) new x y l ne out e =
      let far = ne_of_has a (last_of ((b, w) ∷ cs)) ((b, w) ∷ cs) l.2 (has-last (b, w) cs) in
      let apart : a ≢ new = ground arith in
      (
        l.0,
        write_ne _ _ _ a far ∙ write_ne h new _ a apart ∙ l.1,
        has-append a ((b, w) ∷ cs) ((new, x) ∷ []) ∙ ground arith,
        link-Linked h (b, w) cs new x y l.3 ne (ground arith) e,
      )
