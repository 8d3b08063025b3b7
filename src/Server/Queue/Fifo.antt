-- ===== src/Server/Queue/Fifo.antt =====
-- The queue between the main thread and the workers, over all interleavings of their critical
-- sections, as a step relation (Part2/src/server/queue.c and sessions.c).
use so.Base.{
  ℕ, Bool, ◌≤◌, ◌≡◌, ◌≢◌, true, false, none, some, List, [], ◌∷◌, ◌++◌, refl, sym, ap, ◌∙◌, length,
  subst,
}
use mathlib.Core.List.{append_assoc}
use so.Base.Nodes.{Ptr, null, ok}
use so.Chain.{Cells}
use so.Chain.Link.{has-false_of_none}
use so.Server.Queue.{
  Connection, Queue, InitResources, init_queue, enqueue_connection, take_connection,
}
use so.Server.Queue.Shape.{
  IsQueue, connection_of, enqueue_connection-IsQueue, take_connection-IsQueue,
}

abbrev pub contents : Cells Connection → List Connection
contents [] = []
contents ((a, x) ∷ cs) = x ∷ contents cs

contents-append :
    (cs : Cells Connection) (a : Ptr) (x : Connection)
    → contents (cs ++ (a, x) ∷ []) ≡ contents cs ++ x ∷ []
contents-append [] a x = refl
contents-append ((b, y) ∷ cs) a x = ap (λ l. y ∷ l) (contents-append cs a x)

-- `Runs sent taken q`: the server has come to the queue `q` by setup messages that were enqueued
-- and connections that workers took, each list in order of time. A worker takes only from a queue
-- that is not empty, which it waits for.
pub data Runs : List Connection → List Connection → Queue → Type 0 where
  start :
      (q : Queue) (os : InitResources) → (init_queue os q).0 ≡ 0 → Runs [] [] (init_queue os q).1
  enqueue :
      (sent taken : List Connection) (q : Queue) (new : Ptr) (buf : List ℕ) (q' : Queue)
      → Runs sent taken q
      → 81 ≤ length buf
      → new ≢ null
      → q.nodes new ≡ none
      → enqueue_connection (record { connection = new; lock = true }) buf q ≡ ok (0, q')
      → Runs (sent ++ connection_of buf ∷ []) taken q'
  take :
      (sent taken : List Connection) (q : Queue) (x : Connection) (q' : Queue)
      → Runs sent taken q
      → q.front ≢ null
      → take_connection q ≡ ok (some x, q')
      → Runs sent (taken ++ x ∷ []) q'

abbrev pub Fifo : List Connection → List Connection → Queue → Type 0
Fifo sent taken q = (cs : Cells Connection) × IsQueue q cs × (sent ≡ taken ++ contents cs)

init-IsQueue :
    (q : Queue) (a b c : Bool)
    → (init_queue (record { mutex_init = a; rwlock_init = b; cond_init = c }) q).0 ≡ 0
    → IsQueue (init_queue (record { mutex_init = a; rwlock_init = b; cond_init = c }) q).1 []
unfolding init_queue
init-IsQueue q false b c e = cc
init-IsQueue q true false c e = cc
init-IsQueue q true true false e = cc
init-IsQueue q true true true e = record { front = refl; rear = refl; linked = tt }

took :
    (sent taken : List Connection) (q : Queue) (x : Connection) (q' : Queue) (cs : Cells Connection)
    → IsQueue q cs
    → sent ≡ taken ++ contents cs
    → q.front ≢ null
    → take_connection q ≡ ok (some x, q')
    → Fifo sent (taken ++ x ∷ []) q'
took sent taken q x q' [] is order ne e = absurd (ne is.front)
took sent taken q x q' ((a, y) ∷ cs) is order ne e =
    let (q₁, done, is₁, _) = take_connection-IsQueue q a y cs is in
    let same : q₁ ≡ q' = cc in
    let item : y ≡ x = cc in
    (
      cs,
      subst (λ r. IsQueue r cs) same is₁,
      order
          ∙ ap (λ z. taken ++ z ∷ contents cs) item
          ∙ sym (append_assoc taken (x ∷ []) (contents cs)),
    )

-- However the enqueues and the takes follow each other from `init_queue` on: what the workers have
-- taken is a first part of what was sent, in the same order, and the queue
-- holds exactly the rest.
pub Runs-Fifo : (sent taken : List Connection) (q : Queue) → Runs sent taken q → Fifo sent taken q
Runs-Fifo _ _ _ (start q os e) =
    ([], init-IsQueue q os.mutex_init os.rwlock_init os.cond_init e, refl)
Runs-Fifo _ _ _ (enqueue sent taken q new buf q' run h ne unused e) =
    let c = connection_of buf in
    let (cs, is, order) = Runs-Fifo sent taken q run in
    let out = has-false_of_none q.nodes new cs is.linked unused in
    let (q₁, done, is₁) = enqueue_connection-IsQueue q new buf h ne unused cs is out in
    let same : q₁ ≡ q' = cc in
    (
      cs ++ (new, c) ∷ [],
      subst (λ r. IsQueue r (cs ++ (new, c) ∷ [])) same is₁,
      ap (λ l. l ++ c ∷ []) order
          ∙ append_assoc taken (contents cs) (c ∷ [])
          ∙ ap (λ l. taken ++ l) (sym (contents-append cs new c)),
    )
Runs-Fifo _ _ _ (take sent taken q x q' run ne e) =
    let (cs, is, order) = Runs-Fifo sent taken q run in took sent taken q x q' cs is order ne e
