-- ===== src/Server/Queue/Free.antt =====
-- The loop of `free_queue` of Part2/src/server/queue.c over the connections that are still queued.
use so.Base.{ℕ, zero, suc, ◌<◌, ◌≡◌, false, none, [], ◌∷◌, refl, arith, length, ==-false, ◌∙◌}
use so.Base.Nodes.{null, Heap, ok, load_lem, write}
use so.Chain.{Node, Cells, head_of, has, Linked}
use so.Chain.Link.{Linked-write}
use so.Chain.Erase.{Without, erased}
use so.Server.Queue.{Connection, Queue, free_connections, free_queue}
use so.Server.Queue.Shape.{IsQueue}

free_connections-Without :
    (fuel : ℕ) (h : Heap (Node Connection)) (cs : Cells Connection)
    → Linked h cs
    → length cs < fuel
    → (g : Heap (Node Connection)) × (free_connections fuel (head_of cs) h ≡ ok g)
      × Without (λ a. has a cs) h g
unfolding free_connections
free_connections-Without zero h cs l enough = absurd (omega arith)
free_connections-Without (suc k) h [] l enough = (h, refl, λ a. refl)
free_connections-Without (suc k) h ((a, x) ∷ cs) l enough =
    let (g, done, rest) =
      free_connections-Without k (write h a none) cs (Linked-write h a none cs l.3 l.2)
        (omega arith) in
    (g, rw (==-false a null l.0, load_lem h a _ l.1) done, λ b. rest b ∙ erased h a b (has b cs))

-- On a well-formed queue and with fuel for its connections, `free_queue` ends without a fault,
-- leaves an empty queue with no lock initialised, and frees exactly the queued connections.
pub free_queue-Without :
    (fuel : ℕ) (q : Queue) (cs : Cells Connection)
    → IsQueue q cs
    → length cs < fuel
    → (q' : Queue) × (free_queue fuel q ≡ ok q')
      × IsQueue q' []
      × (q'.queue_lock ≡ false)
      × Without (λ a. has a cs) q.nodes q'.nodes
unfolding free_queue
free_queue-Without fuel q cs is enough =
    let (g, done, gone) = free_connections-Without fuel q.nodes cs is.linked enough in
    (
      record q {
        front = null;
        rear = null;
        queue_lock = false;
        termination_lock = false;
        available_connection = false;
        nodes = g;
      },
      rw (is.front, done) refl,
      record { front = refl; rear = refl; linked = tt },
      refl,
      gone,
    )
