-- ===== src/Server/Queue/Shape.antt =====
-- When a queue holds connections, and what each operation of queue.c then does.
use so.Base.{
  ℕ, ◌+◌, ◌≤◌, ◌≡◌, ◌≢◌, true, false, none, some, List, [], ◌∷◌, ◌++◌, refl, sym, arith, length,
  take, drop, ◌∙◌, ==-false, ==-self, ap, leb, if-true,
}
use so.Base.Nodes.{Ptr, null, ok, load_lem, write, write_self, write_ne}
use so.Chain.{node, Cells, head_of, last_of, has, Linked}
use so.Chain.Link.{Linked-write, link-Linked, last-Linked, last-append, has-last, ne_of_has}
use so.Server.Queue.{
  Connection, Queue, copy, enqueue_connection, dequeue_connection, take_connection,
}

-- `front` and `rear` are the ends of a linked list with these cells.
pub record IsQueue (q : Queue) (cs : Cells Connection) : Type 0 where
  pub front : q.front ≡ head_of cs
  pub rear : q.rear ≡ last_of cs
  pub linked : Linked q.nodes cs

-- The connection that a setup message asks for.
abbrev pub connection_of : List ℕ → Connection
connection_of buf = record {
  req_pipe_path = take 40 (drop 1 buf);
  resp_pipe_path = take 40 (drop 41 buf);
}

copy_lem :
    (offset n : ℕ) (buf : List ℕ)
    → offset + n ≤ length buf
    → copy offset n buf ≡ ok (take n (drop offset buf))
copy_lem offset n buf h =
    let e : leb (offset + n) (length buf) ≡ true = ground arith in if-true _ _ e

module _ (q : Queue) (new : Ptr) (buf : List ℕ) (h : 81 ≤ length buf) (ne : new ≢ null)
    (unused : q.nodes new ≡ none) where
  pub enqueue_connection-IsQueue :
      (cs : Cells Connection)
      → IsQueue q cs
      → has new cs ≡ false
      → (q' : Queue) × (enqueue_connection (record { connection = new; lock = true }) buf q
          ≡ ok (0, q'))
        × IsQueue q' (cs ++ (new, connection_of buf) ∷ [])
  unfolding enqueue_connection
  enqueue_connection-IsQueue [] is out =
      let h₁ = write q.nodes new (some (node (connection_of buf) null)) in
      (
        record q { front = new; rear = new; nodes = h₁ },
        rw
            (
              ==-false new null ne,
              copy_lem 1 40 buf (omega arith),
              copy_lem 41 40 buf (omega arith),
              is.front,
            )
            refl,
        record { front = refl; rear = refl; linked = (ne, write_self q.nodes new _, refl, tt) },
      )
  enqueue_connection-IsQueue ((a, x) ∷ cs) is out =
      let c = connection_of buf in
      let h₁ = write q.nodes new (some (node c null)) in
      let (y, last) = last-Linked q.nodes (a, x) cs is.linked in
      let apart = ne_of_has new (last_of ((a, x) ∷ cs)) ((a, x) ∷ cs) out (has-last (a, x) cs) in
      let at_last = write_ne q.nodes new (some (node c null)) _ (λ p. apart (sym p)) ∙ last in
      (
        record q { rear = new; nodes = write h₁ (last_of ((a, x) ∷ cs)) (some (node y new)) },
        rw
            (
              ==-false new null ne,
              copy_lem 1 40 buf (omega arith),
              copy_lem 41 40 buf (omega arith),
              is.front,
              is.rear,
              ==-false a null is.linked.0,
              load_lem h₁ (last_of ((a, x) ∷ cs)) _ at_last,
            )
            refl,
        record {
          front = is.front;
          rear = sym (last-append ((a, x) ∷ cs) new c);
          linked = link-Linked q.nodes (a, x) cs new c y is.linked ne out last;
        },
      )

pub dequeue_connection-IsQueue :
    (q : Queue) (a : Ptr) (x : Connection) (cs : Cells Connection)
    → IsQueue q ((a, x) ∷ cs)
    → (q' : Queue) × (dequeue_connection q ≡ ok (a, q')) × IsQueue q' cs × (q'.nodes ≡ q.nodes)
unfolding dequeue_connection
dequeue_connection-IsQueue q a x [] is = (
  record q { front = null; rear = null },
  rw (is.front, is.rear, ==-self a) refl,
  record { front = refl; rear = refl; linked = tt },
  refl,
)
dequeue_connection-IsQueue q a x ((b, y) ∷ cs) is =
    let apart =
      ne_of_has a (last_of ((b, y) ∷ cs)) ((b, y) ∷ cs) is.linked.2 (has-last (b, y) cs) in
    (
      record q { front = b },
      rw (is.front, is.rear, ==-false a _ apart, load_lem q.nodes a _ is.linked.1) refl,
      record { front = refl; rear = is.rear; linked = is.linked.3 },
      refl,
    )

pub take_connection-IsQueue :
    (q : Queue) (a : Ptr) (x : Connection) (cs : Cells Connection)
    → IsQueue q ((a, x) ∷ cs)
    → (q' : Queue) × (take_connection q ≡ ok (some x, q'))
      × IsQueue q' cs
      × (q'.nodes ≡ write q.nodes a none)
unfolding take_connection
take_connection-IsQueue q a x cs is =
    let (q₁, done, is₁, same) = dequeue_connection-IsQueue q a x cs is in
    (
      record q₁ { nodes = write q₁.nodes a none },
      rw
          (
            done,
            ==-false a null is.linked.0,
            load_lem q₁.nodes a _ (ap (λ h. h a) same ∙ is.linked.1),
          )
          refl,
      record {
        front = is₁.front;
        rear = is₁.rear;
        linked = Linked-write q₁.nodes a none cs is₁.linked is.linked.2;
      },
      ap (λ h. write h a none) same,
    )
