-- ===== src/Server/Queue.antt =====
-- The queue of connection requests: Part2/src/server/queue.c, and the part of connect_clients in
-- Part2/src/server/sessions.c that takes a connection from it. The server's main thread enqueues,
-- the workers dequeue. Answers of the C library are arguments.
pub mod Shape
pub mod Fifo
pub mod Free
use so.Base.{
  ℕ, zero, suc, ◌+◌, Bool, true, false, Option, none, some, List, ◌==◌, if◌then◌else◌, leb, length,
  take, drop,
}
use mathlib.Core.Bool.{not}
use so.Base.Nodes.{Ptr, null, Heap, Run, ok, fault, out_of_fuel, ◌>>=◌, load, write}
use so.Chain.{Node, node}

-- The two paths of a client's pipes, as bytes.
pub record Connection : Type 0 where
  pub req_pipe_path : List ℕ
  pub resp_pipe_path : List ℕ

-- The fields of ConnectionQueue_t, with whether each lock is initialised, and the memory.
pub record Queue : Type 0 where
  pub front : Ptr
  pub rear : Ptr
  pub terminate : ℕ
  pub queue_lock : Bool
  pub termination_lock : Bool
  pub available_connection : Bool
  pub nodes : Heap (Node Connection)

abbrev pub max_pipe_name_size : ℕ
max_pipe_name_size = 40

-- Which of the three objects the C library initialises.
pub record InitResources : Type 0 where
  pub mutex_init : Bool
  pub rwlock_init : Bool
  pub cond_init : Bool

unfoldable pub init_queue : InitResources → Queue → ℕ × Queue
init_queue os q =
    if not os.mutex_init
    then (1, q)
    else (if not os.rwlock_init
        then (1, record q { queue_lock = false })
        else (if not os.cond_init
            then (1, record q { queue_lock = false; termination_lock = false })
            else (
              0,
              record q {
                front = null;
                rear = null;
                terminate = 0;
                queue_lock = true;
                termination_lock = true;
                available_connection = true;
              },
            )))

abbrev pub is_empty : Queue → Bool
is_empty q = q.front == null

-- `memcpy` of `n` bytes from `offset` on.
abbrev pub copy : ℕ → ℕ → List ℕ → Run (List ℕ)
copy offset n buf = if leb (offset + n) (length buf) then ok (take n (drop offset buf)) else fault

-- What `enqueue_connection` needs: the address from malloc, and whether the lock is granted.
pub record EnqueueResources : Type 0 where
  pub connection : Ptr
  pub lock : Bool

-- `queue->rear->next = new_connection; queue->rear = new_connection`
abbrev link_rear : Ptr → Queue → Run Queue
link_rear new q = do
  last ← load q.nodes q.rear
  ok (record q { nodes = write q.nodes q.rear (some (node last.item new)); rear = new })

unfoldable pub enqueue_connection : EnqueueResources → List ℕ → Queue → Run (ℕ × Queue)
enqueue_connection os setup_buffer q = if os.connection == null then ok (1, q) else do
  req ← copy 1 max_pipe_name_size setup_buffer
  resp ← copy (1 + max_pipe_name_size) max_pipe_name_size setup_buffer
  let new : Connection = record { req_pipe_path = req; resp_pipe_path = resp }
  let q₁ : Queue = record q { nodes = write q.nodes os.connection (some (node new null)) }
  if not os.lock then ok (1, record q { nodes = write q₁.nodes os.connection none }) else (do
    q₂ ←
        if is_empty q₁
        then ok (record q₁ { front = os.connection; rear = os.connection })
        else link_rear os.connection q₁
    ok (0, q₂))

unfoldable pub dequeue_connection : Queue → Run (Ptr × Queue)
dequeue_connection q =
    if q.front == q.rear
    then ok (q.front, record q { front = null; rear = null })
    else (do first ← load q.nodes q.front; ok (q.front, record q { front = first.next }))

-- What a worker does with the queue once it has the lock and the queue is not empty: it copies
-- the paths and frees the node. `none` is the case of an invalid connection.
unfoldable pub take_connection : Queue → Run (Option Connection × Queue)
unfolding dequeue_connection
take_connection q = do
  (connection, q₁) ← dequeue_connection q
  if connection == null then ok (none, q₁) else (do
    c ← load q₁.nodes connection
    ok (some c.item, record q₁ { nodes = write q₁.nodes connection none }))

-- The loop of `free_queue`.
unfoldable pub free_connections : ℕ → Ptr → Heap (Node Connection) → Run (Heap (Node Connection))
free_connections zero curr_node h = out_of_fuel
free_connections (suc f) curr_node h =
    if curr_node == null
    then ok h
    else do c ← load h curr_node; free_connections f c.next (write h curr_node none)

unfoldable pub free_queue : ℕ → Queue → Run Queue
unfolding free_connections
free_queue fuel q = do
  h ← free_connections fuel q.front q.nodes
  ok (record q {
    front = null;
    rear = null;
    queue_lock = false;
    termination_lock = false;
    available_connection = false;
    nodes = h;
  })
