-- ===== src/Server/Tests/Queue.antt =====
-- The queue of connections with one connection sent and taken.
use so.Base.{ℕ, ◌≡◌, refl, true, none, some, List, [], ◌∷◌, arith, replicate}
use so.Base.Nodes.{ok, write, load}
use so.Chain.{node}
use so.Server.Queue.{Queue, InitResources, init_queue, enqueue_connection, take_connection}
use so.Server.Queue.Shape.{IsQueue, connection_of}
use so.Server.Queue.Fifo.{Runs, start, enqueue, take, Fifo, Runs-Fifo}

abbrev pub empty : Queue
empty = record {
  front = 0;
  rear = 0;
  terminate = 0;
  queue_lock = true;
  termination_lock = true;
  available_connection = true;
  nodes = λ p. none;
}

abbrev pub setup : List ℕ
setup = replicate 82 1

abbrev pub one : Queue
one = record empty {
  front = 5;
  rear = 5;
  nodes = write empty.nodes 5 (some (node (connection_of setup) 0));
}

abbrev done : Queue
done = record empty { nodes = write one.nodes 5 none }

abbrev all_granted : InitResources
all_granted = record { mutex_init = true; rwlock_init = true; cond_init = true }

sends : enqueue_connection (record { connection = 5; lock = true }) setup empty ≡ ok (0, one)
unfolding enqueue_connection
sends = refl

takes : take_connection one ≡ ok (some (connection_of setup), done)
unfolding take_connection write load
takes = refl

pub from_start : Runs [] [] empty
unfolding init_queue
from_start = start empty all_granted refl

one_taken : Runs (connection_of setup ∷ []) (connection_of setup ∷ []) done
one_taken =
    take _ [] one (connection_of setup) done
      (enqueue [] [] empty 5 setup one from_start (omega arith) (omega arith) refl sends)
      (omega arith) takes

Runs-Fifo_example : Fifo (connection_of setup ∷ []) (connection_of setup ∷ []) done
Runs-Fifo_example = Runs-Fifo (connection_of setup ∷ []) (connection_of setup ∷ []) done one_taken

pub one-IsQueue : IsQueue one ((5, connection_of setup) ∷ [])
unfolding write
one-IsQueue = record { front = refl; rear = refl; linked = (omega arith, refl, refl, tt) }
