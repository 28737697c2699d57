-- ===== src/Queue/Tests.antt =====
-- A queue for two values with one in it, and one that is full.
use os2_labs.Common.{
  has, Option, ℕ, ℤ, ◌+◌, ◌≤◌, ◌++◌, length, ◌≡◌, refl, ◌⊎◌, none, some, List, [], ◌∷◌, arith, ◌==◌,
  if◌then◌else◌, pos,
}
use os2_labs.Queue.{
  Node, queue_init, link_new, with_node, queue_destroy, Ptr, Queue, done, locked_get, take_node,
}
use os2_labs.Queue.Destroy.{queue_destroy-frees}
use os2_labs.Queue.Waiting.{
  Shared, begun, cond_add, CondReach, sem_add, sem_get, Sems, init_sem, SemReach, wait_emptiness,
  wait_fullness,
}
use os2_labs.Queue.Waiting.Condvar.{AddTurn, GetTurn, cond_queue-Fifo}
use os2_labs.Queue.Waiting.Semaphore.{sem_queue-Fifo, sem_get-ready}
use os2_labs.Queue.Fifo.{keys, Cell, IsQueue}
use os2_labs.Queue.Operations.{locked_get-Got}

abbrev fresh : Ptr
fresh = 30

abbrev one : Queue
one = record {
  nodes = λ p. if p == 10 then some (record { val = pos 7; next = 0 }) else none;
  first = 10;
  last = 10;
  count = 1;
  max_count = 2;
  add_attempts = 1;
  get_attempts = 0;
  add_count = 1;
  get_count = 0;
}

abbrev one_cell : List Cell
one_cell = (10, pos 7) ∷ []

one-IsQueue : IsQueue one one_cell
one-IsQueue = record {
  cells = (refl, omega arith, (0, refl, refl));
  nodup = (refl, tt);
  last = refl;
  count = refl;
  bound = omega arith;
}

abbrev full : Queue
full = record one { max_count = 1 }

locked_get-Got_example :
    ((one_cell ≡ []) × ((q' : Queue) × (locked_get one ≡ done (q', none)) × IsQueue q' one_cell))
    ⊎ ((x : Cell) × (ys : List Cell) × (one_cell ≡ x ∷ ys)
        × ((q' : Queue) × (locked_get one ≡ done (q', some x.0))
            × IsQueue q' ys
            × ((r : Queue) × (take_node q' x.0 ≡ done (r, x.1)) × IsQueue r ys)))
locked_get-Got_example = locked_get-Got one one_cell one-IsQueue

queue_destroy-frees_example :
    (nodes' : Ptr → Option Node) × (queue_destroy 2 one.nodes one.first ≡ done nodes')
    × ((a : Ptr) → nodes' a ≡ (if has a (keys one_cell) then none else one.nodes a))
queue_destroy-frees_example = queue_destroy-frees 2 one one_cell one-IsQueue (omega arith)

-- A queue for two values to which one has been added.
abbrev with_seven : Queue
with_seven = record {
  nodes = λ p. if p == 30 then some (record { val = pos 7; next = 0 }) else none;
  first = 30;
  last = 30;
  count = 1;
  max_count = 2;
  add_attempts = 1;
  get_attempts = 0;
  add_count = 1;
  get_count = 0;
}

abbrev seven_added : Shared
seven_added = record { queue = with_seven; added = pos 7 ∷ []; taken = [] }

cond_run : CondReach (begun (queue_init 2)) seven_added
unfolding queue_init cond_add link_new with_node
cond_run =
    CondReach.add (begun (queue_init 2)) 30 (pos 7) with_seven 1 CondReach.start (omega arith) refl
      refl

cond_queue-Fifo_example :
    (xs : List ℤ) × ((pos 7 ∷ []) ≡ [] ++ xs)
    × (length xs ≤ 2)
    × AddTurn 2 seven_added 31 (pos 8) xs
    × GetTurn seven_added xs
cond_queue-Fifo_example = cond_queue-Fifo 2 seven_added 31 (pos 8) cond_run (omega arith) refl

-- Two threads have waited for room, one of them has added its value, and a third waits for it.
abbrev entered : ℕ → ℕ → Sems
entered room adding = record {
  shared = begun (queue_init 2);
  emptiness = room;
  fullness = 0;
  adding = adding;
  getting = 0;
}

abbrev seven_offered : Sems
seven_offered = record {
  shared = seven_added;
  emptiness = 0;
  fullness = 1;
  adding = 1;
  getting = 0;
}

abbrev seven_claimed : Sems
seven_claimed = record seven_offered { fullness = 0; getting = 1 }

sem_run : SemReach (init_sem (begun (queue_init 2))) seven_claimed
unfolding queue_init init_sem sem_add link_new with_node
sem_run =
    wait_fullness seven_offered 0
      (SemReach.add (entered 0 2) 30 (pos 7) with_seven 1 1
        (wait_emptiness (entered 1 1) 0 (wait_emptiness (entered 2 0) 1 SemReach.start refl) refl)
        refl (omega arith) refl refl)
      refl

sem_queue-Fifo_example :
    (xs : List ℤ) × ((pos 7 ∷ []) ≡ [] ++ xs)
    × (length xs ≤ 2)
    × (length xs ≡ 0 + 1)
    × (0 + 1 + length xs ≡ 2)
sem_queue-Fifo_example = sem_queue-Fifo 2 seven_claimed sem_run

sem_get-ready_example :
    (q' : Queue) × (v : ℤ) × (ys : List ℤ) × (sem_get seven_claimed.shared.queue ≡ done (q', v))
    × ((pos 7 ∷ []) ≡ [] ++ v ∷ ys)
sem_get-ready_example = sem_get-ready 2 seven_claimed 0 sem_run refl
