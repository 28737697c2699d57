-- ===== src/Queue/Threads.antt =====
-- 2/2.2/mutex/queue-threads.c and 2/2.2/spinlock/queue-threads.c: a thread that adds the numbers from 0 on,
-- and one that checks that it gets them in their order.
--
-- A step is a critical section of the queue, or, for the thread that reads, what `queue_get` does with the
-- node after it: other steps come in between. The sum of a value of type `int` that does not fit is a fault.
pub mod Frame
pub mod Order
pub mod Runs
mod Tests
use os2_labs.Common.{
  ℕ, zero, suc, ◌+◌, ◌-◌, ◌^◌, ltb, Bool, true, false, Option, none, some, List, [], ◌∷◌, ◌==◌,
  if◌then◌else◌, ℤ, pos, negsuc,
}
use os2_labs.Queue.{
  Ptr, null, Queue, Run, done, aborted, fault, queue_init, locked_add, locked_get, take_node,
}

-- `taking`: the node that the reader has taken off and not read yet; `errors`: how often it has found
-- another value than `expected`.
pub record Threads : Type 0 where
  pub queue : Queue
  pub taking : Option Ptr
  pub expected : ℤ
  pub i : ℤ
  pub errors : ℕ

abbrev pub int_max : ℕ
int_max = 2 ^ 31 - 1

-- `v + 1`, unless it overflows.
unfoldable pub next : ℤ → Option ℤ
next (pos n) = if ltb n int_max then some (pos (n + 1)) else none
next (negsuc zero) = some (pos 0)
next (negsuc (suc n)) = some (negsuc n)

abbrev pub same : ℤ → ℤ → Bool
same (pos a) (pos b) = a == b
same (pos a) (negsuc b) = false
same (negsuc a) (pos b) = false
same (negsuc a) (negsuc b) = a == b

unfoldable pub got : Threads → Run (Queue × Option Ptr) → Run Threads
got s aborted = aborted
got s fault = fault
got s (done (q, tmp)) = done (record s { queue = q; taking = tmp })

-- The test of the value that is read.
unfoldable pub read : Threads → Run (Queue × ℤ) → Run Threads
unfolding next
read s aborted = aborted
read s fault = fault
read s (done (q, val)) = elim (next val) [
  | none ↦ fault
  | some expected ↦ done (record s {
    queue = q;
    taking = none;
    expected = expected;
    errors = if same s.expected val then s.errors else s.errors + 1;
  })
]

unfoldable pub reader : Threads → Run Threads
unfolding got read
reader s = elim s.taking [
  | none ↦ got s (locked_get s.queue)
  | some tmp ↦ read s (take_node s.queue tmp)
]

unfoldable pub written : Threads → Run (Queue × ℕ) → Run Threads
unfolding next
written s aborted = aborted
written s fault = fault
written s (done (q, ok)) =
    if ok == 0
    then done (record s { queue = q })
    else elim (next s.i) [ none ↦ fault | some i ↦ done (record s { queue = q; i = i }) ]

unfoldable pub writer : (fresh : Ptr) → Threads → Run Threads
unfolding written
writer fresh s = written s (locked_add fresh s.queue s.i)

-- The two threads as `main` starts them.
unfoldable pub start : (max_count : ℕ) → Threads
unfolding queue_init
start max_count = record {
  queue = queue_init max_count;
  taking = none;
  expected = pos 0;
  i = pos 0;
  errors = 0;
}

-- Whose turn it is; `malloc` gives the writer a node that depends on what is allocated and on a number.
pub data Turn : Type 0 where
  read_turn : Turn
  write_turn : (choice : ℕ) → Turn

unfoldable pub turn : (malloc : ℕ → Queue → Ptr) → Threads → Turn → Run Threads
unfolding reader writer
turn malloc s read_turn = reader s
turn malloc s (write_turn choice) = writer (malloc choice s.queue) s

unfoldable pub run_threads : (malloc : ℕ → Queue → Ptr) → Threads → List Turn → Run Threads
unfolding turn
run_threads malloc s [] = done s
run_threads malloc s (t ∷ ts) = elim (turn malloc s t) [
  | done s' ↦ run_threads malloc s' ts
  | aborted ↦ aborted
  | fault ↦ fault
]
