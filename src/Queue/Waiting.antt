-- ===== src/Queue/Waiting.antt =====
-- 2/2.2/condvar/queue.c and 2/2.2/semaphor/queue.c: the queues whose operations wait for room or for a value.
--
-- An operation on the queue is one step, what it does between `lock` and `unlock`; the freeing of the node
-- that a `queue_get` has taken off, which comes after it, is part of it, since nothing else knows the node
-- then. The statistics are counted within the step, also where the code counts them outside of its lock.
--
-- With condition variables, `none` is an operation that waits. A thread that waits may try again at any step, as
-- `pthread_cond_wait` may return without a signal: so the signals add no step, and nothing is said of which
-- threads are woken.
pub mod History
pub mod Condvar
pub mod Semaphore
use os2_labs.Common.{
  zero, suc, ℕ, ◌+◌, ◌-◌, ◌≡◌, ◌≢◌, Option, none, some, List, [], ◌∷◌, ◌++◌, ◌==◌, if◌then◌else◌, ℤ,
}
use os2_labs.Queue.{Ptr, null, Queue, Run, done, aborted, fault, write, link_new, with_node}

-- The first node, taken off the list, and its value.
unfoldable pub unlink_first : Queue → Run (Queue × ℤ)
unlink_first q = elim (q.nodes q.first) [
  | none ↦ fault
  | some n ↦ done (
    record q {
      nodes = write q.nodes q.first none;
      first = n.next;
      count = q.count - 1;
      get_count = q.get_count + 1;
    },
    n.val,
  )
]

-- With condition variables; `none`: the thread waits, in `pthread_cond_wait`, for the queue to change.
unfoldable pub cond_add : (fresh : Ptr) → Queue → ℤ → Option (Run (Queue × ℕ))
unfolding link_new with_node
cond_add fresh q val =
    if q.count == q.max_count
    then none
    else if fresh == null
    then some aborted
    else some
        (link_new fresh (with_node fresh val (record q { add_attempts = q.add_attempts + 1 })))

unfoldable pub cond_get : Queue → Option (Run (Queue × ℤ))
unfolding unlink_first
cond_get q =
    if q.count == 0
    then none
    else some (unlink_first (record q { get_attempts = q.get_attempts + 1 }))

-- With semaphores: what follows the two waits, for the semaphore and for the mutex. There is no test here:
-- the semaphores are to see to it that there is room, or a value.
unfoldable pub sem_add : (fresh : Ptr) → Queue → ℤ → Run (Queue × ℕ)
unfolding link_new with_node
sem_add fresh q val =
    if fresh == null
    then aborted
    else link_new fresh (with_node fresh val (record q { add_attempts = q.add_attempts + 1 }))

unfoldable pub sem_get : Queue → Run (Queue × ℤ)
unfolding unlink_first
sem_get q = unlink_first (record q { get_attempts = q.get_attempts + 1 })

-- A queue that threads share, with the values that have been added to it and taken from it so far.
pub record Shared : Type 0 where
  pub queue : Queue
  pub added : List ℤ
  pub taken : List ℤ

-- The states that threads which add and get, in any order, make of `s`. `malloc` gives an address that is
-- not in use.
pub data CondReach (s : Shared) : Shared → Type 0 where
  start : CondReach s s
  add :
      (a : Shared) (fresh : Ptr) (val : ℤ) (q' : Queue) (n : ℕ)
      → CondReach s a
      → fresh ≢ null
      → a.queue.nodes fresh ≡ none
      → cond_add fresh a.queue val ≡ some (done (q', n))
      → CondReach s (record a { queue = q'; added = a.added ++ val ∷ [] })
  get :
      (a : Shared) (q' : Queue) (val : ℤ)
      → CondReach s a
      → cond_get a.queue ≡ some (done (q', val))
      → CondReach s (record a { queue = q'; taken = a.taken ++ val ∷ [] })

-- The semaphores, and how many threads are past their `sem_wait` but not yet past their section.
pub record Sems : Type 0 where
  pub shared : Shared
  pub emptiness : ℕ
  pub fullness : ℕ
  pub adding : ℕ
  pub getting : ℕ

unfoldable pub init_sem : Shared → Sems
init_sem s = record {
  shared = s;
  emptiness = s.queue.max_count;
  fullness = 0;
  adding = 0;
  getting = 0;
}

-- `sem_wait` takes one from its semaphore, which must not be 0; `sem_post` stands in the section.
pub data SemReach (s : Sems) : Sems → Type 0 where
  start : SemReach s s
  wait_emptiness :
      (a : Sems) (n : ℕ)
      → SemReach s a
      → a.emptiness ≡ suc n
      → SemReach s (record a { emptiness = n; adding = a.adding + 1 })
  add :
      (a : Sems) (fresh : Ptr) (val : ℤ) (q' : Queue) (r n : ℕ)
      → SemReach s a
      → a.adding ≡ suc n
      → fresh ≢ null
      → a.shared.queue.nodes fresh ≡ none
      → sem_add fresh a.shared.queue val ≡ done (q', r)
      → SemReach s (record a {
        shared = record a.shared { queue = q'; added = a.shared.added ++ val ∷ [] };
        fullness = a.fullness + 1;
        adding = n;
      })
  wait_fullness :
      (a : Sems) (n : ℕ)
      → SemReach s a
      → a.fullness ≡ suc n
      → SemReach s (record a { fullness = n; getting = a.getting + 1 })
  get :
      (a : Sems) (q' : Queue) (val : ℤ) (n : ℕ)
      → SemReach s a
      → a.getting ≡ suc n
      → sem_get a.shared.queue ≡ done (q', val)
      → SemReach s (record a {
        shared = record a.shared { queue = q'; taken = a.shared.taken ++ val ∷ [] };
        emptiness = a.emptiness + 1;
        getting = n;
      })

-- Nothing has been added yet.
abbrev pub begun : Queue → Shared
begun q = record { queue = q; added = []; taken = [] }
