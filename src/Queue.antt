-- ===== src/Queue.antt =====
-- 2/2.1/queue.c and the critical sections of 2/2.2/mutex/queue.c and 2/2.2/spinlock/queue.c: a bounded
-- queue as a singly linked list.
--
-- A node lies at an address; `nodes` holds what `malloc` gave and `free` has not taken back. Between
-- `lock` and `unlock` an operation with locks is one step. `count` is at no time below 0, since its
-- only decrement follows a test, so it is a natural number, as is `max_count`; the statistics of type
-- `long` are taken not to overflow. The result of `malloc` is an argument, 0 for failure.
pub mod Fifo
pub mod Operations
pub mod Destroy
pub mod Waiting
pub mod Threads
pub mod Racing
mod Tests
use os2_labs.Common.{zero, suc, ℕ, ◌+◌, ◌-◌, Bool, Option, none, some, ◌==◌, leb, if◌then◌else◌, ℤ}

abbrev pub Ptr : Type 0
Ptr = ℕ

abbrev pub null : Ptr
null = 0

pub record Node : Type 0 where
  pub val : ℤ
  pub next : Ptr

pub record Queue : Type 0 where
  pub nodes : Ptr → Option Node
  pub first : Ptr
  pub last : Ptr
  pub count : ℕ
  pub max_count : ℕ
  pub add_attempts : ℕ
  pub get_attempts : ℕ
  pub add_count : ℕ
  pub get_count : ℕ

-- `aborted`: a call of `abort` or an `assert` that fails; `fault`: an access to memory that is not
-- allocated.
pub data Run {ℓ} (A : Type ℓ) : Type ℓ where
  done : A → Run A
  aborted : Run A
  fault : Run A

abbrev pub write {ℓ} : {A : Type ℓ} → (Ptr → A) → Ptr → A → Ptr → A
write f p v q = if q == p then v else f q

unfoldable pub queue_init : ℕ → Queue
queue_init max_count = record {
  nodes = λ _. none;
  first = null;
  last = null;
  count = 0;
  max_count = max_count;
  add_attempts = 0;
  get_attempts = 0;
  add_count = 0;
  get_count = 0;
}

-- The new node at the end of the list, and the counters. `q->last = q->last->next` reads back the
-- pointer that the line before has written.
unfoldable pub link_new : Ptr → Queue → Run (Queue × ℕ)
link_new new q =
    let counted = record q { count = q.count + 1; add_count = q.add_count + 1 } in
    if q.first == null
    then done (record counted { first = new; last = new }, 1)
    else elim (q.nodes q.last) [
      | none ↦ fault
      | some n ↦ done (
        record counted {
          nodes = write q.nodes q.last (some (record n { next = new }));
          last = new;
        },
        1,
      )
    ]

unfoldable pub with_node : Ptr → ℤ → Queue → Queue
with_node new val q = record q {
  nodes = write q.nodes new (some (record { val = val; next = null }));
}

-- Without locks: the test comes before the allocation.
unfoldable pub queue_add : (fresh : Ptr) → Queue → ℤ → Run (Queue × ℕ)
unfolding with_node
queue_add fresh q val =
    let tried = record q { add_attempts = q.add_attempts + 1 } in
    if leb q.count q.max_count
    then if q.count == q.max_count
      then done (tried, 0)
      else if fresh == null
      then aborted
      else link_new fresh (with_node fresh val tried)
    else aborted

-- With a lock: the allocation comes before the test, and a full queue gives the node back.
unfoldable pub locked_add : (fresh : Ptr) → Queue → ℤ → Run (Queue × ℕ)
unfolding with_node
locked_add fresh q val =
    if fresh == null
    then aborted
    else let tried = record (with_node fresh val q) { add_attempts = q.add_attempts + 1 } in
      if leb q.count q.max_count
      then if q.count == q.max_count
        then done (record tried { nodes = write tried.nodes fresh none }, 0)
        else link_new fresh tried
      else aborted

-- The value that a `queue_get` that returns 1 stores, `none` for a return of 0.
unfoldable pub queue_get : Queue → Run (Queue × Option ℤ)
queue_get q =
    let tried = record q { get_attempts = q.get_attempts + 1 } in
    if q.count == 0 then done (tried, none) else elim (q.nodes q.first) [
      | none ↦ fault
      | some n ↦ done (
        record tried {
          nodes = write q.nodes q.first none;
          first = n.next;
          count = q.count - 1;
          get_count = q.get_count + 1;
        },
        some n.val,
      )
    ]

-- With a lock: the critical section, which takes the first node off the list and leaves it allocated;
-- and what follows it, on the node that was taken off.
unfoldable pub locked_get : Queue → Run (Queue × Option Ptr)
locked_get q =
    let tried = record q { get_attempts = q.get_attempts + 1 } in
    if q.count == 0 then done (tried, none) else elim (q.nodes q.first) [
      | none ↦ fault
      | some n ↦ done (
        record tried { first = n.next; count = q.count - 1; get_count = q.get_count + 1 },
        some q.first,
      )
    ]

unfoldable pub take_node : Queue → Ptr → Run (Queue × ℤ)
take_node q tmp = elim (q.nodes tmp) [
  | none ↦ fault
  | some n ↦ done (record q { nodes = write q.nodes tmp none }, n.val)
]

-- The loop of `queue_destroy`, on fuel: what is left of the nodes. `fault` is also that the fuel is used
-- up.
unfoldable pub queue_destroy : ℕ → (Ptr → Option Node) → (cur_ptr_q : Ptr) → Run (Ptr → Option Node)
queue_destroy zero nodes cur_ptr_q = fault
queue_destroy (suc fuel) nodes cur_ptr_q =
    if cur_ptr_q == null then done nodes else elim (nodes cur_ptr_q) [
      | none ↦ fault
      | some n ↦ queue_destroy fuel (write nodes cur_ptr_q none) n.next
    ]
