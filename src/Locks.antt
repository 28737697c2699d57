-- ===== src/Locks.antt =====
-- 2/2.4: a spinlock (`speen.c`) and a mutex on a futex (`mutex.c`), and threads that count under them.
--
-- `lock` is 1 when it is free. A step of a thread is one atomic access to the memory it shares, or one
-- return of a system call; `++counter` is a load and a store. When the kernel lets a sleeping thread
-- return from `futex` is not modelled: it may at any step.
pub mod Sums
pub mod Steps
pub mod Exclusion
mod Tests
use os2_labs.Common.{ℕ, ◌+◌, ◌<◌, Bool, true, false, ◌==◌, if◌then◌else◌}

abbrev pub status_lock : ℕ
status_lock = 0

abbrev pub status_unlock : ℕ
status_unlock = 1

abbrev pub count_iteration : ℕ
count_iteration = 100000

-- Where a thread is in `thread1`, with its variable `i`: before the exchange that takes the lock;
-- before `futex` is called to wait, and in it; before the load and the store of `++counter`; before
-- the exchange that gives the lock back; before `futex` is called to wake; past its loop.
pub data Thread : Type 0 where
  trying about_to_wait sleeping critical leaving waking over : (i : ℕ) → Thread
  loaded : (i counter : ℕ) → Thread

pub record Shared : Type 0 where
  pub lock : ℕ
  pub counter : ℕ

abbrev pub counted : Shared → Thread → Shared × Thread
counted sh (critical i) = (sh, loaded i sh.counter)
counted sh (loaded i v) = (record sh { counter = v + 1 }, leaving i)
counted sh th = (sh, th)

-- `compare_exchange_weak` may fail on a lock that is free: `spurious`.
unfoldable pub spin_step : (spurious : Bool) → Shared → Thread → Shared × Thread
spin_step spurious sh (trying i) =
    if i == count_iteration
    then (sh, over i)
    else if sh.lock == status_unlock
    then if spurious then (sh, trying i) else (record sh { lock = status_lock }, critical i)
    else (sh, trying i)
spin_step spurious sh (leaving i) =
    if sh.lock == status_lock
    then (record sh { lock = status_unlock }, trying (i + 1))
    else (sh, trying (i + 1))
spin_step spurious sh th = counted sh th

-- `futex` with FUTEX_WAIT returns at once if the lock is no longer taken.
unfoldable pub mutex_step : Shared → Thread → Shared × Thread
mutex_step sh (trying i) =
    if i == count_iteration
    then (sh, over i)
    else if sh.lock == status_unlock
    then (record sh { lock = status_lock }, critical i)
    else (sh, about_to_wait i)
mutex_step sh (about_to_wait i) =
    if sh.lock == status_lock then (sh, sleeping i) else (sh, trying i)
mutex_step sh (sleeping i) = (sh, trying i)
mutex_step sh (leaving i) =
    if sh.lock == status_lock
    then (record sh { lock = status_unlock }, waking i)
    else (sh, trying (i + 1))
mutex_step sh (waking i) = (sh, trying (i + 1))
mutex_step sh th = counted sh th

-- The lock as it is initialised, and the counter of the program.
abbrev pub initial : Shared
initial = record { lock = status_unlock; counter = 0 }

pub record System : Type 0 where
  pub shared : Shared
  pub threads : ℕ → Thread

abbrev pub after : System → ℕ → Shared × Thread → System
after s t (sh, th) = record { shared = sh; threads = λ u. (if u == t then th else s.threads u) }

abbrev pub begun : System
begun = record { shared = initial; threads = λ _. trying 0 }

-- What `n` threads reach, taking their steps in any order.
pub data SpinReach (n : ℕ) : System → Type 0 where
  spin_start : SpinReach n begun
  spin_next :
      (s : System) (t : ℕ) (spurious : Bool)
      → t < n
      → SpinReach n s
      → SpinReach n (after s t (spin_step spurious s.shared (s.threads t)))

pub data MutexReach (n : ℕ) : System → Type 0 where
  mutex_start : MutexReach n begun
  mutex_next :
      (s : System) (t : ℕ)
      → t < n
      → MutexReach n s
      → MutexReach n (after s t (mutex_step s.shared (s.threads t)))
