-- ===== src/Threadpool/Life.antt =====
-- caching_http_proxy/threading/threadpool.c: `threadpool_init` and `threadpool_shutdown`.
pub mod Start
pub mod Shutdown
use os2_labs.Common.{
  ℕ, zero, suc, ◌+◌, Bool, true, false, ◌&&◌, ◌||◌, ◌==◌, Option, none, some, List, [], ◌∷◌, ◌++◌,
  if◌then◌else◌, length,
}
use os2_labs.Threadpool.{Conns, Worker, end_worker, max_worker_threads}

-- `left_running`: the arrays are freed while so many threads run on them.
pub data PoolStart : Type 0 where
  started : List Worker → PoolStart
  start_refused : PoolStart
  left_running : ℕ → PoolStart

abbrev pub new_worker : Worker
new_worker = record { fds = []; connections = []; nfds = 0; is_shutdown = false }

-- The rounds of the loop that are left, `n` of them; `thread_ok` is whether a thread starts.
unfoldable pub start_workers : (thread_ok : ℕ → Bool) → (ws : List Worker) → (n : ℕ) → PoolStart
start_workers thread_ok ws zero = started ws
start_workers thread_ok ws (suc n) =
    let rest = start_workers thread_ok (ws ++ new_worker ∷ []) n in
    if thread_ok (length ws) then rest else left_running (length ws)

unfoldable pub threadpool_init :
    (some_function tp_ok data_ok : Bool) → (thread_ok : ℕ → Bool) → PoolStart
unfolding start_workers
threadpool_init some_function tp_ok data_ok thread_ok =
    if some_function
    then if tp_ok
      then if data_ok then start_workers thread_ok [] max_worker_threads else start_refused
      else start_refused
    else start_refused

-- `hanging`: a join does not return.
pub data Joins : Type 0 where
  joined hanging : Conns → Joins

-- The flag and the signal come without the worker's lock. A worker without clients that has tested the flag
-- and does not wait yet misses the signal, and then waits for ever; `missed` is whether the worker of an
-- index is at that point.
unfoldable pub sleeps : (missed : ℕ → Bool) → ℕ → Worker → Bool
sleeps missed i w = missed i && (w.nfds == 0)

unfoldable pub some_sleeps : (missed : ℕ → Bool) → ℕ → List Worker → Bool
unfolding sleeps
some_sleeps missed i [] = false
some_sleeps missed i (w ∷ ws) = sleeps missed i w || some_sleeps missed (i + 1) ws

-- Each worker is told to end, and does, but for those that sleep.
unfoldable pub end_workers : (missed : ℕ → Bool) → ℕ → Conns → List Worker → Option Conns
unfolding end_worker sleeps
end_workers missed i s [] = some s
end_workers missed i s (w ∷ ws) = elim (sleeps missed i w) [
  | true ↦ end_workers missed (i + 1) s ws
  | false ↦ elim (end_worker s (record w { is_shutdown = true })) [
    | none ↦ none
    | some (s', w') ↦ end_workers missed (i + 1) s' ws
  ]
]

-- The threads are told to end and joined, one after the other.
unfoldable pub threadpool_shutdown : (missed : ℕ → Bool) → Conns → List Worker → Option Joins
unfolding end_workers some_sleeps
threadpool_shutdown missed s ws = elim (end_workers missed 0 s ws) [
  | none ↦ none
  | some s' ↦ some (if some_sleeps missed 0 ws then hanging s' else joined s')
]
