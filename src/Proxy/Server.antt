-- ===== src/Proxy/Server.antt =====
-- caching_http_proxy/proxy/proxy.c: `proxy_start`, with the loop that accepts clients and the workers that
-- run beside it.
--
-- The accepting thread and the workers take steps in any order: a list of events, each the return of a call
-- that its thread waits in, the signal, or the lock of a worker. `calloc` may depend on anything: on what is
-- allocated, and on a number in the event. What the requests make of the cache by its end is a function of
-- the cache at the start. The signal is taken not to come before its handler is there.
pub mod Run
pub mod Ends
pub mod Stop
mod Tests
use os2_labs.Common.{
  ℕ, zero, suc, ◌*◌, Bool, true, false, Option, none, some, List, [], ◌∷◌, if◌then◌else◌, ℤ, is_neg,
}
use os2_labs.Cache.Store.{
  Cache, Init, created, refused, crashed, http_cache_init, http_cache_shutdown,
}
use os2_labs.Threadpool.{Ptr, Worker, Conns, max_worker_threads}
use os2_labs.Threadpool.Life.{
  PoolStart, started, start_refused, left_running, Joins, joined, hanging, threadpool_init,
  threadpool_shutdown,
}
use os2_labs.Threadpool.Rounds.{Pool, Poll, begin_at, end_at, end_rounds, hand_out}

-- What `accept` returns: -1 with EINTR, -1 with another error, or a descriptor.
pub data Accept : Type 0 where
  eintr : Accept
  accept_error : Accept
  client : (client_fd : ℤ) → (choice : ℕ) → Accept

pub data Event : Type 0 where
  signal : Event
  accept : Accept → Event
  lock_worker : ℕ → Event
  poll_returns : ℕ → Poll → Event

-- `accepting`: the loop has not ended.
pub record Server : Type 0 where
  pub pool : Pool
  pub keep_running : Bool
  pub accepting : Bool

-- The close of a client that no worker takes, and the test at the end of a round.
unfoldable pub accepted : Server → (client_fd : ℤ) → Option (Pool × ℤ) → Option Server
accepted v client_fd none = none
accepted v client_fd (some (p, ret)) =
    let conns =
      if is_neg ret then record p.conns { closed = client_fd ∷ p.conns.closed } else p.conns in
    some (record v { pool = record p { conns = conns }; accepting = v.keep_running })

-- A round of the accept loop. After an error other than EINTR it goes on without the test.
unfoldable pub accept_round : (calloc : ℕ → Conns → Ptr) → Server → Accept → Option Server
unfolding accepted
accept_round calloc v eintr = some (record v { accepting = v.keep_running })
accept_round calloc v accept_error = some v
accept_round calloc v (client client_fd choice) =
    accepted v client_fd (hand_out (calloc choice v.pool.conns) client_fd v.pool)

unfoldable pub with_pool : Server → Option Pool → Option Server
with_pool v none = none
with_pool v (some p) = some (record v { pool = p })

unfoldable pub serve_event : (calloc : ℕ → Conns → Ptr) → Server → Event → Option Server
unfolding accept_round with_pool
serve_event calloc v signal = some (record v { keep_running = false })
serve_event calloc v (accept a) = if v.accepting then accept_round calloc v a else some v
serve_event calloc v (lock_worker i) = some (record v { pool = begin_at i v.pool })
serve_event calloc v (poll_returns i r) = with_pool v (end_at i r v.pool)

unfoldable pub serve_events : (calloc : ℕ → Conns → Ptr) → Server → List Event → Option Server
serve_events calloc v [] = some v
serve_events calloc v (ev ∷ evs) = elim (serve_event calloc v ev) [
  | none ↦ none
  | some v' ↦ serve_events calloc v' evs
]

-- What the calls of the set-up return, as Booleans for success.
pub record Setup : Type 0 where
  pub signal_ok : Bool
  pub server_sockfd : ℤ
  pub bind_ok : Bool
  pub listen_ok : Bool
  pub tp_ok : Bool
  pub data_ok : Bool
  pub thread_ok : ℕ → Bool
  pub cache_ok : Bool
  pub buckets_ok : Bool
  pub collector_ok : Bool

-- `returned`: with the server's socket closed or not, and what is left of the connections. `hung`: a join of
-- the end of the pool does not return, with what is left of them then.
pub data Outcome : Type 0 where
  hung : Conns → Outcome
  returned : (server_closed : Bool) → Conns → Outcome
  serving : Server → Outcome

abbrev pub no_conns : Conns
no_conns = record { sock_fd = λ _. none; closed = [] }

unfoldable pub close_server : Conns → Option Outcome
close_server s = some (returned true s)

unfoldable pub shutdown_cache : Cache → Conns → Option Outcome
unfolding close_server
shutdown_cache c s = elim (http_cache_shutdown c) [ none ↦ none | some _ ↦ close_server s ]

-- What follows the end of the pool, if it does end.
unfoldable pub after_pool : (Conns → Option Outcome) → Option Joins → Option Outcome
after_pool go none = none
after_pool go (some (hanging s)) = some (hung s)
after_pool go (some (joined s)) = go s

-- The workers end when the round that they are in has ended, `last` being what their `poll` returns, but for
-- those that have missed their signal.
unfoldable pub shutdown_pool : (last : ℕ → Poll) → (missed : ℕ → Bool) → Pool → Option Joins
shutdown_pool last missed p = elim (end_rounds max_worker_threads last p) [
  | none ↦ none
  | some p' ↦ threadpool_shutdown missed p'.conns p'.workers
]

-- From the label `end` on, once the loop has ended.
unfoldable pub finish :
    (last : ℕ → Poll) → (missed : ℕ → Bool) → Cache → Option Server → Option Outcome
unfolding after_pool shutdown_cache shutdown_pool
finish last missed c none = none
finish last missed c (some v) =
    if v.accepting
    then some (serving v)
    else after_pool (shutdown_cache c) (shutdown_pool last missed v.pool)

abbrev pub new_server : List Worker → Server
new_server ws = record {
  pool = record { conns = no_conns; workers = ws; last_worker = 0; polling = λ _. none };
  keep_running = true;
  accepting = true;
}

abbrev pub max_size : ℕ
max_size = 1000 * 1024 * 1024

unfoldable pub with_cache :
    (calloc : ℕ → Conns → Ptr)
    → (requests : Cache → Cache) → (last : ℕ → Poll) → (missed : ℕ → Bool) → List Event
    → List Worker
    → Init
    → Option Outcome
unfolding serve_events finish after_pool close_server
with_cache calloc requests last missed evs ws refused =
    after_pool close_server (threadpool_shutdown missed no_conns ws)
with_cache calloc requests last missed evs ws crashed = none
with_cache calloc requests last missed evs ws (created c) =
    finish last missed (requests c) (serve_events calloc (new_server ws) evs)

-- The threads of a pool that is left running go on in memory that is freed.
unfoldable pub with_workers :
    (calloc : ℕ → Conns → Ptr)
    → (requests : Cache → Cache) → (last : ℕ → Poll) → (missed : ℕ → Bool) → List Event
    → Setup
    → PoolStart
    → Option Outcome
unfolding with_cache close_server http_cache_init
with_workers calloc requests last missed evs e start_refused = close_server no_conns
with_workers calloc requests last missed evs e (left_running zero) = close_server no_conns
with_workers calloc requests last missed evs e (left_running (suc n)) = none
with_workers calloc requests last missed evs e (started ws) =
    with_cache calloc requests last missed evs ws
      (http_cache_init e.cache_ok e.buckets_ok e.collector_ok max_size)

unfoldable pub proxy_start :
    (calloc : ℕ → Conns → Ptr)
    → (requests : Cache → Cache) → (last : ℕ → Poll) → (missed : ℕ → Bool) → List Event
    → Setup
    → Option Outcome
unfolding with_workers
proxy_start calloc requests last missed evs e =
    if e.signal_ok
    then if is_neg e.server_sockfd
      then some (returned false no_conns)
      else if e.bind_ok
      then if e.listen_ok
        then with_workers calloc requests last missed evs e
            (threadpool_init true e.tp_ok e.data_ok e.thread_ok)
        else some (returned true no_conns)
      else some (returned true no_conns)
    else some (returned false no_conns)
