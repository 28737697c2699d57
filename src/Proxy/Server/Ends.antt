-- ===== src/Proxy/Server/Ends.antt =====
-- `proxy_start` from its set-up to its end.
use os2_labs.Common.{
  ℕ, ◌≡◌, refl, ap, ◌∙◌, ◌⊎◌, inl, inr, Bool, true, false, Option, none, some, List, [], ◌∷◌, arith,
  length, if◌then◌else◌, Bool-cases, has, All,
}
use os2_labs.Cache.Store.{Cache}
use os2_labs.Cache.Store.Invariant.{IsCache}
use os2_labs.Cache.Store.Life.{http_cache_shutdown-frees}
use os2_labs.Threadpool.{Ptr, Worker, Conns, max_worker_threads}
use os2_labs.Threadpool.Life.{joined, hanging, some_sleeps, threadpool_shutdown}
use os2_labs.Threadpool.Life.Start.{IsIdle}
use os2_labs.Threadpool.Life.Shutdown.{
  pool_connections, IsPool, some_sleeps-missed, threadpool_shutdown-frees,
}
use os2_labs.Threadpool.Rounds.{Pool, Poll}
use os2_labs.Threadpool.Rounds.Steps.{IsServing, end_rounds-IsServing}
use os2_labs.Proxy.Server.{
  Event, Server, serve_events, Outcome, hung, returned, serving, no_conns, close_server,
  shutdown_cache, after_pool, shutdown_pool, finish, new_server,
}

-- All connections are freed.
abbrev pub IsFreed : Conns → Type 0
IsFreed s = (q : Ptr) → s.sock_fd q ≡ none

idle-IsPool : (ws : List Worker) → All IsIdle ws → IsPool no_conns ws
idle-IsPool [] idle = tt
idle-IsPool (w ∷ ws) ((no_fds, fds, conns, running), idle) = (
  record {
    fds = omega (arith, ap length fds, no_fds);
    connections = omega (arith, ap length conns, no_fds);
    capacity = omega (arith, no_fds);
    distinct = rw conns tt;
    live = λ p m. cc (rw conns at m);
  },
  λ p m. cc (rw conns at m),
  idle-IsPool ws idle,
)

pub new_server-IsServing :
    (ws : List Worker)
    → length ws ≡ max_worker_threads
    → All IsIdle ws
    → IsServing (new_server ws).pool
new_server-IsServing ws eight idle = record {
  pool = idle-IsPool ws idle;
  owned = λ q out. refl;
  eight = eight;
  copies = λ i w fds conns at_i busy. cc;
}

-- The end of a pool in order whose connections are all those that are allocated.
shutdown-frees :
    (missed : ℕ → Bool) (s : Conns) (ws : List Worker)
    → IsPool s ws
    → ((q : Ptr) → has q (pool_connections ws) ≡ false → s.sock_fd q ≡ none)
    → (s' : Conns) × (threadpool_shutdown missed s ws
        ≡ some (if some_sleeps missed 0 ws then hanging s' else joined s'))
      × IsFreed s'
shutdown-frees missed s ws pool owned =
    let (s', run, freed) = threadpool_shutdown-frees missed s ws pool in
    (
      s',
      run,
      λ q. freed q ∙ elim (Bool-cases (has q (pool_connections ws))) [
        | inl there ↦ rw there
        | inr out ↦ rw out (owned q out)
      ],
    )

shutdown_pool-frees :
    (last : ℕ → Poll) (missed : ℕ → Bool) (p : Pool)
    → IsServing p
    → (s : Conns) × (ws : List Worker) × (shutdown_pool last missed p
        ≡ some (if some_sleeps missed 0 ws then hanging s else joined s))
      × IsFreed s
unfolding shutdown_pool
shutdown_pool-frees last missed p is =
    let (p', run, is') = end_rounds-IsServing max_worker_threads last p is in
    let (s, ends, freed) = shutdown-frees missed p'.conns p'.workers is'.pool is'.owned in
    (s, p'.workers, rw (run, shutdown_pool) ends, freed)

-- A state to which the events lead from the start of the accept loop.
abbrev pub Reached : (ℕ → Conns → Ptr) → List Event → Server → Type 0
Reached calloc evs v =
    (ws : List Worker) × (length ws ≡ max_worker_threads)
    × All IsIdle ws
    × (serve_events calloc (new_server ws) evs ≡ some v)

-- The program returns with all connections freed, and the server's socket closed or not; or it hangs in the
-- end of the pool, with all connections freed, as a worker has missed its signal; or it goes on in its loop,
-- with the pool in order, after the events.
abbrev pub Ends :
    (ℕ → Conns → Ptr)
    → (missed : ℕ → Bool) → List Event
    → (server_closed : Bool) → Option Outcome
    → Type 0
Ends calloc missed evs server_closed r =
    ((s : Conns) × (r ≡ some (returned server_closed s)) × IsFreed s)
    ⊎ ((s : Conns) × (r ≡ some (hung s)) × IsFreed s × ((i : ℕ) × (missed i ≡ true)))
    ⊎ ((v : Server) × (r ≡ some (serving v))
        × (v.accepting ≡ true)
        × IsServing v.pool
        × Reached calloc evs v)

-- After the end of the pool the program hangs, or goes on to its end.
pool_over :
    (calloc : ℕ → Conns → Ptr) (missed : ℕ → Bool) (evs : List Event) (go : Conns → Option Outcome)
    (s : Conns) (ws : List Worker)
    → IsFreed s
    → go s ≡ some (returned true s)
    → Ends calloc missed evs true
        (after_pool go (some (if some_sleeps missed 0 ws then hanging s else joined s)))
unfolding after_pool
pool_over calloc missed evs go s ws freed ends = elim (Bool-cases (some_sleeps missed 0 ws)) [
  | inl asleep ↦ rw asleep (inr (inl (s, refl, freed, some_sleeps-missed missed 0 ws asleep)))
  | inr awake ↦ rw awake (inl (s, ends, freed))
]

shutdown_cache-frees :
    (c : Cache) (xs : List Ptr) (s : Conns)
    → IsCache c xs
    → shutdown_cache c s ≡ some (returned true s)
unfolding shutdown_cache close_server
shutdown_cache-frees c xs s is =
    let (heap, run, freed) = http_cache_shutdown-frees c xs is in rw (run, shutdown_cache) refl

pub finish-Ends :
    (calloc : ℕ → Conns → Ptr) (evs : List Event) (last : ℕ → Poll) (missed : ℕ → Bool) (c : Cache)
    (xs : List Ptr) (v : Server)
    → IsCache c xs
    → IsServing v.pool
    → Reached calloc evs v
    → Ends calloc missed evs true (finish last missed c (some v))
unfolding finish
finish-Ends calloc evs last missed c xs v is serves reached = elim (Bool-cases v.accepting) [
  | inl going ↦ inr (
      inr (
        v,
        ap
            (λ (t : Bool).
              if t
              then some (serving v)
              else after_pool (shutdown_cache c) (shutdown_pool last missed v.pool))
            going,
        going,
        serves,
        reached,
      ))
  | inr over ↦
      let (s, ws, run, freed) = shutdown_pool-frees last missed v.pool serves in
      let whole : finish last missed c (some v)
          ≡ after_pool (shutdown_cache c)
              (some (if some_sleeps missed 0 ws then hanging s else joined s)) =
        ap
          (λ (t : Bool).
            if t
            then some (serving v)
            else after_pool (shutdown_cache c) (shutdown_pool last missed v.pool))
          over
        ∙ ap (after_pool (shutdown_cache c)) run in
      rw whole
        (pool_over calloc missed evs (shutdown_cache c) s ws freed (shutdown_cache-frees c xs s is))
]
