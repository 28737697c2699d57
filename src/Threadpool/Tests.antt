-- ===== src/Threadpool/Tests.antt =====
-- A concrete worker, with the theorems of the thread pool at it.
use os2_labs.Common.{
  Bool, not, drop, ◌&&◌, ltb, ℕ, zero, suc, ◌<◌, ◌≤◌, ◌≡◌, refl, ◌⊎◌, inl, inr, true, false, none,
  some, List, [], ◌∷◌, ◌++◌, arith, ◌==◌, if◌then◌else◌, has, ℤ, pos, negsuc, Bool-cases,
}
use os2_labs.Threadpool.{
  threadpool_add_client, Worker, Conns, Ptr, PollFd, Events, events, no_events, load_of, handle_all,
  end_worker, finish_pass, max_worker_threads, max_clients_per_thread, uint_max,
}
use os2_labs.Threadpool.Life.{start_refused, threadpool_init}
use os2_labs.Threadpool.Life.Start.{Started, threadpool_init-Started}
use os2_labs.Threadpool.Life.Shutdown.{IsPool}
use os2_labs.Threadpool.End.{open_fds, end_worker-frees}
use os2_labs.Threadpool.Add.{IsWorker}
use os2_labs.Threadpool.Admit.{Placed, threadpool_add_client-full}
use os2_labs.Threadpool.Compact.{keep, keep_fds, open_fd}
use os2_labs.Threadpool.Pass.{finish_pass-keeps}

-- Two clients, with the descriptors 5 and 6.
abbrev two_conns : Conns
two_conns = record {
  sock_fd = λ p. if p == 100 then some (pos 5) else if p == 200 then some (pos 6) else none;
  closed = [];
}

abbrev cell : ℕ → Events → PollFd
cell n ev = record { fd = pos n; revents = ev }

abbrev two_clients : Worker
two_clients = record {
  fds = cell 5 no_events ∷ cell 6 no_events ∷ [];
  connections = 100 ∷ 200 ∷ [];
  nfds = 2;
  is_shutdown = false;
}

two_clients-live :
    (p : Ptr) → has p two_clients.connections ≡ true → (fd : ℤ) × (two_conns.sock_fd p ≡ some fd)
two_clients-live p m = elim (Bool-cases (p == 100)) [
  | inl first ↦ (pos 5, rw first)
  | inr other ↦ (pos 6, ground arith)
]

two_clients-IsWorker : IsWorker two_conns two_clients
two_clients-IsWorker = record {
  fds = refl;
  connections = refl;
  capacity = omega arith;
  distinct = (refl, (refl, tt));
  live = two_clients-live;
}

abbrev no_clients : Worker
no_clients = record { fds = []; connections = []; nfds = 0; is_shutdown = false }

-- A pool whose first worker has two clients.
abbrev pool : List Worker
pool =
    two_clients ∷ no_clients ∷ no_clients ∷ no_clients ∷ no_clients ∷ no_clients ∷ no_clients
    ∷ no_clients ∷ []

pool-small : (j : ℕ) → j < max_worker_threads → load_of pool j < uint_max
pool-small zero lt = omega arith
pool-small (suc zero) lt = omega arith
pool-small (suc (suc zero)) lt = omega arith
pool-small (suc (suc (suc zero))) lt = omega arith
pool-small (suc (suc (suc (suc zero)))) lt = omega arith
pool-small (suc (suc (suc (suc (suc zero))))) lt = omega arith
pool-small (suc (suc (suc (suc (suc (suc zero)))))) lt = omega arith
pool-small (suc (suc (suc (suc (suc (suc (suc zero))))))) lt = omega arith
pool-small (suc (suc (suc (suc (suc (suc (suc (suc j)))))))) lt = absurd (omega arith)

-- Where the connection of a third client is allocated.
abbrev fresh : Ptr
fresh = 300

-- `poll` has returned for the first client, which hangs up; the second came in meanwhile.
abbrev hang_up : List PollFd
hang_up = cell 5 (events false false false true) ∷ []

finish_pass-keeps_example :
    (s₁ : Conns) × (r : Conns × Worker) × (handle_all two_conns (100 ∷ []) hang_up ≡ some s₁)
    × (finish_pass two_conns hang_up (100 ∷ []) two_clients ≡ some r)
    × (r.1.connections ≡ keep s₁.sock_fd ((100 ∷ []) ++ 200 ∷ []))
    × (r.1.fds ≡ keep_fds s₁.sock_fd ((100 ∷ []) ++ 200 ∷ []) (hang_up ++ drop 1 two_clients.fds))
    × IsWorker r.0 r.1
    × ((p : Ptr) → has p (100 ∷ []) ≡ false → s₁.sock_fd p ≡ two_conns.sock_fd p)
    × ((p : Ptr)
        → r.0.sock_fd p ≡ (
            if has p two_clients.connections && not (open_fd (s₁.sock_fd p))
            then none
            else s₁.sock_fd p))
finish_pass-keeps_example =
    finish_pass-keeps two_conns two_clients hang_up (100 ∷ []) (200 ∷ []) two_clients-IsWorker refl
      refl

threadpool_add_client-full_example :
    ((s' : Conns) × (ws' : List Worker) × (threadpool_add_client fresh two_conns pool 7 (pos 9)
        ≡ some (s', ws', pos 0))
      × Placed fresh two_conns pool (pos 9) s' ws')
    ⊎ ((threadpool_add_client fresh two_conns pool 7 (pos 9) ≡ some (two_conns, pool, negsuc 0))
        × ((j : ℕ) → j < max_worker_threads → max_clients_per_thread ≤ load_of pool j))
threadpool_add_client-full_example =
    threadpool_add_client-full fresh two_conns pool 7 (pos 9) (omega arith) refl pool-small

-- The third thread does not start.
abbrev two_start : ℕ → Bool
two_start i = ltb i 2

threadpool_init-Started_example :
    (((true && true && true) ≡ true)
      × Started two_start 0 max_worker_threads (threadpool_init true true true two_start))
    ⊎ (((true && true && true) ≡ false)
        × (threadpool_init true true true two_start ≡ start_refused))
threadpool_init-Started_example = threadpool_init-Started true true true two_start

no_clients-IsWorker : IsWorker two_conns no_clients
no_clients-IsWorker = record {
  fds = refl;
  connections = refl;
  capacity = omega arith;
  distinct = tt;
  live = λ p m. cc;
}

two_workers-IsPool : IsPool two_conns (two_clients ∷ no_clients ∷ [])
two_workers-IsPool = (two_clients-IsWorker, λ p m. refl, (no_clients-IsWorker, λ p m. cc, tt))

end_worker-frees_example :
    (s' : Conns) × (w' : Worker) × (end_worker two_conns two_clients ≡ some (s', w'))
    × (w'.nfds ≡ 0)
    × IsWorker s' w'
    × ((p : Ptr)
        → s'.sock_fd p ≡ (if has p two_clients.connections then none else two_conns.sock_fd p))
    × (s'.closed ≡ open_fds two_conns.sock_fd two_clients.connections ++ two_conns.closed)
end_worker-frees_example = end_worker-frees two_conns two_clients two_clients-IsWorker
