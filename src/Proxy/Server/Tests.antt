-- ===== src/Proxy/Server/Tests.antt =====
-- A run of the server, with the theorems on it.
use os2_labs.Common.{ℕ, ◌==◌, Bool, true, false, none, some, List, [], ◌∷◌, pos}
use os2_labs.Cache.Store.{Cache}
use os2_labs.Threadpool.{Ptr, Conns, events}
use os2_labs.Threadpool.Rounds.{Poll, timeout, polled}
use os2_labs.Proxy.Server.{accept_error, client, Event, accept, lock_worker, poll_returns, Setup}
use os2_labs.Proxy.Server.Ends.{Ends}

-- The address that the event names, if it is free.
abbrev at_choice : ℕ → Conns → Ptr
at_choice choice s = elim (s.sock_fd choice) [ none ↦ choice | some _ ↦ 0 ]

abbrev setup : Setup
setup = record {
  signal_ok = true;
  server_sockfd = pos 3;
  bind_ok = true;
  listen_ok = true;
  tp_ok = true;
  data_ok = true;
  thread_ok = λ _. true;
  cache_ok = true;
  buckets_ok = true;
  collector_ok = true;
}

-- Two clients come; the worker that has the first polls, and its client hangs up.
abbrev before : List Event
before =
    accept (client (pos 4) 100)
    ∷ lock_worker 1
    ∷ accept (client (pos 5) 200)
    ∷ poll_returns 1 (polled (events false false false true ∷ []))
    ∷ []

abbrev between : List Event
between = lock_worker 2 ∷ accept accept_error ∷ []

abbrev after : List Event
after = poll_returns 2 timeout ∷ []

abbrev idle_last : ℕ → Poll
idle_last i = timeout

abbrev none_missed : ℕ → Bool
none_missed i = false

-- The second worker misses its signal.
abbrev one_missed : ℕ → Bool
one_missed i = i == 1

abbrev same_cache : Cache → Cache
same_cache c = c
