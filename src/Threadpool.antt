-- ===== src/Threadpool.antt =====
-- caching_http_proxy/threading/threadpool.[ch]: the workers, their connections and the hand-out of
-- clients.
--
-- The arrays `fds` and `connections` of a worker are lists of the cells in use, which the invariant
-- `IsWorker` keeps `nfds` long. A connection is an address; `sock_fd` is what lies there, and `none`
-- is memory that is freed or was never allocated. `closed` logs the descriptors that are closed.
-- What runs between two accesses of a worker's lock is one function.
pub mod Pick
pub mod Add
pub mod Admit
pub mod Compact
pub mod Pass
pub mod End
pub mod Life
pub mod Rounds
mod Tests
use os2_labs.Common.{
  set, ℕ, zero, suc, ◌+◌, ◌-◌, ◌%◌, ◌^◌, Bool, true, false, Option, none, some, List, [], ◌∷◌, ◌++◌,
  ◌==◌, ltb, leb, if◌then◌else◌, get_elem?, length, drop, take, ℤ, pos, negsuc, is_neg,
}

abbrev pub max_worker_threads : ℕ
max_worker_threads = 8

abbrev pub max_clients_per_thread : ℕ
max_clients_per_thread = 64

abbrev pub uint_max : ℕ
uint_max = 2 ^ 32 - 1

pub data Events : Type 0 where
  events : (err nval in_ hup : Bool) → Events

abbrev pub no_events : Events
no_events = events false false false false

pub record PollFd : Type 0 where
  pub fd : ℤ
  pub revents : Events

abbrev pub Ptr : Type 0
Ptr = ℕ

pub record Worker : Type 0 where
  pub fds : List PollFd
  pub connections : List Ptr
  pub nfds : ℕ
  pub is_shutdown : Bool

pub record Conns : Type 0 where
  pub sock_fd : Ptr → Option ℤ
  pub closed : List ℤ

-- `conn->sock_fd = fd`
abbrev pub set_fd : Conns → Ptr → Option ℤ → Conns
set_fd s p fd = record s { sock_fd = λ q. if q == p then fd else s.sock_fd q }

abbrev pub load_of : List Worker → ℕ → ℕ
load_of ws i = elim (get_elem? ws i) [ none ↦ 0 | some w ↦ w.nfds ]

pub record Choice : Type 0 where
  pub best_worker : Option ℕ
  pub min_load : ℕ

-- One round of the loop of `pick_worker`; `none` as `best_worker` is the -1 that it starts with.
unfoldable pub pick_round : List Worker → (start_index i : ℕ) → Choice → Choice
pick_round ws start_index i c =
    let current_index = (start_index + i) % max_worker_threads in
    if ltb (load_of ws current_index) c.min_load
    then record { best_worker = some current_index; min_load = load_of ws current_index }
    else c

-- The rounds from `i` on, `n` of them.
unfoldable pub pick_loop : List Worker → ℕ → (i n : ℕ) → Choice → Choice
pick_loop ws start_index i zero c = c
pick_loop ws start_index i (suc n) c =
    pick_loop ws start_index (i + 1) n (pick_round ws start_index i c)

-- The index of the worker that is picked, which is also the new `last_worker`.
unfoldable pub pick_worker : List Worker → (last_worker : ℕ) → Option ℕ
unfolding pick_loop pick_round
pick_worker ws last_worker =
    (pick_loop ws ((last_worker + 1) % max_worker_threads) 0 max_worker_threads
      (record { best_worker = none; min_load = uint_max })).best_worker

-- `fresh` is what `calloc` returns, 0 for failure. The revert after a failed allocation is written
-- out: the cell past the end that it overwrites is not in use.
unfoldable pub add_client_to_worker : (fresh : Ptr) → Conns → Worker → ℤ → Conns × Worker × ℤ
add_client_to_worker fresh s w client_fd =
    if leb max_clients_per_thread w.nfds
    then (s, w, negsuc 0)
    else let idx = w.nfds in
      let w₁ = record w {
        nfds = w.nfds + 1;
        fds = take idx w.fds ++ record { fd = client_fd; revents = no_events } ∷ [];
      } in
      if fresh == 0
      then (s, record w₁ { nfds = w₁.nfds - 1; fds = take idx w₁.fds }, negsuc 0)
      else (
        set_fd s fresh (some client_fd),
        record w₁ { connections = take idx w.connections ++ fresh ∷ [] },
        pos 0,
      )

-- The thread that accepts clients is the only one that adds them, so nothing makes the worker that it
-- picks fuller before it adds the client. `none` is an index out of range.
unfoldable pub threadpool_add_client :
    (fresh : Ptr) → Conns → List Worker → (last_worker : ℕ) → ℤ → Option (Conns × List Worker × ℤ)
threadpool_add_client fresh s ws last_worker client_fd = elim (pick_worker ws last_worker) [
  | none ↦ none
  | some b ↦ elim (get_elem? ws b) [
    | none ↦ none
    | some w ↦
        let (s', w', ret) = add_client_to_worker fresh s w client_fd in some (s', set ws b w', ret)
  ]
]

-- What the loop over the polled sockets does to one connection. `process_request` ends every path by
-- closing the client's socket and storing -1. `none` is an access to freed memory.
unfoldable pub handle_events : Conns → Ptr → Events → Option Conns
handle_events s p (events err nval in_ hup) = elim (s.sock_fd p) [
  | none ↦ none
  | some fd ↦
      let closing = set_fd (record s { closed = fd ∷ s.closed }) p (some (negsuc 0)) in
      some (
        if err
        then closing
        else if nval
        then set_fd s p (some (negsuc 0))
        else if in_
        then closing
        else if hup
        then closing
        else s)
]

unfoldable pub handle_all : Conns → List Ptr → List PollFd → Option Conns
handle_all s [] fds = some s
handle_all s (p ∷ ps) [] = some s
handle_all s (p ∷ ps) (f ∷ fds) = elim (handle_events s p f.revents) [
  | none ↦ none
  | some s' ↦ handle_all s' ps fds
]

-- `memmove` of the cells behind `i` one to the left.
unfoldable pub remove_at {ℓ} : {A : Type ℓ} → ℕ → List A → List A
remove_at i [] = []
remove_at zero (x ∷ xs) = xs
remove_at (suc i) (x ∷ xs) = x ∷ remove_at i xs

-- The clean-up loop from index `i`, on fuel: every round leaves one cell fewer to look at.
unfoldable pub compact : ℕ → (i : ℕ) → Conns → Worker → Option (Conns × Worker)
compact zero i s w = if ltb i w.nfds then none else some (s, w)
compact (suc fuel) i s w =
    if ltb i w.nfds
    then elim (get_elem? w.connections i) [
      | none ↦ none
      | some p ↦ elim (s.sock_fd p) [
        | none ↦ none
        | some fd ↦ elim (is_neg fd) [
          | true ↦ compact fuel i (set_fd s p none) (record w {
            fds = remove_at i w.fds;
            connections = remove_at i w.connections;
            nfds = w.nfds - 1;
          })
          | false ↦ compact fuel (i + 1) s w
        ]
      ]
    ]
    else some (s, w)

-- The part of a round of `client_worker_main` that follows a `poll` with events. `polled` is the
-- local copy of the descriptors as `poll` leaves it, `conn_local` the copy of the connections; `w` is
-- the worker when the lock is taken again, with the clients that came in between.
unfoldable pub finish_pass : Conns → List PollFd → List Ptr → Worker → Option (Conns × Worker)
finish_pass s polled conn_local w = elim (handle_all s conn_local polled) [
  | none ↦ none
  | some s' ↦
      let n = length conn_local in
      compact w.nfds 0 s' (record w {
        fds = polled ++ drop n w.fds;
        connections = conn_local ++ drop n w.connections;
      })
]

-- The loop that frees the connections when the worker ends.
unfoldable pub free_connections : Conns → List Ptr → Option Conns
free_connections s [] = some s
free_connections s (p ∷ ps) = elim (s.sock_fd p) [
  | none ↦ none
  | some fd ↦
      free_connections
        (set_fd (if is_neg fd then s else record s { closed = fd ∷ s.closed }) p none) ps
]

unfoldable pub end_worker : Conns → Worker → Option (Conns × Worker)
unfolding free_connections
end_worker s w = elim (free_connections s w.connections) [
  | none ↦ none
  | some s' ↦ some (s', record w { nfds = 0; connections = []; fds = [] })
]
