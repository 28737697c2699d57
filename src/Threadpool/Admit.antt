-- ===== src/Threadpool/Admit.antt =====
-- `threadpool_add_client` refuses a client only when no worker has room.
use os2_labs.Common.{
  ℕ, zero, suc, ◌+◌, ◌≤◌, ◌<◌, ◌≡◌, ◌≢◌, refl, sym, ap, ◌∙◌, ◌⊎◌, inl, inr, true, false, some, List,
  [], ◌∷◌, ◌++◌, take, arith, get_elem?, set, length, ℤ, pos, negsuc, Bool-cases, leb, leb→le,
  ne→==,
}
use os2_labs.Threadpool.{
  Ptr, Worker, Conns, no_events, set_fd, load_of, pick_worker, add_client_to_worker,
  threadpool_add_client, max_worker_threads, max_clients_per_thread, uint_max,
}
use os2_labs.Threadpool.Pick.{pick_worker-least}

pub get_elem?-some :
    (ws : List Worker) (i : ℕ) → i < length ws → (w : Worker) × (get_elem? ws i ≡ some w)
get_elem?-some [] i lt = absurd (omega arith)
get_elem?-some (w ∷ ws) zero lt = (w, refl)
get_elem?-some (w ∷ ws) (suc i) lt = get_elem?-some ws i (omega arith)

load-get_elem? :
    (ws : List Worker) (i : ℕ) (w : Worker) → get_elem? ws i ≡ some w → load_of ws i ≡ w.nfds
load-get_elem? ws i w e = rw (e, load_of)

module _ (fresh : Ptr) (s : Conns) (w : Worker) (client_fd : ℤ) (memory : fresh ≢ 0) where
  add_client-full :
      leb max_clients_per_thread w.nfds ≡ true
      → add_client_to_worker fresh s w client_fd ≡ (s, w, negsuc 0)
  unfolding add_client_to_worker
  add_client-full full = rw full

  -- The worker with the client behind the ones that it has.
  with_client : Worker
  with_client = record w {
    nfds = w.nfds + 1;
    fds = take w.nfds w.fds ++ record { fd = client_fd; revents = no_events } ∷ [];
    connections = take w.nfds w.connections ++ fresh ∷ [];
  }

  add_client-room :
      leb max_clients_per_thread w.nfds ≡ false
      → add_client_to_worker fresh s w client_fd
        ≡ (set_fd s fresh (some client_fd), with_client, pos 0)
  unfolding add_client_to_worker with_client
  add_client-room room = rw (room, ne→== fresh 0 memory)

set_same : (ws : List Worker) (i : ℕ) (w : Worker) → get_elem? ws i ≡ some w → set ws i w ≡ ws
set_same [] i w e = refl
set_same (x ∷ ws) zero w e = let same : x ≡ w = cc in ap (λ v. v ∷ ws) (sym same)
set_same (x ∷ ws) (suc i) w e = ap (λ r. x ∷ r) (set_same ws i w e)

pub threadpool_add_client-picked :
    (fresh : Ptr) (s : Conns) (ws : List Worker) (last_worker : ℕ) (client_fd : ℤ) (b : ℕ)
    (w : Worker) (s' : Conns) (w' : Worker) (ret : ℤ)
    → pick_worker ws last_worker ≡ some b
    → get_elem? ws b ≡ some w
    → add_client_to_worker fresh s w client_fd ≡ (s', w', ret)
    → threadpool_add_client fresh s ws last_worker client_fd ≡ some (s', set ws b w', ret)
unfolding threadpool_add_client
threadpool_add_client-picked fresh s ws last_worker client_fd b w s' w' ret picked at_b added =
    rw (picked, threadpool_add_client) (rw at_b (rw added refl))

-- The client is the last of a worker that had room for it and than which none had fewer clients, and the
-- other workers are as they were.
pub record Placed (fresh : Ptr) (s : Conns) (ws : List Worker) (client_fd : ℤ) (s' : Conns)
    (ws' : List Worker) : Type 0 where
  pub index : ℕ
  pub worker : Worker
  pub picked : get_elem? ws index ≡ some worker
  pub room : worker.nfds < max_clients_per_thread
  pub least : (j : ℕ) → j < max_worker_threads → worker.nfds ≤ load_of ws j
  pub conns : s' ≡ set_fd s fresh (some client_fd)
  pub workers :
      ws'
      ≡ set ws index (record worker {
        nfds = worker.nfds + 1;
        fds = take worker.nfds worker.fds ++ record { fd = client_fd; revents = no_events } ∷ [];
        connections = take worker.nfds worker.connections ++ fresh ∷ [];
      })

-- With memory for the connection, eight workers, and loads below UINT_MAX, wherever the rotation starts: the
-- pool returns 0 and the client is the last of a worker which had room for it and than which none had fewer
-- clients, with the other workers as they were; or it returns -1 and changes nothing, and every one of its
-- workers is at its capacity.
pub threadpool_add_client-full :
    (fresh : Ptr) (s : Conns) (ws : List Worker) (last_worker : ℕ) (client_fd : ℤ)
    → fresh ≢ 0
    → length ws ≡ max_worker_threads
    → ((j : ℕ) → j < max_worker_threads → load_of ws j < uint_max)
    → ((s' : Conns) × (ws' : List Worker) × (threadpool_add_client fresh s ws last_worker client_fd
          ≡ some (s', ws', pos 0))
        × Placed fresh s ws client_fd s' ws')
      ⊎ ((threadpool_add_client fresh s ws last_worker client_fd ≡ some (s, ws, negsuc 0))
          × ((j : ℕ) → j < max_worker_threads → max_clients_per_thread ≤ load_of ws j))
threadpool_add_client-full fresh s ws last_worker client_fd memory eight small =
    let (b, picked, b_lt, least) = pick_worker-least ws last_worker small in
    let (w, at_b) = get_elem?-some ws b (omega (arith, eight)) in
    let load : load_of ws b ≡ w.nfds = load-get_elem? ws b w at_b in
    elim (Bool-cases (leb max_clients_per_thread w.nfds)) [
      | inl full ↦
          let run =
            threadpool_add_client-picked fresh s ws last_worker client_fd b w s w (negsuc 0) picked
              at_b (add_client-full fresh s w client_fd memory full) in
          inr (
            run ∙ ap (λ (vs : List Worker). some (s, vs, negsuc 0)) (set_same ws b w at_b),
            λ j lt. omega (arith, least j lt, load, leb→le max_clients_per_thread w.nfds full),
          )
      | inr room ↦ inl (
        set_fd s fresh (some client_fd),
        set ws b (with_client fresh s w client_fd memory),
        threadpool_add_client-picked fresh s ws last_worker client_fd b w
            (set_fd s fresh (some client_fd)) (with_client fresh s w client_fd memory) (pos 0)
            picked at_b (add_client-room fresh s w client_fd memory room),
        record {
          index = b;
          worker = w;
          picked = at_b;
          room = ground arith;
          least = λ j lt. omega (arith, least j lt, load);
          conns = refl;
          workers = unfold with_client in refl;
        },
      )
    ]
