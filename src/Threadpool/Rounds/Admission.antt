-- ===== src/Threadpool/Rounds/Admission.antt =====
-- Handing a client to a worker keeps the pool in order.
use os2_labs.Common.{
  ℕ, zero, suc, ◌<◌, ◌≡◌, ◌≢◌, refl, sym, ap, ◌∙◌, ◌⊎◌, inl, inr, true, false, none, some, List, [],
  ◌∷◌, ◌++◌, arith, get_elem?, set, Bool-cases, has, has-append, ◌||◌, ◌==◌, ==_iff, append_assoc,
  ℤ, pos, negsuc,
}
use os2_labs.Threadpool.{
  Ptr, Conns, Worker, load_of, max_worker_threads, uint_max, add_client_to_worker, pick_worker,
}
use os2_labs.Threadpool.Add.{IsWorker, add_client-IsWorker}
use os2_labs.Threadpool.Admit.{get_elem?-some, threadpool_add_client-picked}
use os2_labs.Threadpool.Pick.{pick_worker-least}
use os2_labs.Threadpool.Life.Shutdown.{pool_connections}
use os2_labs.Threadpool.Rounds.{Pool, hand_out}
use os2_labs.Threadpool.Rounds.Replace.{
  get_elem?-set, get_elem?-set_self, length-set, pool-has, pool-live, pool-IsWorker, pool-lost,
  set-IsPool,
}
use os2_labs.Threadpool.Rounds.Steps.{IsServing}

-- The address of the new connection is the only one at which the memory changes.
add_client-others :
    (fresh : Ptr) (s : Conns) (w : Worker) (client_fd : ℤ) (q : Ptr)
    → (q == fresh) ≡ false
    → (add_client_to_worker fresh s w client_fd).0.sock_fd q ≡ s.sock_fd q
unfolding add_client_to_worker
add_client-others fresh s w client_fd q other = ground arith

load-small :
    (p : Pool) → IsServing p → (j : ℕ) → j < max_worker_threads → load_of p.workers j < uint_max
load-small p is j lt =
    let (w, at_j) = get_elem?-some p.workers j (omega (arith, is.eight)) in
    rw (at_j, load_of) (omega (arith, (pool-IsWorker p.conns p.workers j w is.pool at_j).capacity))

set_same : (ws : List Worker) (i : ℕ) (w : Worker) → get_elem? ws i ≡ some w → set ws i w ≡ ws
set_same [] i w at_i = refl
set_same (x ∷ ws) zero w at_i = cc
set_same (x ∷ ws) (suc i) w at_i = ap (λ r. x ∷ r) (set_same ws i w at_i)

-- The worker `b` has got the connection `fresh`, behind its others.
added-IsServing :
    (p : Pool) (fresh : Ptr) (b last : ℕ) (w : Worker) (s' : Conns) (w' : Worker)
    → IsServing p
    → p.conns.sock_fd fresh ≡ none
    → get_elem? p.workers b ≡ some w
    → IsWorker s' w'
    → w'.connections ≡ w.connections ++ fresh ∷ []
    → ((q : Ptr) → (q == fresh) ≡ false → s'.sock_fd q ≡ p.conns.sock_fd q)
    → IsServing (record p { conns = s'; workers = set p.workers b w'; last_worker = last })
added-IsServing p fresh b last w s' w' is free at_b is' longer others =
    let grown : (q : Ptr) → has q w'.connections ≡ (has q w.connections || (q == fresh)) =
      λ q. ap (has q) longer ∙ has-append q w.connections (fresh ∷ []) ∙ ground arith in
    let unused : (q : Ptr) → has q (pool_connections p.workers) ≡ true → (q == fresh) ≡ false =
      λ q there. elim (Bool-cases (q == fresh)) [
        | inl new ↦
            let (fd, here) = pool-live p.conns p.workers q is.pool there in
            let same : q ≡ fresh = (==_iff q fresh).0 new in cc
        | inr old ↦ old
      ] in
    let newest : (q : Ptr)
        → (q == fresh) ≡ true
        → has q (pool_connections (set p.workers b w')) ≡ true =
      λ q new.
        pool-has (set p.workers b w') b w' q (get_elem?-set_self p.workers b w w' at_b)
          (ground (arith, grown q)) in
    record {
      pool =
          set-IsPool p.conns s' p.workers b w w' is.pool at_b is'
            (λ q got there. ground (arith, grown q, unused q there))
            (λ q there out. others q (unused q there));
      owned = λ q out. elim (Bool-cases (has q (pool_connections p.workers))) [
        | inl there ↦
            let (mine, gone) = pool-lost p.workers b w w' q at_b there out in
            absurd (ground (arith, grown q))
        | inr nowhere ↦ elim (Bool-cases (q == fresh)) [
          | inl new ↦ cc (newest q new)
          | inr old ↦ others q old ∙ is.owned q nowhere
        ]
      ];
      eight = length-set p.workers b w' ∙ is.eight;
      copies = λ j v fds conns at_j busy. elim (get_elem?-set p.workers b j w' v at_j) [
        | inl (same, e) ↦
            let c = is.copies j w fds conns (ap (get_elem? p.workers) same ∙ at_b) busy in
            record {
              same_length = c.same_length;
              added = c.added ++ fresh ∷ [];
              first =
                  ap (λ (u : Worker). u.connections) e
                  ∙ longer
                  ∙ ap (λ r. r ++ fresh ∷ []) c.first
                  ∙ append_assoc conns c.added (fresh ∷ []);
            }
        | inr (differ, at_old) ↦ is.copies j v fds conns at_old busy
      ];
    }

add_client-null :
    (s : Conns) (w : Worker) (client_fd : ℤ) → (add_client_to_worker 0 s w client_fd).2 ≡ negsuc 0
unfolding add_client_to_worker
add_client-null s w client_fd = ground arith

hand_out-picked :
    (fresh : Ptr) (client_fd : ℤ) (p : Pool) (b : ℕ) (w : Worker) (s' : Conns) (w' : Worker)
    (ret : ℤ)
    → pick_worker p.workers p.last_worker ≡ some b
    → get_elem? p.workers b ≡ some w
    → add_client_to_worker fresh p.conns w client_fd ≡ (s', w', ret)
    → hand_out fresh client_fd p
      ≡ some (record p { conns = s'; workers = set p.workers b w'; last_worker = b }, ret)
unfolding hand_out
hand_out-picked fresh client_fd p b w s' w' ret picked at_b run =
    rw
      (
        threadpool_add_client-picked fresh p.conns p.workers p.last_worker client_fd b w s' w' ret
            picked at_b run,
        hand_out,
      )
      (rw picked refl)

-- A client is taken, with 0, or refused, with -1, and then the connections stay as they were.
abbrev pub Handed : (fresh : Ptr) → ℤ → Pool → Type 0
Handed fresh client_fd p =
    (p' : Pool) × (ret : ℤ) × (hand_out fresh client_fd p ≡ some (p', ret))
    × IsServing p'
    × (((ret ≡ pos 0) × (p'.conns.sock_fd fresh ≡ some client_fd))
        ⊎ ((ret ≡ negsuc 0) × (p'.conns ≡ p.conns)))

refused-IsServing :
    (p : Pool) (b : ℕ) (w : Worker)
    → IsServing p
    → get_elem? p.workers b ≡ some w
    → IsServing (record p { conns = p.conns; workers = set p.workers b w; last_worker = b })
refused-IsServing p b w is at_b =
    rw (set_same p.workers b w at_b)
      (record { pool = is.pool; owned = is.owned; eight = is.eight; copies = is.copies })

hand_out-Handed :
    (fresh : Ptr) (client_fd : ℤ) (p : Pool) (b : ℕ) (w : Worker)
    → IsServing p
    → (fresh ≢ 0 → p.conns.sock_fd fresh ≡ none)
    → pick_worker p.workers p.last_worker ≡ some b
    → get_elem? p.workers b ≡ some w
    → Handed fresh client_fd p
hand_out-Handed fresh client_fd p b w is free picked at_b =
    let is_w = pool-IsWorker p.conns p.workers b w is.pool at_b in
    elim (add_client-IsWorker p.conns w client_fd is_w fresh free) [
      | inl (why, refused) ↦ (
        record p { conns = p.conns; workers = set p.workers b w; last_worker = b },
        negsuc 0,
        hand_out-picked fresh client_fd p b w p.conns w (negsuc 0) picked at_b refused,
        refused-IsServing p b w is at_b,
        inr (refl, refl),
      )
      | inr (s', w', run, is', longer, more, here) ↦
          let memory : fresh ≢ 0 = λ null.
            let refused : (add_client_to_worker fresh p.conns w client_fd).2 ≡ negsuc 0 =
              rw null (add_client-null p.conns w client_fd) in
            let taken : pos 0 ≡ negsuc 0 =
              ap (λ (r : Conns × Worker × ℤ). r.2) (sym run) ∙ refused in
            absurd (ground arith) in
          (
            record p { conns = s'; workers = set p.workers b w'; last_worker = b },
            pos 0,
            hand_out-picked fresh client_fd p b w s' w' (pos 0) picked at_b run,
            added-IsServing p fresh b b w s' w' is (free memory) at_b is' longer (λ q other.
                ap (λ (r : Conns × Worker × ℤ). r.0.sock_fd q) (sym run)
                ∙ add_client-others fresh p.conns w client_fd q other),
            inl (refl, here),
          )
    ]

-- For a pool in order, and an address for the connection that is not in use unless it is null: a worker is
-- found, and the pool stays in order, whether the client is taken or refused.
pub hand_out-IsServing :
    (fresh : Ptr) (client_fd : ℤ) (p : Pool)
    → IsServing p
    → (fresh ≢ 0 → p.conns.sock_fd fresh ≡ none)
    → Handed fresh client_fd p
hand_out-IsServing fresh client_fd p is free =
    let (b, picked, b_lt, least) = pick_worker-least p.workers p.last_worker (load-small p is) in
    let (w, at_b) = get_elem?-some p.workers b (omega (arith, is.eight)) in
    hand_out-Handed fresh client_fd p b w is free picked at_b
