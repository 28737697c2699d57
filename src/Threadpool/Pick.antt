-- ===== src/Threadpool/Pick.antt =====
-- `pick_worker` picks a worker with the fewest clients.
use os2_labs.Common.{
  ℕ, zero, suc, ◌+◌, ◌-◌, ◌%◌, ◌≤◌, ◌<◌, ◌≡◌, refl, ap, ◌⊎◌, inl, inr, false, none, some, List,
  arith, ltb, Bool-cases, dec_lt, ltb→lt,
}
use native.Mathlib.Nat.{add-zero}
use os2_labs.Threadpool.{
  Worker, load_of, Choice, pick_round, pick_loop, pick_worker, max_worker_threads, uint_max,
}

-- After the rounds below `i`: nothing is picked yet and `i` is 0, or the picked worker has the least
-- load of those looked at.
pub record Least (ws : List Worker) (start i : ℕ) (c : Choice) : Type 0 where
  pub bound : (k : ℕ) → k < i → c.min_load ≤ load_of ws ((start + k) % max_worker_threads)
  pub picked :
      ((i ≡ 0) × (c.min_load ≡ uint_max))
      ⊎ ((b : ℕ) × (c.best_worker ≡ some b)
          × (b < max_worker_threads)
          × (c.min_load ≡ load_of ws b))

module _ (ws : List Worker) (start : ℕ)
    (small : (j : ℕ) → j < max_worker_threads → load_of ws j < uint_max) where
  pick_round-Least :
      (i : ℕ) (c : Choice) → Least ws start i c → Least ws start (i + 1) (pick_round ws start i c)
  unfolding pick_round
  pick_round-Least i c l = elim (Bool-cases (ltb load c.min_load)) [
    | inl less ↦ rw less (record {
      bound = λ k lt. elim (dec_lt k i) [
        | yes old ↦ omega (arith, l.bound k old, ltb→lt load c.min_load less)
        | no new ↦ at_i k load lt new (λ e. omega (arith, e))
      ];
      picked = inr (current, refl, omega arith, refl);
    })
    | inr more ↦ rw more (record {
      bound = λ k lt. elim (dec_lt k i) [
        | yes old ↦ l.bound k old
        | no new ↦ at_i k c.min_load lt new (λ e. ground arith)
      ];
      picked = still more l.picked;
    })
  ]
    where
      current : ℕ
      current = (start + i) % max_worker_threads

      load : ℕ
      load = load_of ws current

      at_i :
          (k m : ℕ)
          → k < i + 1
          → ¬ (k < i)
          → (load_of ws ((start + k) % max_worker_threads) ≡ load
              → m ≤ load_of ws ((start + k) % max_worker_threads))
          → m ≤ load_of ws ((start + k) % max_worker_threads)
      at_i k m lt new h =
          let same : k ≡ i = omega arith in
          h (ap (λ j. load_of ws ((start + j) % max_worker_threads)) same)

      still :
          ltb load c.min_load ≡ false
          → ((i ≡ 0) × (c.min_load ≡ uint_max))
            ⊎ ((b : ℕ) × (c.best_worker ≡ some b)
                × (b < max_worker_threads)
                × (c.min_load ≡ load_of ws b))
          → ((i + 1 ≡ 0) × (c.min_load ≡ uint_max))
            ⊎ ((b : ℕ) × (c.best_worker ≡ some b)
                × (b < max_worker_threads)
                × (c.min_load ≡ load_of ws b))
      still more (inl (e, m)) = absurd (ground (arith, small current (omega arith)))
      still more (inr best) = inr best

  pick_loop-Least :
      (i n : ℕ) (c : Choice)
      → Least ws start i c
      → Least ws start (i + n) (pick_loop ws start i n c)
  unfolding pick_loop
  pick_loop-Least i zero c l = rw (add-zero i) l
  pick_loop-Least i (suc n) c l =
      let e : i + suc n ≡ i + 1 + n = omega arith in
      rw e (pick_loop-Least (i + 1) n (pick_round ws start i c) (pick_round-Least i c l))

-- Where every load is below UINT_MAX, a worker is picked, wherever the rotation starts, and none of
-- the workers has fewer clients.
pub pick_worker-least :
    (ws : List Worker) (last_worker : ℕ)
    → ((j : ℕ) → j < max_worker_threads → load_of ws j < uint_max)
    → (b : ℕ) × (pick_worker ws last_worker ≡ some b)
      × (b < max_worker_threads)
      × ((j : ℕ) → j < max_worker_threads → load_of ws b ≤ load_of ws j)
unfolding pick_worker
pick_worker-least ws last_worker small = best l.picked
  where
    start : ℕ
    start = (last_worker + 1) % max_worker_threads

    initial : Choice
    initial = record { best_worker = none; min_load = uint_max }

    last_round : Choice
    last_round = pick_loop ws start 0 max_worker_threads initial

    l : Least ws start (0 + max_worker_threads) last_round
    l =
        pick_loop-Least ws start small 0 max_worker_threads initial
          (record { bound = λ k lt. absurd (omega arith); picked = inl (refl, refl) })

    -- Every index is looked at in some round.
    reach :
        (j : ℕ)
        → j < max_worker_threads
        → (k : ℕ) × (k < 8) × ((start + k) % max_worker_threads ≡ j)
    reach j lt = ((j + 8 - start) % 8, omega arith, omega arith)

    best :
        ((max_worker_threads ≡ 0) × (last_round.min_load ≡ uint_max))
          ⊎ ((b : ℕ) × (last_round.best_worker ≡ some b)
              × (b < max_worker_threads)
              × (last_round.min_load ≡ load_of ws b))
        → (b : ℕ) × (last_round.best_worker ≡ some b)
          × (b < max_worker_threads)
          × ((j : ℕ) → j < max_worker_threads → load_of ws b ≤ load_of ws j)
    best (inl (e, m)) = absurd (omega arith)
    best (inr (b, e, lt, m)) = (
      b,
      e,
      lt,
      λ j j_lt.
          let (k, k_lt, at_j) = reach j j_lt in
          let same : load_of ws ((start + k) % max_worker_threads) ≡ load_of ws j =
            ap (load_of ws) at_j in
          omega (arith, l.bound k k_lt),
    )
