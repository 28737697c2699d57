-- ===== src/Threadpool/Life/Start.antt =====
-- What the creation of the pool leaves.
use os2_labs.Common.{
  ℕ, zero, suc, ◌+◌, ◌≤◌, ◌<◌, ◌≡◌, refl, ap, ◌∙◌, ◌==◌, ==_iff, ◌⊎◌, inl, inr, Bool, true, false,
  ◌&&◌, List, [], ◌∷◌, ◌++◌, arith, length, length-append, Bool-cases, All,
}
use os2_labs.Threadpool.{Worker, max_worker_threads}
use os2_labs.Threadpool.Life.{
  PoolStart, started, start_refused, left_running, new_worker, start_workers, threadpool_init,
}

abbrev pub IsIdle : Worker → Type 0
IsIdle w = (w.nfds ≡ 0) × (w.fds ≡ []) × (w.connections ≡ []) × (w.is_shutdown ≡ false)

All-snoc : (ws : List Worker) (w : Worker) → All IsIdle ws → IsIdle w → All IsIdle (ws ++ w ∷ [])
All-snoc [] w all one = (one, tt)
All-snoc (x ∷ ws) w all one = (all.0, All-snoc ws w all.1 one)

-- All threads start, and every worker is idle; or one does not, and all before it do.
abbrev pub Started : (thread_ok : ℕ → Bool) → ℕ → ℕ → PoolStart → Type 0
Started thread_ok done total r =
    (((j : ℕ) → done ≤ j → j < total → thread_ok j ≡ true)
      × ((ws : List Worker) × (r ≡ started ws) × (length ws ≡ total) × All IsIdle ws))
    ⊎ ((i : ℕ) × (done ≤ i)
        × (i < total)
        × ((j : ℕ) → done ≤ j → j < i → thread_ok j ≡ true)
        × (thread_ok i ≡ false)
        × (r ≡ left_running i))

-- One index more from which threads start.
one_more :
    (thread_ok : ℕ → Bool) (done later total : ℕ)
    → later ≡ done + 1
    → thread_ok done ≡ true
    → ((j : ℕ) → later ≤ j → j < total → thread_ok j ≡ true)
    → (j : ℕ) → done ≤ j
    → j < total
    → thread_ok j ≡ true
one_more thread_ok done later total next ok above j ge lt = elim (Bool-cases (j == done)) [
  | inl here ↦ ap thread_ok ((==_iff j done).0 here) ∙ ok
  | inr other ↦ above j (ground arith) lt
]

start_workers-Started :
    (thread_ok : ℕ → Bool) (ws : List Worker) (n : ℕ)
    → All IsIdle ws
    → Started thread_ok (length ws) (length ws + n) (start_workers thread_ok ws n)
unfolding start_workers
start_workers-Started thread_ok ws zero all =
    inl (λ j ge lt. absurd (omega arith), (ws, refl, omega arith, all))
start_workers-Started thread_ok ws (suc n) all =
    let longer = length-append ws (new_worker ∷ []) in
    elim (Bool-cases (thread_ok (length ws))) [
      | inr ko ↦
          inr (length ws, omega arith, omega arith, λ j ge lt. absurd (omega arith), ko, rw ko)
      | inl ok ↦
          elim (start_workers-Started thread_ok (ws ++ new_worker ∷ []) n
            (All-snoc ws new_worker all (refl, refl, refl, refl))) [
              | inl (above, (vs, run, len, idles)) ↦ inl (
                λ j ge lt.
                    one_more thread_ok (length ws) _ (length ws + suc n) longer ok
                      (λ k ge_k lt_k. above k ge_k (omega (arith, longer))) j ge lt,
                (vs, rw ok run, omega (arith, len, longer), idles),
              )
              | inr (i, ge, lt, before, ko, run) ↦ inr (
                i,
                omega (arith, ge, longer),
                omega (arith, lt, longer),
                one_more thread_ok (length ws) _ i longer ok before,
                ko,
                rw ok run,
              )
            ]
    ]

-- With a function for the workers and memory: all eight threads start, and the pool has eight workers, all of
-- them idle; or a thread does not start, all before it do, and the arrays are freed although those run on
-- them. Without, there is no pool, and no thread has been started.
pub threadpool_init-Started :
    (some_function tp_ok data_ok : Bool) (thread_ok : ℕ → Bool)
    → (((some_function && tp_ok && data_ok) ≡ true)
        × Started thread_ok 0 max_worker_threads
            (threadpool_init some_function tp_ok data_ok thread_ok))
      ⊎ (((some_function && tp_ok && data_ok) ≡ false)
          × (threadpool_init some_function tp_ok data_ok thread_ok ≡ start_refused))
unfolding threadpool_init
threadpool_init-Started true true true thread_ok =
    inl (refl, start_workers-Started thread_ok [] max_worker_threads tt)
threadpool_init-Started true true false thread_ok = inr (refl, refl)
threadpool_init-Started true false data_ok thread_ok = inr (refl, refl)
threadpool_init-Started false tp_ok data_ok thread_ok = inr (refl, refl)
