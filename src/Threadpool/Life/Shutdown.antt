-- ===== src/Threadpool/Life/Shutdown.antt =====
-- What the end of the pool frees.
use os2_labs.Common.{
  ℕ, ◌+◌, ◌≡◌, refl, sym, ap, ◌∙◌, inl, inr, Bool, true, false, Option, none, some, List, [], ◌∷◌,
  ◌++◌, arith, if◌then◌else◌, Bool-cases, has, has-append, ◌||◌, ℤ, length,
}
use os2_labs.Threadpool.End.{end_worker-frees}
use os2_labs.Threadpool.{Ptr, Conns, Worker}
use os2_labs.Threadpool.Add.{IsWorker}
use os2_labs.Threadpool.Life.{
  joined, hanging, sleeps, some_sleeps, end_workers, threadpool_shutdown,
}

abbrev pub pool_connections : List Worker → List Ptr
pool_connections [] = []
pool_connections (w ∷ ws) = w.connections ++ pool_connections ws

-- The workers are consistent, and no connection is one of two workers.
abbrev pub IsPool : Conns → List Worker → Type 0
IsPool s [] = Unit
IsPool s (w ∷ ws) =
    IsWorker s w
    × ((p : Ptr) → has p w.connections ≡ true → has p (pool_connections ws) ≡ false)
    × IsPool s ws

told : (s : Conns) (w : Worker) → IsWorker s w → IsWorker s (record w { is_shutdown = true })
told s w is = record {
  fds = is.fds;
  connections = is.connections;
  capacity = is.capacity;
  distinct = is.distinct;
  live = is.live;
}

pub IsWorker-frame :
    (s s' : Conns) (w : Worker)
    → ((p : Ptr) → has p w.connections ≡ true → s'.sock_fd p ≡ s.sock_fd p)
    → IsWorker s w
    → IsWorker s' w
IsWorker-frame s s' w same is = record {
  fds = is.fds;
  connections = is.connections;
  capacity = is.capacity;
  distinct = is.distinct;
  live = λ p m. let (fd, here) = is.live p m in (fd, same p m ∙ here);
}

-- What is not freed of a worker that has ended is as it was for the others.
pub IsPool-frame :
    (s s' : Conns) (ws : List Worker)
    → ((p : Ptr) → has p (pool_connections ws) ≡ true → s'.sock_fd p ≡ s.sock_fd p)
    → IsPool s ws
    → IsPool s' ws
IsPool-frame s s' [] same pool = tt
IsPool-frame s s' (w ∷ ws) same (is, apart, pool) = (
  IsWorker-frame s s' w
      (λ p m. same p (has-append p w.connections (pool_connections ws) ∙ ground arith)) is,
  apart,
  IsPool-frame s s' ws
      (λ p m. same p (has-append p w.connections (pool_connections ws) ∙ ground arith)) pool,
)

either :
    (late early : Bool) (cell : Option ℤ)
    → (if late then none else if early then none else cell) ≡ (if early || late then none else cell)
either late early cell = ground arith

sleeps-empty :
    (missed : ℕ → Bool) (i : ℕ) (s : Conns) (w : Worker)
    → IsWorker s w
    → sleeps missed i w ≡ true
    → w.connections ≡ []
unfolding sleeps
sleeps-empty missed i s w is asleep = empty w.connections (ground (arith, is.connections))
  where
    empty : (xs : List Ptr) → length xs ≡ 0 → xs ≡ []
    empty [] e = refl
    empty (x ∷ xs) e = absurd (omega arith)

end_workers-frees :
    (missed : ℕ → Bool) (i : ℕ) (s : Conns) (ws : List Worker)
    → IsPool s ws
    → (s' : Conns) × (end_workers missed i s ws ≡ some s')
      × ((p : Ptr) → s'.sock_fd p ≡ (if has p (pool_connections ws) then none else s.sock_fd p))
unfolding end_workers
end_workers-frees missed i s [] pool = (s, refl, λ p. refl)
end_workers-frees missed i s (w ∷ ws) (is, apart, pool) = elim (Bool-cases (sleeps missed i w)) [
  | inl asleep ↦
      let (s', rest, freed) = end_workers-frees missed (i + 1) s ws pool in
      let none_own : w.connections ≡ [] = sleeps-empty missed i s w is asleep in
      (
        s',
        rw (asleep, end_workers) rest,
        λ p.
            freed p
            ∙ ap
                (λ (xs : List Ptr). if has p (xs ++ pool_connections ws) then none else s.sock_fd p)
                (sym none_own),
      )
  | inr awake ↦
      let (s₁, w₁, run, empty, is₁, gone, closed) =
        end_worker-frees s (record w { is_shutdown = true }) (told s w is) in
      let others : (p : Ptr) → has p (pool_connections ws) ≡ true → s₁.sock_fd p ≡ s.sock_fd p =
        λ p m. gone p ∙ elim (Bool-cases (has p w.connections)) [
          | inl mine ↦ cc (apart p mine)
          | inr other ↦ rw other
        ] in
      let (s', rest, freed) =
        end_workers-frees missed (i + 1) s₁ ws (IsPool-frame s s₁ ws others pool) in
      (
        s',
        rw (awake, end_workers) (rw (run, end_workers) rest),
        λ p.
            freed p
            ∙ rw (gone p, has-append p w.connections (pool_connections ws))
                (either (has p (pool_connections ws)) (has p w.connections) (s.sock_fd p)),
      )
]

-- Only a worker that has missed the signal sleeps.
pub some_sleeps-missed :
    (missed : ℕ → Bool) (i : ℕ) (ws : List Worker)
    → some_sleeps missed i ws ≡ true
    → (j : ℕ) × (missed j ≡ true)
unfolding some_sleeps sleeps
some_sleeps-missed missed i [] e = cc
some_sleeps-missed missed i (w ∷ ws) e = elim (Bool-cases (missed i)) [
  | inl there ↦ (i, there)
  | inr not_there ↦ some_sleeps-missed missed (i + 1) ws (rw not_there at e)
]

-- The end of a pool whose workers have arrays of the right lengths and distinct, allocated connections, and
-- share none, accesses no freed memory, and frees each connection of each worker and no other; its joins
-- return unless a worker without clients has missed its signal, and else it hangs.
pub threadpool_shutdown-frees :
    (missed : ℕ → Bool) (s : Conns) (ws : List Worker)
    → IsPool s ws
    → (s' : Conns) × (threadpool_shutdown missed s ws
        ≡ some (if some_sleeps missed 0 ws then hanging s' else joined s'))
      × ((p : Ptr) → s'.sock_fd p ≡ (if has p (pool_connections ws) then none else s.sock_fd p))
unfolding threadpool_shutdown
threadpool_shutdown-frees missed s ws pool =
    let (s', run, freed) = end_workers-frees missed 0 s ws pool in
    (s', rw (run, threadpool_shutdown) refl, freed)
