-- ===== src/Threadpool/Rounds/Replace.antt =====
-- One worker of a pool is replaced: what the pool keeps.
use os2_labs.Common.{
  ℕ, zero, suc, ◌≡◌, ◌≢◌, refl, ap, ◌∙◌, ◌⊎◌, inl, inr, true, false, some, List, [], ◌∷◌, arith,
  get_elem?, set, length, Bool-cases, has, has-append, ◌||◌, ℤ,
}
use os2_labs.Threadpool.{Ptr, Conns, Worker}
use os2_labs.Threadpool.Add.{IsWorker}
use os2_labs.Threadpool.Life.Shutdown.{pool_connections, IsPool, IsPool-frame, IsWorker-frame}

pub get_elem?-set :
    (ws : List Worker) (i j : ℕ) (w v : Worker)
    → get_elem? (set ws i w) j ≡ some v
    → ((j ≡ i) × (v ≡ w)) ⊎ ((j ≢ i) × (get_elem? ws j ≡ some v))
get_elem?-set [] i j w v e = cc
get_elem?-set (x ∷ ws) zero zero w v e = inl (refl, cc)
get_elem?-set (x ∷ ws) zero (suc j) w v e = inr (omega arith, e)
get_elem?-set (x ∷ ws) (suc i) zero w v e = inr (omega arith, e)
get_elem?-set (x ∷ ws) (suc i) (suc j) w v e = elim (get_elem?-set ws i j w v e) [
  | inl (same, is) ↦ inl (omega (arith, same), is)
  | inr (other, at_j) ↦ inr (λ same. other (omega (arith, same)), at_j)
]

pub get_elem?-set_self :
    (ws : List Worker) (i : ℕ) (w v : Worker)
    → get_elem? ws i ≡ some w
    → get_elem? (set ws i v) i ≡ some v
get_elem?-set_self [] i w v e = cc
get_elem?-set_self (x ∷ ws) zero w v e = refl
get_elem?-set_self (x ∷ ws) (suc i) w v e = get_elem?-set_self ws i w v e

pub length-set : (ws : List Worker) (i : ℕ) (w : Worker) → length (set ws i w) ≡ length ws
length-set [] i w = refl
length-set (x ∷ ws) zero w = refl
length-set (x ∷ ws) (suc i) w = omega (arith, length-set ws i w)

-- What a worker has, the pool has.
pub pool-has :
    (ws : List Worker) (i : ℕ) (w : Worker) (p : Ptr)
    → get_elem? ws i ≡ some w
    → has p w.connections ≡ true
    → has p (pool_connections ws) ≡ true
pool-has [] i w p at_i m = cc
pool-has (x ∷ ws) zero w p at_i m =
    let same : x ≡ w = cc in
    has-append p x.connections (pool_connections ws)
    ∙ (let m' : has p x.connections ≡ true = ap (λ (v : Worker). has p v.connections) same ∙ m in
        ground arith)
pool-has (x ∷ ws) (suc i) w p at_i m =
    has-append p x.connections (pool_connections ws) ∙ ground (arith, pool-has ws i w p at_i m)

pub pool-IsWorker :
    (s : Conns) (ws : List Worker) (i : ℕ) (w : Worker)
    → IsPool s ws
    → get_elem? ws i ≡ some w
    → IsWorker s w
pool-IsWorker s [] i w pool at_i = cc
pool-IsWorker s (x ∷ ws) zero w (is, apart, pool) at_i = let same : x ≡ w = cc in rw (← same) is
pool-IsWorker s (x ∷ ws) (suc i) w (is, apart, pool) at_i = pool-IsWorker s ws i w pool at_i

-- What the pool has is allocated.
pub pool-live :
    (s : Conns) (ws : List Worker) (p : Ptr)
    → IsPool s ws
    → has p (pool_connections ws) ≡ true
    → (fd : ℤ) × (s.sock_fd p ≡ some fd)
pool-live s [] p pool there = cc
pool-live s (w ∷ ws) p (is, apart, pool) there = elim (Bool-cases (has p w.connections)) [
  | inl mine ↦ is.live p mine
  | inr other ↦
      pool-live s ws p pool (ground (arith, has-append p w.connections (pool_connections ws)))
]

-- What the pool has after the replacement was its own before, or is what the worker has now.
pub pool-has-set :
    (ws : List Worker) (i : ℕ) (w' : Worker) (p : Ptr)
    → has p (pool_connections (set ws i w')) ≡ true
    → (has p (pool_connections ws) || has p w'.connections) ≡ true
pool-has-set [] i w' p m = cc
pool-has-set (x ∷ ws) zero w' p m = ground (
  arith,
  has-append p x.connections (pool_connections ws),
  has-append p w'.connections (pool_connections ws),
)
pool-has-set (x ∷ ws) (suc i) w' p m = ground (
  arith,
  has-append p x.connections (pool_connections ws),
  has-append p x.connections (pool_connections (set ws i w')),
  pool-has-set ws i w' p,
)

-- What the pool loses by the replacement was the old worker's, and is not the new one's.
pub pool-lost :
    (ws : List Worker) (i : ℕ) (w w' : Worker) (p : Ptr)
    → get_elem? ws i ≡ some w
    → has p (pool_connections ws) ≡ true
    → has p (pool_connections (set ws i w')) ≡ false
    → (has p w.connections ≡ true) × (has p w'.connections ≡ false)
pool-lost [] i w w' p at_i there out = cc
pool-lost (x ∷ ws) zero w w' p at_i there out =
    let same : x ≡ w = cc in
    let e : has p x.connections ≡ has p w.connections =
      ap (λ (v : Worker). has p v.connections) same in
    ground (
      arith,
      e,
      has-append p x.connections (pool_connections ws),
      has-append p w'.connections (pool_connections ws),
    )
pool-lost (x ∷ ws) (suc i) w w' p at_i there out =
    let before = has-append p x.connections (pool_connections ws) in
    let after = has-append p x.connections (pool_connections (set ws i w')) in
    pool-lost ws i w w' p at_i (ground arith) (ground arith)

-- A worker of the pool is replaced by one that is consistent in the new state; what it has got is of no
-- other worker, and the connections of the others are as they were.
pub set-IsPool :
    (s s' : Conns) (ws : List Worker) (i : ℕ) (w w' : Worker)
    → IsPool s ws
    → get_elem? ws i ≡ some w
    → IsWorker s' w'
    → ((p : Ptr)
        → has p w'.connections ≡ true
        → has p (pool_connections ws) ≡ true
        → has p w.connections ≡ true)
    → ((p : Ptr)
        → has p (pool_connections ws) ≡ true
        → has p w.connections ≡ false
        → s'.sock_fd p ≡ s.sock_fd p)
    → IsPool s' (set ws i w')
set-IsPool s s' [] i w w' pool at_i is' new same = cc
set-IsPool s s' (x ∷ ws) zero w w' (is, apart, pool) at_i is' new same =
    let e : x ≡ w = cc in
    let apart' : (p : Ptr) → has p w.connections ≡ true → has p (pool_connections ws) ≡ false =
      rw (← e) apart in
    let whole = λ (p : Ptr). has-append p x.connections (pool_connections ws) in
    (
      is',
      λ p m. elim (Bool-cases (has p (pool_connections ws))) [
        | inl other ↦ cc (apart' p (new p m (whole p ∙ ground arith)))
        | inr out ↦ out
      ],
      IsPool-frame s s' ws
          (λ p m. elim (Bool-cases (has p w.connections)) [
            | inl mine ↦ cc (apart' p mine)
            | inr out ↦ same p (whole p ∙ ground arith) out
          ])
          pool,
    )
set-IsPool s s' (x ∷ ws) (suc i) w w' (is, apart, pool) at_i is' new same =
    let whole = λ (p : Ptr). has-append p x.connections (pool_connections ws) in
    let away : (p : Ptr) → has p x.connections ≡ true → has p w.connections ≡ false = λ p m.
      elim (Bool-cases (has p w.connections)) [
        | inl mine ↦ cc (apart p m, pool-has ws i w p at_i mine)
        | inr out ↦ out
      ] in
    (
      IsWorker-frame s s' x (λ p m. same p (whole p ∙ ground arith) (away p m)) is,
      λ p m. elim (Bool-cases (has p (pool_connections (set ws i w')))) [
        | inl there ↦ elim (Bool-cases (has p w'.connections)) [
          | inl got ↦ cc (new p got (whole p ∙ ground arith), away p m)
          | inr out ↦ ground (arith, pool-has-set ws i w' p, apart p m)
        ]
        | inr out ↦ out
      ],
      set-IsPool s s' ws i w w' pool at_i is' (λ p got there. new p got (whole p ∙ ground arith))
          (λ p there out. same p (whole p ∙ ground arith) out),
    )
