-- ===== src/Locks/Tests.antt =====
-- Two threads, the first of which has taken the lock; and one thread that runs alone to its end.
use os2_labs.Common.{
  ℕ, zero, suc, ◌+◌, ◌*◌, ◌≤◌, ◌<◌, ◌≡◌, refl, ap, true, false, arith, ◌==◌, ne→==,
}
use os2_labs.Locks.{
  count_iteration, Thread, trying, over, critical, loaded, leaving, waking, Shared, spin_step,
  mutex_step, initial, System, after, begun, MutexReach, mutex_start, mutex_next,
}
use os2_labs.Locks.Steps.{inside}
use os2_labs.Locks.Exclusion.{is_over, mutex_step-exclusive, mutex_step-counter}

abbrev first : ℕ
first = 0

abbrev spin_taken : System
spin_taken = after begun 0 (spin_step false initial (trying 0))

abbrev mutex_taken : System
mutex_taken = after begun 0 (mutex_step initial (trying 0))

spin_inside : inside (spin_taken.threads 0) ≡ 1
unfolding spin_step
spin_inside = refl

mutex_inside : inside (mutex_taken.threads 0) ≡ 1
unfolding mutex_step
mutex_inside = refl

mutex_step-exclusive_example : first ≡ first
mutex_step-exclusive_example =
    mutex_step-exclusive 2 mutex_taken first first (mutex_next begun 0 (omega arith) mutex_start)
      (omega arith) (omega arith) mutex_inside mutex_inside

-- A thread that runs alone, at a state of the program.
abbrev Alone : Shared → Thread → Type 0
Alone sh th = (s : System) × MutexReach 1 s × (s.shared ≡ sh) × (s.threads 0 ≡ th)

alone_next :
    (sh : Shared) (th : Thread) (sh' : Shared) (th' : Thread)
    → mutex_step sh th ≡ (sh', th')
    → Alone sh th
    → Alone sh' th'
alone_next sh th sh' th' e (s, r, e_sh, e_th) =
    let now : mutex_step s.shared (s.threads 0) ≡ (sh', th') = rw (e_sh, e_th) e in
    (
      after s 0 (mutex_step s.shared (s.threads 0)),
      mutex_next s 0 (omega arith) r,
      ap (λ p. p.0) now,
      ap (λ p. p.1) now,
    )

abbrev free_at : ℕ → Shared
free_at k = record { lock = 1; counter = k }

abbrev taken_at : ℕ → Shared
taken_at k = record { lock = 0; counter = k }

alone_round :
    (k : ℕ)
    → k < count_iteration
    → Alone (free_at k) (trying k)
    → Alone (free_at (k + 1)) (trying (k + 1))
unfolding mutex_step
alone_round k less a =
    let not_end : (k == count_iteration) ≡ false = ne→== k count_iteration (λ e. omega arith) in
    let a₁ = alone_next (free_at k) (trying k) (taken_at k) (critical k) (rw not_end) a in
    let a₂ = alone_next (taken_at k) (critical k) (taken_at k) (loaded k k) refl a₁ in
    let a₃ = alone_next (taken_at k) (loaded k k) (taken_at (k + 1)) (leaving k) refl a₂ in
    let a₄ = alone_next (taken_at (k + 1)) (leaving k) (free_at (k + 1)) (waking k) refl a₃ in
    alone_next (free_at (k + 1)) (waking k) (free_at (k + 1)) (trying (k + 1)) refl a₄

alone_rounds : (k : ℕ) → k ≤ count_iteration → Alone (free_at k) (trying k)
alone_rounds zero le = (begun, mutex_start, refl, refl)
alone_rounds (suc k) le =
    let e : k + 1 ≡ suc k = omega arith in
    rw (← e) (alone_round k (omega arith) (alone_rounds k (omega arith)))

alone_end : Alone (free_at count_iteration) (over count_iteration)
unfolding mutex_step
alone_end =
    alone_next (free_at count_iteration) (trying count_iteration) (free_at count_iteration)
      (over count_iteration) refl (alone_rounds count_iteration (omega arith))

alone_over : (t : ℕ) → t < 1 → is_over (alone_end.0.threads t) ≡ true
alone_over zero lt = ap is_over alone_end.3
alone_over (suc t) lt = absurd (omega arith)

mutex_step-counter_example : alone_end.0.shared.counter ≡ 1 * count_iteration
mutex_step-counter_example = mutex_step-counter 1 alone_end.0 alone_end.1 alone_over
