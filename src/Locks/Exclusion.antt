-- ===== src/Locks/Exclusion.antt =====
-- Mutual exclusion, and the value of the counter.
use os2_labs.Common.{
  ℕ, ◌+◌, ◌*◌, ◌≤◌, ◌<◌, ◌≡◌, ◌≢◌, refl, sym, ◌∙◌, ◌⊎◌, inl, inr, Bool, true, false, arith, ◌==◌,
  Bool-cases, ne_of_==, ==_refl, dec_lt,
}
use os2_labs.Locks.{
  count_iteration, Thread, trying, about_to_wait, sleeping, critical, leaving, waking, over, loaded,
  Shared, spin_step, mutex_step, System, after, begun, SpinReach, spin_start, spin_next, MutexReach,
  mutex_start, mutex_next,
}
use os2_labs.Locks.Sums.{sum, sum-update, sum_one, sum_two, sum_const}
use os2_labs.Locks.Steps.{inside, stored, Current, Local, spin_step-Local, mutex_step-Local}

-- At most one of `n` threads has the lock, which then is taken, and it is free if none has; the
-- counter is the number of the increments that are stored.
pub record IsLocked (n : ℕ) (s : System) : Type 0 where
  pub one : sum (λ t. inside (s.threads t)) n + s.shared.lock ≡ 1
  pub total : s.shared.counter ≡ sum (λ t. stored (s.threads t)) n
  pub current : (t : ℕ) → t < n → Current s.shared (s.threads t)

one_of :
    (n : ℕ) (s : System) (t : ℕ) → IsLocked n s → t < n → inside (s.threads t) + s.shared.lock ≤ 1
one_of n s t is lt = omega (arith, is.one, sum_one (λ u. inside (s.threads u)) t n lt)

-- Two threads that have the lock are the same.
same_of :
    (n : ℕ) (s : System) (t u : ℕ)
    → IsLocked n s
    → t < n
    → u < n
    → inside (s.threads t) ≡ 1
    → inside (s.threads u) ≡ 1
    → t ≡ u
same_of n s t u is t_lt u_lt t_in u_in = elim (dec_lt t u) [
  | yes less ↦
      absurd
        (omega (arith, is.one, t_in, u_in, sum_two (λ v. inside (s.threads v)) t u n less u_lt))
  | no not_less ↦ elim (dec_lt u t) [
    | yes more ↦
        absurd
          (omega (arith, is.one, t_in, u_in, sum_two (λ v. inside (s.threads v)) u t n more t_lt))
    | no not_more ↦ omega arith
  ]
]

-- What a thread relies on stays, if the counter stays or another has the lock.
Current-other :
    (n : ℕ) (s : System) (t u : ℕ) (sh' : Shared)
    → IsLocked n s
    → t < n
    → u < n
    → u ≢ t
    → (inside (s.threads t) ≡ 1) ⊎ (sh'.counter ≡ s.shared.counter)
    → (th : Thread) → s.threads u ≡ th
    → Current s.shared th
    → Current sh' th
Current-other n s t u sh' is t_lt u_lt ne (inl writer) (loaded i v) e c =
    absurd (ne (sym (same_of n s t u is t_lt u_lt writer (rw e))))
Current-other n s t u sh' is t_lt u_lt ne (inr same) (loaded i v) e c = c ∙ sym same
Current-other n s t u sh' is t_lt u_lt ne w (over i) e c = c
Current-other n s t u sh' is t_lt u_lt ne w (trying i) e c = tt
Current-other n s t u sh' is t_lt u_lt ne w (about_to_wait i) e c = tt
Current-other n s t u sh' is t_lt u_lt ne w (sleeping i) e c = tt
Current-other n s t u sh' is t_lt u_lt ne w (critical i) e c = tt
Current-other n s t u sh' is t_lt u_lt ne w (leaving i) e c = tt
Current-other n s t u sh' is t_lt u_lt ne w (waking i) e c = tt

after-IsLocked :
    (n : ℕ) (s : System) (t : ℕ) (sh' : Shared) (th' : Thread)
    → t < n
    → IsLocked n s
    → Local s.shared (s.threads t) sh' th'
    → IsLocked n (after s t (sh', th'))
after-IsLocked n s t sh' th' lt is l =
    let ths = (after s t (sh', th')).threads in
    let ins =
      sum-update (λ u. inside (s.threads u)) (λ u. inside (ths u)) t n lt (λ u other. rw other) in
    let sts =
      sum-update (λ u. stored (s.threads u)) (λ u. stored (ths u)) t n lt (λ u other. rw other) in
    let at_in : inside (ths t) ≡ inside th' = rw (==_refl t) in
    let at_st : stored (ths t) ≡ stored th' = rw (==_refl t) in
    record {
      one = omega (arith, is.one, ins, at_in, l.balance);
      total = omega (arith, is.total, sts, at_st, l.credit);
      current = λ u u_lt. elim (Bool-cases (u == t)) [
        | inl here ↦ rw here l.current
        | inr other ↦ rw other (
            Current-other n s t u sh' is lt u_lt (ne_of_== u t other) l.writer (s.threads u) refl
              (is.current u u_lt))
      ];
    }

begun-IsLocked : (n : ℕ) → IsLocked n begun
begun-IsLocked n = record {
  one =
      let none_in : sum (λ t. inside (begun.threads t)) n ≡ n * 0 =
        sum_const (λ t. inside (begun.threads t)) 0 n (λ t lt. refl) in
      omega (arith, none_in);
  total =
      let none_st : sum (λ t. stored (begun.threads t)) n ≡ n * 0 =
        sum_const (λ t. stored (begun.threads t)) 0 n (λ t lt. refl) in
      omega (arith, none_st);
  current = λ t lt. tt;
}

SpinReach-IsLocked : (n : ℕ) (s : System) → SpinReach n s → IsLocked n s
SpinReach-IsLocked n s spin_start = begun-IsLocked n
SpinReach-IsLocked n s (spin_next a t spurious lt r) =
    let is = SpinReach-IsLocked n a r in
    let step = spin_step spurious a.shared (a.threads t) in
    after-IsLocked n a t step.0 step.1 lt is
      (spin_step-Local spurious a.shared (a.threads t) (one_of n a t is lt) (is.current t lt))

MutexReach-IsLocked : (n : ℕ) (s : System) → MutexReach n s → IsLocked n s
MutexReach-IsLocked n s mutex_start = begun-IsLocked n
MutexReach-IsLocked n s (mutex_next a t lt r) =
    let is = MutexReach-IsLocked n a r in
    let step = mutex_step a.shared (a.threads t) in
    after-IsLocked n a t step.0 step.1 lt is
      (mutex_step-Local a.shared (a.threads t) (one_of n a t is lt) (is.current t lt))

-- A thread past its loop.
abbrev pub is_over : Thread → Bool
is_over (over i) = true
is_over _ = false

over_all :
    (n : ℕ) (s : System)
    → IsLocked n s
    → ((t : ℕ) → t < n → is_over (s.threads t) ≡ true)
    → s.shared.counter ≡ n * count_iteration
over_all n s is all_over =
    is.total
    ∙ sum_const (λ t. stored (s.threads t)) count_iteration n
        (λ t lt. through s.shared (s.threads t) (all_over t lt) (is.current t lt))
  where
    through :
        (sh : Shared) (th : Thread)
        → is_over th ≡ true
        → Current sh th
        → stored th ≡ count_iteration
    through sh (over i) o c = c
    through sh (trying i) o c = cc
    through sh (about_to_wait i) o c = cc
    through sh (sleeping i) o c = cc
    through sh (critical i) o c = cc
    through sh (leaving i) o c = cc
    through sh (waking i) o c = cc
    through sh (loaded i v) o c = cc

-- Under the spinlock, however the steps of `n` threads interleave, two threads that are between taking
-- the lock and giving it back are the same.
pub spin_step-exclusive :
    (n : ℕ) (s : System) (t u : ℕ)
    → SpinReach n s
    → t < n
    → u < n
    → inside (s.threads t) ≡ 1
    → inside (s.threads u) ≡ 1
    → t ≡ u
spin_step-exclusive n s t u r = same_of n s t u (SpinReach-IsLocked n s r)

-- Under the mutex, however the steps of `n` threads interleave, two threads that are between taking
-- the lock and giving it back are the same.
pub mutex_step-exclusive :
    (n : ℕ) (s : System) (t u : ℕ)
    → MutexReach n s
    → t < n
    → u < n
    → inside (s.threads t) ≡ 1
    → inside (s.threads u) ≡ 1
    → t ≡ u
mutex_step-exclusive n s t u r = same_of n s t u (MutexReach-IsLocked n s r)

-- Once all of the `n` threads under the mutex are past their loops, no increment is lost: the counter is
-- `n` times the number of the iterations.
pub mutex_step-counter :
    (n : ℕ) (s : System)
    → MutexReach n s
    → ((t : ℕ) → t < n → is_over (s.threads t) ≡ true)
    → s.shared.counter ≡ n * count_iteration
mutex_step-counter n s r all_over = over_all n s (MutexReach-IsLocked n s r) all_over
