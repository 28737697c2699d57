-- ===== src/Locks/Steps.antt =====
-- What one step of a thread does to the lock and the counter.
use os2_labs.Common.{
  ℕ, ◌+◌, ◌≤◌, ◌≡◌, refl, ◌⊎◌, inl, inr, Bool, true, arith, ◌==◌, Bool-cases, ==_iff,
}
use os2_labs.Locks.{
  status_lock, status_unlock, count_iteration, Thread, trying, about_to_wait, sleeping, critical,
  leaving, waking, over, loaded, Shared, counted, spin_step, mutex_step,
}

-- Whether a thread has the lock, as a number.
abbrev pub inside : Thread → ℕ
inside (critical i) = 1
inside (loaded i v) = 1
inside (leaving i) = 1
inside _ = 0

-- The increments that a thread has stored.
abbrev pub stored : Thread → ℕ
stored (leaving i) = i + 1
stored (waking i) = i + 1
stored (trying i) = i
stored (about_to_wait i) = i
stored (sleeping i) = i
stored (critical i) = i
stored (over i) = i
stored (loaded i v) = i

-- What a thread has loaded is the counter, and a thread whose loop is over has gone through it.
abbrev pub Current : Shared → Thread → Type 0
Current sh (loaded i v) = v ≡ sh.counter
Current sh (over i) = i ≡ count_iteration
Current sh _ = Unit

-- What a step of one thread does to these numbers.
pub record Local (sh : Shared) (th : Thread) (sh' : Shared) (th' : Thread) : Type 0 where
  pub balance : inside th' + sh'.lock ≡ inside th + sh.lock
  pub credit : sh'.counter + stored th ≡ sh.counter + stored th'
  pub current : Current sh' th'
  pub writer : (inside th ≡ 1) ⊎ (sh'.counter ≡ sh.counter)

quiet :
    (sh : Shared) (th th' : Thread)
    → inside th' ≡ inside th
    → stored th ≡ stored th'
    → Current sh th'
    → Local sh th sh th'
quiet sh th th' i e c = record {
  balance = omega (arith, i);
  credit = omega (arith, e);
  current = c;
  writer = inr refl;
}

counted-Local :
    (sh : Shared) (th : Thread) → Current sh th → Local sh th (counted sh th).0 (counted sh th).1
counted-Local sh (critical i) c = record {
  balance = refl;
  credit = refl;
  current = refl;
  writer = inl refl;
}
counted-Local sh (loaded i v) c = record {
  balance = refl;
  credit = omega (arith, c);
  current = tt;
  writer = inl refl;
}
counted-Local sh (trying i) c = quiet sh (trying i) (trying i) refl refl c
counted-Local sh (about_to_wait i) c = quiet sh (about_to_wait i) (about_to_wait i) refl refl c
counted-Local sh (sleeping i) c = quiet sh (sleeping i) (sleeping i) refl refl c
counted-Local sh (leaving i) c = quiet sh (leaving i) (leaving i) refl refl c
counted-Local sh (waking i) c = quiet sh (waking i) (waking i) refl refl c
counted-Local sh (over i) c = quiet sh (over i) (over i) refl refl c

-- Taking the lock, and giving it back.
enter-Local :
    (sh : Shared) (i : ℕ)
    → (sh.lock == status_unlock) ≡ true
    → Local sh (trying i) (record sh { lock = status_lock }) (critical i)
enter-Local sh i free =
    let e : sh.lock ≡ 1 = (==_iff sh.lock 1).0 free in
    record { balance = omega (arith, e); credit = refl; current = tt; writer = inr refl }

leave-Local :
    (sh : Shared) (i : ℕ) (th : Thread)
    → (sh.lock == status_lock) ≡ true
    → inside th ≡ 0
    → stored th ≡ i + 1
    → Current (record sh { lock = status_unlock }) th
    → Local sh (leaving i) (record sh { lock = status_unlock }) th
leave-Local sh i th taken out same c =
    let e : sh.lock ≡ 0 = (==_iff sh.lock 0).0 taken in
    record {
      balance = omega (arith, e, out);
      credit = omega (arith, same);
      current = c;
      writer = inr refl;
    }

pub spin_step-Local :
    (spurious : Bool) (sh : Shared) (th : Thread)
    → inside th + sh.lock ≤ 1
    → Current sh th
    → Local sh th (spin_step spurious sh th).0 (spin_step spurious sh th).1
unfolding spin_step
spin_step-Local spurious sh (trying i) one c = elim (Bool-cases (i == count_iteration)) [
  | inl end ↦ rw end (quiet sh (trying i) (over i) refl refl ((==_iff i count_iteration).0 end))
  | inr more ↦ rw more (elim (Bool-cases (sh.lock == status_unlock)) [
    | inl free ↦ elim (Bool-cases spurious) [
      | inl fails ↦ rw (free, fails) (quiet sh (trying i) (trying i) refl refl tt)
      | inr swaps ↦ rw (free, swaps) (enter-Local sh i free)
    ]
    | inr taken ↦ rw taken (quiet sh (trying i) (trying i) refl refl tt)
  ])
]
spin_step-Local spurious sh (leaving i) one c =
    let taken : (sh.lock == status_lock) ≡ true = (==_iff sh.lock 0).1 (omega (arith, one)) in
    rw taken (leave-Local sh i (trying (i + 1)) taken refl refl tt)
spin_step-Local spurious sh (critical i) one c = counted-Local sh (critical i) c
spin_step-Local spurious sh (loaded i v) one c = counted-Local sh (loaded i v) c
spin_step-Local spurious sh (about_to_wait i) one c = counted-Local sh (about_to_wait i) c
spin_step-Local spurious sh (sleeping i) one c = counted-Local sh (sleeping i) c
spin_step-Local spurious sh (waking i) one c = counted-Local sh (waking i) c
spin_step-Local spurious sh (over i) one c = counted-Local sh (over i) c

pub mutex_step-Local :
    (sh : Shared) (th : Thread)
    → inside th + sh.lock ≤ 1
    → Current sh th
    → Local sh th (mutex_step sh th).0 (mutex_step sh th).1
unfolding mutex_step
mutex_step-Local sh (trying i) one c = elim (Bool-cases (i == count_iteration)) [
  | inl end ↦ rw end (quiet sh (trying i) (over i) refl refl ((==_iff i count_iteration).0 end))
  | inr more ↦ rw more (elim (Bool-cases (sh.lock == status_unlock)) [
    | inl free ↦ rw free (enter-Local sh i free)
    | inr taken ↦ rw taken (quiet sh (trying i) (about_to_wait i) refl refl tt)
  ])
]
mutex_step-Local sh (about_to_wait i) one c = elim (Bool-cases (sh.lock == status_lock)) [
  | inl taken ↦ rw taken (quiet sh (about_to_wait i) (sleeping i) refl refl tt)
  | inr free ↦ rw free (quiet sh (about_to_wait i) (trying i) refl refl tt)
]
mutex_step-Local sh (sleeping i) one c = quiet sh (sleeping i) (trying i) refl refl tt
mutex_step-Local sh (leaving i) one c =
    let taken : (sh.lock == status_lock) ≡ true = (==_iff sh.lock 0).1 (omega (arith, one)) in
    rw taken (leave-Local sh i (waking i) taken refl refl tt)
mutex_step-Local sh (waking i) one c = quiet sh (waking i) (trying (i + 1)) refl refl tt
mutex_step-Local sh (critical i) one c = counted-Local sh (critical i) c
mutex_step-Local sh (loaded i v) one c = counted-Local sh (loaded i v) c
mutex_step-Local sh (over i) one c = counted-Local sh (over i) c
