-- ===== src/Storage/Deadlock.antt =====
-- No deadlock in the programs of 2/2.3/mutex and 2/2.3/spinlock.
use os2_labs.Common.{ℕ, zero, suc, ◌-◌, ◌<◌, ◌≡◌, ◌≢◌, Bool, true, none, some, List, arith, IsNodup}
use os2_labs.Storage.{Ptr, null, Shared, Thread, to, blocked}
use os2_labs.Storage.Chain.{Chain}
use os2_labs.Storage.Invariant.{Held}
use os2_labs.Storage.Ownership.{locks, fits, Settles, count_step-Settles, swap_step-Settles}
use os2_labs.Storage.Waiting.{Moves-to, Goes, count_step-Goes, swap_step-Goes}
use os2_labs.Storage.Interleaving.{mutex_main-IsSafe, spin_main-IsSafe}
use os2_labs.Storage.Program.{
  System, Reach, initial, mutex_main, mutex_count_asc, mutex_count_desc, mutex_count_eq,
  mutex_swapper1, mutex_swapper2, mutex_swapper3, spin_main, spin_count_asc, spin_count_desc,
  spin_count_eq, spin_swapper1, spin_swapper2, spin_swapper3,
}
use os2_labs.Storage.Moving.{threads_count, counts, IsLively, some-Moves}

mutex_main-idle :
    (t : ℕ) (flip : Bool) (sh : Shared) (th : Thread)
    → mutex_main (suc (suc (suc (suc (suc (suc t)))))) flip sh th ≡ blocked
unfolding mutex_main
mutex_main-idle t flip sh th = ground arith

mutex_main-Settles :
    (t : ℕ) (flip : Bool) (sh : Shared) (th : Thread)
    → fits (counts t) th ≡ true
    → ((p : Ptr) → locks th p ≡ true → sh.owner p ≡ some t)
    → Settles (counts t) t sh th (mutex_main t flip sh th)
unfolding mutex_main mutex_count_asc mutex_count_desc mutex_count_eq mutex_swapper1 mutex_swapper2
    mutex_swapper3
mutex_main-Settles zero flip sh th fit mine = count_step-Settles _ _ _ _ 0 sh th fit
mutex_main-Settles (suc zero) flip sh th fit mine = count_step-Settles _ _ _ _ 1 sh th fit
mutex_main-Settles (suc (suc zero)) flip sh th fit mine = count_step-Settles _ _ _ _ 2 sh th fit
mutex_main-Settles (suc (suc (suc zero))) flip sh th fit mine =
    swap_step-Settles _ flip 3 sh th fit mine
mutex_main-Settles (suc (suc (suc (suc zero)))) flip sh th fit mine =
    swap_step-Settles _ flip 4 sh th fit mine
mutex_main-Settles (suc (suc (suc (suc (suc zero))))) flip sh th fit mine =
    swap_step-Settles _ flip 5 sh th fit mine
mutex_main-Settles (suc (suc (suc (suc (suc (suc t)))))) flip sh th fit mine =
    rw (mutex_main-idle t flip sh th) tt

mutex_main-Goes :
    (t : ℕ) (flip : Bool) (sh : Shared) (xs : List Ptr) (th : Thread)
    → t < threads_count
    → Chain sh.next sh.first xs
    → IsNodup xs
    → sh.first ≢ null
    → fits (counts t) th ≡ true
    → Held sh xs t th
    → Goes sh xs th (mutex_main t flip sh th)
unfolding mutex_main mutex_count_asc mutex_count_desc mutex_count_eq mutex_swapper1 mutex_swapper2
    mutex_swapper3
mutex_main-Goes zero flip sh xs th lt c d ne fit h = count_step-Goes 0 sh xs c d ne _ _ _ _ th fit h
mutex_main-Goes (suc zero) flip sh xs th lt c d ne fit h =
    count_step-Goes 1 sh xs c d ne _ _ _ _ th fit h
mutex_main-Goes (suc (suc zero)) flip sh xs th lt c d ne fit h =
    count_step-Goes 2 sh xs c d ne _ _ _ _ th fit h
mutex_main-Goes (suc (suc (suc zero))) flip sh xs th lt c d ne fit h =
    swap_step-Goes 3 sh xs c d ne _ flip th fit h
mutex_main-Goes (suc (suc (suc (suc zero)))) flip sh xs th lt c d ne fit h =
    swap_step-Goes 4 sh xs c d ne _ flip th fit h
mutex_main-Goes (suc (suc (suc (suc (suc zero))))) flip sh xs th lt c d ne fit h =
    swap_step-Goes 5 sh xs c d ne _ flip th fit h
mutex_main-Goes (suc (suc (suc (suc (suc (suc t)))))) flip sh xs th lt c d ne fit h =
    absurd (omega arith)

mutex_main-IsLively : IsLively mutex_main
mutex_main-IsLively = record {
  settles = mutex_main-Settles;
  goes = mutex_main-Goes;
  idle = λ t flip sh th ge.
      let e : t ≡ suc (suc (suc (suc (suc (suc (t - 6)))))) = omega arith in
      rw e (mutex_main-idle (t - 6) flip sh th);
}

spin_main-idle :
    (t : ℕ) (flip : Bool) (sh : Shared) (th : Thread)
    → spin_main (suc (suc (suc (suc (suc (suc t)))))) flip sh th ≡ blocked
unfolding spin_main
spin_main-idle t flip sh th = ground arith

spin_main-Settles :
    (t : ℕ) (flip : Bool) (sh : Shared) (th : Thread)
    → fits (counts t) th ≡ true
    → ((p : Ptr) → locks th p ≡ true → sh.owner p ≡ some t)
    → Settles (counts t) t sh th (spin_main t flip sh th)
unfolding spin_main spin_count_asc spin_count_desc spin_count_eq spin_swapper1 spin_swapper2
    spin_swapper3
spin_main-Settles zero flip sh th fit mine = count_step-Settles _ _ _ _ 0 sh th fit
spin_main-Settles (suc zero) flip sh th fit mine = count_step-Settles _ _ _ _ 1 sh th fit
spin_main-Settles (suc (suc zero)) flip sh th fit mine = count_step-Settles _ _ _ _ 2 sh th fit
spin_main-Settles (suc (suc (suc zero))) flip sh th fit mine =
    swap_step-Settles _ flip 3 sh th fit mine
spin_main-Settles (suc (suc (suc (suc zero)))) flip sh th fit mine =
    swap_step-Settles _ flip 4 sh th fit mine
spin_main-Settles (suc (suc (suc (suc (suc zero))))) flip sh th fit mine =
    swap_step-Settles _ flip 5 sh th fit mine
spin_main-Settles (suc (suc (suc (suc (suc (suc t)))))) flip sh th fit mine =
    rw (spin_main-idle t flip sh th) tt

spin_main-Goes :
    (t : ℕ) (flip : Bool) (sh : Shared) (xs : List Ptr) (th : Thread)
    → t < threads_count
    → Chain sh.next sh.first xs
    → IsNodup xs
    → sh.first ≢ null
    → fits (counts t) th ≡ true
    → Held sh xs t th
    → Goes sh xs th (spin_main t flip sh th)
unfolding spin_main spin_count_asc spin_count_desc spin_count_eq spin_swapper1 spin_swapper2
    spin_swapper3
spin_main-Goes zero flip sh xs th lt c d ne fit h = count_step-Goes 0 sh xs c d ne _ _ _ _ th fit h
spin_main-Goes (suc zero) flip sh xs th lt c d ne fit h =
    count_step-Goes 1 sh xs c d ne _ _ _ _ th fit h
spin_main-Goes (suc (suc zero)) flip sh xs th lt c d ne fit h =
    count_step-Goes 2 sh xs c d ne _ _ _ _ th fit h
spin_main-Goes (suc (suc (suc zero))) flip sh xs th lt c d ne fit h =
    swap_step-Goes 3 sh xs c d ne _ flip th fit h
spin_main-Goes (suc (suc (suc (suc zero)))) flip sh xs th lt c d ne fit h =
    swap_step-Goes 4 sh xs c d ne _ flip th fit h
spin_main-Goes (suc (suc (suc (suc (suc zero))))) flip sh xs th lt c d ne fit h =
    swap_step-Goes 5 sh xs c d ne _ flip th fit h
spin_main-Goes (suc (suc (suc (suc (suc (suc t)))))) flip sh xs th lt c d ne fit h =
    absurd (omega arith)

spin_main-IsLively : IsLively spin_main
spin_main-IsLively = record {
  settles = spin_main-Settles;
  goes = spin_main-Goes;
  idle = λ t flip sh th ge.
      let e : t ≡ suc (suc (suc (suc (suc (suc (t - 6)))))) = omega arith in
      rw e (spin_main-idle (t - 6) flip sh th);
}

-- The program with mutexes has no deadlock: started on a list that is not empty, with no node locked and
-- all its threads outside of their loops, it reaches only systems in which one of its six threads can take a
-- step, whatever `rand` returns, though the swaps change the order in which the locks are taken.
pub mutex_main-moves :
    (sh : Shared) (xs : List Ptr) (sys : System) (flip : Bool)
    → Chain sh.next sh.first xs
    → IsNodup xs
    → sh.first ≢ null
    → ((p : Ptr) → sh.owner p ≡ none)
    → Reach mutex_main (initial sh) sys
    → (t : ℕ) × (t < threads_count)
      × (sh' : Shared) × (th' : Thread) × (mutex_main t flip sys.shared (sys.threads t)
          ≡ to sh' th')
mutex_main-moves sh xs sys flip c d ne unlocked r =
    let (t, lt, moves) =
      some-Moves mutex_main mutex_main-IsLively mutex_main-IsSafe sh xs c d ne unlocked sys flip
        r in
    let (sh', th', e) = Moves-to (mutex_main t flip sys.shared (sys.threads t)) moves in
    (t, lt, sh', th', e)

-- The same for the program with spinlocks: started on a list that is not empty, with no node locked and all
-- its threads outside of their loops, it reaches only systems in which one of its six threads can take a step.
pub spin_main-moves :
    (sh : Shared) (xs : List Ptr) (sys : System) (flip : Bool)
    → Chain sh.next sh.first xs
    → IsNodup xs
    → sh.first ≢ null
    → ((p : Ptr) → sh.owner p ≡ none)
    → Reach spin_main (initial sh) sys
    → (t : ℕ) × (t < threads_count)
      × (sh' : Shared) × (th' : Thread) × (spin_main t flip sys.shared (sys.threads t) ≡ to sh' th')
spin_main-moves sh xs sys flip c d ne unlocked r =
    let (t, lt, moves) =
      some-Moves spin_main spin_main-IsLively spin_main-IsSafe sh xs c d ne unlocked sys flip r in
    let (sh', th', e) = Moves-to (spin_main t flip sys.shared (sys.threads t)) moves in
    (t, lt, sh', th', e)
