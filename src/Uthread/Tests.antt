-- ===== src/Uthread/Tests.antt =====
-- A manager of three threads, the second of which is finished.
use os2_labs.Common.{
  ℕ, ◌+◌, ◌%◌, ◌≤◌, ◌<◌, ◌≡◌, refl, ◌⊎◌, Bool, true, false, none, some, arith, ◌==◌, if◌then◌else◌,
  pos, negsuc, zero, suc,
}
use os2_labs.Uthread.{
  Uthread, Manager, can_run, stayed, switched, uschedule, returned, overflow, uthread_create,
  max_threads,
}
use os2_labs.Uthread.Schedule.{NextUp, IsManager, uschedule-NextUp, uthread_create-IsManager}

abbrev uthread : ℕ → Bool → Uthread
uthread id over = record { uthread_id = id; is_finished = over }

abbrev three : Manager
three = record {
  uthreads = λ i.
      (if i == 0
        then some (uthread 0 false)
        else if i == 1
        then some (uthread 2 true)
        else if i == 2
        then some (uthread 3 false)
        else none);
  uthread_count = 3;
  uthread_cur = 0;
}

three-IsManager : IsManager three
three-IsManager = record { present = three-present; within = omega arith; current = omega arith }
  where
    three-present : (i : ℕ) → i < 3 → (u : Uthread) × (three.uthreads i ≡ some u)
    three-present zero lt = (uthread 0 false, refl)
    three-present (suc zero) lt = (uthread 2 true, refl)
    three-present (suc (suc zero)) lt = (uthread 3 false, refl)
    three-present (suc (suc (suc i))) lt = absurd (omega arith)

uschedule-NextUp_example :
    (d : ℕ) × (d ≤ three.uthread_count)
    × NextUp three three.uthread_cur d
    × (uschedule 3 three
        ≡ some (
          record three { uthread_cur = (three.uthread_cur + d) % three.uthread_count },
          if three.uthread_cur == (three.uthread_cur + d) % three.uthread_count
              then stayed
              else switched ((three.uthread_cur + d) % three.uthread_count),
        ))
uschedule-NextUp_example =
    uschedule-NextUp 3 three 2 (omega arith) (omega arith) (omega arith) refl (omega arith)

uthread_create-IsManager_example :
    (((true ≡ false) ⊎ (true ≡ false))
      × (uthread_create true true three ≡ returned three (negsuc 0)))
    ⊎ ((three.uthread_count < max_threads)
        × ((m' : Manager) × (uthread_create true true three ≡ returned m' (pos 0))
            × IsManager m'
            × (m'.uthread_count ≡ three.uthread_count + 1)
            × (can_run m' three.uthread_count ≡ true)
            × ((i : ℕ) → i < three.uthread_count → m'.uthreads i ≡ three.uthreads i)))
    ⊎ ((three.uthread_count ≡ max_threads) × (uthread_create true true three ≡ overflow))
uthread_create-IsManager_example = uthread_create-IsManager true true three three-IsManager
