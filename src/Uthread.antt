-- ===== src/Uthread.antt =====
-- 1/1.7/uthread.[ch]: user threads that take turns.
--
-- The array `uthreads` is a function from its indices to what the pointer there leads to, `none` for
-- NULL. `swapcontext` is not modelled: `switched` says which thread it goes to. Whether `mmap` and
-- `getcontext` succeed are arguments.
pub mod Schedule
mod Tests
use os2_labs.Common.{
  ℕ, zero, suc, ◌+◌, ◌%◌, Bool, true, false, not, Option, none, some, ◌==◌, ltb, leb, if◌then◌else◌,
  ℤ, pos, negsuc,
}

abbrev pub max_threads : ℕ
max_threads = 10

pub record Uthread : Type 0 where
  pub uthread_id : ℕ
  pub is_finished : Bool

pub record Manager : Type 0 where
  pub uthreads : ℕ → Option Uthread
  pub uthread_count : ℕ
  pub uthread_cur : ℕ

abbrev pub is_thread_finished : Uthread → Bool
is_thread_finished utid = utid.is_finished

abbrev finished_cell : Option Uthread → Bool
finished_cell none = true
finished_cell (some u) = is_thread_finished u

-- The thread of an index can be switched to.
abbrev pub can_run : Manager → ℕ → Bool
can_run m i = not (finished_cell (m.uthreads i))

-- The loop of `uschedule` from the index `i`, on fuel; `none` is a loop that goes on.
unfoldable pub advance : ℕ → Manager → ℕ → Option ℕ
advance zero m i = none
advance (suc fuel) m i =
    let next = (i + 1) % m.uthread_count in
    let rest = advance fuel m next in if can_run m next then some next else rest

pub data Switch : Type 0 where
  stayed : Switch
  switched : ℕ → Switch

unfoldable pub uschedule : ℕ → Manager → Option (Manager × Switch)
uschedule fuel m =
    if leb m.uthread_count 1 then some (m, stayed) else elim (advance fuel m m.uthread_cur) [
      | none ↦ none
      | some i ↦
          some (record m { uthread_cur = i }, if m.uthread_cur == i then stayed else switched i)
    ]

pub data Created : Type 0 where
  returned : Manager → ℤ → Created
  overflow : Created

-- `overflow` is the write past the end of the array.
unfoldable pub uthread_create : (stack_ok context_ok : Bool) → Manager → Created
uthread_create stack_ok context_ok m =
    let new_uthread : Uthread = record { uthread_id = m.uthread_count + 1; is_finished = false } in
    if stack_ok
    then if context_ok
      then if ltb m.uthread_count max_threads
        then returned
            (record m {
              uthreads = λ i. (if i == m.uthread_count then some new_uthread else m.uthreads i);
              uthread_count = m.uthread_count + 1;
            })
            (pos 0)
        else overflow
      else returned m (negsuc 0)
    else returned m (negsuc 0)

-- `main_cell` is what the pointer to the main thread leads to.
unfoldable pub uthread_manager_init : (main_cell : Uthread) → Manager
uthread_manager_init main_cell = record {
  uthreads = λ i. if i == 0 then some main_cell else none;
  uthread_count = 1;
  uthread_cur = 0;
}
