-- ===== src/Uthread/Schedule.antt =====
-- Whom the scheduler switches to, and what the creation of a thread keeps.
use os2_labs.Common.{
  ℕ, zero, suc, ◌+◌, ◌-◌, ◌%◌, ◌≤◌, ◌<◌, ◌≡◌, refl, sym, ap, ◌∙◌, ◌⊎◌, inl, inr, Bool, true, false,
  some, arith, ◌==◌, leb, ltb, if◌then◌else◌, Bool-cases, ==_refl, dec_lt, pos, negsuc, ltb→lt,
}
use native.Mathlib.Nat.{mod-add-mod, add-mod_right, mod-eq_of_lt}
use os2_labs.Uthread.{
  Uthread, Manager, can_run, advance, stayed, switched, uschedule, returned, overflow,
  uthread_create, uthread_manager_init, max_threads,
}

-- `d` rounds lead from `i` to the first thread behind it, in the order of the array and around its
-- end, that can run.
pub record NextUp (m : Manager) (i d : ℕ) : Type 0 where
  pub some_round : 0 < d
  pub runs : can_run m ((i + d) % m.uthread_count) ≡ true
  pub skipped : (k : ℕ) → 0 < k → k < d → can_run m ((i + k) % m.uthread_count) ≡ false

module _ (m : Manager) where
  shift :
      (i k : ℕ)
      → ((i + 1) % m.uthread_count + k) % m.uthread_count ≡ (i + (k + 1)) % m.uthread_count
  shift i k =
      let e : i + 1 + k ≡ i + (k + 1) = omega arith in
      mod-add-mod (i + 1) m.uthread_count k ∙ ap (λ j. j % m.uthread_count) e

  skipped_from :
      (i k d : ℕ)
      → NextUp m ((i + 1) % m.uthread_count) d
      → can_run m ((i + 1) % m.uthread_count) ≡ false
      → 0 < k
      → k < d + 1
      → can_run m ((i + k) % m.uthread_count) ≡ false
  skipped_from i zero d up busy some_k less = absurd (omega arith)
  skipped_from i (suc zero) d up busy some_k less = busy
  skipped_from i (suc (suc k)) d up busy some_k less =
      let e : suc k + 1 ≡ suc (suc k) = omega arith in
      ap (can_run m) (sym (shift i (suc k) ∙ ap (λ j. (i + j) % m.uthread_count) e))
      ∙ up.skipped (suc k) (omega arith) (omega arith)

  advance-NextUp :
      (fuel i d : ℕ)
      → d < fuel
      → can_run m ((i + (d + 1)) % m.uthread_count) ≡ true
      → (d' : ℕ) × (advance fuel m i ≡ some ((i + d') % m.uthread_count))
        × (d' ≤ d + 1)
        × NextUp m i d'
  unfolding advance
  advance-NextUp zero i d lt run = absurd (omega arith)
  advance-NextUp (suc fuel) i zero lt run = (
    1,
    rw run,
    omega arith,
    record {
      some_round = omega arith;
      runs = run;
      skipped = λ k some_k less. absurd (omega arith);
    },
  )
  advance-NextUp (suc fuel) i (suc d) lt run =
      let next = (i + 1) % m.uthread_count in
      elim (Bool-cases (can_run m next)) [
        | inl here ↦ (
          1,
          rw here,
          omega arith,
          record {
            some_round = omega arith;
            runs = here;
            skipped = λ k some_k less. absurd (omega arith);
          },
        )
        | inr busy ↦
            let e : d + 1 + 1 ≡ suc d + 1 = omega arith in
            let moved : can_run m ((next + (d + 1)) % m.uthread_count) ≡ true =
              ap (can_run m) (shift i (d + 1) ∙ ap (λ j. (i + j) % m.uthread_count) e) ∙ run in
            let (d', found, near, up) = advance-NextUp fuel next d (omega arith) moved in
            (
              d' + 1,
              rw busy (found ∙ ap some (shift i d')),
              omega (arith, near),
              record {
                some_round = omega arith;
                runs = ap (can_run m) (sym (shift i d')) ∙ up.runs;
                skipped = λ k some_k less. skipped_from i k d' up busy some_k less;
              },
            )
      ]

  -- Every index is some rounds away.
  rounds_to :
      (i j : ℕ)
      → i < m.uthread_count
      → j < m.uthread_count
      → (d : ℕ) × (d < m.uthread_count) × ((i + (d + 1)) % m.uthread_count ≡ j)
  rounds_to i j i_lt j_lt = elim (dec_lt i j) [
    | yes before ↦
        let e : i + (j - i - 1 + 1) ≡ j = omega arith in
        (j - i - 1, omega arith, ap (λ k. k % m.uthread_count) e ∙ mod-eq_of_lt j_lt)
    | no behind ↦
        let e : i + (j + m.uthread_count - i - 1 + 1) ≡ j + m.uthread_count = omega arith in
        (
          j + m.uthread_count - i - 1,
          omega arith,
          ap (λ k. k % m.uthread_count) e ∙ add-mod_right j m.uthread_count ∙ mod-eq_of_lt j_lt,
        )
  ]

-- With several threads, of which one can run, a current one within their number, and as many rounds
-- of fuel as there are threads: the loop of the scheduler ends, and goes to the first thread behind
-- the current one that can run, in the order of the array and around its end; it stays if that is
-- the current thread itself.
pub uschedule-NextUp :
    (fuel : ℕ) (m : Manager) (j : ℕ)
    → 1 < m.uthread_count
    → m.uthread_cur < m.uthread_count
    → j < m.uthread_count
    → can_run m j ≡ true
    → m.uthread_count ≤ fuel
    → (d : ℕ) × (d ≤ m.uthread_count)
      × NextUp m m.uthread_cur d
      × (uschedule fuel m
          ≡ some (
            record m { uthread_cur = (m.uthread_cur + d) % m.uthread_count },
            if m.uthread_cur == (m.uthread_cur + d) % m.uthread_count
                then stayed
                else switched ((m.uthread_cur + d) % m.uthread_count),
          ))
unfolding uschedule
uschedule-NextUp fuel m j several cur_lt j_lt run enough =
    let (d, d_lt, at_j) = rounds_to m m.uthread_cur j cur_lt j_lt in
    let (d', found, near, up) =
      advance-NextUp m fuel m.uthread_cur d (omega arith) (ap (can_run m) at_j ∙ run) in
    let no : leb m.uthread_count 1 ≡ false = ground arith in (d', omega arith, up, rw (no, found))

-- The threads that are counted are there, within the array, and the current one is one of them.
pub record IsManager (m : Manager) : Type 0 where
  pub present : (i : ℕ) → i < m.uthread_count → (u : Uthread) × (m.uthreads i ≡ some u)
  pub within : m.uthread_count ≤ max_threads
  pub current : m.uthread_cur < m.uthread_count

-- On a manager whose threads are all there and within the array: a creation without memory or
-- context fails and changes nothing; or, with room in the array, it adds a thread that can run
-- behind the others, which stay as they were; or, on a full array, it writes past its end.
pub uthread_create-IsManager :
    (stack_ok context_ok : Bool) (m : Manager)
    → IsManager m
    → (((stack_ok ≡ false) ⊎ (context_ok ≡ false))
        × (uthread_create stack_ok context_ok m ≡ returned m (negsuc 0)))
      ⊎ ((m.uthread_count < max_threads)
          × ((m' : Manager) × (uthread_create stack_ok context_ok m ≡ returned m' (pos 0))
              × IsManager m'
              × (m'.uthread_count ≡ m.uthread_count + 1)
              × (can_run m' m.uthread_count ≡ true)
              × ((i : ℕ) → i < m.uthread_count → m'.uthreads i ≡ m.uthreads i)))
      ⊎ ((m.uthread_count ≡ max_threads) × (uthread_create stack_ok context_ok m ≡ overflow))
unfolding uthread_create
uthread_create-IsManager false context_ok m is = inl (inl refl, refl)
uthread_create-IsManager true false m is = inl (inr refl, refl)
uthread_create-IsManager true true m is = elim (Bool-cases (ltb m.uthread_count max_threads)) [
  | inl room ↦
      let new_uthread : Uthread = record {
        uthread_id = m.uthread_count + 1;
        is_finished = false;
      } in
      let m' : Manager = record m {
        uthreads = λ i. if i == m.uthread_count then some new_uthread else m.uthreads i;
        uthread_count = m.uthread_count + 1;
      } in
      inr (
        inl (
          ltb→lt m.uthread_count max_threads room,
          (
            m',
            rw room,
            record {
              present = λ i lt. elim (Bool-cases (i == m.uthread_count)) [
                | inl new ↦ (new_uthread, rw new)
                | inr old ↦ rw old (is.present i (ground arith))
              ];
              within = ground arith;
              current = omega (arith, is.current);
            },
            refl,
            rw (==_refl m.uthread_count),
            λ i lt. rw (other i lt),
          ),
        ))
  | inr full ↦ inr (inr (ground (arith, is.within), rw full))
]
  where
    other : (i : ℕ) → i < m.uthread_count → (i == m.uthread_count) ≡ false
    other i lt = ground arith

-- A new manager has the main thread.
uthread_manager_init-IsManager : (main_cell : Uthread) → IsManager (uthread_manager_init main_cell)
unfolding uthread_manager_init
uthread_manager_init-IsManager main_cell = record {
  present = λ i lt. (main_cell, rw (only i lt));
  within = omega arith;
  current = omega arith;
}
  where
    only : (i : ℕ) → i < 1 → (i == 0) ≡ true
    only i lt = ground arith
