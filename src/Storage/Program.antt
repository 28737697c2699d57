-- ===== src/Storage/Program.antt =====
-- The programs of `mutex/main.c` and `spinlock/main.c`: their six threads, in any interleaving.
use os2_labs.Common.{ℕ, ◌+◌, ◌≡◌, Bool, ◌==◌, if◌then◌else◌, ltb}
use os2_labs.Storage.{Shared, Thread, outside, Step, to, blocked, count_step, swap_step}

abbrev gtb : ℕ → ℕ → Bool
gtb a b = ltb b a

abbrev eqb : ℕ → ℕ → Bool
eqb a b = a == b

unfoldable pub mutex_count_asc : ℕ → Shared → Thread → Step
mutex_count_asc =
    count_step ltb (λ s. record s { asc_string_count = s.asc_string_count + 1 })
      (λ s. record s { comp_count = s.comp_count + 1 })
      (λ s. record s { asc_iters = s.asc_iters + 1 })

unfoldable pub mutex_count_desc : ℕ → Shared → Thread → Step
mutex_count_desc =
    count_step gtb (λ s. record s { desc_string_count = s.desc_string_count + 1 })
      (λ s. record s { comp_count = s.comp_count + 1 })
      (λ s. record s { desc_iters = s.desc_iters + 1 })

unfoldable pub mutex_count_eq : ℕ → Shared → Thread → Step
mutex_count_eq =
    count_step eqb (λ s. record s { eq_string_count = s.eq_string_count + 1 })
      (λ s. record s { comp_count = s.comp_count + 1 })
      (λ s. record s { eq_iters = s.eq_iters + 1 })

unfoldable pub mutex_swapper1 : Bool → ℕ → Shared → Thread → Step
mutex_swapper1 = swap_step (λ s. record s { swaps1 = s.swaps1 + 1 })

unfoldable pub mutex_swapper2 : Bool → ℕ → Shared → Thread → Step
mutex_swapper2 = swap_step (λ s. record s { swaps2 = s.swaps2 + 1 })

unfoldable pub mutex_swapper3 : Bool → ℕ → Shared → Thread → Step
mutex_swapper3 = swap_step (λ s. record s { swaps3 = s.swaps3 + 1 })

unfoldable pub spin_count_asc : ℕ → Shared → Thread → Step
spin_count_asc =
    count_step ltb (λ s. record s { asc_string_count = s.asc_string_count + 1 }) (λ s. s)
      (λ s. record s { asc_iters = s.asc_iters + 1 })

unfoldable pub spin_count_desc : ℕ → Shared → Thread → Step
spin_count_desc =
    count_step gtb (λ s. record s { desc_string_count = s.desc_string_count + 1 }) (λ s. s)
      (λ s. record s { desc_iters = s.desc_iters + 1 })

unfoldable pub spin_count_eq : ℕ → Shared → Thread → Step
spin_count_eq =
    count_step eqb (λ s. record s { eq_string_count = s.eq_string_count + 1 }) (λ s. s)
      (λ s. record s { eq_iters = s.eq_iters + 1 })

unfoldable pub spin_swapper1 : Bool → ℕ → Shared → Thread → Step
spin_swapper1 = swap_step (λ s. record s { swaps1 = s.swaps1 + 1 })

unfoldable pub spin_swapper2 : Bool → ℕ → Shared → Thread → Step
spin_swapper2 = swap_step (λ s. record s { swaps2 = s.swaps2 + 1 })

unfoldable pub spin_swapper3 : Bool → ℕ → Shared → Thread → Step
spin_swapper3 = swap_step (λ s. record s { swaps3 = s.swaps3 + 1 })

-- The function that `main` starts each thread with; the threads are numbered in that order.
unfoldable pub mutex_main : ℕ → Bool → Shared → Thread → Step
mutex_main t flip sh th =
    if t == 0
    then mutex_count_asc t sh th
    else if t == 1
    then mutex_count_desc t sh th
    else if t == 2
    then mutex_count_eq t sh th
    else if t == 3
    then mutex_swapper1 flip t sh th
    else if t == 4
    then mutex_swapper2 flip t sh th
    else if t == 5
    then mutex_swapper3 flip t sh th
    else blocked

unfoldable pub spin_main : ℕ → Bool → Shared → Thread → Step
spin_main t flip sh th =
    if t == 0
    then spin_count_asc t sh th
    else if t == 1
    then spin_count_desc t sh th
    else if t == 2
    then spin_count_eq t sh th
    else if t == 3
    then spin_swapper1 flip t sh th
    else if t == 4
    then spin_swapper2 flip t sh th
    else if t == 5
    then spin_swapper3 flip t sh th
    else blocked

pub record System : Type 0 where
  pub shared : Shared
  pub threads : ℕ → Thread

-- The systems that a program reaches from `s`, its threads taking steps in any order and with any
-- outcome of `rand`.
pub data Reach (program : ℕ → Bool → Shared → Thread → Step) (s : System) : System → Type 0 where
  start : Reach program s s
  step :
      (a : System) (t : ℕ) (flip : Bool) (sh' : Shared) (th' : Thread)
      → Reach program s a
      → program t flip a.shared (a.threads t) ≡ to sh' th'
      → Reach program s
          (record { shared = sh'; threads = λ u. if u == t then th' else a.threads u })

abbrev pub initial : Shared → System
initial sh = record { shared = sh; threads = λ _. outside }
