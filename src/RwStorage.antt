-- ===== src/RwStorage.antt =====
-- 2/2.3/rwlock/main.c: the threads that count and swap on the linked list, with a read-write lock per node.
--
-- As in Storage, a step of a thread goes from where it holds its locks to where it next asks for one, and
-- of a string only the length matters. `sync` says who holds the lock of a node: the counting threads
-- share it, a swapping thread has it alone.
pub mod Locking
pub mod Counting
pub mod Swapping
pub mod Program
pub mod Interleaving
mod Tests
use os2_labs.Common.{
  ℕ, ◌+◌, Bool, true, false, Option, none, some, List, [], ◌∷◌, ◌==◌, if◌then◌else◌, has, erase,
}
use os2_labs.Storage.{
  Ptr, null, write, Thread, outside, counting, swapping, swapping_two, swap_nodes,
}

pub data Sync : Type 0 where
  read_by : (threads : List ℕ) → Sync
  written_by : (thread : ℕ) → Sync

pub record Stats : Type 0 where
  pub asc_iters : ℕ
  pub desc_iters : ℕ
  pub eq_iters : ℕ
  pub swaps1 : ℕ
  pub swaps2 : ℕ
  pub swaps3 : ℕ
  pub asc_string_count : ℕ
  pub desc_string_count : ℕ
  pub eq_string_count : ℕ

pub record Shared : Type 0 where
  pub first : Ptr
  pub next : Ptr → Ptr
  pub strlen_of : Ptr → ℕ
  pub sync : Ptr → Sync
  pub stats : Stats

-- `fault` is an access through a null pointer.
pub data Step : Type 0 where
  to : Shared → Thread → Step
  blocked fault : Step

-- `pthread_rwlock_rdlock` and `pthread_rwlock_wrlock`; `none`: the thread waits.
unfoldable pub rdlock : ℕ → Sync → Option Sync
rdlock t (read_by ts) = some (read_by (t ∷ ts))
rdlock t (written_by u) = none

unfoldable pub wrlock : ℕ → Sync → Option Sync
wrlock t (read_by []) = some (written_by t)
wrlock t (read_by (u ∷ ts)) = none
wrlock t (written_by u) = none

unfoldable pub unlock : ℕ → Sync → Sync
unlock t (read_by ts) = read_by (erase t ts)
unlock t (written_by u) = read_by []

abbrev pub set_sync : Ptr → Sync → Shared → Shared
set_sync p s sh = record sh { sync = write sh.sync p s }

abbrev pub release : ℕ → Ptr → Shared → Shared
release t p sh = set_sync p (unlock t (sh.sync p)) sh

-- The thread goes on with the lock, or waits for it.
abbrev pub granted : Option Sync → (Sync → Step) → Step
granted none go = blocked
granted (some s) go = go s

-- A counting thread `t`: `test` compares the lengths, `found` counts a pair that passes and `finished` each
-- pass.
unfoldable pub count_step :
    (test : ℕ → ℕ → Bool) (found finished : Stats → Stats) → ℕ → Shared → Thread → Step
unfolding rdlock unlock
count_step test found finished t sh outside =
    if sh.first == null
    then fault
    else granted (rdlock t (sh.sync sh.first))
        (λ s. to (set_sync sh.first s sh) (counting sh.first))
count_step test found finished t sh (counting cur) =
    let next = sh.next cur in
    if next == null
    then to (record (release t cur sh) { stats = finished sh.stats }) outside
    else granted (rdlock t (sh.sync next)) (λ s.
      let counted =
        if test (sh.strlen_of cur) (sh.strlen_of next) then found sh.stats else sh.stats in
      to (release t cur (record (set_sync next s sh) { stats = counted })) (counting next))
count_step test found finished t sh (swapping prev) = blocked
count_step test found finished t sh (swapping_two prev cur) = blocked

-- A swapping thread `t`; `flip` is whether `rand() % 3 == 0`, and `swapped` counts a swap.
unfoldable pub swap_step : (swapped : Stats → Stats) → (flip : Bool) → ℕ → Shared → Thread → Step
unfolding wrlock unlock swap_nodes
swap_step swapped flip t sh outside =
    if sh.first == null
    then to sh outside
    else granted (wrlock t (sh.sync sh.first))
        (λ s. to (set_sync sh.first s sh) (swapping sh.first))
swap_step swapped flip t sh (swapping prev) =
    let cur = sh.next prev in
    if cur == null
    then to (release t prev sh) outside
    else granted (wrlock t (sh.sync cur)) (λ s.
      if sh.next cur == null
      then to (release t prev (release t cur (set_sync cur s sh))) outside
      else to (set_sync cur s sh) (swapping_two prev cur))
swap_step swapped flip t sh (swapping_two prev cur) =
    let next = sh.next cur in
    if next == null
    then fault
    else granted (wrlock t (sh.sync next)) (λ s.
      let locked = set_sync next s sh in
      let sh' =
        if flip
        then record locked { next = swap_nodes sh.next prev cur next; stats = swapped sh.stats }
        else locked in
      to (release t prev (release t next sh')) (swapping cur))
swap_step swapped flip t sh (counting cur) = blocked
