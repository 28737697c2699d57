-- ===== src/Storage/Tests.antt =====
-- A list of three nodes, and a swap of the last two by the fourth thread.
use os2_labs.Common.{
  ℕ, some, length, ◌<◌, ◌≡◌, ◌≢◌, refl, Bool, true, false, none, List, [], ◌∷◌, arith, ◌==◌,
  if◌then◌else◌, IsNodup,
}
use os2_labs.Storage.{
  init_storage, Ptr, Stats, Shared, Thread, swapping, swapping_two, to, fault, acquire, release,
  swap_step, swap_nodes,
}
use os2_labs.Storage.Init.{IsStorage, pushed, init_storage-IsStorage}
use os2_labs.Storage.Chain.{Chain}
use os2_labs.Storage.Program.{
  System, Reach, start, step, initial, mutex_main, mutex_swapper1, spin_main, spin_swapper1,
}
use os2_labs.Storage.Interleaving.{Kept, mutex_main-Kept, spin_main-Kept}
use os2_labs.Storage.Moving.{threads_count}
use os2_labs.Storage.Deadlock.{mutex_main-moves}

abbrev no_stats : Stats
no_stats = record {
  asc_iters = 0;
  desc_iters = 0;
  eq_iters = 0;
  swaps1 = 0;
  swaps2 = 0;
  swaps3 = 0;
  asc_string_count = 0;
  desc_string_count = 0;
  eq_string_count = 0;
  comp_count = 0;
}

abbrev three : Shared
three = record {
  first = 1;
  next = λ p. if p == 1 then 2 else if p == 2 then 3 else 0;
  strlen_of = λ p. p;
  owner = λ _. none;
  stats = no_stats;
}

abbrev nodes : List Ptr
nodes = 1 ∷ 2 ∷ 3 ∷ []

three-Chain : Chain three.next three.first nodes
three-Chain = (refl, omega arith, (refl, omega arith, (refl, omega arith, refl)))

nodes-IsNodup : IsNodup nodes
nodes-IsNodup = (refl, (refl, (refl, tt)))

-- The systems after each of the three steps.
abbrev moved : System → Shared → Thread → System
moved a sh' th' = record { shared = sh'; threads = λ u. if u == 3 then th' else a.threads u }

abbrev locked_one : System
locked_one = moved (initial three) (acquire 3 1 three) (swapping 1)

abbrev locked_two : System
locked_two = moved locked_one (acquire 3 2 locked_one.shared) (swapping_two 1 2)

abbrev swapped : System
swapped =
    moved locked_two
      (release 1 (
        release 3 (record (acquire 3 3 locked_two.shared) {
          next = swap_nodes three.next 1 2 3;
          stats = record no_stats { swaps1 = 1 };
        })))
      (swapping 2)

mutex_run : Reach mutex_main (initial three) swapped
unfolding mutex_main mutex_swapper1 swap_step acquire release swap_nodes
mutex_run =
    step locked_two 3 true swapped.shared (swapping 2)
      (step locked_one 3 false locked_two.shared (swapping_two 1 2)
        (step (initial three) 3 false locked_one.shared (swapping 1) start refl) refl)
      refl

mutex_main-Kept_example :
    Kept three nodes swapped
    × ((t : ℕ) (flip : Bool) → mutex_main t flip swapped.shared (swapped.threads t) ≢ fault)
mutex_main-Kept_example =
    mutex_main-Kept three nodes swapped three-Chain nodes-IsNodup (omega arith) mutex_run

-- Three rounds of `init_storage`.
abbrev rounds : List (Ptr × ℕ)
rounds = (3, 45) ∷ (2, 100) ∷ (1, 207) ∷ []

mutex_main-moves_example :
    (t : ℕ) × (t < threads_count)
    × (sh' : Shared) × (th' : Thread) × (mutex_main t true swapped.shared (swapped.threads t)
        ≡ to sh' th')
mutex_main-moves_example =
    mutex_main-moves three nodes swapped true three-Chain nodes-IsNodup (omega arith) (λ p. refl)
      mutex_run

spin_run : Reach spin_main (initial three) swapped
unfolding spin_main spin_swapper1 swap_step acquire release swap_nodes
spin_run =
    step locked_two 3 true swapped.shared (swapping 2)
      (step locked_one 3 false locked_two.shared (swapping_two 1 2)
        (step (initial three) 3 false locked_one.shared (swapping 1) start refl) refl)
      refl

spin_main-Kept_example :
    Kept three nodes swapped
    × ((t : ℕ) (flip : Bool) → spin_main t flip swapped.shared (swapped.threads t) ≢ fault)
spin_main-Kept_example =
    spin_main-Kept three nodes swapped three-Chain nodes-IsNodup (omega arith) spin_run

init_storage-IsStorage_example :
    (sh : Shared) × (init_storage no_stats rounds ≡ some sh)
    × IsStorage sh (pushed rounds [])
    × (length (pushed rounds []) ≡ length rounds)
init_storage-IsStorage_example =
    init_storage-IsStorage no_stats rounds
      (omega arith, refl, (omega arith, refl, (omega arith, refl, tt)))
