-- ===== src/RwStorage/Tests.antt =====
-- A list of three nodes, and a swap of the last two by the fourth thread, under read-write locks.
use os2_labs.Common.{
  ℕ, ◌≡◌, ◌≢◌, refl, Bool, true, false, List, [], ◌∷◌, arith, ◌==◌, if◌then◌else◌, IsNodup,
}
use os2_labs.Storage.{Ptr, Thread, counting, swapping, swapping_two, swap_nodes}
use os2_labs.Storage.Chain.{Chain}
use os2_labs.RwStorage.{
  Stats, Shared, read_by, written_by, fault, rdlock, wrlock, unlock, set_sync, release, count_step,
  swap_step,
}
use os2_labs.RwStorage.Program.{
  System, Reach, start, step, initial, rw_main, rw_count_asc, rw_swapper1,
}
use os2_labs.RwStorage.Interleaving.{Kept, rw_main-Kept, is_at, rw_main-exclusive}

abbrev no_stats : Stats
no_stats = record {
  asc_iters = 0;
  desc_iters = 0;
  eq_iters = 0;
  swaps1 = 0;
  swaps2 = 0;
  swaps3 = 0;
  asc_string_count = 0;
  desc_string_count = 0;
  eq_string_count = 0;
}

abbrev three : Shared
three = record {
  first = 1;
  next = λ p. if p == 1 then 2 else if p == 2 then 3 else 0;
  strlen_of = λ p. p;
  sync = λ _. read_by [];
  stats = no_stats;
}

abbrev nodes : List Ptr
nodes = 1 ∷ 2 ∷ 3 ∷ []

three-Chain : Chain three.next three.first nodes
three-Chain = (refl, omega arith, (refl, omega arith, (refl, omega arith, refl)))

nodes-IsNodup : IsNodup nodes
nodes-IsNodup = (refl, (refl, (refl, tt)))

-- The systems after each of the steps, the last of which is one of the first thread.
abbrev moved : System → ℕ → Shared → Thread → System
moved a t sh' th' = record { shared = sh'; threads = λ u. if u == t then th' else a.threads u }

abbrev locked_one : System
locked_one = moved (initial three) 3 (set_sync 1 (written_by 3) three) (swapping 1)

abbrev locked_two : System
locked_two = moved locked_one 3 (set_sync 2 (written_by 3) locked_one.shared) (swapping_two 1 2)

abbrev swapped : System
swapped =
    moved locked_two 3
      (release 3 1 (
        release 3 3 (record (set_sync 3 (written_by 3) locked_two.shared) {
          next = swap_nodes three.next 1 2 3;
          stats = record no_stats { swaps1 = 1 };
        })))
      (swapping 2)

abbrev counts : System
counts = moved swapped 0 (set_sync 1 (read_by (0 ∷ [])) swapped.shared) (counting 1)

rw_run : Reach (initial three) counts
unfolding rw_main rw_swapper1 rw_count_asc count_step swap_step rdlock wrlock unlock swap_nodes
rw_run =
    step swapped 0 false counts.shared (counting 1)
      (step locked_two 3 true swapped.shared (swapping 2)
        (step locked_one 3 false locked_two.shared (swapping_two 1 2)
          (step (initial three) 3 false locked_one.shared (swapping 1) start refl) refl)
        refl)
      refl

rw_main-Kept_example :
    Kept three nodes counts
    × ((t : ℕ) (flip : Bool) → rw_main t flip counts.shared (counts.threads t) ≢ fault)
rw_main-Kept_example =
    rw_main-Kept three nodes counts three-Chain nodes-IsNodup (omega arith) rw_run

-- While the fourth thread is about to swap the nodes 1 and 2, the first is not at 2.
two_run : Reach (initial three) locked_two
unfolding rw_main rw_swapper1 swap_step wrlock
two_run =
    step locked_one 3 false locked_two.shared (swapping_two 1 2)
      (step (initial three) 3 false locked_one.shared (swapping 1) start refl) refl

rw_main-exclusive_example : is_at 2 (locked_two.threads 0) ≡ false
rw_main-exclusive_example =
    rw_main-exclusive three nodes locked_two 3 0 2 three-Chain nodes-IsNodup (omega arith) two_run
      (omega arith) refl
