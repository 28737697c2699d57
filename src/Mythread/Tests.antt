-- ===== src/Mythread/Tests.antt =====
-- A thread and a handshake, with the theorems on them.
use os2_labs.Common.{◌+◌, ◌≡◌, ◌≢◌, refl, ◌⊎◌, Bool, true, false, none, some, List, [], ◌∷◌, ◌++◌}
use os2_labs.Mythread.{Ptr, Pair, over, asleep, returned, handshake, new_thread}
use os2_labs.Mythread.Joining.{begun, Agreed, handshake-next}

-- The routine adds one to its argument.
abbrev add_one : Ptr → Ptr
add_one arg = arg + 1

-- The thread goes to its end and falls asleep, waiting for `joined`; then the other joins it.
abbrev turns : List Bool
turns = false ∷ false ∷ false ∷ false ∷ true ∷ true ∷ true ∷ true ∷ true ∷ []

abbrev last : Pair
last = record {
  thread = record (new_thread 1 6 4096) { ret_val = 7; exited = true; joined = true };
  mapped = false;
  start_up = asleep;
  join = returned 7;
}

turns-last : handshake add_one (begun 1 6 4096) turns ≡ some last
unfolding handshake new_thread
turns-last = refl

handshake-next_example :
    Agreed 7 last
    × ((t : Pair) × (handshake add_one (begun 1 6 4096) (turns ++ true ∷ []) ≡ some t))
    × ((((t : Pair) × (handshake add_one (begun 1 6 4096) (turns ++ false ∷ []) ≡ some t))
          × ((last.mapped ≡ true) ⊎ (last.start_up ≡ over)))
        ⊎ ((handshake add_one (begun 1 6 4096) (turns ++ false ∷ []) ≡ none)
            × (last.mapped ≡ false)
            × (last.start_up ≢ over)))
handshake-next_example = handshake-next add_one 1 6 4096 turns last turns-last
