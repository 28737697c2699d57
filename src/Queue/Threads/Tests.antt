-- ===== src/Queue/Threads/Tests.antt =====
-- A run of the two threads, with the theorem on it.
use os2_labs.Common.{
  ℕ, ◌≤◌, ◌≡◌, ◌⊎◌, inl, inr, none, some, List, [], ◌∷◌, arith, Option-cases, pos,
}
use os2_labs.Queue.{Ptr, null, Queue, aborted, done}
use os2_labs.Queue.Threads.{Threads, Turn, read_turn, write_turn, start, run_threads}
use os2_labs.Queue.Threads.Runs.{IsMalloc, run_threads-ordered}

-- The address that the turn names, if it is free.
abbrev at_choice : ℕ → Queue → Ptr
at_choice choice q = elim (q.nodes choice) [ none ↦ choice | some _ ↦ null ]

at_choice-IsMalloc : IsMalloc at_choice
at_choice-IsMalloc choice q ne = elim (Option-cases (q.nodes choice)) [
  | inl free ↦ ground arith
  | inr (n, used) ↦ absurd (ne (ground arith))
]

-- The writer adds while the reader has a node off the list.
abbrev turns : List Turn
turns = read_turn ∷ write_turn 10 ∷ read_turn ∷ write_turn 20 ∷ read_turn ∷ read_turn ∷ []

run_threads-ordered_example :
    ((s : Threads) × (run_threads at_choice (start 2) turns ≡ done s)
      × (s.errors ≡ 0)
      × ((e i : ℕ) × (s.expected ≡ pos e) × (s.i ≡ pos i) × (e ≤ i)))
    ⊎ ((run_threads at_choice (start 2) turns ≡ aborted)
        × ((choice : ℕ) × (q : Queue) × (at_choice choice q ≡ null)))
run_threads-ordered_example = run_threads-ordered at_choice 2 turns at_choice-IsMalloc (omega arith)
