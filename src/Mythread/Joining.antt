-- ===== src/Mythread/Joining.antt =====
-- `my_thread_join` gets the value of the routine, and takes the stack away under the thread.
use os2_labs.Common.{
  ℕ, ◌≡◌, ◌≢◌, refl, ap, ◌∙◌, ◌⊎◌, inl, inr, Bool, true, false, Option, none, some, List, [], ◌∷◌,
  ◌++◌, Option-cases,
}
use os2_labs.Mythread.{
  Ptr, MyThread, StartUp, in_routine, over, Join, reading_stack, testing, sleeping, fetching,
  joining, unmapping, returned, Pair, my_thread_start_up, my_thread_join, handshake, new_thread,
}
use os2_labs.Mythread.Handshake.{pair, Joined, Holds, start_up-Holds, join-Holds}

-- A thread that has been created, and another that joins it.
abbrev pub begun : (thread_num : ℕ) → (arg stack : Ptr) → Pair
begun thread_num arg stack = pair (new_thread thread_num arg stack) true in_routine reading_stack

begun-Holds :
    (routine : Ptr → Ptr) (thread_num : ℕ) (arg stack : Ptr)
    → Holds routine arg stack (begun thread_num arg stack)
unfolding new_thread
begun-Holds routine thread_num arg stack = record {
  argument = refl;
  stack = refl;
  stored = refl;
  joined = refl;
}

handshake-append :
    (routine : Ptr → Ptr) (s t : Pair) (xs ys : List Bool)
    → handshake routine s xs ≡ some t
    → handshake routine s (xs ++ ys) ≡ handshake routine t ys
unfolding handshake
handshake-append routine s t [] ys run =
    ap (λ (o : Option Pair). elim o [ none ↦ none | some u ↦ handshake routine u ys ]) run
handshake-append routine s t (true ∷ xs) ys run = elim (Option-cases (my_thread_join s)) [
  | inl fault ↦ cc (rw (fault, handshake) at run)
  | inr (u, ok) ↦
      rw (ok, handshake) (handshake-append routine u t xs ys (rw (ok, handshake) at run))
]
handshake-append routine s t (false ∷ xs) ys run =
    elim (Option-cases (my_thread_start_up routine s)) [
      | inl fault ↦ cc (rw (fault, handshake) at run)
      | inr (u, ok) ↦
          rw (ok, handshake) (handshake-append routine u t xs ys (rw (ok, handshake) at run))
    ]

-- What any order of the steps keeps.
handshake-Holds :
    (routine : Ptr → Ptr) (arg p : Ptr) (s t : Pair) (turns : List Bool)
    → Holds routine arg p s
    → handshake routine s turns ≡ some t
    → Holds routine arg p t
unfolding handshake
handshake-Holds routine arg p s t [] h run = let same : s ≡ t = cc in rw (← same) h
handshake-Holds routine arg p s t (true ∷ turns) h run =
    let (u, ok, h') = join-Holds routine arg p s.thread s.mapped s.start_up s.join h in
    handshake-Holds routine arg p u t turns h' (rw (ok, handshake) at run)
handshake-Holds routine arg p s t (false ∷ turns) h run =
    elim (start_up-Holds routine arg p s.thread s.mapped s.start_up s.join h) [
      | inl (u, ok, h', side) ↦
          handshake-Holds routine arg p u t turns h' (rw (ok, handshake) at run)
      | inr (unmapped, more, fault) ↦ cc (rw (fault, handshake) at run)
    ]

-- While the stack is mapped `my_thread_join` has not returned; then it has, with the value of the routine.
abbrev pub Agreed : (val : Ptr) → Pair → Type 0
Agreed val s =
    ((s.mapped ≡ true) × ((v : Ptr) → s.join ≢ returned v))
    ⊎ ((s.mapped ≡ false) × (s.thread.exited ≡ true) × (s.join ≡ returned val))

Joined-Agreed :
    (val p : Ptr) (t : MyThread) (mapped : Bool) (u : StartUp) (j : Join)
    → Joined val p t.exited mapped j
    → Agreed val (pair t mapped u j)
Joined-Agreed val p t mapped u reading_stack h = inl (h, λ v e. cc)
Joined-Agreed val p t mapped u (testing q) h = inl (h.0, λ v e. cc)
Joined-Agreed val p t mapped u (sleeping q) h = inl (h.0, λ v e. cc)
Joined-Agreed val p t mapped u (fetching q) h = inl (h.0, λ v e. cc)
Joined-Agreed val p t mapped u (joining q v) h = inl (h.0, λ w e. cc)
Joined-Agreed val p t mapped u (unmapping q v) h = inl (h.0, λ w e. cc)
Joined-Agreed val p t mapped u (returned v) h = inr (h.0, h.1, ap returned h.2)

-- In any order of the steps of a thread that has been created and of one that joins it, as far as it goes
-- without an access to memory that is not mapped: `my_thread_join` has returned exactly if the stack is
-- unmapped, and then the thread has exited and the value returned is that of its routine; the next step of
-- `my_thread_join` accesses no such memory; and the next step of the thread does so exactly if
-- `my_thread_join` has returned and the thread has not yet ended.
pub handshake-next :
    (routine : Ptr → Ptr) (thread_num : ℕ) (arg stack : Ptr) (turns : List Bool) (s : Pair)
    → handshake routine (begun thread_num arg stack) turns ≡ some s
    → Agreed (routine arg) s
      × ((t : Pair) × (handshake routine (begun thread_num arg stack) (turns ++ true ∷ [])
            ≡ some t))
      × ((((t : Pair) × (handshake routine (begun thread_num arg stack) (turns ++ false ∷ [])
                ≡ some t))
            × ((s.mapped ≡ true) ⊎ (s.start_up ≡ over)))
          ⊎ ((handshake routine (begun thread_num arg stack) (turns ++ false ∷ []) ≡ none)
              × (s.mapped ≡ false)
              × (s.start_up ≢ over)))
unfolding handshake
handshake-next routine thread_num arg stack turns s run =
    let first = begun thread_num arg stack in
    let h =
      handshake-Holds routine arg stack first s turns (begun-Holds routine thread_num arg stack)
        run in
    let (t, ok, h') = join-Holds routine arg stack s.thread s.mapped s.start_up s.join h in
    (
      Joined-Agreed (routine arg) stack s.thread s.mapped s.start_up s.join h.joined,
      (t, handshake-append routine first s turns (true ∷ []) run ∙ rw (ok, handshake) refl),
      elim (start_up-Holds routine arg stack s.thread s.mapped s.start_up s.join h) [
        | inl (u, fine, h'', side) ↦ inl (
          (u, handshake-append routine first s turns (false ∷ []) run ∙ rw (fine, handshake) refl),
          side,
        )
        | inr (unmapped, more, fault) ↦ inr (
          handshake-append routine first s turns (false ∷ []) run ∙ rw (fault, handshake) refl,
          unmapped,
          more,
        )
      ],
    )
