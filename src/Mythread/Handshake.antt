-- ===== src/Mythread/Handshake.antt =====
-- What the steps of the two threads of a handshake keep.
use os2_labs.Common.{
  ◌≡◌, ◌≢◌, refl, ap, ◌⊎◌, inl, inr, Bool, true, false, none, some, ◌==◌, ==_refl, Bool-cases,
  if◌then◌else◌,
}
use os2_labs.Mythread.{
  Ptr, MyThread, StartUp, in_routine, storing, exiting, waiting, asleep, over, Join, reading_stack,
  testing, sleeping, fetching, joining, unmapping, returned, Pair, start_up_step,
  my_thread_start_up, join_step, my_thread_join,
}

abbrev pub pair : MyThread → Bool → StartUp → Join → Pair
pair t mapped u j = record { thread = t; mapped = mapped; start_up = u; join = j }

-- What the structure holds when the thread is at `u`; `val` is the value of the routine.
abbrev pub Stored : (val : Ptr) → MyThread → StartUp → Type 0
Stored val t in_routine = t.exited ≡ false
Stored val t (storing v) = (v ≡ val) × (t.exited ≡ false)
Stored val t exiting = (t.ret_val ≡ val) × (t.exited ≡ false)
Stored val t waiting = t.ret_val ≡ val
Stored val t asleep = t.ret_val ≡ val
Stored val t over = t.ret_val ≡ val

-- What the joining thread has when it is at `j`.
abbrev pub Joined : (val p : Ptr) → (exited mapped : Bool) → Join → Type 0
Joined val p exited mapped reading_stack = mapped ≡ true
Joined val p exited mapped (testing q) = (mapped ≡ true) × (q ≡ p)
Joined val p exited mapped (sleeping q) = (mapped ≡ true) × (q ≡ p)
Joined val p exited mapped (fetching q) = (mapped ≡ true) × (q ≡ p) × (exited ≡ true)
Joined val p exited mapped (joining q v) = (mapped ≡ true) × (q ≡ p) × (exited ≡ true) × (v ≡ val)
Joined val p exited mapped (unmapping q v) = (mapped ≡ true) × (q ≡ p) × (exited ≡ true) × (v ≡ val)
Joined val p exited mapped (returned v) = (mapped ≡ false) × (exited ≡ true) × (v ≡ val)

pub record Holds (routine : Ptr → Ptr) (arg p : Ptr) (s : Pair) : Type 0 where
  pub argument : s.thread.arg ≡ arg
  pub stack : s.thread.stack ≡ p
  pub stored : Stored (routine arg) s.thread s.start_up
  pub joined : Joined (routine arg) p s.thread.exited s.mapped s.join

-- That the thread has exited does no harm to the one that joins.
Joined-exited :
    (val p : Ptr) (exited mapped : Bool) (j : Join)
    → Joined val p exited mapped j
    → Joined val p true mapped j
Joined-exited val p exited mapped reading_stack h = h
Joined-exited val p exited mapped (testing q) h = h
Joined-exited val p exited mapped (sleeping q) h = h
Joined-exited val p exited mapped (fetching q) h = (h.0, h.1, refl)
Joined-exited val p exited mapped (joining q v) h = (h.0, h.1, refl, h.3)
Joined-exited val p exited mapped (unmapping q v) h = (h.0, h.1, refl, h.3)
Joined-exited val p exited mapped (returned v) h = (h.0, refl, h.2)

-- The value is there once the thread has exited.
Stored-exited :
    (val : Ptr) (t : MyThread) (u : StartUp) → Stored val t u → t.exited ≡ true → t.ret_val ≡ val
Stored-exited val t in_routine h e = cc
Stored-exited val t (storing v) h e = cc
Stored-exited val t exiting h e = h.0
Stored-exited val t waiting h e = h
Stored-exited val t asleep h e = h
Stored-exited val t over h e = h

-- The flag `joined` is nothing to the value.
Stored-joined :
    (val : Ptr) (t : MyThread) (u : StartUp)
    → Stored val t u
    → Stored val (record t { joined = true }) u
Stored-joined val t in_routine h = h
Stored-joined val t (storing v) h = h
Stored-joined val t exiting h = h
Stored-joined val t waiting h = h
Stored-joined val t asleep h = h
Stored-joined val t over h = h

module _ (routine : Ptr → Ptr) (arg p : Ptr) where
  -- A step of the thread keeps this, or it is on a stack that is not mapped, which ends all.
  pub start_up-Holds :
      (t : MyThread) (mapped : Bool) (u : StartUp) (j : Join)
      → Holds routine arg p (pair t mapped u j)
      → ((s : Pair) × (my_thread_start_up routine (pair t mapped u j) ≡ some s)
          × Holds routine arg p s
          × ((mapped ≡ true) ⊎ (u ≡ over)))
        ⊎ ((mapped ≡ false) × (u ≢ over) × (my_thread_start_up routine (pair t mapped u j) ≡ none))
  unfolding my_thread_start_up start_up_step
  start_up-Holds t mapped over j h = inl (pair t mapped over j, refl, h, inr refl)
  start_up-Holds t false in_routine j h = inr (refl, λ e. cc, refl)
  start_up-Holds t false (storing v) j h = inr (refl, λ e. cc, refl)
  start_up-Holds t false exiting j h = inr (refl, λ e. cc, refl)
  start_up-Holds t false waiting j h = inr (refl, λ e. cc, refl)
  start_up-Holds t false asleep j h = inr (refl, λ e. cc, refl)
  start_up-Holds t true in_routine j h = inl (
    pair t true (storing (routine t.arg)) j,
    refl,
    record {
      argument = h.argument;
      stack = h.stack;
      stored = (ap routine h.argument, h.stored);
      joined = h.joined;
    },
    inl refl,
  )
  start_up-Holds t true (storing v) j h = inl (
    pair (record t { ret_val = v }) true exiting j,
    refl,
    record { argument = h.argument; stack = h.stack; stored = h.stored; joined = h.joined },
    inl refl,
  )
  start_up-Holds t true exiting j h = inl (
    pair (record t { exited = true }) true waiting j,
    refl,
    record {
      argument = h.argument;
      stack = h.stack;
      stored = h.stored.0;
      joined = Joined-exited (routine arg) p t.exited true j h.joined;
    },
    inl refl,
  )
  start_up-Holds t true waiting j h = elim (Bool-cases t.joined) [
    | inl told ↦ inl (
      pair t true over j,
      ap (λ (b : Bool). some (if b then pair t true over j else pair t true asleep j)) told,
      record { argument = h.argument; stack = h.stack; stored = h.stored; joined = h.joined },
      inl refl,
    )
    | inr untold ↦ inl (
      pair t true asleep j,
      ap (λ (b : Bool). some (if b then pair t true over j else pair t true asleep j)) untold,
      record { argument = h.argument; stack = h.stack; stored = h.stored; joined = h.joined },
      inl refl,
    )
  ]
  start_up-Holds t true asleep j h = inl (
    pair t true waiting j,
    refl,
    record { argument = h.argument; stack = h.stack; stored = h.stored; joined = h.joined },
    inl refl,
  )

  -- The joining thread keeps it too, and never goes to memory that is not mapped.
  pub join-Holds :
      (t : MyThread) (mapped : Bool) (u : StartUp) (j : Join)
      → Holds routine arg p (pair t mapped u j)
      → (s : Pair) × (my_thread_join (pair t mapped u j) ≡ some s) × Holds routine arg p s
  unfolding my_thread_join join_step
  join-Holds t mapped u (returned v) h = (pair t mapped u (returned v), refl, h)
  join-Holds t false u reading_stack h = cc (h.joined)
  join-Holds t false u (testing q) h = cc (h.joined.0)
  join-Holds t false u (sleeping q) h = cc (h.joined.0)
  join-Holds t false u (fetching q) h = cc (h.joined.0)
  join-Holds t false u (joining q v) h = cc (h.joined.0)
  join-Holds t false u (unmapping q v) h = cc (h.joined.0)
  join-Holds t true u reading_stack h = (
    pair t true u (testing t.stack),
    refl,
    record { argument = h.argument; stack = h.stack; stored = h.stored; joined = (refl, h.stack) },
  )
  join-Holds t true u (testing q) h = elim (Bool-cases t.exited) [
    | inl out ↦ (
      pair t true u (fetching q),
      ap (λ (b : Bool). some (if b then pair t true u (fetching q) else pair t true u (sleeping q)))
          out,
      record {
        argument = h.argument;
        stack = h.stack;
        stored = h.stored;
        joined = (refl, h.joined.1, out);
      },
    )
    | inr still ↦ (
      pair t true u (sleeping q),
      ap (λ (b : Bool). some (if b then pair t true u (fetching q) else pair t true u (sleeping q)))
          still,
      record { argument = h.argument; stack = h.stack; stored = h.stored; joined = h.joined },
    )
  ]
  join-Holds t true u (sleeping q) h = (
    pair t true u (testing q),
    refl,
    record { argument = h.argument; stack = h.stack; stored = h.stored; joined = h.joined },
  )
  join-Holds t true u (fetching q) h = (
    pair t true u (joining q t.ret_val),
    refl,
    record {
      argument = h.argument;
      stack = h.stack;
      stored = h.stored;
      joined = (refl, h.joined.1, h.joined.2, Stored-exited (routine arg) t u h.stored h.joined.2);
    },
  )
  join-Holds t true u (joining q v) h = (
    pair (record t { joined = true }) true u (unmapping q v),
    refl,
    record {
      argument = h.argument;
      stack = h.stack;
      stored = Stored-joined (routine arg) t u h.stored;
      joined = h.joined;
    },
  )
  join-Holds t true u (unmapping q v) h =
      let same : (q == t.stack) ≡ true = rw (h.joined.1, h.stack) (==_refl p) in
      (
        pair t false u (returned v),
        ap (λ (b : Bool). some (pair t (if b then false else true) u (returned v))) same,
        record {
          argument = h.argument;
          stack = h.stack;
          stored = h.stored;
          joined = (refl, h.joined.2, h.joined.3);
        },
      )
