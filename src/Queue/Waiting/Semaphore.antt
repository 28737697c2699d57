-- ===== src/Queue/Waiting/Semaphore.antt =====
-- The queue with semaphores: its threads in any order.
use os2_labs.Common.{
  ℕ, suc, ◌+◌, ◌≤◌, ◌≡◌, ◌≢◌, refl, sym, ap, ◌∙◌, none, some, List, [], ◌∷◌, ◌++◌, arith, length,
  length-append, ne→==, ℤ,
}
use os2_labs.Queue.{Ptr, null, Queue, done, queue_init}
use os2_labs.Queue.Fifo.{Cell, queue_init-IsQueue}
use os2_labs.Queue.Waiting.{
  sem_add, sem_get, Sems, init_sem, SemReach, start, wait_emptiness, add, wait_fullness, get, begun,
}
use os2_labs.Queue.Waiting.History.{
  values, length-values, Fifo, Fifo-add, Fifo-get, queue_of, value_of,
}

-- The values in the queue are those that `fullness` offers and those that a getting thread is about to
-- take; the room is what `emptiness` offers and what an adding thread is about to fill.
pub record Counted (max_count : ℕ) (a : Sems) : Type 0 where
  pub fifo : Fifo max_count a.shared
  pub filled : length fifo.cells ≡ a.fullness + a.getting
  pub room : a.emptiness + a.adding + length fifo.cells ≡ max_count

module _ (max_count : ℕ) (a : Sems) (c : Counted max_count a) where
  add-Counted :
      (fresh : Ptr) (val : ℤ) (n : ℕ)
      → a.adding ≡ suc n
      → fresh ≢ null
      → a.shared.queue.nodes fresh ≡ none
      → (q' : Queue) × (sem_add fresh a.shared.queue val ≡ done (q', 1))
        × Counted max_count (record a {
          shared = record a.shared { queue = q'; added = a.shared.added ++ val ∷ [] };
          fullness = a.fullness + 1;
          adding = n;
        })
  unfolding sem_add
  add-Counted fresh val n ticket ne free =
      let (q', run, (f', cells)) =
        Fifo-add max_count a.shared fresh val (a.shared.queue.add_attempts + 1)
          a.shared.queue.get_attempts c.fifo ne free (omega (arith, c.room)) in
      let longer : length f'.cells ≡ length c.fifo.cells + 1 =
        ap length cells ∙ length-append c.fifo.cells ((fresh, val) ∷ []) in
      (
        q',
        rw (ne→== fresh null ne) run,
        record {
          fifo = f';
          filled = omega (arith, longer, c.filled);
          room = omega (arith, longer, c.room, ticket);
        },
      )

  get-Counted :
      (n : ℕ) (xs : List Cell)
      → a.getting ≡ suc n
      → c.fifo.cells ≡ xs
      → (q' : Queue) × (val : ℤ) × (ys : List ℤ) × (values xs ≡ val ∷ ys)
        × (sem_get a.shared.queue ≡ done (q', val))
        × Counted max_count (record a {
          shared = record a.shared { queue = q'; taken = a.shared.taken ++ val ∷ [] };
          emptiness = a.emptiness + 1;
          getting = n;
        })
  unfolding sem_get
  get-Counted n [] ticket e =
      let none_left : length c.fifo.cells ≡ 0 = ap length e in
      absurd (omega (arith, c.filled, ticket, none_left))
  get-Counted n (x ∷ xs) ticket e =
      let (q', run, (f', cells)) = Fifo-get max_count a.shared c.fifo x xs e in
      let before : length c.fifo.cells ≡ suc (length xs) = ap length e in
      let after : length f'.cells ≡ length xs = ap length cells in
      (
        q',
        x.1,
        values xs,
        refl,
        run,
        record {
          fifo = f';
          filled = omega (arith, before, after, c.filled, ticket);
          room = omega (arith, before, after, c.room);
        },
      )

  added-Counted :
      (fresh : Ptr) (val : ℤ) (q' : Queue) (r n : ℕ)
      → a.adding ≡ suc n
      → fresh ≢ null
      → a.shared.queue.nodes fresh ≡ none
      → sem_add fresh a.shared.queue val ≡ done (q', r)
      → Counted max_count (record a {
        shared = record a.shared { queue = q'; added = a.shared.added ++ val ∷ [] };
        fullness = a.fullness + 1;
        adding = n;
      })
  added-Counted fresh val q' r n ticket ne free run =
      let (q₂, run₂, c₂) = add-Counted fresh val n ticket ne free in
      let same : q₂ ≡ q' = ap (λ s. queue_of q' (some s)) (sym run₂ ∙ run) in rw (← same) c₂

  taken-Counted :
      (q' : Queue) (val : ℤ) (n : ℕ)
      → a.getting ≡ suc n
      → sem_get a.shared.queue ≡ done (q', val)
      → Counted max_count (record a {
        shared = record a.shared { queue = q'; taken = a.shared.taken ++ val ∷ [] };
        emptiness = a.emptiness + 1;
        getting = n;
      })
  taken-Counted q' val n ticket run =
      let (q₂, v, ys, e, run₂, c₂) = get-Counted n c.fifo.cells ticket refl in
      let same : q₂ ≡ q' = ap (λ s. queue_of q' (some s)) (sym run₂ ∙ run) in
      let same_val : v ≡ val = ap (λ s. value_of val (some s)) (sym run₂ ∙ run) in
      rw (← same, ← same_val) c₂

-- Every state that is reached is in order.
SemReach-Counted :
    (max_count : ℕ) (s a : Sems) → Counted max_count s → SemReach s a → Counted max_count a
SemReach-Counted max_count s a c start = c
SemReach-Counted max_count s b c (wait_emptiness a n r some_room) =
    let c' = SemReach-Counted max_count s a c r in
    record { fifo = c'.fifo; filled = c'.filled; room = omega (arith, c'.room, some_room) }
SemReach-Counted max_count s b c (add a fresh val q' r n before ticket ne free run) =
    added-Counted max_count a (SemReach-Counted max_count s a c before) fresh val q' r n ticket ne
      free run
SemReach-Counted max_count s b c (wait_fullness a n r some_value) =
    let c' = SemReach-Counted max_count s a c r in
    record { fifo = c'.fifo; filled = omega (arith, c'.filled, some_value); room = c'.room }
SemReach-Counted max_count s b c (get a q' val n before ticket run) =
    taken-Counted max_count a (SemReach-Counted max_count s a c before) q' val n ticket run

begun-Counted : (max_count : ℕ) → Counted max_count (init_sem (begun (queue_init max_count)))
unfolding init_sem queue_init
begun-Counted max_count = record {
  fifo = record { cells = []; queue = queue_init-IsQueue max_count; bound = refl; history = refl };
  filled = refl;
  room = omega arith;
}

-- In any order of the steps of the threads, from an empty queue on: the values that have been taken and
-- those that are in the queue are together the ones that have been added, in their order; they are never
-- more than the queue's bound; and the values, and the room that is left, are what the two semaphores
-- offer and what the threads past their waits are about to take and to fill.
pub sem_queue-Fifo :
    (max_count : ℕ) (a : Sems)
    → SemReach (init_sem (begun (queue_init max_count))) a
    → (xs : List ℤ) × (a.shared.added ≡ a.shared.taken ++ xs)
      × (length xs ≤ max_count)
      × (length xs ≡ a.fullness + a.getting)
      × (a.emptiness + a.adding + length xs ≡ max_count)
sem_queue-Fifo max_count a r =
    let c = SemReach-Counted max_count _ a (begun-Counted max_count) r in
    let same = length-values c.fifo.cells in
    (
      values c.fifo.cells,
      c.fifo.history,
      omega (arith, same, c.room),
      omega (arith, same, c.filled),
      omega (arith, same, c.room),
    )

-- Though the section tests nothing: a thread that has passed its wait for a value finds one, the first of
-- those that have been added and not taken, whatever the other threads are about to do.
pub sem_get-ready :
    (max_count : ℕ) (a : Sems) (n : ℕ)
    → SemReach (init_sem (begun (queue_init max_count))) a
    → a.getting ≡ suc n
    → (q' : Queue) × (v : ℤ) × (ys : List ℤ) × (sem_get a.shared.queue ≡ done (q', v))
      × (a.shared.added ≡ a.shared.taken ++ v ∷ ys)
sem_get-ready max_count a n r some_value =
    let c = SemReach-Counted max_count _ a (begun-Counted max_count) r in
    let (q', v, ys, e, run, c') = get-Counted max_count a c n c.fifo.cells some_value refl in
    (q', v, ys, run, c.fifo.history ∙ ap (λ r. a.shared.taken ++ r) e)
