-- ===== src/Queue/Waiting/Condvar.antt =====
-- The queue with condition variables: its threads in any order.
use os2_labs.Common.{
  ℕ, suc, ◌+◌, ◌≤◌, ◌<◌, ◌≡◌, ◌≢◌, refl, sym, ap, ◌∙◌, ◌⊎◌, inl, inr, true, false, Option, some,
  none, List, [], ◌∷◌, ◌++◌, arith, ◌==◌, length, Bool-cases, ==_iff, ==_refl, ne→==, ne_of_==, ℤ,
}
use os2_labs.Queue.{Ptr, null, Queue, done, queue_init}
use os2_labs.Queue.Fifo.{Cell, queue_init-IsQueue}
use os2_labs.Queue.Waiting.{Shared, cond_add, cond_get, CondReach, start, add, get, begun}
use os2_labs.Queue.Waiting.History.{
  values, length-values, Fifo, Fifo-add, Fifo-get, queue_of, value_of,
}

-- A thread that adds waits if the queue is full, and else its value becomes the last.
abbrev pub AddTurn : (max_count : ℕ) (s : Shared) → (fresh : Ptr) (val : ℤ) → List ℤ → Type 0
AddTurn max_count s fresh val xs =
    ((length xs ≡ max_count) × (cond_add fresh s.queue val ≡ none))
    ⊎ ((length xs < max_count)
        × ((q' : Queue) × (cond_add fresh s.queue val ≡ some (done (q', 1)))))

-- A thread that gets waits if the queue is empty, and else takes the first value.
abbrev pub GetTurn : Shared → List ℤ → Type 0
GetTurn s xs =
    ((xs ≡ []) × (cond_get s.queue ≡ none))
    ⊎ ((val : ℤ) × (ys : List ℤ) × (xs ≡ val ∷ ys)
        × ((q' : Queue) × (cond_get s.queue ≡ some (done (q', val)))))

none-some {ℓ} : {A : Type ℓ} {a : A} → (let e : Option A = none in e) ≢ some a
none-some e = cc

module _ (max_count : ℕ) (s : Shared) (f : Fifo max_count s) where
  full : (length f.cells ≡ max_count) → (s.queue.count == s.queue.max_count) ≡ true
  full e = rw (f.queue.count, f.bound, e) (==_refl max_count)

  not_full : length f.cells ≢ max_count → (s.queue.count == s.queue.max_count) ≡ false
  not_full ne = rw (f.queue.count, f.bound) (ne→== (length f.cells) max_count ne)

  within : length f.cells ≤ max_count
  within = rw (← f.bound) f.queue.bound

  cond_add-full :
      (fresh : Ptr) (val : ℤ) → length f.cells ≡ max_count → cond_add fresh s.queue val ≡ none
  unfolding cond_add
  cond_add-full fresh val e = rw (full e)

  cond_add-Fifo :
      (fresh : Ptr) (val : ℤ)
      → fresh ≢ null
      → s.queue.nodes fresh ≡ none
      → length f.cells ≢ max_count
      → (q' : Queue) × (cond_add fresh s.queue val ≡ some (done (q', 1)))
        × Fifo max_count (record s { queue = q'; added = s.added ++ val ∷ [] })
  unfolding cond_add
  cond_add-Fifo fresh val ne free room =
      let (q', run, (f', cells)) =
        Fifo-add max_count s fresh val (s.queue.add_attempts + 1) s.queue.get_attempts f ne free
          (omega (arith, within)) in
      (q', rw (not_full room, ne→== fresh null ne) (ap some run), f')

  cond_get-empty : f.cells ≡ [] → cond_get s.queue ≡ none
  unfolding cond_get
  cond_get-empty e = let none_left : s.queue.count ≡ 0 = f.queue.count ∙ ap length e in rw none_left

  cond_get-Fifo :
      (x : Cell) (xs : List Cell)
      → f.cells ≡ x ∷ xs
      → (q' : Queue) × (cond_get s.queue ≡ some (done (q', x.1)))
        × Fifo max_count (record s { queue = q'; taken = s.taken ++ x.1 ∷ [] })
  unfolding cond_get
  cond_get-Fifo x xs e =
      let (q', run, (f', cells)) = Fifo-get max_count s f x xs e in
      let count : s.queue.count ≡ suc (length xs) = f.queue.count ∙ ap length e in
      let some_left : (s.queue.count == 0) ≡ false = ground arith in
      (q', rw some_left (ap some run), f')

  -- What an addition or a removal leaves is in order.
  added-Fifo :
      (fresh : Ptr) (val : ℤ) (q' : Queue) (n : ℕ)
      → fresh ≢ null
      → s.queue.nodes fresh ≡ none
      → cond_add fresh s.queue val ≡ some (done (q', n))
      → Fifo max_count (record s { queue = q'; added = s.added ++ val ∷ [] })
  added-Fifo fresh val q' n ne free run = elim (Bool-cases (length f.cells == max_count)) [
    | inl at_bound ↦ absurd (
        none-some
          (sym (cond_add-full fresh val ((==_iff (length f.cells) max_count).0 at_bound)) ∙ run))
    | inr room ↦
        let (q₂, run₂, f₂) =
          cond_add-Fifo fresh val ne free (ne_of_== (length f.cells) max_count room) in
        let same : q₂ ≡ q' = ap (queue_of q') (sym run₂ ∙ run) in rw (← same) f₂
  ]

  taken-Fifo :
      (q' : Queue) (val : ℤ) (xs : List Cell)
      → f.cells ≡ xs
      → cond_get s.queue ≡ some (done (q', val))
      → Fifo max_count (record s { queue = q'; taken = s.taken ++ val ∷ [] })
  taken-Fifo q' val [] e run = absurd (none-some (sym (cond_get-empty e) ∙ run))
  taken-Fifo q' val (x ∷ xs) e run =
      let (q₂, run₂, f₂) = cond_get-Fifo x xs e in
      let same : q₂ ≡ q' = ap (queue_of q') (sym run₂ ∙ run) in
      let same_val : x.1 ≡ val = ap (value_of val) (sym run₂ ∙ run) in rw (← same, ← same_val) f₂

-- Every state that is reached is in order.
pub CondReach-Fifo :
    (max_count : ℕ) (s a : Shared) → Fifo max_count s → CondReach s a → Fifo max_count a
CondReach-Fifo max_count s a f start = f
CondReach-Fifo max_count s b f (add a fresh val q' n r ne free run) =
    added-Fifo max_count a (CondReach-Fifo max_count s a f r) fresh val q' n ne free run
CondReach-Fifo max_count s b f (get a q' val r run) =
    let fa = CondReach-Fifo max_count s a f r in taken-Fifo max_count a fa q' val fa.cells refl run

begun-Fifo : (max_count : ℕ) → Fifo max_count (begun (queue_init max_count))
unfolding queue_init
begun-Fifo max_count = record {
  cells = [];
  queue = queue_init-IsQueue max_count;
  bound = refl;
  history = refl;
}

-- In any order of additions and removals, from an empty queue on: the values that have been taken and
-- those that are in the queue, which are within its bound, are together the ones that have been added, in
-- their order. A thread that adds, with memory at an address that is not in use, waits exactly if the
-- queue is full, and else returns 1; one that gets waits exactly if it is empty, and else gets the first
-- value.
pub cond_queue-Fifo :
    (max_count : ℕ) (s : Shared) (fresh : Ptr) (val : ℤ)
    → CondReach (begun (queue_init max_count)) s
    → fresh ≢ null
    → s.queue.nodes fresh ≡ none
    → (xs : List ℤ) × (s.added ≡ s.taken ++ xs)
      × (length xs ≤ max_count)
      × AddTurn max_count s fresh val xs
      × GetTurn s xs
cond_queue-Fifo max_count s fresh val r ne free =
    let f = CondReach-Fifo max_count _ s (begun-Fifo max_count) r in
    (
      values f.cells,
      f.history,
      rw (length-values f.cells) (within max_count s f),
      adds f,
      gets f f.cells refl,
    )
  where
    adds : (f : Fifo max_count s) → AddTurn max_count s fresh val (values f.cells)
    adds f = elim (Bool-cases (length f.cells == max_count)) [
      | inl at_bound ↦
          let e = (==_iff (length f.cells) max_count).0 at_bound in
          inl (length-values f.cells ∙ e, cond_add-full max_count s f fresh val e)
      | inr room ↦
          let (q', run, f') = cond_add-Fifo max_count s f fresh val ne free (ground arith) in
          inr (
            omega (
              arith,
              length-values f.cells,
              within max_count s f,
              ne_of_== (length f.cells) max_count room,
            ),
            (q', run),
          )
    ]

    gets : (f : Fifo max_count s) (xs : List Cell) → f.cells ≡ xs → GetTurn s (values xs)
    gets f [] e = inl (refl, cond_get-empty max_count s f e)
    gets f (x ∷ xs) e =
        let (q', run, f') = cond_get-Fifo max_count s f x xs e in
        inr (x.1, values xs, refl, (q', run))
