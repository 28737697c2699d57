-- ===== src/Queue/Operations.antt =====
-- Adding to the queue and getting from it, against the list of its values.
use os2_labs.Common.{
  ℕ, ◌+◌, ◌-◌, ◌<◌, ◌≡◌, ◌≢◌, refl, sym, ap, ◌∙◌, ◌⊎◌, inl, inr, true, false, Option, none, some,
  List, [], ◌∷◌, ◌++◌, arith, ◌==◌, leb, length, Bool-cases, ==_iff, ne→==, has, ℤ,
}
use os2_labs.Cache.Lru.Chain.{ne-has}
use os2_labs.Queue.{
  Ptr, null, Node, Queue, Run, done, write, link_new, with_node, queue_add, locked_add, queue_get,
  locked_get, take_node,
}
use os2_labs.Queue.Fifo.{
  Cell, keys, last_key, Cells, IsQueue, Cells-frame, not_in, link_new-IsQueue,
}

-- Counting an attempt does not matter.
IsQueue-tried :
    (q : Queue) (xs : List Cell) (n m : ℕ)
    → IsQueue q xs
    → IsQueue (record q { add_attempts = n; get_attempts = m }) xs
IsQueue-tried q xs n m is = record {
  cells = is.cells;
  nodup = is.nodup;
  last = is.last;
  count = is.count;
  bound = is.bound;
}

-- A full queue is left with its values and 0 is returned; else the value becomes the last and 1 is
-- returned.
abbrev pub Added : Queue → List Cell → Cell → Run (Queue × ℕ) → Type 0
Added q xs y r =
    ((length xs ≡ q.max_count) × ((q' : Queue) × (r ≡ done (q', 0)) × IsQueue q' xs))
    ⊎ ((length xs < q.max_count) × ((q' : Queue) × (r ≡ done (q', 1)) × IsQueue q' (xs ++ y ∷ [])))

module _ (q : Queue) (xs : List Cell) (fresh : Ptr) (val : ℤ) (is : IsQueue q xs)
    (ne : fresh ≢ null) (free : q.nodes fresh ≡ none) where
  tried : Queue
  tried = record q { add_attempts = q.add_attempts + 1 }

  within : leb q.count q.max_count ≡ true
  within = rw is.count (ground (arith, is.bound))

  linked :
      length xs < q.max_count
      → (q' : Queue) × (link_new fresh (with_node fresh val tried) ≡ done (q', 1))
        × IsQueue q' (xs ++ (fresh, val) ∷ [])
  unfolding tried
  linked room =
      link_new-IsQueue tried xs (fresh, val)
        (IsQueue-tried q xs (q.add_attempts + 1) q.get_attempts is) ne free room

  -- Without other threads, on a queue of 2.1 that keeps the invariant and where `malloc` gives a
  -- node that is not in use, an addition keeps the invariant: it returns 0 exactly if the queue is
  -- full, and else 1, and the value becomes the last.
  pub queue_add-Added : Added q xs (fresh, val) (queue_add fresh q val)
  unfolding queue_add tried
  queue_add-Added = elim (Bool-cases (q.count == q.max_count)) [
    | inl full ↦ inl (
      (sym is.count ∙ (==_iff q.count q.max_count).0 full),
      (tried, rw (within, full), IsQueue-tried q xs (q.add_attempts + 1) q.get_attempts is),
    )
    | inr room ↦
        let less : length xs < q.max_count = ground (arith, is.count, is.bound) in
        let (q', run, is') = linked less in
        inr (less, (q', rw (within, room, ne→== fresh null ne) run, is'))
  ]

  pub locked_add-Added : Added q xs (fresh, val) (locked_add fresh q val)
  unfolding locked_add with_node tried
  locked_add-Added = elim (Bool-cases (q.count == q.max_count)) [
    | inl full ↦
        let nodes' =
          write (write q.nodes fresh (some (record { val = val; next = null }))) fresh none in
        inl (
          (sym is.count ∙ (==_iff q.count q.max_count).0 full),
          (
            record tried { nodes = nodes' },
            rw (ne→== fresh null ne, within, full),
            record {
              cells =
                  Cells-frame q.nodes nodes' q.first xs
                    (λ a m.
                      rw (
                        ne-has fresh a (keys xs) (not_in q.nodes q.first xs fresh is.cells free) m))
                    is.cells;
              nodup = is.nodup;
              last = is.last;
              count = is.count;
              bound = is.bound;
            },
          ),
        )
    | inr room ↦
        let less : length xs < q.max_count = ground (arith, is.count, is.bound) in
        let (q', run, is') = linked less in
        inr (less, (q', rw (ne→== fresh null ne, within, room) run, is'))
  ]

-- The queue without its first node; `nodes` are those that are allocated then.
abbrev pub shrunk : Queue → (Ptr → Option Node) → Ptr → Queue
shrunk q nodes first = record q {
  nodes = nodes;
  first = first;
  count = q.count - 1;
  get_attempts = q.get_attempts + 1;
  get_count = q.get_count + 1;
}

pub shrunk-IsQueue :
    (q : Queue) (x : Cell) (xs : List Cell) (nodes : Ptr → Option Node) (n : Ptr)
    → IsQueue q (x ∷ xs)
    → Cells nodes n xs
    → IsQueue (shrunk q nodes n) xs
shrunk-IsQueue q x xs nodes n is c = record {
  cells = c;
  nodup = is.nodup.1;
  last = after xs is.last;
  count = omega (arith, is.count);
  bound = omega (arith, is.bound);
}
  where
    after : (ys : List Cell) → q.last ≡ last_key x.0 ys → q.last ≡ last_key q.last ys
    after [] e = refl
    after (y ∷ ys) e = e

-- An empty queue gives nothing and stays empty; else the first value is given and the others stay.
abbrev pub Got : List Cell → Run (Queue × Option ℤ) → Type 0
Got xs r =
    ((xs ≡ []) × ((q' : Queue) × (r ≡ done (q', none)) × IsQueue q' xs))
    ⊎ ((x : Cell) × (ys : List Cell) × (xs ≡ x ∷ ys)
        × ((q' : Queue) × (r ≡ done (q', some x.1)) × IsQueue q' ys))

-- Without other threads, getting from a queue of 2.1 that keeps the invariant keeps it: an empty
-- queue gives nothing, and else the first value is given and the others stay.
pub queue_get-Got : (q : Queue) (xs : List Cell) → IsQueue q xs → Got xs (queue_get q)
unfolding queue_get
queue_get-Got q [] is = inl (
  refl,
  (
    record q { get_attempts = q.get_attempts + 1 },
    rw is.count,
    IsQueue-tried q [] q.add_attempts (q.get_attempts + 1) is,
  ),
)
queue_get-Got q (x ∷ xs) is =
    let (e, ne, (n, here, c)) = is.cells in
    let some_count : (q.count == 0) ≡ false = ne→== q.count 0 (λ z. omega (arith, is.count)) in
    let at_first : q.nodes q.first ≡ some (record { val = x.1; next = n }) = ap q.nodes e ∙ here in
    let nodes' = write q.nodes q.first none in
    let out : has q.first (keys xs) ≡ false = ap (λ a. has a (keys xs)) e ∙ is.nodup.0 in
    inr (
      x,
      xs,
      refl,
      (
        shrunk q nodes' n,
        rw (some_count, queue_get) (rw at_first),
        shrunk-IsQueue q x xs nodes' n is
            (Cells-frame q.nodes nodes' n xs (λ a m. rw (ne-has q.first a (keys xs) out m)) c),
      ),
    )

-- Getting with a lock (2.2, mutex and spinlock) from a queue that keeps the invariant: the critical
-- section keeps it; an empty queue gives nothing; else the first node is taken off the list and is
-- still allocated, and reading and freeing it, if nothing happens in between, gives its value and
-- keeps the invariant.
pub locked_get-Got :
    (q : Queue) (xs : List Cell)
    → IsQueue q xs
    → ((xs ≡ []) × ((q' : Queue) × (locked_get q ≡ done (q', none)) × IsQueue q' xs))
      ⊎ ((x : Cell) × (ys : List Cell) × (xs ≡ x ∷ ys)
          × ((q' : Queue) × (locked_get q ≡ done (q', some x.0))
              × IsQueue q' ys
              × ((r : Queue) × (take_node q' x.0 ≡ done (r, x.1)) × IsQueue r ys)))
unfolding locked_get take_node
locked_get-Got q [] is = inl (
  refl,
  (
    record q { get_attempts = q.get_attempts + 1 },
    rw is.count,
    IsQueue-tried q [] q.add_attempts (q.get_attempts + 1) is,
  ),
)
locked_get-Got q (x ∷ xs) is =
    let (e, ne, (n, here, c)) = is.cells in
    let some_count : (q.count == 0) ≡ false = ne→== q.count 0 (λ z. omega (arith, is.count)) in
    let at_first : q.nodes q.first ≡ some (record { val = x.1; next = n }) = ap q.nodes e ∙ here in
    let nodes' = write q.nodes x.0 none in
    let q' = shrunk q q.nodes n in
    inr (
      x,
      xs,
      refl,
      (
        q',
        rw (some_count, locked_get) (rw at_first (ap (λ a. done (q', some a)) e)),
        shrunk-IsQueue q x xs q.nodes n is c,
        (
          shrunk q nodes' n,
          rw (here, take_node),
          shrunk-IsQueue q x xs nodes' n is
              (Cells-frame q.nodes nodes' n xs (λ a m. rw (ne-has x.0 a (keys xs) is.nodup.0 m)) c),
        ),
      ),
    )

-- On a queue that keeps the invariant and has room, the new node becomes the last.
pub linked-IsQueue :
    (q : Queue) (xs : List Cell) (fresh : Ptr) (val : ℤ) (n m : ℕ)
    → IsQueue q xs
    → fresh ≢ null
    → q.nodes fresh ≡ none
    → length xs < q.max_count
    → (q' : Queue) × (link_new fresh
          (with_node fresh val (record q { add_attempts = n; get_attempts = m }))
        ≡ done (q', 1))
      × IsQueue q' (xs ++ (fresh, val) ∷ [])
linked-IsQueue q xs fresh val n m is ne free room =
    link_new-IsQueue (record q { add_attempts = n; get_attempts = m }) xs (fresh, val)
      (IsQueue-tried q xs n m is) ne free room
