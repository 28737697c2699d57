-- ===== src/Queue/Waiting/History.antt =====
-- The steps of the waiting queues on the list of their values, and the history that they add up to.
use os2_labs.Common.{
  ℕ, ◌+◌, ◌<◌, ◌≡◌, ◌≢◌, refl, sym, ap, ◌∙◌, inl, inr, false, Option, none, some, List, [], ◌∷◌,
  ◌++◌, append_assoc, arith, ◌==◌, length, Bool-cases, Option-cases, has, ℤ,
}
use os2_labs.Cache.Lru.Chain.{ne-has}
use os2_labs.Queue.{Ptr, null, Queue, Run, done, aborted, fault, write, link_new, with_node}
use os2_labs.Queue.Fifo.{Cell, keys, IsQueue, Cells-frame}
use os2_labs.Queue.Operations.{linked-IsQueue, shrunk, shrunk-IsQueue}
use os2_labs.Queue.Waiting.{unlink_first, Shared}

abbrev pub values : List Cell → List ℤ
values [] = []
values (x ∷ xs) = x.1 ∷ values xs

values-append : (xs ys : List Cell) → values (xs ++ ys) ≡ values xs ++ values ys
values-append [] ys = refl
values-append (x ∷ xs) ys = ap (λ r. x.1 ∷ r) (values-append xs ys)

pub length-values : (xs : List Cell) → length (values xs) ≡ length xs
length-values [] = refl
length-values (x ∷ xs) = omega (arith, length-values xs)

link_new-max_count :
    (new : Ptr) (q : Queue) {q' : Queue} {n : ℕ}
    → link_new new q ≡ done (q', n)
    → q'.max_count ≡ q.max_count
unfolding link_new
link_new-max_count new q {q'} {n} e = elim (Bool-cases (q.first == null)) [
  | inl empty ↦
      let same : record q {
        first = new;
        last = new;
        count = q.count + 1;
        add_count = q.add_count + 1;
      }
          ≡ q' =
        cc (rw empty at e) in
      sym (ap (λ (r : Queue). r.max_count) same)
  | inr some_first ↦ elim (Option-cases (q.nodes q.last)) [
    | inl gone ↦ cc (rw (some_first, gone) at e)
    | inr (m, here) ↦
        let same : record q {
          nodes = write q.nodes q.last (some (record m { next = new }));
          last = new;
          count = q.count + 1;
          add_count = q.add_count + 1;
        }
            ≡ q' =
          cc (rw (some_first, here) at e) in
        sym (ap (λ (r : Queue). r.max_count) same)
  ]
]

-- The values that are in the queue are those that have been added and not taken, in the order in which
-- they were added, and they are within its bound.
pub record Fifo (max_count : ℕ) (s : Shared) : Type 0 where
  pub cells : List Cell
  pub queue : IsQueue s.queue cells
  pub bound : s.queue.max_count ≡ max_count
  pub history : s.added ≡ s.taken ++ values cells

-- An addition to a queue that has room.
pub Fifo-add :
    (max_count : ℕ) (s : Shared) (fresh : Ptr) (val : ℤ) (n m : ℕ) (f : Fifo max_count s)
    → fresh ≢ null
    → s.queue.nodes fresh ≡ none
    → length f.cells < max_count
    → (q' : Queue) × (link_new fresh
          (with_node fresh val (record s.queue { add_attempts = n; get_attempts = m }))
        ≡ done (q', 1))
      × ((f' : Fifo max_count (record s { queue = q'; added = s.added ++ val ∷ [] })) × (f'.cells
            ≡ f.cells ++ (fresh, val) ∷ []))
Fifo-add max_count s fresh val n m f ne free room =
    let (q', run, is) =
      linked-IsQueue s.queue f.cells fresh val n m f.queue ne free (rw f.bound room) in
    (
      q',
      run,
      (
        record {
          cells = f.cells ++ (fresh, val) ∷ [];
          queue = is;
          bound = link_new-max_count fresh _ run ∙ kept ∙ f.bound;
          history =
              ap (λ r. r ++ val ∷ []) f.history
              ∙ append_assoc s.taken (values f.cells) (val ∷ [])
              ∙ ap (λ r. s.taken ++ r) (sym (values-append f.cells ((fresh, val) ∷ [])));
        },
        refl,
      ),
    )
  where
    kept :
        (with_node fresh val (record s.queue { add_attempts = n; get_attempts = m })).max_count
        ≡ s.queue.max_count
    kept = unfold with_node in refl

unlink_first-IsQueue :
    (q : Queue) (x : Cell) (xs : List Cell)
    → IsQueue q (x ∷ xs)
    → (q' : Queue) × (unlink_first (record q { get_attempts = q.get_attempts + 1 })
        ≡ done (q', x.1))
      × IsQueue q' xs
      × (q'.max_count ≡ q.max_count)
unfolding unlink_first
unlink_first-IsQueue q x xs is =
    let (e, ne, (n, here, c)) = is.cells in
    let at_first : q.nodes q.first ≡ some (record { val = x.1; next = n }) = ap q.nodes e ∙ here in
    let nodes' = write q.nodes q.first none in
    let out : has q.first (keys xs) ≡ false = ap (λ a. has a (keys xs)) e ∙ is.nodup.0 in
    (
      shrunk q nodes' n,
      rw (at_first, unlink_first),
      shrunk-IsQueue q x xs nodes' n is
          (Cells-frame q.nodes nodes' n xs (λ a m. rw (ne-has q.first a (keys xs) out m)) c),
      refl,
    )

-- The first value is taken from a queue that has one.
pub Fifo-get :
    (max_count : ℕ) (s : Shared) (f : Fifo max_count s) (x : Cell) (xs : List Cell)
    → f.cells ≡ x ∷ xs
    → (q' : Queue) × (unlink_first (record s.queue { get_attempts = s.queue.get_attempts + 1 })
        ≡ done (q', x.1))
      × ((f' : Fifo max_count (record s { queue = q'; taken = s.taken ++ x.1 ∷ [] })) × (f'.cells
            ≡ xs))
Fifo-get max_count s f x xs same =
    let (q', run, is, bound) = unlink_first-IsQueue s.queue x xs (rw same at f.queue) in
    (
      q',
      run,
      (
        record {
          cells = xs;
          queue = is;
          bound = bound ∙ f.bound;
          history =
              f.history
              ∙ ap (λ ys. s.taken ++ values ys) same
              ∙ sym (append_assoc s.taken (x.1 ∷ []) (values xs));
        },
        refl,
      ),
    )

-- The queue and the value that a step which does not wait ends with.
abbrev pub queue_of {ℓ} : {A : Type ℓ} → Queue → Option (Run (Queue × A)) → Queue
queue_of q none = q
queue_of q (some (done r)) = r.0
queue_of q (some aborted) = q
queue_of q (some fault) = q

abbrev pub value_of {ℓ} : {A : Type ℓ} → A → Option (Run (Queue × A)) → A
value_of v none = v
value_of v (some (done r)) = r.1
value_of v (some aborted) = v
value_of v (some fault) = v
