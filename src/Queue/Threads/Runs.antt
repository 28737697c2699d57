-- ===== src/Queue/Threads/Runs.antt =====
-- The reader finds the numbers in their order.
use os2_labs.Common.{
  ℕ, ◌+◌, ◌≤◌, ◌<◌, ◌≡◌, ◌≢◌, refl, ap, ◌∙◌, ◌⊎◌, inl, inr, false, Option, none, some, List, [],
  ◌∷◌, ◌++◌, arith, length, length-append, ◌==◌, Bool-cases, ==_iff, has, ℤ, pos,
}
use os2_labs.Queue.{Ptr, null, Queue, done, aborted, locked_add}
use os2_labs.Queue.Fifo.{Cell, keys, IsQueue, keys-snoc, queue_init-IsQueue}
use os2_labs.Queue.Operations.{locked_add-Added}
use os2_labs.Queue.Threads.{
  Threads, int_max, next, written, writer, start, Turn, read_turn, write_turn, turn, run_threads,
}
use os2_labs.Queue.Threads.Frame.{locked_add-frame}
use os2_labs.Queue.Threads.Order.{Counts-snoc, Held, Following, next-pos, reached, reader-Following}

-- An addition changes nothing about the node that the reader has taken off.
Held-added :
    (fresh : Ptr) (s : Threads) (xs ys : List Cell) (k : ℕ) (taking : Option Ptr) (q' : Queue)
    (n : ℕ)
    → IsQueue s.queue xs
    → s.queue.nodes fresh ≡ none
    → locked_add fresh s.queue s.i ≡ done (q', n)
    → ((a : Ptr) → (a == fresh) ≡ false → has a (keys xs) ≡ false → has a (keys ys) ≡ false)
    → Held s.queue xs k taking s.expected
    → Held q' ys k taking s.expected
Held-added fresh s xs ys k none q' n is free run away h = h
Held-added fresh s xs ys k (some tmp) q' n is free run away (e, expects, first, out, (m, here)) =
    let other : (tmp == fresh) ≡ false = elim (Bool-cases (tmp == fresh)) [
      | inr differs ↦ differs
      | inl equal ↦ let at_fresh : tmp ≡ fresh = (==_iff tmp fresh).0 equal in cc
    ] in
    (
      e,
      expects,
      first,
      away tmp other out,
      (m, locked_add-frame fresh s.queue s.i xs tmp q' n is other out run ∙ here),
    )

writer-Following :
    (fresh : Ptr) (s : Threads)
    → fresh ≢ null
    → s.queue.nodes fresh ≡ none
    → (f : Following s) → reached f < int_max
    → (s' : Threads) × (writer fresh s ≡ done s')
      × ((f' : Following s') × (reached f' ≤ reached f + 1))
unfolding writer written
writer-Following fresh s ne free f room_left =
    elim (locked_add-Added s.queue f.cells fresh s.i f.queue ne free) [
      | inl (full, (q, run, is)) ↦ (
        record s { queue = q },
        rw run refl,
        (
          record {
            cells = f.cells;
            first = f.first;
            queue = is;
            counts = f.counts;
            last = f.last;
            held =
                Held-added fresh s f.cells f.cells f.first s.taking q 0 f.queue free run
                  (λ a other out. out) f.held;
            errors = f.errors;
            small = f.small;
          },
          omega arith,
        ),
      )
      | inr (room, (q, run, is)) ↦
          let longer = length-append f.cells ((fresh, s.i) ∷ []) in
          let counted : next s.i ≡ some (pos (f.first + length f.cells + 1)) =
            ap next f.last ∙ next-pos (f.first + length f.cells) room_left in
          (
            record s { queue = q; i = pos (f.first + length f.cells + 1) },
            rw run (rw counted refl),
            (
              record {
                cells = f.cells ++ (fresh, s.i) ∷ [];
                first = f.first;
                queue = is;
                counts = Counts-snoc f.first f.cells (fresh, s.i) f.counts f.last;
                last = ap pos (omega (arith, length-append f.cells ((fresh, s.i) ∷ [])));
                held =
                    Held-added fresh s f.cells (f.cells ++ (fresh, s.i) ∷ []) f.first s.taking q 1
                      f.queue free run
                      (λ a other out. keys-snoc f.cells (fresh, s.i) a ∙ ground arith) f.held;
                errors = f.errors;
                small = omega (arith, room_left, longer);
              },
              omega (arith, longer),
            ),
          )
    ]

writer-null : (s : Threads) → writer null s ≡ aborted
unfolding writer written locked_add
writer-null s = refl

start-Following : (max_count : ℕ) → Following (start max_count)
unfolding start
start-Following max_count = record {
  cells = [];
  first = 0;
  queue = queue_init-IsQueue max_count;
  counts = tt;
  last = refl;
  held = refl;
  errors = refl;
  small = omega arith;
}

start-reached : (max_count : ℕ) → reached (start-Following max_count) ≡ 0
unfolding start-Following
start-reached max_count = refl

-- `malloc` gives null, or an address at which there is no node.
abbrev pub IsMalloc : (ℕ → Queue → Ptr) → Type 0
IsMalloc malloc =
    (choice : ℕ) (q : Queue) → malloc choice q ≢ null → q.nodes (malloc choice q) ≡ none

run_threads-Following :
    (malloc : ℕ → Queue → Ptr) (s : Threads) (ts : List Turn)
    → IsMalloc malloc
    → (f : Following s) → reached f + length ts ≤ int_max
    → ((s' : Threads) × (run_threads malloc s ts ≡ done s') × Following s')
      ⊎ ((run_threads malloc s ts ≡ aborted)
          × ((choice : ℕ) × (q : Queue) × (malloc choice q ≡ null)))
unfolding run_threads turn
run_threads-Following malloc s [] law f fits = inl (s, refl, f)
run_threads-Following malloc s (read_turn ∷ ts) law f fits =
    let (s₁, run, (f₁, same)) = reader-Following s f in
    rw (run, run_threads) (run_threads-Following malloc s₁ ts law f₁ (omega (arith, same, fits)))
run_threads-Following malloc s (write_turn choice ∷ ts) law f fits =
    let fresh = malloc choice s.queue in
    elim (Bool-cases (fresh == null)) [
      | inl no_memory ↦
          let e : fresh ≡ null = (==_iff fresh null).0 no_memory in
          let stop : writer fresh s ≡ aborted = rw e (writer-null s) in
          inr (rw (stop, run_threads) refl, (choice, s.queue, e))
      | inr memory ↦
          let ne : fresh ≢ null = λ e. ground arith in
          let (s₁, run, (f₁, more)) =
            writer-Following fresh s ne (law choice s.queue ne) f (omega (arith, fits)) in
          rw (run, run_threads)
            (run_threads-Following malloc s₁ ts law f₁ (omega (arith, more, fits)))
    ]

not_ahead :
    (q : Queue) (xs : List Cell) (k : ℕ) (taking : Option Ptr) (expected : ℤ)
    → Held q xs k taking expected
    → (e : ℕ) × (expected ≡ pos e) × (e ≤ k)
not_ahead q xs k none expected h = (k, h, omega arith)
not_ahead q xs k (some tmp) expected h = (h.0, h.1, omega (arith, h.2))

-- From the start on, for at most INT_MAX steps of the two threads in any order, so that no `int` overflows,
-- and where `malloc` gives addresses that are not in use: no step accesses a node that is not allocated, no assertion fails, and the reader finds the
-- number that it expects each time, which is never ahead of what the writer adds next; the program ends only
-- if `malloc` fails.
pub run_threads-ordered :
    (malloc : ℕ → Queue → Ptr) (max_count : ℕ) (ts : List Turn)
    → IsMalloc malloc
    → length ts ≤ int_max
    → ((s : Threads) × (run_threads malloc (start max_count) ts ≡ done s)
        × (s.errors ≡ 0)
        × ((e i : ℕ) × (s.expected ≡ pos e) × (s.i ≡ pos i) × (e ≤ i)))
      ⊎ ((run_threads malloc (start max_count) ts ≡ aborted)
          × ((choice : ℕ) × (q : Queue) × (malloc choice q ≡ null)))
run_threads-ordered malloc max_count ts law few =
    elim (run_threads-Following malloc (start max_count) ts law (start-Following max_count)
      (omega (arith, few, start-reached max_count))) [
        | inr ended ↦ inr ended
        | inl (s, run, f) ↦
            let (e, expects, le) = not_ahead s.queue f.cells f.first s.taking s.expected f.held in
            inl
              (s, run, f.errors, (e, f.first + length f.cells, expects, f.last, omega (arith, le)))
      ]
