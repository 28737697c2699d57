-- ===== src/Queue/Threads/Order.antt =====
-- The reader takes nodes off the list and finds what it expects.
use os2_labs.Common.{
  ℕ, ◌+◌, ◌≤◌, ◌<◌, lt→ltb, ◌≡◌, refl, sym, ap, ◌∙◌, inl, inr, Bool, true, false, Option, none,
  some, List, [], ◌∷◌, ◌++◌, arith, length, if◌then◌else◌, Option-cases, ==_refl, has, ℤ, pos,
}
use os2_labs.Cache.Lru.Chain.{ne-has}
use os2_labs.Queue.{Ptr, Node, Queue, Run, done, aborted, fault, write, take_node}
use os2_labs.Queue.Fifo.{Cell, keys, IsQueue, Cells-frame}
use os2_labs.Queue.Operations.{locked_get-Got}
use os2_labs.Queue.Threads.{Threads, int_max, next, same, got, read, reader}

-- The values are `k`, `k + 1` and so on.
abbrev pub Counts : ℕ → List Cell → Type 0
Counts k [] = Unit
Counts k (x ∷ xs) = (x.1 ≡ pos k) × Counts (k + 1) xs

pub Counts-snoc :
    (k : ℕ) (xs : List Cell) (y : Cell)
    → Counts k xs
    → y.1 ≡ pos (k + length xs)
    → Counts k (xs ++ y ∷ [])
Counts-snoc k [] y c e = (e ∙ ap pos (omega arith), tt)
Counts-snoc k (x ∷ xs) y (first, c) e =
    (first, Counts-snoc (k + 1) xs y c (e ∙ ap pos (omega arith)))

-- A node that is detached and not yet read holds the value before `k`, and is not in the list.
abbrev pub Held : Queue → List Cell → ℕ → Option Ptr → ℤ → Type 0
Held q xs k none expected = expected ≡ pos k
Held q xs k (some tmp) expected =
    (e : ℕ) × (expected ≡ pos e)
    × (k ≡ e + 1)
    × (has tmp (keys xs) ≡ false)
    × ((n : Ptr) × (q.nodes tmp ≡ some (record { val = pos e; next = n })))

-- The queue holds the numbers from `first` to what the writer adds next, and the reader is where they start.
pub record Following (s : Threads) : Type 0 where
  pub cells : List Cell
  pub first : ℕ
  pub queue : IsQueue s.queue cells
  pub counts : Counts first cells
  pub last : s.i ≡ pos (first + length cells)
  pub held : Held s.queue cells first s.taking s.expected
  pub errors : s.errors ≡ 0
  pub small : first + length cells ≤ int_max

pub next-pos : (n : ℕ) → n < int_max → next (pos n) ≡ some (pos (n + 1))
unfolding next
next-pos n lt = rw (lt→ltb n int_max lt) refl

-- Where the writer is.
abbrev pub reached : {s : Threads} → Following s → ℕ
reached f = f.first + length f.cells

take_node-node :
    (q : Queue) (p : Ptr) (r : Queue) (val : ℤ)
    → take_node q p ≡ done (r, val)
    → (n : Ptr) × (q.nodes p ≡ some (record { val = val; next = n }))
unfolding take_node
take_node-node q p r val run = elim (Option-cases (q.nodes p)) [
  | inl gone ↦ absurd (ground arith)
  | inr (m, here) ↦
      let e : m.val ≡ val = ap (λ (o : Run (Queue × ℤ)). of val o) (sym (read_at m here) ∙ run) in
      (m.next, here ∙ ap (λ (v : ℤ). some (record { val = v; next = m.next })) e)
]
  where
    of : ℤ → Run (Queue × ℤ) → ℤ
    of v (done r) = r.1
    of v aborted = v
    of v fault = v

    read_at :
        (m : Node)
        → q.nodes p ≡ some m
        → take_node q p ≡ done (record q { nodes = write q.nodes p none }, m.val)
    read_at m here = rw (here, take_node) refl

-- The reader takes the first node off the list, if there is one.
getting-Following :
    (s : Threads)
    → s.taking ≡ none
    → (f : Following s)
    → (s' : Threads) × (reader s ≡ done s') × ((f' : Following s') × (reached f' ≡ reached f))
unfolding reader got
getting-Following s idle f =
    let expects : s.expected ≡ pos f.first = rw idle at f.held in
    elim (locked_get-Got s.queue f.cells f.queue) [
      | inl (empty, (q, run, is)) ↦ (
        record s { queue = q; taking = none },
        rw (idle, reader) (rw run refl),
        (
          record {
            cells = f.cells;
            first = f.first;
            queue = is;
            counts = f.counts;
            last = f.last;
            held = expects;
            errors = f.errors;
            small = f.small;
          },
          refl,
        ),
      )
      | inr (x, ys, e, (q, run, is, (r, taken, is_r))) ↦
          let (val, counts) : Counts f.first (x ∷ ys) = rw e at f.counts in
          let (n, here) = take_node-node q x.0 r x.1 taken in
          let nodup = (rw e at f.queue.nodup).0 in
          (
            record s { queue = q; taking = some x.0 },
            rw (idle, reader) (rw run refl),
            (
              record {
                cells = ys;
                first = f.first + 1;
                queue = is;
                counts = counts;
                last = f.last ∙ ap pos (omega (arith, ap length e));
                held = (
                  f.first,
                  expects,
                  refl,
                  nodup,
                  (n, here ∙ ap (λ (v : ℤ). some (record { val = v; next = n })) val),
                );
                errors = f.errors;
                small = omega (arith, f.small, ap length e);
              },
              omega (arith, ap length e),
            ),
          )
    ]

read-pos :
    (s : Threads) (q : Queue) (e : ℕ)
    → e < int_max
    → read s (done (q, pos e))
      ≡ done (record s {
        queue = q;
        taking = none;
        expected = pos (e + 1);
        errors = if same s.expected (pos e) then s.errors else s.errors + 1;
      })
unfolding read
read-pos s q e lt = rw (next-pos e lt, read) refl

-- The reader reads the node that it has taken off, and finds what it expects.
taking-Following :
    (s : Threads) (tmp : Ptr)
    → s.taking ≡ some tmp
    → (f : Following s)
    → (s' : Threads) × (reader s ≡ done s') × ((f' : Following s') × (reached f' ≡ reached f))
unfolding reader read take_node
taking-Following s tmp busy f =
    let (e, expects, first, out, (n, here)) : Held s.queue f.cells f.first (some tmp) s.expected =
      rw busy at f.held in
    let freed : Queue = record s.queue { nodes = write s.queue.nodes tmp none } in
    let right : same s.expected (pos e) ≡ true =
      ap (λ (v : ℤ). same v (pos e)) expects ∙ ==_refl e in
    let step : reader s ≡ read s (take_node s.queue tmp) = rw (busy, reader) refl in
    let taken : take_node s.queue tmp ≡ done (freed, pos e) = rw (here, take_node) refl in
    (
      record s {
        queue = freed;
        taking = none;
        expected = pos (e + 1);
        errors = if same s.expected (pos e) then s.errors else s.errors + 1;
      },
      step ∙ ap (read s) taken ∙ read-pos s freed e (omega (arith, f.small, first)),
      (
        record {
          cells = f.cells;
          first = f.first;
          queue = record {
            cells =
                Cells-frame s.queue.nodes freed.nodes s.queue.first f.cells
                  (λ a m. rw (ne-has tmp a (keys f.cells) out m)) f.queue.cells;
            nodup = f.queue.nodup;
            last = f.queue.last;
            count = f.queue.count;
            bound = f.queue.bound;
          };
          counts = f.counts;
          last = f.last;
          held = ap pos (sym first);
          errors = ap (λ (b : Bool). if b then s.errors else s.errors + 1) right ∙ f.errors;
          small = f.small;
        },
        refl,
      ),
    )

pub reader-Following :
    (s : Threads) (f : Following s)
    → (s' : Threads) × (reader s ≡ done s') × ((f' : Following s') × (reached f' ≡ reached f))
reader-Following s f = elim (Option-cases s.taking) [
  | inl idle ↦ getting-Following s idle f
  | inr (tmp, busy) ↦ taking-Following s tmp busy f
]
