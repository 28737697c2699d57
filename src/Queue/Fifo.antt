-- ===== src/Queue/Fifo.antt =====
-- The queue is a bounded FIFO.
use os2_labs.Common.{
  ℕ, ◌+◌, ◌≤◌, ◌<◌, ◌≡◌, ◌≢◌, refl, sym, ap, ◌∙◌, inl, inr, true, false, ◌||◌, Option, none, some,
  List, [], ◌∷◌, ◌++◌, arith, ◌==◌, length, length-append, Bool-cases, ==_iff, ==_refl, ne→==, has,
  IsNodup, ℤ,
}
use os2_labs.Queue.{Ptr, null, Node, Queue, done, write, link_new, queue_init, with_node}

abbrev pub Cell : Type 0
Cell = Ptr × ℤ

abbrev pub keys : List Cell → List Ptr
keys [] = []
keys (x ∷ xs) = x.0 ∷ keys xs

abbrev pub last_key : Ptr → List Cell → Ptr
last_key p [] = p
last_key p (x ∷ xs) = last_key x.0 xs

-- The cells `xs`, an address and a value each, follow each other from `p` on.
abbrev pub Cells : (Ptr → Option Node) → Ptr → List Cell → Type 0
Cells nodes p [] = p ≡ null
Cells nodes p (x ∷ xs) =
    (p ≡ x.0)
    × (x.0 ≢ null)
    × ((n : Ptr) × (nodes x.0 ≡ some (record { val = x.1; next = n })) × Cells nodes n xs)

-- The queue holds the values of `xs`, the first to leave first, within its bound.
pub record IsQueue (q : Queue) (xs : List Cell) : Type 0 where
  pub cells : Cells q.nodes q.first xs
  pub nodup : IsNodup (keys xs)
  pub last : q.last ≡ last_key q.last xs
  pub count : q.count ≡ length xs
  pub bound : length xs ≤ q.max_count

pub Cells-frame :
    (nodes nodes' : Ptr → Option Node) (p : Ptr) (xs : List Cell)
    → ((a : Ptr) → has a (keys xs) ≡ true → nodes' a ≡ nodes a)
    → Cells nodes p xs
    → Cells nodes' p xs
Cells-frame nodes nodes' p [] same c = c
Cells-frame nodes nodes' p (x ∷ xs) same (e, ne, (n, here, c)) = (
  e,
  ne,
  (
    n,
    same x.0 (rw (==_refl x.0)) ∙ here,
    Cells-frame nodes nodes' n xs (λ a m. same a (ground arith)) c,
  ),
)

has-last_key :
    (p : Ptr) (xs : List Cell) → (has (last_key p xs) (keys xs) || (last_key p xs == p)) ≡ true
has-last_key p [] = ground arith
has-last_key p (x ∷ xs) = ground (arith, has-last_key x.0 xs)

pub keys-snoc :
    (xs : List Cell) (y : Cell) (a : Ptr)
    → has a (keys (xs ++ y ∷ [])) ≡ (has a (keys xs) || (a == y.0))
keys-snoc [] y a = ground arith
keys-snoc (x ∷ xs) y a = ground (arith, keys-snoc xs y a)

IsNodup-snoc :
    (xs : List Cell) (y : Cell)
    → IsNodup (keys xs)
    → has y.0 (keys xs) ≡ false
    → IsNodup (keys (xs ++ y ∷ []))
IsNodup-snoc [] y d out = (refl, tt)
IsNodup-snoc (x ∷ xs) y (x_out, d) out =
    (keys-snoc xs y x.0 ∙ ground arith, IsNodup-snoc xs y d (ground arith))

last_key-snoc : (p : Ptr) (xs : List Cell) (y : Cell) → last_key p (xs ++ y ∷ []) ≡ y.0
last_key-snoc p [] y = refl
last_key-snoc p (x ∷ xs) y = last_key-snoc x.0 xs y

-- The last node of a list that is not empty gets the new one as its next.
Cells-snoc :
    (nodes : Ptr → Option Node) (p : Ptr) (x : Cell) (xs : List Cell) (y : Cell) (m : Node)
    → Cells nodes p (x ∷ xs)
    → IsNodup (keys (x ∷ xs))
    → y.0 ≢ null
    → nodes y.0 ≡ some (record { val = y.1; next = null })
    → has y.0 (keys (x ∷ xs)) ≡ false
    → nodes (last_key x.0 xs) ≡ some m
    → Cells (write nodes (last_key x.0 xs) (some (record m { next = y.0 }))) p (x ∷ (xs ++ y ∷ []))
Cells-snoc nodes p x [] y m (e, ne, (n, here, c)) d y_ne new out at_last =
    let same : m ≡ record { val = x.1; next = n } = cc in
    let other : (y.0 == x.0) ≡ false = ground arith in
    (e, ne, (y.0, rw (==_refl x.0, same), (refl, y_ne, (null, rw other new, refl))))
Cells-snoc nodes p x (x₂ ∷ xs) y m (e, ne, (n, here, c)) (x_out, d) y_ne new out at_last =
    let l = last_key x₂.0 xs in
    let apart : (x.0 == l) ≡ false = ne→== x.0 l not_last in
    (e, ne, (n, rw apart here, Cells-snoc nodes n x₂ xs y m c d y_ne new (ground arith) at_last))
  where
    not_last : ¬ (x.0 ≡ last_key x₂.0 xs)
    not_last h =
        let inside : (has x.0 (keys xs) || (x.0 == x₂.0)) ≡ true =
          rw (← h) at (has-last_key x₂.0 xs) in
        ground arith

-- The addresses of the list hold nodes.
pub live :
    (nodes : Ptr → Option Node) (p : Ptr) (xs : List Cell) (a : Ptr)
    → Cells nodes p xs
    → has a (keys xs) ≡ true
    → (m : Node) × (nodes a ≡ some m)
live nodes p [] a c m = cc
live nodes p (x ∷ xs) a (e, ne, (n, here, c)) m = elim (Bool-cases (a == x.0)) [
  | inl same ↦ (record { val = x.1; next = n }, ap nodes ((==_iff a x.0).0 same) ∙ here)
  | inr other ↦ live nodes n xs a c (ground arith)
]

pub not_in :
    (nodes : Ptr → Option Node) (p : Ptr) (xs : List Cell) (a : Ptr)
    → Cells nodes p xs
    → nodes a ≡ none
    → has a (keys xs) ≡ false
not_in nodes p xs a c free = elim (Bool-cases (has a (keys xs))) [
  | inl inside ↦ let (m, here) = live nodes p xs a c inside in cc
  | inr out ↦ out
]

pub last_in : (x : Cell) (xs : List Cell) → has (last_key x.0 xs) (keys (x ∷ xs)) ≡ true
last_in x xs = ground (arith, has-last_key x.0 xs)

-- The queue with one more node.
abbrev grown : Queue → (Ptr → Option Node) → (first last : Ptr) → Queue
grown q nodes first last = record q {
  nodes = nodes;
  first = first;
  last = last;
  count = q.count + 1;
  add_count = q.add_count + 1;
}

link_new-behind :
    (new : Ptr) (q : Queue) (m : Node)
    → (q.first == null) ≡ false
    → q.nodes q.last ≡ some m
    → link_new new q
      ≡ done (grown q (write q.nodes q.last (some (record m { next = new }))) q.first new, 1)
unfolding link_new
link_new-behind new q m ne here = rw (ne, link_new) (rw here)

pub link_new-IsQueue :
    (q : Queue) (xs : List Cell) (y : Cell)
    → IsQueue q xs
    → y.0 ≢ null
    → q.nodes y.0 ≡ none
    → length xs < q.max_count
    → (q' : Queue) × (link_new y.0 (with_node y.0 y.1 q) ≡ done (q', 1)) × IsQueue q' (xs ++ y ∷ [])
unfolding link_new with_node
link_new-IsQueue q [] y is ne free room = (
  grown q (write q.nodes y.0 (some (record { val = y.1; next = null }))) y.0 y.0,
  rw is.cells,
  record {
    cells = (refl, ne, (null, rw (==_refl y.0), refl));
    nodup = (refl, tt);
    last = refl;
    count = omega (arith, is.count);
    bound = room;
  },
)
link_new-IsQueue q (x ∷ xs) y is ne free room =
    let out = not_in q.nodes q.first (x ∷ xs) y.0 is.cells free in
    let nodes' = write q.nodes y.0 (some (record { val = y.1; next = null })) in
    let other : (a : Ptr) → has a (keys (x ∷ xs)) ≡ true → nodes' a ≡ q.nodes a = λ a m. rw (
      ne→== a y.0 (λ e.
        let same : has a (keys (x ∷ xs)) ≡ has y.0 (keys (x ∷ xs)) =
          ap (λ b. has b (keys (x ∷ xs))) e in
        cc)) in
    let cells' = Cells-frame q.nodes nodes' q.first (x ∷ xs) other is.cells in
    let (m, at_last) = live nodes' q.first (x ∷ xs) (last_key x.0 xs) cells' (last_in x xs) in
    let first_ne : (q.first == null) ≡ false = rw is.cells.0 (ne→== x.0 null is.cells.1) in
    (
      grown q (write nodes' (last_key x.0 xs) (some (record m { next = y.0 }))) q.first y.0,
      link_new-behind y.0 (with_node y.0 y.1 q) m first_ne (ap nodes' is.last ∙ at_last)
          ∙ ap
              (λ l. done (grown q (write nodes' l (some (record m { next = y.0 }))) q.first y.0, 1))
              is.last,
      record {
        cells =
            Cells-snoc nodes' q.first x xs y m cells' is.nodup ne (rw (==_refl y.0)) out at_last;
        nodup = IsNodup-snoc (x ∷ xs) y is.nodup out;
        last = sym (last_key-snoc x.0 xs y);
        count = omega (arith, is.count, length-append xs (y ∷ []));
        bound = omega (arith, length-append xs (y ∷ []));
      },
    )

-- A new queue is empty.
pub queue_init-IsQueue : (max_count : ℕ) → IsQueue (queue_init max_count) []
unfolding queue_init
queue_init-IsQueue max_count = record {
  cells = refl;
  nodup = tt;
  last = refl;
  count = refl;
  bound = omega arith;
}
