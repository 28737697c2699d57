-- ===== src/Queue/Threads/Frame.antt =====
-- What an addition leaves alone.
use os2_labs.Common.{
  ℕ, ◌+◌, ◌≡◌, ◌≢◌, refl, sym, ap, ◌∙◌, inl, inr, true, false, Option, List, [], ◌∷◌, arith, ◌==◌,
  leb, Bool-cases, Option-cases, ==_iff, has, ℤ,
}
use os2_labs.Queue.{
  Ptr, null, Node, Queue, Run, done, aborted, fault, link_new, with_node, locked_add,
}
use os2_labs.Queue.Fifo.{Cell, keys, last_key, IsQueue, last_in}

-- A node that is not in the list is not its last one.
not_last :
    (q : Queue) (xs : List Cell) (a : Ptr)
    → IsQueue q xs
    → has a (keys xs) ≡ false
    → q.first ≢ null
    → (a == q.last) ≡ false
not_last q [] a is out ne = absurd (ne is.cells)
not_last q (x ∷ xs) a is out ne = elim (Bool-cases (a == q.last)) [
  | inr other ↦ other
  | inl same ↦
      let e : a ≡ last_key x.0 xs = (==_iff a q.last).0 same ∙ is.last in
      let inside : has a (keys (x ∷ xs)) ≡ true =
        ap (λ (b : Ptr). has b (keys (x ∷ xs))) e ∙ last_in x xs in
      cc
]

nodes_of : Run (Queue × ℕ) → (Ptr → Option Node) → Ptr → Option Node
nodes_of (done r) nodes = r.0.nodes
nodes_of aborted nodes = nodes
nodes_of fault nodes = nodes

link_new-frame :
    (new : Ptr) (q : Queue) (a : Ptr)
    → (q.first ≢ null → (a == q.last) ≡ false)
    → nodes_of (link_new new q) q.nodes a ≡ q.nodes a
unfolding link_new nodes_of
link_new-frame new q a apart = elim (Bool-cases (q.first == null)) [
  | inl empty ↦ rw (empty, nodes_of) refl
  | inr more ↦
      let other : (a == q.last) ≡ false = apart (λ e. ground arith) in
      elim (Option-cases (q.nodes q.last)) [
        | inl gone ↦ rw (more, gone) refl
        | inr (m, here) ↦ rw (more, here) (rw other refl)
      ]
]

-- An allocated node that is not in the list is as it was after an addition.
pub locked_add-frame :
    (fresh : Ptr) (q : Queue) (val : ℤ) (xs : List Cell) (a : Ptr) (q' : Queue) (n : ℕ)
    → IsQueue q xs
    → (a == fresh) ≡ false
    → has a (keys xs) ≡ false
    → locked_add fresh q val ≡ done (q', n)
    → q'.nodes a ≡ q.nodes a
unfolding locked_add with_node nodes_of
locked_add-frame fresh q val xs a q' n is other out run = elim (Bool-cases (fresh == null)) [
  | inl no_memory ↦ absurd (ground arith)
  | inr memory ↦ elim (Bool-cases (leb q.count q.max_count)) [
    | inr beyond ↦ absurd (ground arith)
    | inl within ↦ elim (Bool-cases (q.count == q.max_count)) [
      | inl full ↦
          ap (λ (r : Run (Queue × ℕ)). nodes_of r q.nodes a) (sym run)
          ∙ rw (memory, within, full) (rw other refl)
      | inr room ↦
          let tried = record (with_node fresh val q) { add_attempts = q.add_attempts + 1 } in
          let linked : link_new fresh tried ≡ done (q', n) = rw (memory, within, room) at run in
          ap (λ (r : Run (Queue × ℕ)). nodes_of r tried.nodes a) (sym linked)
          ∙ link_new-frame fresh tried a (not_last q xs a is out)
          ∙ rw other refl
    ]
  ]
]
