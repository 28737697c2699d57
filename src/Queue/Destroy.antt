-- ===== src/Queue/Destroy.antt =====
-- `queue_destroy` frees the nodes of the queue.
use os2_labs.Common.{
  ℕ, zero, suc, ◌<◌, ◌≡◌, refl, ap, ◌∙◌, Option, none, Bool, ◌||◌, List, [], ◌∷◌, arith, ◌==◌,
  if◌then◌else◌, length, has, IsNodup, ne→==,
}
use os2_labs.Cache.Lru.Chain.{ne-has}
use os2_labs.Queue.{Ptr, null, Node, Queue, done, write, queue_destroy}
use os2_labs.Queue.Fifo.{Cell, keys, Cells, IsQueue, Cells-frame}

freed_all :
    (fuel : ℕ) (nodes : Ptr → Option Node) (p : Ptr) (xs : List Cell)
    → Cells nodes p xs
    → IsNodup (keys xs)
    → length xs < fuel
    → (nodes' : Ptr → Option Node) × (queue_destroy fuel nodes p ≡ done nodes')
      × ((a : Ptr) → nodes' a ≡ (if has a (keys xs) then none else nodes a))
unfolding queue_destroy
freed_all zero nodes p xs c d lt = absurd (omega arith)
freed_all (suc fuel) nodes p [] c d lt = (nodes, rw c, λ a. refl)
freed_all (suc fuel) nodes p (x ∷ xs) (e, ne, (n, here, c)) (out, d) lt =
    let nodes₁ = write nodes x.0 none in
    let c₁ = Cells-frame nodes nodes₁ n xs (λ a m. rw (ne-has x.0 a (keys xs) out m)) c in
    let (nodes', run, freed) = freed_all fuel nodes₁ n xs c₁ d (omega arith) in
    (
      nodes',
      ap (queue_destroy (suc fuel) nodes) e ∙ rw (ne→== x.0 null ne, queue_destroy) (rw here run),
      λ a. freed a ∙ either (has a (keys xs)) (a == x.0) (nodes a),
    )
  where
    either :
        (late early : Bool) (cell : Option Node)
        → (if late then none else if early then none else cell)
          ≡ (if early || late then none else cell)
    either late early cell = ground arith

-- On a queue that keeps the invariant, and with one round more than there are values, the loop
-- ends, and it has freed each node of the queue once and no other.
pub queue_destroy-frees :
    (fuel : ℕ) (q : Queue) (xs : List Cell)
    → IsQueue q xs
    → length xs < fuel
    → (nodes' : Ptr → Option Node) × (queue_destroy fuel q.nodes q.first ≡ done nodes')
      × ((a : Ptr) → nodes' a ≡ (if has a (keys xs) then none else q.nodes a))
queue_destroy-frees fuel q xs is = freed_all fuel q.nodes q.first xs is.cells is.nodup
