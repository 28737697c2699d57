-- ===== src/Queue/Racing/Alone.antt =====
-- Where one thread runs to its end before the other starts, the steps make up the operations.
use os2_labs.Common.{
  ℕ, zero, suc, ◌+◌, ◌-◌, ◌≡◌, refl, sym, ap, ◌∙◌, inl, inr, Bool, true, false, Option, none, some,
  List, [], ◌∷◌, ◌==◌, ==_refl, leb, if◌then◌else◌, Bool-cases, Option-cases, ℤ,
}
use os2_labs.Queue.{
  Ptr, null, Queue, Run, done, aborted, fault, write, with_node, link_new, queue_add, queue_get,
}
use os2_labs.Queue.Racing.{
  Adding, attempting, testing, allocating, choosing, setting, linking, moving, counting, added,
  Getting, asking, checking, fetching, unlinking, freeing, discounting, gotten, add_step, get_step,
  Race, race,
}
use os2_labs.Queue.Racing.Turns.{
  racing, race-add, race-add_aborted, race-add_fault, race-get, race-get_fault,
}

-- So many turns of the thread that adds, and of the one that gets.
abbrev pub adds : ℕ → List Bool
adds zero = []
adds (suc n) = true ∷ adds n

abbrev pub gets : ℕ → List Bool
gets zero = []
gets (suc n) = false ∷ gets n

abbrev counted : Queue → Queue
counted q = record q { count = q.count + 1; add_count = q.add_count + 1 }

-- The state of the race after a whole operation.
abbrev pub after_adding : Getting → Run (Queue × ℕ) → Run Race
after_adding g (done (q, ret)) = done (racing q (added ret) g)
after_adding g aborted = aborted
after_adding g fault = fault

abbrev pub after_getting : Adding → Run (Queue × Option ℤ) → Run Race
after_getting a (done (q, r)) = done (racing q a (gotten r))
after_getting a aborted = aborted
after_getting a fault = fault

-- From the choice of the branch on.
linked-alone :
    (fresh new : Ptr) (q : Queue) (g : Getting)
    → race fresh (racing q (choosing new) g) (adds 4) ≡ after_adding g (link_new new q)
unfolding race link_new add_step
linked-alone fresh new q g = elim (Bool-cases (q.first == null)) [
  | inl empty ↦
      let whole : link_new new q ≡ done (counted (record q { first = new; last = new }), 1) =
        rw (empty, link_new) refl in
      race-add fresh q (choosing new) g (adds 3) q (setting new) (rw (empty, add_step) refl)
      ∙ ap (after_adding g) (sym whole)
  | inr more ↦ elim (Option-cases (q.nodes q.last)) [
    | inl gone ↦
        let whole : link_new new q ≡ fault = rw (more, link_new) (rw gone refl) in
        race-add fresh q (choosing new) g (adds 3) q (linking new) (rw (more, add_step) refl)
        ∙ race-add_fault fresh q (linking new) g (adds 2) (rw (gone, add_step) refl)
        ∙ ap (after_adding g) (sym whole)
    | inr (n, here) ↦
        let q₁ = record q { nodes = write q.nodes q.last (some (record n { next = new })) } in
        let at_last : q₁.nodes q.last ≡ some (record n { next = new }) = rw (==_refl q.last) refl in
        let whole : link_new new q ≡ done (counted (record q₁ { last = new }), 1) =
          rw (more, link_new) (rw here refl) in
        race-add fresh q (choosing new) g (adds 3) q (linking new) (rw (more, add_step) refl)
        ∙ race-add fresh q (linking new) g (adds 2) q₁ moving (rw (here, add_step) refl)
        ∙ race-add fresh q₁ moving g (adds 1) (record q₁ { last = new }) counting
            (rw (at_last, add_step) refl)
        ∙ ap (after_adding g) (sym whole)
  ]
]

-- From the test of the count on.
tested-alone :
    (fresh : Ptr) (q : Queue) (val : ℤ) (g : Getting) (r : Run (Queue × ℕ))
    → (if leb q.count q.max_count
        then if q.count == q.max_count
          then done (q, 0)
          else if fresh == null
          then aborted
          else link_new fresh (with_node fresh val q)
        else aborted)
      ≡ r
    → race fresh (racing q (testing val) g) (adds 6) ≡ after_adding g r
unfolding race add_step
tested-alone fresh q val g r e = elim (Bool-cases (leb q.count q.max_count)) [
  | inr beyond ↦
      race-add_aborted fresh q (testing val) g (adds 5) (rw (beyond, add_step) refl)
      ∙ ap (after_adding g) (rw beyond at e)
  | inl within ↦ elim (Bool-cases (q.count == q.max_count)) [
    | inl full ↦
        race-add fresh q (testing val) g (adds 5) q (added 0) (rw (within, full, add_step) refl)
        ∙ ap (after_adding g) (rw (within, full) at e)
    | inr room ↦ elim (Bool-cases (fresh == null)) [
      | inl no_memory ↦
          race-add fresh q (testing val) g (adds 5) q (allocating val)
            (rw (within, room, add_step) refl)
          ∙ race-add_aborted fresh q (allocating val) g (adds 4) (rw (no_memory, add_step) refl)
          ∙ ap (after_adding g) (rw (within, room, no_memory) at e)
      | inr memory ↦
          race-add fresh q (testing val) g (adds 5) q (allocating val)
            (rw (within, room, add_step) refl)
          ∙ race-add fresh q (allocating val) g (adds 4) (with_node fresh val q) (choosing fresh)
              (rw (memory, add_step) refl)
          ∙ linked-alone fresh fresh (with_node fresh val q) g
          ∙ ap (after_adding g) (rw (within, room, memory) at e)
    ]
  ]
]

-- From the test of the count on.
checked-alone :
    (fresh : Ptr) (q : Queue) (a : Adding) (r : Run (Queue × Option ℤ))
    → (if q.count == 0 then done (q, none) else elim (q.nodes q.first) [
      | none ↦ fault
      | some n ↦ done (
        record q {
          nodes = write q.nodes q.first none;
          first = n.next;
          count = q.count - 1;
          get_count = q.get_count + 1;
        },
        some n.val,
      )
    ])
      ≡ r
    → race fresh (racing q a checking) (gets 5) ≡ after_getting a r
unfolding race get_step
checked-alone fresh q a r e = elim (Bool-cases (q.count == 0)) [
  | inl empty ↦
      race-get fresh q a checking (gets 4) q (gotten none) (rw (empty, get_step) refl)
      ∙ ap (after_getting a) (rw empty at e)
  | inr more ↦ elim (Option-cases (q.nodes q.first)) [
    | inl gone ↦
        race-get fresh q a checking (gets 4) q fetching (rw (more, get_step) refl)
        ∙ race-get_fault fresh q a fetching (gets 3) (rw (gone, get_step) refl)
        ∙ ap (after_getting a) (rw (more, gone) at e)
    | inr (n, here) ↦
        let q₁ = record q { first = n.next } in
        let q₂ = record q₁ { nodes = write q.nodes q.first none } in
        race-get fresh q a checking (gets 4) q fetching (rw (more, get_step) refl)
        ∙ race-get fresh q a fetching (gets 3) q (unlinking q.first n.val)
            (rw (here, get_step) refl)
        ∙ race-get fresh q a (unlinking q.first n.val) (gets 2) q₁ (freeing q.first n.val)
            (rw (here, get_step) refl)
        ∙ race-get fresh q₁ a (freeing q.first n.val) (gets 1) q₂ (discounting n.val)
            (rw (here, get_step) refl)
        ∙ ap (after_getting a) (rw (more, here) at e)
  ]
]

-- The steps of an addition, and of a get, that run without steps of the other thread in between are that
-- operation, on every queue, with its result, its failed assertion or its access to memory that is not
-- allocated.
pub race-alone :
    (fresh : Ptr) (q : Queue) (val : ℤ) (a : Adding) (g : Getting)
    → (race fresh (racing q (attempting val) g) (adds 7) ≡ after_adding g (queue_add fresh q val))
      × (race fresh (racing q a asking) (gets 6) ≡ after_getting a (queue_get q))
race-alone fresh q val a g = (add_alone, get_alone)
  where
    add_alone :
        race fresh (racing q (attempting val) g) (adds 7) ≡ after_adding g (queue_add fresh q val)
    add_alone =
        let tried = record q { add_attempts = q.add_attempts + 1 } in
        race-add fresh q (attempting val) g (adds 6) tried (testing val) (unfold add_step in refl)
        ∙ tested-alone fresh tried val g (queue_add fresh q val) (unfold queue_add in refl)

    get_alone : race fresh (racing q a asking) (gets 6) ≡ after_getting a (queue_get q)
    get_alone =
        let tried = record q { get_attempts = q.get_attempts + 1 } in
        race-get fresh q a asking (gets 5) tried checking (unfold get_step in refl)
        ∙ checked-alone fresh tried a (queue_get q) (unfold queue_get in refl)
