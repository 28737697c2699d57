-- ===== src/Queue/Racing/Lost.antt =====
-- The race that the comment in `queue_add` describes: a value is lost.
use os2_labs.Common.{
  ◌+◌, ◌-◌, ◌<◌, ◌≡◌, ◌≢◌, refl, sym, ap, ◌∙◌, inl, inr, Bool, true, false, none, some, List, [],
  ◌∷◌, ◌++◌, ◌==◌, ==_refl, ==_iff, ne→==, leb, Bool-cases, ℤ, arith,
}
use os2_labs.Queue.{Ptr, null, Queue, done, fault, write, with_node, link_new, queue_add, queue_get}
use os2_labs.Queue.Fifo.{Cell, IsQueue}
use os2_labs.Queue.Racing.{
  attempting, testing, allocating, choosing, linking, moving, counting, added, Getting, asking,
  checking, fetching, unlinking, freeing, discounting, gotten, add_step, get_step, race,
}
use os2_labs.Queue.Racing.Turns.{racing, race-add, race-get}
use os2_labs.Queue.Racing.Alone.{adds, gets}

-- The thread that adds finds a node to put its own behind; the other takes that node off; the first links
-- its node behind it; and the other frees it.
abbrev pub losing_turns : List Bool
losing_turns = adds 4 ++ (gets 4 ++ (adds 3 ++ gets 2))

module _ (fresh : Ptr) (q : Queue) (x : Cell) (val : ℤ) (is : IsQueue q (x ∷ []))
    (ne : fresh ≢ null) (free : q.nodes fresh ≡ none) (room : 1 < q.max_count) where
  asked : Queue
  asked = record q { add_attempts = q.add_attempts + 1 }

  -- The thread that adds has its node, and has found the list not empty.
  chosen : Queue
  unfolding asked
  chosen = with_node fresh val asked

  -- The other has taken the only node off.
  taken : Queue
  unfolding chosen
  taken = record chosen { get_attempts = q.get_attempts + 1; first = null }

  -- The new node hangs on the node that is off the list.
  hung : Queue
  unfolding taken
  hung = record taken {
    nodes = write taken.nodes x.0 (some (record { val = x.1; next = fresh }));
    last = fresh;
    count = q.count + 1;
    add_count = q.add_count + 1;
  }

  -- And that node is freed.
  lost : Queue
  unfolding hung
  lost = record hung {
    nodes = write hung.nodes x.0 none;
    count = q.count + 1 - 1;
    get_count = q.get_count + 1;
  }

  count_one : q.count ≡ 1
  count_one = is.count

  at_first : q.first ≡ x.0
  at_first = is.cells.0

  at_last : q.last ≡ x.0
  at_last = is.last

  only : q.nodes x.0 ≡ some (record { val = x.1; next = null })
  only =
      let (e, x_ne, (n, here, end)) = is.cells in
      here ∙ ap (λ (p : Ptr). some (record { val = x.1; next = p })) end

  apart : (x.0 == fresh) ≡ false
  apart = elim (Bool-cases (x.0 == fresh)) [
    | inr other ↦ other
    | inl same ↦ let e : x.0 ≡ fresh = (==_iff x.0 fresh).0 same in cc (ap q.nodes e, only)
  ]

  choosing-chosen :
      (g : Getting) (turns : List Bool)
      → race fresh (racing q (attempting val) g) (adds 4 ++ turns)
        ≡ race fresh (racing chosen (linking fresh) g) turns
  unfolding chosen asked add_step with_node
  choosing-chosen g turns =
      let fits : leb q.count q.max_count ≡ true = rw count_one (ground arith) in
      let some_room : (q.count == q.max_count) ≡ false = rw count_one (ground arith) in
      let memory : (fresh == null) ≡ false = ne→== fresh null ne in
      let list : (q.first == null) ≡ false = rw at_first (ne→== x.0 null is.cells.1) in
      race-add fresh q (attempting val) g (adds 3 ++ turns) asked (testing val) refl
      ∙ race-add fresh asked (testing val) g (adds 2 ++ turns) asked (allocating val)
          (rw (fits, some_room, add_step) refl)
      ∙ race-add fresh asked (allocating val) g (adds 1 ++ turns) chosen (choosing fresh)
          (rw (memory, add_step) refl)
      ∙ race-add fresh chosen (choosing fresh) g turns chosen (linking fresh)
          (rw (list, add_step) refl)

  taking-taken :
      (turns : List Bool)
      → race fresh (racing chosen (linking fresh) asking) (gets 4 ++ turns)
        ≡ race fresh (racing taken (linking fresh) (freeing x.0 x.1)) turns
  unfolding taken chosen asked get_step with_node
  taking-taken turns =
      let q₁ : Queue = record chosen { get_attempts = q.get_attempts + 1 } in
      let value : (q.count == 0) ≡ false = rw count_one refl in
      let node : q₁.nodes x.0 ≡ some (record { val = x.1; next = null }) = rw apart only in
      let node_first : q₁.nodes q.first ≡ some (record { val = x.1; next = null }) =
        ap q₁.nodes at_first ∙ node in
      let fetched : get_step q₁ fetching ≡ done (q₁, unlinking q.first x.1) =
        rw (node_first, get_step) refl in
      race-get fresh chosen (linking fresh) asking (gets 3 ++ turns) q₁ checking refl
      ∙ race-get fresh q₁ (linking fresh) checking (gets 2 ++ turns) q₁ fetching
          (rw (value, get_step) refl)
      ∙ race-get fresh q₁ (linking fresh) fetching (gets 1 ++ turns) q₁ (unlinking x.0 x.1)
          (fetched ∙ ap (λ (p : Ptr). done (q₁, unlinking p x.1)) at_first)
      ∙ race-get fresh q₁ (linking fresh) (unlinking x.0 x.1) turns taken (freeing x.0 x.1)
          (rw (node_first, get_step) refl)

  hanging-hung :
      (turns : List Bool)
      → race fresh (racing taken (linking fresh) (freeing x.0 x.1)) (adds 3 ++ turns)
        ≡ race fresh (racing hung (added 1) (freeing x.0 x.1)) turns
  unfolding hung taken chosen asked add_step with_node
  hanging-hung turns =
      let g = freeing x.0 x.1 in
      let node : taken.nodes x.0 ≡ some (record { val = x.1; next = null }) = rw apart only in
      let node_last : taken.nodes q.last ≡ some (record { val = x.1; next = null }) =
        ap taken.nodes at_last ∙ node in
      let behind : Ptr → Queue = λ (p : Ptr). record taken {
        nodes = write taken.nodes p (some (record { val = x.1; next = fresh }));
      } in
      let linked : add_step fresh taken (linking fresh) ≡ done (behind q.last, moving) =
        rw (node_last, add_step) refl in
      let moved : (behind x.0).nodes q.last ≡ some (record { val = x.1; next = fresh }) =
        ap (behind x.0).nodes at_last ∙ rw (==_refl x.0) refl in
      race-add fresh taken (linking fresh) g (adds 2 ++ turns) (behind x.0) moving
        (linked ∙ ap (λ (p : Ptr). done (behind p, moving)) at_last)
      ∙ race-add fresh (behind x.0) moving g (adds 1 ++ turns)
          (record (behind x.0) { last = fresh }) counting (rw (moved, add_step) refl)
      ∙ race-add fresh (record (behind x.0) { last = fresh }) counting g turns hung (added 1) refl

  freeing-lost :
      race fresh (racing hung (added 1) (freeing x.0 x.1)) (gets 2)
      ≡ done (racing lost (added 1) (gotten (some x.1)))
  unfolding lost hung taken chosen asked get_step with_node race
  freeing-lost =
      let here : hung.nodes x.0 ≡ some (record { val = x.1; next = fresh }) =
        rw (==_refl x.0) refl in
      race-get fresh hung (added 1) (freeing x.0 x.1) (gets 1)
        (record hung { nodes = write hung.nodes x.0 none }) (discounting x.1)
        (rw (here, get_step) refl)
      ∙ race-get fresh (record hung { nodes = write hung.nodes x.0 none }) (added 1)
          (discounting x.1) [] lost (gotten (some x.1)) refl

  next_fault : q.nodes null ≡ none → queue_get lost ≡ fault
  unfolding lost hung taken chosen asked queue_get with_node
  next_fault nothing =
      let value : (lost.count == 0) ≡ false = rw count_one refl in
      let not_x : (null == x.0) ≡ false = ne→== null x.0 (λ e. is.cells.1 (sym e)) in
      let not_fresh : (null == fresh) ≡ false = ne→== null fresh (λ e. ne (sym e)) in
      let empty : lost.nodes null ≡ none = rw (not_x, not_fresh) nothing in
      rw (value, queue_get) (rw empty refl)

  overwritten :
      (fresh₂ : Ptr) (val₂ : ℤ)
      → fresh₂ ≢ null
      → (r : Queue) × (r' : Queue) × (queue_add fresh₂ lost val₂ ≡ done (r, 1))
        × (queue_get r ≡ done (r', some val₂))
  unfolding lost hung taken chosen asked queue_add queue_get with_node link_new
  overwritten fresh₂ val₂ ne₂ =
      let tried : Queue =
        with_node fresh₂ val₂ (record lost { add_attempts = lost.add_attempts + 1 }) in
      let r : Queue = record tried {
        first = fresh₂;
        last = fresh₂;
        count = tried.count + 1;
        add_count = tried.add_count + 1;
      } in
      let fits : leb lost.count lost.max_count ≡ true = rw count_one (ground arith) in
      let some_room : (lost.count == lost.max_count) ≡ false = rw count_one (ground arith) in
      let memory : (fresh₂ == null) ≡ false = ne→== fresh₂ null ne₂ in
      let values : (r.count == 0) ≡ false = rw count_one refl in
      let node : r.nodes fresh₂ ≡ some (record { val = val₂; next = null }) =
        rw (==_refl fresh₂) refl in
      (
        r,
        record r {
          nodes = write r.nodes fresh₂ none;
          first = null;
          count = r.count - 1;
          get_attempts = r.get_attempts + 1;
          get_count = r.get_count + 1;
        },
        rw (fits, some_room, memory) refl,
        rw (values, queue_get) (rw node refl),
      )

  -- On a queue without locks that has one value, with nothing at the null pointer, room for a second value,
  -- and a node for it that is not in use: there is an order of the steps of one addition and one get in which
  -- both come to their ends, the get with the value that was there, and the value that was added is lost. The
  -- queue then claims one value, but the next get accesses the null pointer, unless another value is added
  -- first, which is then the one that is got.
  pub race-loses :
      q.nodes null ≡ none
      → (r : Queue) × (race fresh (racing q (attempting val) asking) losing_turns
          ≡ done (racing r (added 1) (gotten (some x.1))))
        × (r.count ≡ 1)
        × (queue_get r ≡ fault)
        × ((fresh₂ : Ptr) (val₂ : ℤ)
            → fresh₂ ≢ null
            → (s : Queue) × (s' : Queue) × (queue_add fresh₂ r val₂ ≡ done (s, 1))
              × (queue_get s ≡ done (s', some val₂)))
  race-loses nothing = (
    lost,
    choosing-chosen asking (gets 4 ++ (adds 3 ++ gets 2))
        ∙ taking-taken (adds 3 ++ gets 2)
        ∙ hanging-hung (gets 2)
        ∙ freeing-lost,
    unfold lost hung taken chosen asked with_node in omega (arith, count_one),
    next_fault nothing,
    overwritten,
  )
