-- ===== src/Queue/Racing.antt =====
-- 2/2.1/queue.c with two threads, one that adds and one that gets, and no locks.
--
-- A step is a statement, with the tests that it makes; the statements that count, at the end, are one.
pub mod Turns
pub mod Alone
pub mod Lost
mod Tests
use os2_labs.Common.{
  ℕ, zero, suc, ◌+◌, ◌-◌, Bool, true, false, Option, none, some, List, [], ◌∷◌, ◌==◌, leb,
  if◌then◌else◌, ℤ,
}
use os2_labs.Queue.{Ptr, null, Node, Queue, Run, done, aborted, fault, write, with_node}

-- Where a thread is in `queue_add`, with the value or the node that it adds; `added` has the value that is
-- returned.
pub data Adding : Type 0 where
  attempting testing allocating : (val : ℤ) → Adding
  choosing setting linking : (new : Ptr) → Adding
  moving counting : Adding
  added : (ret : ℕ) → Adding

-- The same for `queue_get`; `gotten` has the value that is stored, if 1 is returned.
pub data Getting : Type 0 where
  asking checking fetching : Getting
  unlinking freeing : (tmp : Ptr) → (val : ℤ) → Getting
  discounting : (val : ℤ) → Getting
  gotten : Option ℤ → Getting

unfoldable pub link_last : Ptr → Queue → Option Node → Run (Queue × Adding)
link_last new q none = fault
link_last new q (some n) =
    done (record q { nodes = write q.nodes q.last (some (record n { next = new })) }, moving)

unfoldable pub move_last : Queue → Option Node → Run (Queue × Adding)
move_last q none = fault
move_last q (some n) = done (record q { last = n.next }, counting)

unfoldable pub add_step : (fresh : Ptr) → Queue → Adding → Run (Queue × Adding)
unfolding link_last move_last with_node
add_step fresh q (attempting val) =
    done (record q { add_attempts = q.add_attempts + 1 }, testing val)
add_step fresh q (testing val) =
    if leb q.count q.max_count
    then done (q, if q.count == q.max_count then added 0 else allocating val)
    else aborted
add_step fresh q (allocating val) =
    if fresh == null then aborted else done (with_node fresh val q, choosing fresh)
add_step fresh q (choosing new) = done (q, if q.first == null then setting new else linking new)
add_step fresh q (setting new) = done (record q { first = new; last = new }, counting)
add_step fresh q (linking new) = link_last new q (q.nodes q.last)
add_step fresh q moving = move_last q (q.nodes q.last)
add_step fresh q counting =
    done (record q { count = q.count + 1; add_count = q.add_count + 1 }, added 1)
add_step fresh q (added ret) = done (q, added ret)

unfoldable pub fetch_first : Queue → Option Node → Run (Queue × Getting)
fetch_first q none = fault
fetch_first q (some n) = done (q, unlinking q.first n.val)

unfoldable pub unlink : Queue → (tmp : Ptr) → ℤ → Option Node → Run (Queue × Getting)
unlink q tmp val none = fault
unlink q tmp val (some n) = done (record q { first = n.next }, freeing tmp val)

unfoldable pub free_node : Queue → (tmp : Ptr) → ℤ → Option Node → Run (Queue × Getting)
free_node q tmp val none = fault
free_node q tmp val (some n) = done (record q { nodes = write q.nodes tmp none }, discounting val)

unfoldable pub get_step : Queue → Getting → Run (Queue × Getting)
unfolding fetch_first unlink free_node
get_step q asking = done (record q { get_attempts = q.get_attempts + 1 }, checking)
get_step q checking = done (q, if q.count == 0 then gotten none else fetching)
get_step q fetching = fetch_first q (q.nodes q.first)
get_step q (unlinking tmp val) = unlink q tmp val (q.nodes q.first)
get_step q (freeing tmp val) = free_node q tmp val (q.nodes tmp)
get_step q (discounting val) =
    done (record q { count = q.count - 1; get_count = q.get_count + 1 }, gotten (some val))
get_step q (gotten r) = done (q, gotten r)

pub record Race : Type 0 where
  pub queue : Queue
  pub adding : Adding
  pub getting : Getting

unfoldable pub after_add : Race → Run (Queue × Adding) → Run Race
after_add s aborted = aborted
after_add s fault = fault
after_add s (done (q, a)) = done (record s { queue = q; adding = a })

unfoldable pub after_get : Race → Run (Queue × Getting) → Run Race
after_get s aborted = aborted
after_get s fault = fault
after_get s (done (q, g)) = done (record s { queue = q; getting = g })

-- The two threads in the order of the list, `true` for the one that adds.
unfoldable pub race : (fresh : Ptr) → Race → List Bool → Run Race
unfolding add_step get_step after_add after_get
race fresh s [] = done s
race fresh s (adder ∷ turns) =
    elim (if adder
      then after_add s (add_step fresh s.queue s.adding)
      else after_get s (get_step s.queue s.getting)) [
        | done s' ↦ race fresh s' turns
        | aborted ↦ aborted
        | fault ↦ fault
      ]
