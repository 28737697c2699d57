-- ===== src/Mythread.antt =====
-- 1/1.6/mythread_create.[ch]: threads by `clone`, each with its structure at the top of its own stack, and
-- the handshake of `my_thread_join` with `my_thread_start_up`.
--
-- A step of the handshake is one access to the structure, or a system call. `mapped` is whether the stack
-- is: an access to the structure, and any step of the thread, is one to the stack.
pub mod Handshake
pub mod Joining
mod Tests
use os2_labs.Common.{
  ℕ, zero, suc, ◌+◌, ◌-◌, ◌*◌, Bool, true, false, ◌&&◌, Option, none, some, List, [], ◌∷◌, ◌==◌,
  if◌then◌else◌, ℤ, pos, negsuc,
}

abbrev pub Ptr : Type 0
Ptr = ℕ

pub record MyThread : Type 0 where
  pub id : ℕ
  pub arg : Ptr
  pub ret_val : Ptr
  pub stack : Ptr
  pub joined : Bool
  pub exited : Bool

-- Where a thread is in `my_thread_start_up`: in its routine; with the value of the routine not yet stored,
-- or stored; in the loop that waits for `joined`, and asleep there; at its end.
pub data StartUp : Type 0 where
  in_routine : StartUp
  storing : (val : Ptr) → StartUp
  exiting waiting asleep over : StartUp

-- Where the thread that joins is: before it reads `stack`; before it tests `exited`, and asleep; before it
-- reads `ret_val`; before it sets `joined`; before `munmap`; at its end.
pub data Join : Type 0 where
  reading_stack : Join
  testing sleeping fetching : (unmapptr : Ptr) → Join
  joining unmapping : (unmapptr : Ptr) → (ret_val : Ptr) → Join
  returned : (ret_val : Ptr) → Join

pub record Pair : Type 0 where
  pub thread : MyThread
  pub mapped : Bool
  pub start_up : StartUp
  pub join : Join

-- `routine` is what the routine makes of its argument.
unfoldable pub start_up_step : (routine : Ptr → Ptr) → Pair → StartUp → Pair
start_up_step routine s in_routine = record s { start_up = storing (routine s.thread.arg) }
start_up_step routine s (storing val) = record s {
  thread = record s.thread { ret_val = val };
  start_up = exiting;
}
start_up_step routine s exiting = record s {
  thread = record s.thread { exited = true };
  start_up = waiting;
}
start_up_step routine s waiting =
    if s.thread.joined then record s { start_up = over } else record s { start_up = asleep }
start_up_step routine s asleep = record s { start_up = waiting }
start_up_step routine s over = s

-- The thread runs on its stack until its end.
unfoldable pub my_thread_start_up : (routine : Ptr → Ptr) → Pair → Option Pair
unfolding start_up_step
my_thread_start_up routine s = elim s.start_up [
  | over ↦ some s
  | other ↦ if s.mapped then some (start_up_step routine s other) else none
]

-- `munmap` unmaps the stack if it is given its address.
unfoldable pub join_step : Pair → Join → Pair
join_step s reading_stack = record s { join = testing s.thread.stack }
join_step s (testing p) =
    if s.thread.exited then record s { join = fetching p } else record s { join = sleeping p }
join_step s (sleeping p) = record s { join = testing p }
join_step s (fetching p) = record s { join = joining p s.thread.ret_val }
join_step s (joining p val) = record s {
  thread = record s.thread { joined = true };
  join = unmapping p val;
}
join_step s (unmapping p val) = record s {
  mapped = if p == s.thread.stack then false else s.mapped;
  join = returned val;
}
join_step s (returned val) = s

unfoldable pub my_thread_join : Pair → Option Pair
unfolding join_step
my_thread_join s = elim s.join [
  | returned val ↦ some s
  | other ↦ if s.mapped then some (join_step s other) else none
]

-- The two threads in the order of the list, `true` for the one that joins.
unfoldable pub handshake : (routine : Ptr → Ptr) → Pair → List Bool → Option Pair
unfolding my_thread_start_up my_thread_join
handshake routine s [] = some s
handshake routine s (joiner ∷ turns) =
    elim (if joiner then my_thread_join s else my_thread_start_up routine s) [
      | none ↦ none
      | some s' ↦ handshake routine s' turns
    ]

-- The thread's structure as `my_thread_create` fills it, but for `start_routine`, which is the `routine` of
-- the steps.
unfoldable pub new_thread : (thread_num : ℕ) → (arg child_stack : Ptr) → MyThread
new_thread thread_num arg child_stack = record {
  id = thread_num;
  arg = arg;
  ret_val = 0;
  stack = child_stack;
  joined = false;
  exited = false;
}
