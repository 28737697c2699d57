-- ===== src/Storage.antt =====
-- 2/2.3: threads that walk along one linked list and count, or swap neighbours, with a lock per node.
--
-- `mutex/main.c` and `spinlock/main.c` differ in the kind of lock and in `comp_count`. A node is an
-- address; of its string only the length matters, which never changes. `owner` says which thread holds
-- the lock of a node. A step of a thread goes from where it holds its locks to where it next asks for
-- one: what it reads and writes in between is protected by the locks that it holds.
pub mod Chain
pub mod Invariant
pub mod Counting
pub mod Swapping
pub mod Program
pub mod Interleaving
pub mod Ownership
pub mod Waiting
pub mod Moving
pub mod Deadlock
pub mod Init
mod Tests
use os2_labs.Common.{
  List, [], ◌∷◌, ◌%◌, ℕ, ◌+◌, Bool, true, false, Option, none, some, ◌==◌, ltb, if◌then◌else◌,
  is_some,
}

abbrev pub Ptr : Type 0
Ptr = ℕ

abbrev pub null : Ptr
null = 0

pub record Stats : Type 0 where
  pub asc_iters : ℕ
  pub desc_iters : ℕ
  pub eq_iters : ℕ
  pub swaps1 : ℕ
  pub swaps2 : ℕ
  pub swaps3 : ℕ
  pub asc_string_count : ℕ
  pub desc_string_count : ℕ
  pub eq_string_count : ℕ
  pub comp_count : ℕ

pub record Shared : Type 0 where
  pub first : Ptr
  pub next : Ptr → Ptr
  pub strlen_of : Ptr → ℕ
  pub owner : Ptr → Option ℕ
  pub stats : Stats

-- Where a thread is: outside of its inner loop, or at the top of it with the lock of the node, or, for
-- a swap, with the locks of `prev` and `cur` and before it asks for that of `next`.
pub data Thread : Type 0 where
  outside : Thread
  counting : (cur : Ptr) → Thread
  swapping : (prev : Ptr) → Thread
  swapping_two : (prev cur : Ptr) → Thread

-- `fault` is an access through a null pointer.
pub data Step : Type 0 where
  to : Shared → Thread → Step
  blocked : Step
  fault : Step

abbrev pub write {ℓ} : {A : Type ℓ} → (Ptr → A) → Ptr → A → Ptr → A
write f p v q = if q == p then v else f q

unfoldable pub acquire : ℕ → Ptr → Shared → Shared
acquire t p sh = record sh { owner = write sh.owner p (some t) }

unfoldable pub release : Ptr → Shared → Shared
release p sh = record sh { owner = write sh.owner p none }

abbrev pub taken : Shared → Ptr → Bool
taken sh p = is_some (sh.owner p)

-- The length of the string that is written, for what `rand` returns.
unfoldable pub generate_rand_len_string : (rand max_size : ℕ) → ℕ
generate_rand_len_string rand max_size = rand % max_size

-- The loop that builds the list: for each round what `calloc` returns, 0 for failure, and `rand`; `none`
-- is the call of `abort`.
unfoldable pub init_loop : Shared → List (Ptr × ℕ) → Option Shared
unfolding generate_rand_len_string
init_loop sh [] = some sh
init_loop sh ((new, rand) ∷ rounds) =
    let rest =
      init_loop
        (record sh {
          first = new;
          next = write sh.next new sh.first;
          strlen_of = write sh.strlen_of new (generate_rand_len_string rand 100);
        })
        rounds in
    if new == null then none else rest

unfoldable pub init_storage : Stats → List (Ptr × ℕ) → Option Shared
unfolding init_loop
init_storage stats rounds =
    init_loop
      (record {
        first = null;
        next = λ _. null;
        strlen_of = λ _. 0;
        owner = λ _. none;
        stats = stats;
      })
      rounds

-- A counting thread `t`: `test` compares the lengths, `found` counts a pair that passes, `compared`
-- each comparison and `finished` each pass.
unfoldable pub count_step :
    (test : ℕ → ℕ → Bool) (found compared finished : Stats → Stats) → ℕ → Shared → Thread → Step
unfolding acquire release
count_step test found compared finished t sh outside =
    if sh.first == null
    then fault
    else if taken sh sh.first
    then blocked
    else to (acquire t sh.first sh) (counting sh.first)
count_step test found compared finished t sh (counting cur) =
    let next = sh.next cur in
    if next == null
    then to (record (release cur sh) { stats = finished sh.stats }) outside
    else if taken sh next
    then blocked
    else let counted =
        if test (sh.strlen_of cur) (sh.strlen_of next) then found sh.stats else sh.stats in
      to (release cur (record (acquire t next sh) { stats = compared counted })) (counting next)
count_step test found compared finished t sh (swapping prev) = blocked
count_step test found compared finished t sh (swapping_two prev cur) = blocked

-- `prev->next = next; cur->next = next->next; next->next = cur;`
unfoldable pub swap_nodes : (Ptr → Ptr) → (prev cur next : Ptr) → Ptr → Ptr
swap_nodes nexts prev cur next =
    let nexts₁ = write nexts prev next in
    let nexts₂ = write nexts₁ cur (nexts₁ next) in write nexts₂ next cur

-- A swapping thread `t`; `flip` is whether `rand() % 3 == 0`, and `swapped` counts a swap.
unfoldable pub swap_step : (swapped : Stats → Stats) → (flip : Bool) → ℕ → Shared → Thread → Step
unfolding acquire release swap_nodes
swap_step swapped flip t sh outside =
    if sh.first == null
    then to sh outside
    else if taken sh sh.first
    then blocked
    else to (acquire t sh.first sh) (swapping sh.first)
swap_step swapped flip t sh (swapping prev) =
    if sh.next prev == null
    then to (release prev sh) outside
    else let cur = sh.next prev in
      if taken sh cur
      then blocked
      else if sh.next cur == null
      then to (release prev (release cur (acquire t cur sh))) outside
      else to (acquire t cur sh) (swapping_two prev cur)
swap_step swapped flip t sh (swapping_two prev cur) =
    let next = sh.next cur in
    if next == null
    then fault
    else if taken sh next
    then blocked
    else let locked = acquire t next sh in
      let sh' =
        if flip
        then record locked { next = swap_nodes sh.next prev cur next; stats = swapped sh.stats }
        else locked in
      to (release prev (release next sh')) (swapping cur)
swap_step swapped flip t sh (counting cur) = blocked
