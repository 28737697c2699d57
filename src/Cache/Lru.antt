-- ===== src/Cache/Lru.antt =====
-- caching_http_proxy/caching/httpcache.[ch]: the LRU list, a doubly linked list through the entries.
--
-- Entries are addresses and 0 is NULL; `prev` and `next` are the fields `lru_prev` and `lru_next`.
pub mod Chain
pub mod Add
pub mod Remove
use os2_labs.Common.{ℕ, Bool, ◌==◌, if◌then◌else◌}

abbrev pub Ptr : Type 0
Ptr = ℕ

abbrev pub null : Ptr
null = 0

pub record Lru : Type 0 where
  pub head : Ptr
  pub tail : Ptr
  pub prev : Ptr → Ptr
  pub next : Ptr → Ptr

-- `p->field = v`
abbrev pub update : (Ptr → Ptr) → Ptr → Ptr → Ptr → Ptr
update f p v a = if a == p then v else f a

unfoldable pub lru_remove : Lru → Ptr → Lru
lru_remove l entry =
    let l₁ =
      if l.prev entry == null
      then record l { head = l.next entry }
      else record l { next = update l.next (l.prev entry) (l.next entry) } in
    let l₂ =
      if l₁.next entry == null
      then record l₁ { tail = l₁.prev entry }
      else record l₁ { prev = update l₁.prev (l₁.next entry) (l₁.prev entry) } in
    record l₂ { prev = update l₂.prev entry null; next = update l₂.next entry null }

unfoldable pub lru_add_head : Lru → Ptr → Lru
lru_add_head l entry =
    let l₁ = record l { next = update l.next entry l.head; prev = update l.prev entry null } in
    let l₂ = if l₁.head == null then l₁ else record l₁ { prev = update l₁.prev l₁.head entry } in
    let l₃ = record l₂ { head = entry } in
    if l₃.tail == null then record l₃ { tail = entry } else l₃
