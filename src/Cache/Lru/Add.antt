-- ===== src/Cache/Lru/Add.antt =====
-- `lru_add_head` against lists of entries.
use os2_labs.Common.{
  ◌≡◌, ◌≢◌, refl, sym, ◌∙◌, false, List, [], ◌∷◌, arith, ◌==◌, has, ne→==, ==_refl,
}
use os2_labs.Cache.Lru.{Ptr, null, Lru, update, lru_add_head}
use os2_labs.Cache.Lru.Chain.{IsLru, has-ne, Links-frame, last-ne_null, ne-has}

-- What `lru_add_head` makes of a list that is not empty.
added : Lru → Ptr → Lru
added l entry = record {
  head = entry;
  tail = l.tail;
  prev = update (update l.prev entry null) l.head entry;
  next = update l.next entry l.head;
}

lru_add_head-added :
    (l : Lru) (entry : Ptr)
    → (l.head == null) ≡ false
    → (l.tail == null) ≡ false
    → lru_add_head l entry ≡ added l entry
unfolding lru_add_head added
lru_add_head-added l entry no_head no_tail = rw (no_head, no_tail)

added-IsLru :
    (l : Lru) (entry x : Ptr) (xs : List Ptr)
    → IsLru l (x ∷ xs)
    → entry ≢ null
    → has entry (x ∷ xs) ≡ false
    → IsLru (added l entry) (entry ∷ x ∷ xs)
unfolding added
added-IsLru l entry x xs is ne out =
    let (nx, e, f, rest) = is.links in
    let not_x : (entry == x) ≡ false = has-ne entry x (x ∷ xs) out (rw (==_refl x)) in
    let not_head : (entry == l.head) ≡ false = rw is.head not_x in
    let out_xs : has entry xs ≡ false = rw not_x at out in
    record {
      links = (
        ne,
        rw (not_head, ==_refl entry),
        rw (==_refl entry) is.head,
        (
          nx,
          rw (is.head, ==_refl x),
          rw (ne-has entry x (x ∷ xs) out (rw (==_refl x))) f,
          Links-frame l.prev l.next _ _ x xs null
              (λ a m. rw (is.head, ne-has x a xs is.nodup.0 m, ne-has entry a xs out_xs m))
              (λ a m. rw (ne-has entry a xs out_xs m)) rest,
        ),
      );
      nodup = (out, is.nodup);
      head = refl;
      tail = is.tail;
    }

-- Adding to a well-formed LRU list an entry that is not null and not in it leaves the list
-- well-formed, with the entry in front of the others.
pub lru_add_head-cons :
    (l : Lru) (entry : Ptr) (xs : List Ptr)
    → IsLru l xs
    → entry ≢ null
    → has entry xs ≡ false
    → IsLru (lru_add_head l entry) (entry ∷ xs)
lru_add_head-cons l entry [] is ne out =
    unfold lru_add_head in
    record {
      links = rw (is.head, is.tail) (ne, ground arith, ground arith, tt);
      nodup = (refl, tt);
      head = rw (is.head, is.tail) refl;
      tail = rw (is.head, is.tail) refl;
    }
lru_add_head-cons l entry (x ∷ xs) is ne out =
    rw
      (lru_add_head-added l entry (ne→== l.head null (λ h. is.links.0 (sym is.head ∙ h))) (
        ne→== l.tail null
          (λ h. last-ne_null l.prev l.next null x xs null is.links (sym is.tail ∙ h))))
      (added-IsLru l entry x xs is ne out)
