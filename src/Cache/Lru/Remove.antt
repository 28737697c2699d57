-- ===== src/Cache/Lru/Remove.antt =====
-- `lru_remove` against lists of entries.
use os2_labs.Common.{
  ◌≡◌, ◌≢◌, refl, sym, ap, ◌∙◌, inl, inr, false, List, [], ◌∷◌, ◌++◌, arith, ◌==◌, if◌then◌else◌,
  Bool-cases, has, IsNodup, ne→==, append-nil,
}
use os2_labs.Cache.Lru.{Ptr, null, Lru, update, lru_remove}
use os2_labs.Cache.Lru.Chain.{
  first, last, Links, IsLru, has-ne, has-last, Links-frame, Links-append, append-Links,
  Links-set_next, Links-set_prev, last-append, last-ne_null, ne-has, IsNodup-Parts,
}

-- The writes to the neighbours `a` and `b` of the entry.
abbrev next_of : Lru → Ptr → Ptr → Ptr → Ptr
next_of l a b x = if a == null then l.next x else update l.next a b x

abbrev prev_of : Lru → Ptr → Ptr → Ptr → Ptr
prev_of l a b x = if b == null then l.prev x else update l.prev b a x

-- What `lru_remove` leaves in each field, for an entry between `a` and `b`.
module _ (l : Lru) (entry a b : Ptr) (before : l.prev entry ≡ a) (behind : l.next entry ≡ b)
    (not_a : (entry == a) ≡ false) (not_b : (entry == b) ≡ false) where
  lru_remove-next :
      (x : Ptr) → (lru_remove l entry).next x ≡ (if x == entry then null else next_of l a b x)
  unfolding lru_remove
  lru_remove-next x = ground arith

  lru_remove-prev :
      (x : Ptr) → (lru_remove l entry).prev x ≡ (if x == entry then null else prev_of l a b x)
  unfolding lru_remove
  lru_remove-prev x = ground arith

  lru_remove-head : (lru_remove l entry).head ≡ (if a == null then b else l.head)
  unfolding lru_remove
  lru_remove-head = ground arith

  lru_remove-tail : (lru_remove l entry).tail ≡ (if b == null then a else l.tail)
  unfolding lru_remove
  lru_remove-tail = ground arith

next_of-out :
    (l : Lru) (xs : List Ptr) (b m : Ptr)
    → has m xs ≡ false
    → next_of l (last null xs) b m ≡ l.next m
next_of-out l [] b m out = refl
next_of-out l (x ∷ xs) b m out =
    rw (has-ne m (last x xs) (x ∷ xs) out (has-last x xs)) (ground arith)

prev_of-out :
    (l : Lru) (ys : List Ptr) (a m : Ptr)
    → has m ys ≡ false
    → prev_of l a (first ys null) m ≡ l.prev m
prev_of-out l [] a m out = refl
prev_of-out l (y ∷ ys) a m out = ground arith

ne-last : (e : Ptr) (xs : List Ptr) → e ≢ null → has e xs ≡ false → (e == last null xs) ≡ false
ne-last e [] ne out = ne→== e null ne
ne-last e (x ∷ xs) ne out = has-ne e (last x xs) (x ∷ xs) out (has-last x xs)

ne-first : (e : Ptr) (ys : List Ptr) → e ≢ null → has e ys ≡ false → (e == first ys null) ≡ false
ne-first e [] ne out = ne→== e null ne
ne-first e (y ∷ ys) ne out = ground arith

-- The part before the entry, with its last `next` moved.
left-Links :
    (l : Lru) (xs : List Ptr) (q b : Ptr)
    → IsNodup xs
    → Links l.prev l.next null xs q
    → Links l.prev (next_of l (last null xs) b) null xs b
left-Links l [] q b d links = tt
left-Links l (x ∷ xs) q b d links =
    Links-frame l.prev (update l.next (last x xs) b) l.prev (next_of l (last x xs) b) null (x ∷ xs)
      b (λ m i. refl)
      (λ m i. rw (ne→== (last x xs) null (last-ne_null l.prev l.next null x xs q links)))
      (Links-set_next l.prev l.next null (x ∷ xs) q b d links)

-- The part behind the entry, with its first `prev` moved.
right-Links :
    (l : Lru) (ys : List Ptr) (p a : Ptr)
    → IsNodup ys
    → Links l.prev l.next p ys null
    → Links (prev_of l a (first ys null)) l.next a ys null
right-Links l [] p a d links = tt
right-Links l (y ∷ ys) p a d links =
    Links-frame (update l.prev y a) l.next (prev_of l a y) l.next a (y ∷ ys) null
      (λ m i. rw (ne→== y null links.0)) (λ m i. refl)
      (Links-set_prev l.prev l.next p a (y ∷ ys) null d links)

head_after :
    (l : Lru) (xs : List Ptr) (entry : Ptr) (ys : List Ptr)
    → Links l.prev l.next null xs entry
    → l.head ≡ first (xs ++ entry ∷ ys) null
    → (if last null xs == null then first ys null else l.head) ≡ first (xs ++ ys) null
head_after l [] entry ys links e = refl
head_after l (x ∷ xs) entry ys links e =
    rw (ne→== (last x xs) null (last-ne_null l.prev l.next null x xs entry links)) e

tail_after :
    (l : Lru) (xs : List Ptr) (entry : Ptr) (ys : List Ptr)
    → Links l.prev l.next entry ys null
    → l.tail ≡ last null (xs ++ entry ∷ ys)
    → (if first ys null == null then last null xs else l.tail) ≡ last null (xs ++ ys)
tail_after l xs entry [] links e = ap (last null) (sym (append-nil xs))
tail_after l xs entry (y ∷ ys) links e =
    rw (ne→== y null links.0)
      (e ∙ last-append null xs (entry ∷ y ∷ ys) ∙ sym (last-append null xs (y ∷ ys)))

-- Removing an entry that stands anywhere in a well-formed LRU list leaves the list well-formed,
-- with the others in their order.
pub lru_remove-append :
    (l : Lru) (xs : List Ptr) (entry : Ptr) (ys : List Ptr)
    → IsLru l (xs ++ entry ∷ ys)
    → IsLru (lru_remove l entry) (xs ++ ys)
lru_remove-append l xs entry ys is =
    let parts = IsNodup-Parts xs entry ys is.nodup in
    let a = last null xs in
    let b = first ys null in
    let r = lru_remove l entry in
    let (left, (ne, before, behind, right)) =
      Links-append l.prev l.next null xs (entry ∷ ys) null is.links in
    let not_a : (entry == a) ≡ false = ne-last entry xs ne parts.not_left in
    let not_b : (entry == b) ≡ false = ne-first entry ys ne parts.not_right in
    let nexts = lru_remove-next l entry a b before behind not_a not_b in
    let prevs = lru_remove-prev l entry a b before behind not_a not_b in
    record {
      links =
          append-Links r.prev r.next null xs ys null
            (Links-frame l.prev (next_of l a b) r.prev r.next null xs b
              (λ m i.
                rw (prevs m, ne-has entry m xs parts.not_left i)
                  (prev_of-out l ys a m (parts.apart m i)))
              (λ m i. rw (nexts m, ne-has entry m xs parts.not_left i))
              (left-Links l xs entry b parts.left left))
            (Links-frame (prev_of l a b) l.next r.prev r.next a ys null
              (λ m i. rw (prevs m, ne-has entry m ys parts.not_right i))
              (λ m i.
                rw (nexts m, ne-has entry m ys parts.not_right i)
                  (next_of-out l xs b m (elim (Bool-cases (has m xs)) [
                    | inl both ↦ cc (parts.apart m both)
                    | inr out ↦ out
                  ])))
              (right-Links l ys entry a parts.right right));
      nodup = parts.joined;
      head =
          lru_remove-head l entry a b before behind not_a not_b
          ∙ head_after l xs entry ys left is.head;
      tail =
          lru_remove-tail l entry a b before behind not_a not_b
          ∙ tail_after l xs entry ys right is.tail;
    }
