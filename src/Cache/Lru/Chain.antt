-- ===== src/Cache/Lru/Chain.antt =====
-- What the links of the LRU list stand for, and how writes to the links act on it.
use os2_labs.Common.{
  ◌≡◌, ◌≢◌, refl, sym, ◌∙◌, inl, inr, true, false, List, [], ◌∷◌, ◌++◌, arith, ◌==◌, Bool-cases,
  ne→==, ==_iff, has, has-append, IsNodup,
}
use os2_labs.Cache.Lru.{Ptr, null, Lru, update}

abbrev pub first : List Ptr → Ptr → Ptr
first [] q = q
first (x ∷ xs) q = x

abbrev pub last : Ptr → List Ptr → Ptr
last p [] = p
last p (x ∷ xs) = last x xs

-- The entries `xs` are linked in both directions, with `p` before the first and `q` behind the last.
abbrev pub Links : (prev next : Ptr → Ptr) → Ptr → List Ptr → Ptr → Type 0
Links prev next p [] q = Unit
Links prev next p (x ∷ xs) q =
    (x ≢ null) × (prev x ≡ p) × (next x ≡ first xs q) × Links prev next x xs q

-- The LRU list holds exactly the distinct entries `xs`, the most recently used first.
pub record IsLru (l : Lru) (xs : List Ptr) : Type 0 where
  pub links : Links l.prev l.next null xs null
  pub nodup : IsNodup xs
  pub head : l.head ≡ first xs null
  pub tail : l.tail ≡ last null xs

pub has-last : (x : Ptr) (xs : List Ptr) → has (last x xs) (x ∷ xs) ≡ true
has-last x [] = ground arith
has-last x (y ∷ xs) = ground (arith, has-last y xs)

-- A member and a non-member are two pointers.
pub has-ne : (a b : Ptr) (xs : List Ptr) → has a xs ≡ false → has b xs ≡ true → (a == b) ≡ false
has-ne a b xs out in_xs = ne→== a b (λ e. cc)

-- The parts of a list without repetitions, on both sides of an entry.
pub record Parts (xs : List Ptr) (e : Ptr) (ys : List Ptr) : Type 0 where
  pub left : IsNodup xs
  pub right : IsNodup ys
  pub not_left : has e xs ≡ false
  pub not_right : has e ys ≡ false
  pub apart : (a : Ptr) → has a xs ≡ true → has a ys ≡ false
  pub joined : IsNodup (xs ++ ys)

pub IsNodup-Parts :
    (xs : List Ptr) (e : Ptr) (ys : List Ptr) → IsNodup (xs ++ e ∷ ys) → Parts xs e ys
IsNodup-Parts [] e ys (out, d) = record {
  left = tt;
  right = d;
  not_left = refl;
  not_right = out;
  apart = λ a m. cc;
  joined = d;
}
IsNodup-Parts (x ∷ xs) e ys (out, d) =
    let ih = IsNodup-Parts xs e ys d in
    record {
      left = (ground (arith, has-append x xs (e ∷ ys)), ih.left);
      right = ih.right;
      not_left = ground (arith, has-append x xs (e ∷ ys), ih.not_left);
      not_right = ih.not_right;
      apart = λ a m. elim (Bool-cases (a == x)) [
        | inl same ↦ rw ((==_iff a x).0 same) (ground (arith, has-append x xs (e ∷ ys)))
        | inr other ↦ ih.apart a (ground arith)
      ];
      joined = (ground (arith, has-append x xs (e ∷ ys), has-append x xs ys), ih.joined);
    }

pub ne-has : (a b : Ptr) (xs : List Ptr) → has a xs ≡ false → has b xs ≡ true → (b == a) ≡ false
ne-has a b xs out in_xs = ne→== b a (λ e. cc)

first-append : (xs ys : List Ptr) (q : Ptr) → first (xs ++ ys) q ≡ first xs (first ys q)
first-append [] ys q = refl
first-append (x ∷ xs) ys q = refl

pub last-append : (p : Ptr) (xs ys : List Ptr) → last p (xs ++ ys) ≡ last (last p xs) ys
last-append p [] ys = refl
last-append p (x ∷ xs) ys = last-append x xs ys

module _ (prev next : Ptr → Ptr) where
  -- Links of a list are not touched by a write to an entry that is not in it.
  pub Links-frame :
      (prev' next' : Ptr → Ptr) (p : Ptr) (xs : List Ptr) (q : Ptr)
      → ((a : Ptr) → has a xs ≡ true → prev' a ≡ prev a)
      → ((a : Ptr) → has a xs ≡ true → next' a ≡ next a)
      → Links prev next p xs q
      → Links prev' next' p xs q
  Links-frame prev' next' p [] q hp hn l = tt
  Links-frame prev' next' p (x ∷ xs) q hp hn (ne, e, f, rest) = (
    ne,
    hp x (ground arith) ∙ e,
    hn x (ground arith) ∙ f,
    Links-frame prev' next' x xs q (λ a m. hp a (ground arith)) (λ a m. hn a (ground arith)) rest,
  )

  pub Links-append :
      (p : Ptr) (xs ys : List Ptr) (q : Ptr)
      → Links prev next p (xs ++ ys) q
      → Links prev next p xs (first ys q) × Links prev next (last p xs) ys q
  Links-append p [] ys q l = (tt, l)
  Links-append p (x ∷ xs) ys q (ne, e, f, rest) =
      let (left, right) = Links-append x xs ys q rest in
      ((ne, e, f ∙ first-append xs ys q, left), right)

  pub append-Links :
      (p : Ptr) (xs ys : List Ptr) (q : Ptr)
      → Links prev next p xs (first ys q)
      → Links prev next (last p xs) ys q
      → Links prev next p (xs ++ ys) q
  append-Links p [] ys q l r = r
  append-Links p (x ∷ xs) ys q (ne, e, f, rest) r =
      (ne, e, f ∙ sym (first-append xs ys q), append-Links x xs ys q rest r)

  -- A write to the last entry's `next` moves the end of the list.
  pub Links-set_next :
      (p : Ptr) (xs : List Ptr) (q q' : Ptr)
      → IsNodup xs
      → Links prev next p xs q
      → Links prev (update next (last p xs) q') p xs q'
  Links-set_next p [] q q' d l = tt
  Links-set_next p (x ∷ []) q q' d (ne, e, f, rest) = (ne, e, ground arith, tt)
  Links-set_next p (x ∷ y ∷ xs) q q' (out, d) (ne, e, f, rest) = (
    ne,
    e,
    rw (has-ne x (last y xs) (y ∷ xs) out (has-last y xs)) f,
    Links-set_next x (y ∷ xs) q q' d rest,
  )

  -- A write to the first entry's `prev` moves the start of the list.
  pub Links-set_prev :
      (p p' : Ptr) (xs : List Ptr) (q : Ptr)
      → IsNodup xs
      → Links prev next p xs q
      → Links (update prev (first xs q) p') next p' xs q
  Links-set_prev p p' [] q d l = tt
  Links-set_prev p p' (x ∷ xs) q (out, d) (ne, e, f, rest) = (
    ne,
    ground arith,
    f,
    Links-frame (update prev x p') next x xs q (λ a m. ground arith) (λ a m. refl) rest,
  )

pub last-ne_null :
    (prev next : Ptr → Ptr) (p x : Ptr) (xs : List Ptr) (q : Ptr)
    → Links prev next p (x ∷ xs) q
    → last x xs ≢ null
last-ne_null prev next p x [] q (ne, e, f, rest) = ne
last-ne_null prev next p x (y ∷ xs) q (ne, e, f, rest) = last-ne_null prev next x y xs q rest
