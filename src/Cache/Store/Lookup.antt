-- ===== src/Cache/Store/Lookup.antt =====
-- `cache_lookup` under the invariant.
use os2_labs.Common.{
  ℕ, ◌+◌, ◌<◌, ◌≡◌, ◌≢◌, refl, sym, ap, ◌∙◌, ◌⊎◌, inl, inr, true, false, ◌&&◌, not, some, List, [],
  ◌∷◌, ◌++◌, arith, ◌==◌, if◌then◌else◌, Bool-cases, ==_iff, ==_refl, has, IsNodup, is_some, ne→==,
  erase, u32,
}
use os2_labs.Cache.Entry.{Entry}
use os2_labs.Cache.Lru.{Ptr, null, Lru, lru_add_head, lru_remove}
use os2_labs.Cache.Lru.Chain.{IsLru, Links-append}
use os2_labs.Cache.Lru.Add.{lru_add_head-cons}
use os2_labs.Cache.Lru.Remove.{lru_remove-append}
use os2_labs.Cache.Store.{Cache, bucket_idx, cache_lookup, find_entry, touch}
use os2_labs.Cache.Store.Chains.{IsHit, Found, find_entry-Found, bucket_idx-lt}
use os2_labs.Cache.Store.Invariant.{IsCache, in_bucket, in_bucket-is_some}

-- A member of a list, with what stands before and behind it.
pub split_at :
    (p : Ptr) (xs : List Ptr)
    → has p xs ≡ true
    → (before behind : List Ptr) × (xs ≡ before ++ p ∷ behind) × (erase p xs ≡ before ++ behind)
split_at p [] m = cc
split_at p (x ∷ xs) m = elim (Bool-cases (p == x)) [
  | inl here ↦ ([], xs, ap (λ y. y ∷ xs) (sym ((==_iff p x).0 here)), rw here)
  | inr further ↦
      let (before, behind, e, f) = split_at p xs (rw further at m) in
      (x ∷ before, behind, ap (λ r. x ∷ r) e, rw further (ap (λ r. x ∷ r) f))
]

-- Without repetitions, erasing takes out just the one.
pub has-erase :
    (p q : Ptr) (xs : List Ptr) → IsNodup xs → has q (erase p xs) ≡ (has q xs && not (q == p))
has-erase p q [] d = refl
has-erase p q (x ∷ xs) (out, d) = elim (Bool-cases (p == x)) [
  | inl here ↦
      rw (here, (==_iff p x).0 here)
        (elim (Bool-cases (q == x)) [
          | inl same ↦ rw (same, (==_iff q x).0 same) out
          | inr other ↦ rw other (ground arith)
        ])
  | inr further ↦ rw (further, has-erase p q xs d) (ground arith)
]

module _ (l : Lru) (xs : List Ptr) (p : Ptr) (is : IsLru l xs) (m : has p xs ≡ true) where
  -- Removing a member anywhere.
  pub lru_remove-erase : IsLru (lru_remove l p) (erase p xs) × (p ≢ null)
  lru_remove-erase =
      let (before, behind, e, f) = split_at p xs m in
      let is' = rw e at is in
      (
        rw f (lru_remove-append l before p behind is'),
        (Links-append l.prev l.next null before (p ∷ behind) null is'.links).1.0,
      )

  pub not-has-erase : has p (erase p xs) ≡ false
  not-has-erase = rw (has-erase p p xs is.nodup, ==_refl p, m)

  -- Moving a member to the front.
  pub move_front-IsLru : IsLru (lru_add_head (lru_remove l p) p) (p ∷ erase p xs)
  move_front-IsLru =
      lru_add_head-cons (lru_remove l p) p (erase p xs) lru_remove-erase.0 lru_remove-erase.1
        not-has-erase

-- The entry after a hit.
abbrev pub touched : Entry → ℕ → Entry
touched e now = record e { refcount = u32 (e.refcount + 1); last_access = now }

module _ (c : Cache) (xs : List Ptr) (p : Ptr) (e : Entry) (now : ℕ) (is : IsCache c xs)
    (here : c.heap p ≡ some e) where
  member : has p xs ≡ true
  member = is.live p ∙ ap is_some here

  touch-heap :
      (q : Ptr) → (touch c p e now).heap q ≡ (if q == p then some (touched e now) else c.heap q)
  unfolding touch
  touch-heap q = refl

  touch-in_bucket :
      (n i : ℕ) (q : Ptr) → in_bucket n i ((touch c p e now).heap q) ≡ in_bucket n i (c.heap q)
  touch-in_bucket n i q = elim (Bool-cases (q == p)) [
    | inl same ↦
        rw (touch-heap q, same) (sym (ap (in_bucket n i) (ap c.heap ((==_iff q p).0 same) ∙ here)))
    | inr other ↦ rw (touch-heap q, other)
  ]

  touch-live : (q : Ptr) → has q (p ∷ erase p xs) ≡ is_some ((touch c p e now).heap q)
  touch-live q = elim (Bool-cases (q == p)) [
    | inl same ↦ rw (touch-heap q, same)
    | inr other ↦
        rw (touch-heap q, other, has-erase p q xs is.lru.nodup, other) (ground (arith, is.live q))
  ]

  touch-IsCache : IsCache (touch c p e now) (p ∷ erase p xs)
  unfolding touch
  touch-IsCache = record {
    lru = move_front-IsLru c.lru xs p is.lru member;
    live = touch-live;
    distinct = is.distinct;
    chains = λ i lt q. is.chains i lt q ∙ sym (touch-in_bucket c.num_buckets i q);
    some_buckets = is.some_buckets;
  }

-- No entry has the URL but cancelled ones, and nothing changes.
abbrev pub Miss : Cache → List ℕ → Ptr × Cache → Type 0
Miss c url (p, c') = (p ≡ null) × (c' ≡ c) × ((q : Ptr) → ¬ IsHit c.heap url q)

-- An entry that has the URL and is not cancelled gets a reference, and becomes the most recently used.
pub record Hit (c : Cache) (xs : List Ptr) (url : List ℕ) (now : ℕ) (p : Ptr) (c' : Cache)
    : Type 0 where
  pub hit : IsHit c.heap url p
  pub kept : IsCache c' (p ∷ erase p xs)
  pub counted : c'.heap p ≡ some (touched hit.entry now)
  pub others : (q : Ptr) → (q == p) ≡ false → c'.heap q ≡ c.heap q

module _ (c : Cache) (url : List ℕ) (now : ℕ) where
  chain : List Ptr
  unfolding bucket_idx
  chain = c.buckets (bucket_idx c.num_buckets url)

  lookup_of_miss : find_entry c.heap url chain ≡ some null → cache_lookup c url now ≡ some (null, c)
  unfolding cache_lookup chain
  lookup_of_miss found = rw (found, cache_lookup)

  lookup_of_hit :
      (p : Ptr) (e : Entry)
      → find_entry c.heap url chain ≡ some p
      → p ≢ null
      → c.heap p ≡ some e
      → cache_lookup c url now ≡ some (p, touch c p e now)
  unfolding cache_lookup chain
  lookup_of_hit p e found ne here = ground (arith, ne→== p null ne)

  -- On a cache that keeps the invariant, a lookup touches no freed memory. Either no entry with the
  -- URL is usable, and it returns NULL and changes nothing; or it returns an entry with the URL
  -- that is not cancelled, which gets a reference and the time of the access and becomes the most
  -- recently used, no other entry changes, and the invariant is kept.
  pub cache_lookup-Hit :
      (xs : List Ptr)
      → IsCache c xs
      → (r : Ptr × Cache) × (cache_lookup c url now ≡ some r)
        × (Miss c url r ⊎ Hit c xs url now r.0 r.1)
  unfolding chain
  cache_lookup-Hit xs is = elim what [
    | inl (gone, no_hit) ↦ (
      (null, c),
      lookup_of_miss (rw gone at found),
      inl (
        refl,
        refl,
        λ q hit.
            no_hit q
              (is.chains i lt q
                ∙ ap (in_bucket c.num_buckets i) hit.here
                ∙ rw hit.same_url (==_refl i))
              hit,
      ),
    )
    | inr (m, hit) ↦
        let in_list : has p xs ≡ true = is.live p ∙ ap is_some hit.here in
        let ne : p ≢ null = (lru_remove-erase c.lru xs p is.lru in_list).1 in
        (
          (p, touch c p hit.entry now),
          lookup_of_hit p hit.entry found ne hit.here,
          inr (record {
            hit = hit;
            kept = touch-IsCache c xs p hit.entry now is hit.here;
            counted = touch-heap c xs p hit.entry now is hit.here p ∙ rw (==_refl p);
            others = λ q other. touch-heap c xs p hit.entry now is hit.here q ∙ rw other;
          }),
        )
  ]
    where
      i : ℕ
      i = bucket_idx c.num_buckets url

      lt : i < c.num_buckets
      lt = bucket_idx-lt c.num_buckets url is.some_buckets

      search :
          (p : Ptr) × (find_entry c.heap url (c.buckets i) ≡ some p)
          × Found c.heap url (c.buckets i) p
      search =
          find_entry-Found c.heap url (c.buckets i)
            (λ q m. in_bucket-is_some c.num_buckets i (c.heap q) (sym (is.chains i lt q) ∙ m))

      p : Ptr
      p = search.0

      found : find_entry c.heap url (c.buckets i) ≡ some p
      found = search.1

      what : Found c.heap url (c.buckets i) p
      what = search.2
