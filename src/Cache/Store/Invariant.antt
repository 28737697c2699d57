-- ===== src/Cache/Store/Invariant.antt =====
-- The invariant of the cache, at its creation and across an insertion.
use os2_labs.Common.{
  ℕ, ◌-◌, ◌<◌, ◌≡◌, ◌≢◌, refl, sym, ap, ◌∙◌, inl, inr, Bool, true, false, Option, none, some, List,
  [], ◌∷◌, arith, ◌==◌, if◌then◌else◌, Bool-cases, ==_iff, ==_comm, ==_refl, has, IsNodup, is_some,
  length, take_all, ne→==,
}
use os2_labs.Cache.Entry.{Entry, entry_incomplete}
use os2_labs.Cache.Lru.{Ptr, null, lru_add_head}
use os2_labs.Cache.Lru.Chain.{IsLru}
use os2_labs.Cache.Lru.Add.{lru_add_head-cons}
use os2_labs.Cache.Store.{Cache, bucket_idx, cache_insert, new_entry, max_url_length}

-- Whether what lies at an address belongs in the bucket `i` of `n`.
abbrev pub in_bucket : (n i : ℕ) → Option Entry → Bool
in_bucket n i none = false
in_bucket n i (some e) = bucket_idx n e.url == i

pub in_bucket-is_some :
    (n i : ℕ) (cell : Option Entry) → in_bucket n i cell ≡ true → is_some cell ≡ true
in_bucket-is_some n i none h = cc
in_bucket-is_some n i (some e) h = refl

-- The entries that are allocated are those of the LRU list, each once; the chain of a bucket holds
-- exactly those whose URL hashes to it, each once.
pub record IsCache (c : Cache) (xs : List Ptr) : Type 0 where
  pub lru : IsLru c.lru xs
  pub live : (p : Ptr) → has p xs ≡ is_some (c.heap p)
  pub distinct : (i : ℕ) → i < c.num_buckets → IsNodup (c.buckets i)
  pub chains :
      (i : ℕ)
      → i < c.num_buckets
      → (p : Ptr) → has p (c.buckets i) ≡ in_bucket c.num_buckets i (c.heap p)
  pub some_buckets : 0 < c.num_buckets

-- The entry that an insertion makes of a URL that fits its field.
abbrev pub stored : List ℕ → ℕ → Entry
stored url now = record {
  url = url;
  chunks = [];
  total_size = 0;
  last_access = now;
  state = entry_incomplete;
  refcount = 1;
}

new_entry-stored :
    (url : List ℕ) (now : ℕ) → length url < max_url_length → new_entry url now ≡ stored url now
unfolding new_entry
new_entry-stored url now fits =
    ap (λ u. stored u now) (take_all (max_url_length - 1) url (omega arith))

-- An insertion with memory for the entry, at an address that is free, of a URL that fits its field.
module _ (c : Cache) (xs : List Ptr) (fresh : Ptr) (url : List ℕ) (now : ℕ) (is : IsCache c xs)
    (got : fresh ≢ null) (free : c.heap fresh ≡ none) (fits : length url < max_url_length) where
  inserted : Cache
  inserted = record c {
    heap = λ a. if a == fresh then some (stored url now) else c.heap a;
    buckets = λ j.
        if j == bucket_idx c.num_buckets url
        then fresh ∷ c.buckets (bucket_idx c.num_buckets url)
        else c.buckets j;
    lru = lru_add_head c.lru fresh;
  }

  cache_insert-inserted : cache_insert fresh c url now ≡ (fresh, inserted)
  unfolding cache_insert inserted bucket_idx lru_add_head
  cache_insert-inserted = rw (ne→== fresh null got, new_entry-stored url now fits)

  not_chained : (j : ℕ) → j < c.num_buckets → has fresh (c.buckets j) ≡ false
  not_chained j lt = is.chains j lt fresh ∙ ap (in_bucket c.num_buckets j) free

  inserted-live : (p : Ptr) → has p (fresh ∷ xs) ≡ is_some (inserted.heap p)
  unfolding inserted
  inserted-live p = elim (Bool-cases (p == fresh)) [
    | inl here ↦ rw here
    | inr other ↦ rw other (is.live p)
  ]

  inserted-distinct : (j : ℕ) → j < c.num_buckets → IsNodup (inserted.buckets j)
  unfolding inserted
  inserted-distinct j lt = elim (Bool-cases (j == bucket_idx c.num_buckets url)) [
    | inl here ↦ rw here (
        let same : j ≡ bucket_idx c.num_buckets url = (==_iff j _).0 here in
        rw (← same) (not_chained j lt, is.distinct j lt))
    | inr other ↦ rw other (is.distinct j lt)
  ]

  -- The chain of `j` holds the new entry too, or is as it was.
  in_chain : (j p : ℕ) → Bool
  in_chain j p = has p (
      if j == bucket_idx c.num_buckets url
      then fresh ∷ c.buckets (bucket_idx c.num_buckets url)
      else c.buckets j)

  chain_new : (j : ℕ) → j < c.num_buckets → in_chain j fresh ≡ (bucket_idx c.num_buckets url == j)
  unfolding in_chain
  chain_new j lt = elim (Bool-cases (j == bucket_idx c.num_buckets url)) [
    | inl here ↦ rw (here, ==_refl fresh) (sym (==_comm (bucket_idx c.num_buckets url) j ∙ here))
    | inr other ↦
        rw other (not_chained j lt ∙ sym (==_comm (bucket_idx c.num_buckets url) j ∙ other))
  ]

  chain_old :
      (j : ℕ)
      → j < c.num_buckets
      → (p : ℕ) → (p == fresh) ≡ false
      → in_chain j p ≡ in_bucket c.num_buckets j (c.heap p)
  unfolding in_chain
  chain_old j lt p ne = elim (Bool-cases (j == bucket_idx c.num_buckets url)) [
    | inl here ↦
        let same : bucket_idx c.num_buckets url ≡ j = sym ((==_iff j _).0 here) in
        rw (here, ne) (ap (λ k. has p (c.buckets k)) same ∙ is.chains j lt p)
    | inr other ↦ rw other (is.chains j lt p)
  ]

  inserted-chains :
      (j : ℕ)
      → j < c.num_buckets
      → (p : Ptr) → has p (inserted.buckets j) ≡ in_bucket c.num_buckets j (inserted.heap p)
  unfolding inserted in_chain
  inserted-chains j lt p = elim (Bool-cases (p == fresh)) [
    | inl here ↦ rw here (ap (in_chain j) ((==_iff p fresh).0 here) ∙ chain_new j lt)
    | inr other ↦ rw other (chain_old j lt p other)
  ]

  -- On a cache that keeps the invariant, with memory for the entry at an address that is free, and
  -- for a URL that fits its field: the insertion returns the new entry, which has the URL and one
  -- reference and is the most recently used; no other entry changes, and the invariant is kept.
  pub cache_insert-IsCache :
      ((cache_insert fresh c url now).0 ≡ fresh)
      × IsCache (cache_insert fresh c url now).1 (fresh ∷ xs)
      × ((p : Ptr)
          → (cache_insert fresh c url now).1.heap p
            ≡ (if p == fresh then some (stored url now) else c.heap p))
  cache_insert-IsCache = rw cache_insert-inserted (
    refl,
    unfold inserted in
        record {
          lru = lru_add_head-cons c.lru fresh xs is.lru got (is.live fresh ∙ ap is_some free);
          live = inserted-live;
          distinct = inserted-distinct;
          chains = inserted-chains;
          some_buckets = is.some_buckets;
        },
    unfold inserted in λ p. refl,
  )
