-- ===== src/Cache/Store/Life.antt =====
-- The creation of the cache and its end.
use os2_labs.Common.{
  ℕ, zero, suc, ◌+◌, ◌≤◌, ◌<◌, ◌≡◌, refl, sym, ◌∙◌, ◌⊎◌, inl, inr, Bool, true, false, ◌||◌, ◌&&◌,
  Option, none, some, List, [], ◌∷◌, arith, ◌==◌, ltb, if◌then◌else◌, ==_refl, has, IsNodup,
  is_some, Option-cases,
}
use os2_labs.Cache.Entry.{Entry}
use os2_labs.Cache.Lru.{Ptr}
use os2_labs.Cache.Lru.Chain.{ne-has}
use os2_labs.Cache.Store.{
  Cache, bucket_idx, new_cache, free_chain, free_buckets, http_cache_shutdown,
  http_cache_shutdown_no_collector, destroy_collector_lock, http_cache_init, created, refused,
  crashed, default_cache_size,
}
use os2_labs.Cache.Store.Chains.{bucket_idx-lt}
use os2_labs.Cache.Store.Invariant.{IsCache, in_bucket}

pub new_cache-IsCache : (max_size : ℕ) → IsCache (new_cache max_size) []
unfolding new_cache
new_cache-IsCache max_size = record {
  lru = record { links = tt; nodup = tt; head = refl; tail = refl };
  live = λ p. refl;
  distinct = λ i lt. tt;
  chains = λ i lt p. refl;
  some_buckets = omega arith;
}

either :
    (late early : Bool) (cell : Option Entry)
    → (if late then none else if early then none else cell) ≡ (if early || late then none else cell)
either late early cell = ground arith

free_chain-lem :
    (heap : Ptr → Option Entry) (ps : List Ptr)
    → IsNodup ps
    → ((q : Ptr) → has q ps ≡ true → is_some (heap q) ≡ true)
    → (heap' : Ptr → Option Entry) × (free_chain heap ps ≡ some heap')
      × ((q : Ptr) → heap' q ≡ (if has q ps then none else heap q))
unfolding free_chain
free_chain-lem heap [] d live = (heap, refl, λ q. refl)
free_chain-lem heap (p ∷ ps) (out, d) live = elim (Option-cases (heap p)) [
  | inl gone ↦ cc (rw gone at (live p (rw (==_refl p))))
  | inr (e, here) ↦
      let heap₁ = λ (a : Ptr). if a == p then none else heap a in
      let (heap', run, freed) =
        free_chain-lem heap₁ ps d (λ q m. rw (ne-has p q ps out m) (live q (ground arith))) in
      (heap', rw (here, free_chain) run, λ q. freed q ∙ either (has q ps) (q == p) (heap q))
]

-- A cell when the chains below `i` are freed.
abbrev cleared : (n i : ℕ) → Option Entry → Option Entry
cleared n i none = none
cleared n i (some e) = if ltb (bucket_idx n e.url) i then none else some e

cleared-step :
    (n i : ℕ) (cell : Option Entry)
    → (if in_bucket n i cell then none else cleared n i cell) ≡ cleared n (i + 1) cell
cleared-step n i none = refl
cleared-step n i (some e) = ground arith

cleared-live :
    (n i : ℕ) (cell : Option Entry) → in_bucket n i cell ≡ true → is_some (cleared n i cell) ≡ true
cleared-live n i none h = cc
cleared-live n i (some e) h = ground arith

cleared_all : (n i : ℕ) (cell : Option Entry) → 0 < n → n ≤ i → cleared n i cell ≡ none
cleared_all n i none some_buckets past = refl
cleared_all n i (some e) some_buckets past = ground (arith, bucket_idx-lt n e.url some_buckets)

cleared_none : (n : ℕ) (cell : Option Entry) → cell ≡ cleared n 0 cell
cleared_none n none = refl
cleared_none n (some e) = ground arith

module _ (c : Cache) (xs : List Ptr) (is : IsCache c xs) where
  free_buckets-cleared :
      (heap : Ptr → Option Entry) (i n : ℕ)
      → ((q : Ptr) → heap q ≡ cleared c.num_buckets i (c.heap q))
      → i + n ≡ c.num_buckets
      → (heap' : Ptr → Option Entry) × (free_buckets c.buckets heap i n ≡ some heap')
        × ((q : Ptr) → heap' q ≡ none)
  unfolding free_buckets
  free_buckets-cleared heap i zero now e = (
    heap,
    refl,
    λ q. now q ∙ cleared_all c.num_buckets i (c.heap q) is.some_buckets (omega arith),
  )
  free_buckets-cleared heap i (suc n) now e =
      let lt : i < c.num_buckets = omega arith in
      let (heap₁, run, freed) = free_chain-lem heap (c.buckets i) (is.distinct i lt) (λ q m.
        rw (now q) (cleared-live c.num_buckets i (c.heap q) (sym (is.chains i lt q) ∙ m))) in
      let (heap', later, gone) =
        free_buckets-cleared heap₁ (i + 1) n
          (λ q. freed q ∙ rw (is.chains i lt q, now q) (cleared-step c.num_buckets i (c.heap q)))
          (omega arith) in
      (heap', rw (run, free_buckets) later, gone)

  -- The end of a cache that keeps the invariant frees every entry, each once, and accesses none
  -- after it is freed.
  pub http_cache_shutdown-frees :
      (heap : Ptr → Option Entry) × (http_cache_shutdown c ≡ some heap)
      × ((q : Ptr) → heap q ≡ none)
  http_cache_shutdown-frees =
      unfold http_cache_shutdown in
      free_buckets-cleared c.heap 0 c.num_buckets (λ q. cleared_none c.num_buckets (c.heap q))
        (omega arith)

-- The pointer to a cache that keeps the invariant is clear after its end.
no_collector-cleared :
    (c : Cache) (xs : List Ptr)
    → IsCache c xs
    → http_cache_shutdown_no_collector (some c) ≡ some none
unfolding http_cache_shutdown_no_collector
no_collector-cleared c xs is =
    let (heap, run, freed) =
      free_buckets-cleared c xs is c.heap 0 c.num_buckets
        (λ q. cleared_none c.num_buckets (c.heap q)) (omega arith) in
    rw (run, http_cache_shutdown_no_collector) refl

-- With memory and a collector thread the new cache is empty, keeps the invariant, and has the size
-- that is asked for, 0 standing for the default; without memory there is none; and if only the thread
-- fails to start, the clean-up runs into the pointer that it has just cleared.
pub http_cache_init-IsCache :
    (cache_ok buckets_ok thread_ok : Bool) (max_size : ℕ)
    → ((c : Cache) × (cache_ok ≡ true)
        × (buckets_ok ≡ true)
        × (thread_ok ≡ true)
        × (http_cache_init cache_ok buckets_ok thread_ok max_size ≡ created c)
        × IsCache c []
        × (c.max_size ≡ (if max_size == 0 then default_cache_size else max_size)))
      ⊎ (((cache_ok && buckets_ok) ≡ false)
          × (http_cache_init cache_ok buckets_ok thread_ok max_size ≡ refused))
      ⊎ ((cache_ok ≡ true)
          × (buckets_ok ≡ true)
          × (thread_ok ≡ false)
          × (http_cache_init cache_ok buckets_ok thread_ok max_size ≡ crashed))
unfolding http_cache_init destroy_collector_lock
http_cache_init-IsCache true true true max_size =
    inl (new_cache max_size, refl, refl, refl, refl, new_cache-IsCache max_size, refl)
http_cache_init-IsCache true true false max_size = inr (
    inr (
      refl,
      refl,
      refl,
      rw (no_collector-cleared (new_cache max_size) [] (new_cache-IsCache max_size)) refl,
    ))
http_cache_init-IsCache true false thread_ok max_size = inr (inl (refl, refl))
http_cache_init-IsCache false buckets_ok thread_ok max_size = inr (inl (refl, refl))
