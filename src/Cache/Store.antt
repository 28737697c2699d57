-- ===== src/Cache/Store.antt =====
-- caching_http_proxy/caching/httpcache.[ch]: the cache, its buckets and its operations.
--
-- Entries lie at addresses: `heap` holds what `calloc` gave and `free` has not taken back. A bucket
-- is the list of the entries on its chain through `next`; `lru` is the list through `lru_prev` and
-- `lru_next`. `none` as a result is a fault: an access to an address that holds no entry.
-- `time(NULL)` and the results of the allocations are arguments.
--
-- A lookup holds the bucket's lock throughout. An insertion takes the bucket's lock and the LRU lock
-- one after the other; its caller, `process_request`, holds one mutex around lookup and insertion, so
-- each is a single step here. The collector holds the bucket's lock while it walks a chain.
pub mod Chains
pub mod Invariant
pub mod Lookup
pub mod Collect
pub mod Sweep
pub mod Collector
pub mod Life
use Prim.Native.Nat.{bit_xor}
use os2_labs.Common.{
  ℕ, zero, suc, ◌+◌, ◌-◌, ◌*◌, ◌%◌, ◌≡◌, Bool, true, false, ◌&&◌, Option, none, some, List, [], ◌∷◌,
  ◌==◌, if◌then◌else◌, take, u32, sub_u64,
}
use os2_labs.Cache.Entry.{Entry, entry_incomplete, is_cancelled}
use os2_labs.Cache.Lru.{Ptr, null, Lru, lru_remove, lru_add_head}

abbrev pub max_url_length : ℕ
max_url_length = 2048

abbrev pub default_cache_size : ℕ
default_cache_size = 100 * 1024 * 1024

abbrev pub max_buckets : ℕ
max_buckets = 1024

pub record Cache : Type 0 where
  pub heap : Ptr → Option Entry
  pub buckets : ℕ → List Ptr
  pub num_buckets : ℕ
  pub current_size : ℕ
  pub max_size : ℕ
  pub lru : Lru
  pub collector_running : Bool

-- The bytes of a C string, none of them zero; `hash` starts at the offset basis.
unfoldable pub hash_loop : ℕ → List ℕ → ℕ
hash_loop hash [] = hash
hash_loop hash (c ∷ url) = hash_loop (u32 (bit_xor hash c * 16777619)) url

unfoldable pub hash_url : List ℕ → ℕ
unfolding hash_loop
hash_url url = hash_loop 2166136261 url

unfoldable pub bucket_idx : ℕ → List ℕ → ℕ
unfolding hash_url
bucket_idx num_buckets url = hash_url url % num_buckets

-- `strcmp(a, b) == 0`
unfoldable pub url_eq : List ℕ → List ℕ → Bool
url_eq [] [] = true
url_eq [] (b ∷ bs) = false
url_eq (a ∷ as') [] = false
url_eq (a ∷ as') (b ∷ bs) = (a == b) && url_eq as' bs

unfoldable pub put_entry : Cache → Ptr → Option Entry → Cache
put_entry c p cell = record c { heap = λ a. if a == p then cell else c.heap a }

unfoldable pub set_bucket : Cache → ℕ → List Ptr → Cache
set_bucket c i chain = record c { buckets = λ j. if j == i then chain else c.buckets j }

-- The entry that the loop of `cache_lookup` stops at, `null` if it reaches the end.
unfoldable pub find_entry : (Ptr → Option Entry) → List ℕ → List Ptr → Option Ptr
find_entry heap url [] = some null
find_entry heap url (p ∷ ps) =
    let rest = find_entry heap url ps in
    elim (heap p) [
      | none ↦ none
      | some e ↦ if url_eq e.url url then if is_cancelled e.state then rest else some p else rest
    ]

-- A hit: one more reference, the time of the access, and the front of the LRU list.
unfoldable pub touch : Cache → Ptr → Entry → ℕ → Cache
unfolding put_entry lru_remove lru_add_head
touch c p e now =
    let c₁ =
      put_entry c p (some (record e { refcount = u32 (e.refcount + 1); last_access = now })) in
    record c₁ { lru = lru_add_head (lru_remove c.lru p) p }

unfoldable pub cache_lookup : Cache → List ℕ → (now : ℕ) → Option (Ptr × Cache)
unfolding find_entry touch bucket_idx
cache_lookup c url now = elim (find_entry c.heap url (c.buckets (bucket_idx c.num_buckets url))) [
  | none ↦ none
  | some p ↦
      if p == null
      then some (null, c)
      else elim (c.heap p) [ none ↦ none | some e ↦ some (p, touch c p e now) ]
]

-- `strncpy` into a field that `calloc` has cleared.
unfoldable pub new_entry : List ℕ → ℕ → Entry
new_entry url now = record {
  url = take (max_url_length - 1) url;
  chunks = [];
  total_size = 0;
  last_access = now;
  state = entry_incomplete;
  refcount = 1;
}

-- `fresh` is what `calloc` returns, `null` for failure.
unfoldable pub cache_insert : (fresh : Ptr) → Cache → List ℕ → (now : ℕ) → Ptr × Cache
unfolding put_entry set_bucket new_entry bucket_idx lru_add_head
cache_insert fresh c url now =
    if fresh == null
    then (null, c)
    else let c₁ = put_entry c fresh (some (new_entry url now)) in
      let i = bucket_idx c.num_buckets url in
      let c₂ = set_bucket c₁ i (fresh ∷ c.buckets i) in
      (fresh, record c₂ { lru = lru_add_head c.lru fresh })

abbrev pub is_dead : Entry → Bool
is_dead e = is_cancelled e.state && (e.refcount == 0)

-- What the collector does to an entry that it removes, its chain aside.
unfoldable pub collect : Cache → Ptr → Entry → Cache
unfolding put_entry lru_remove
collect c p e = record (put_entry c p none) {
  lru = lru_remove c.lru p;
  current_size = sub_u64 c.current_size e.total_size;
}

-- The walk along one chain: what is left of it, and the cache.
unfoldable pub cleanup_chain : Cache → List Ptr → Option (List Ptr × Cache)
cleanup_chain c [] = some ([], c)
cleanup_chain c (p ∷ ps) = elim (c.heap p) [
  | none ↦ none
  | some e ↦ elim (cleanup_chain (if is_dead e then collect c p e else c) ps) [
    | none ↦ none
    | some (rest, c') ↦ some (if is_dead e then rest else p ∷ rest, c')
  ]
]

-- The buckets from `i` on. The chain is written at the end of its walk: nothing else reads or writes
-- it in between, since the collector holds the bucket's lock.
unfoldable pub cleanup_from : Cache → (i n : ℕ) → Option Cache
cleanup_from c i zero = some c
cleanup_from c i (suc n) = elim (cleanup_chain c (c.buckets i)) [
  | none ↦ none
  | some (rest, c') ↦ cleanup_from (set_bucket c' i rest) (i + 1) n
]

unfoldable pub cleanup_cancelled_entries : Cache → Option Cache
cleanup_cancelled_entries c = cleanup_from c 0 c.num_buckets

abbrev pub empty_lru : Lru
empty_lru = record { head = null; tail = null; prev = λ _. null; next = λ _. null }

-- `calloc` clears the structure and the buckets.
unfoldable pub new_cache : ℕ → Cache
new_cache max_size = record {
  heap = λ _. none;
  buckets = λ _. [];
  num_buckets = max_buckets;
  current_size = 0;
  max_size = if max_size == 0 then default_cache_size else max_size;
  lru = empty_lru;
  collector_running = true;
}

-- The loops that free the entries of the buckets.
unfoldable pub free_chain : (Ptr → Option Entry) → List Ptr → Option (Ptr → Option Entry)
free_chain heap [] = some heap
free_chain heap (p ∷ ps) = elim (heap p) [
  | none ↦ none
  | some _ ↦ free_chain (λ a. if a == p then none else heap a) ps
]

unfoldable pub free_buckets :
    (buckets : ℕ → List Ptr) → (Ptr → Option Entry) → (i n : ℕ) → Option (Ptr → Option Entry)
free_buckets buckets heap i zero = some heap
free_buckets buckets heap i (suc n) = elim (free_chain heap (buckets i)) [
  | none ↦ none
  | some heap' ↦ free_buckets buckets heap' (i + 1) n
]

-- The pointer to the cache, which the call clears when it has freed the cache.
unfoldable pub http_cache_shutdown_no_collector : Option Cache → Option (Option Cache)
unfolding free_buckets
http_cache_shutdown_no_collector none = some none
http_cache_shutdown_no_collector (some c) = elim (free_buckets c.buckets c.heap 0 c.num_buckets) [
  | none ↦ none
  | some _ ↦ some none
]

-- The flag that stops the collector, whose thread is then joined, and the loops over the buckets.
unfoldable pub http_cache_shutdown : Cache → Option (Ptr → Option Entry)
http_cache_shutdown c =
    let stopped = record c { collector_running = false } in
    free_buckets stopped.buckets stopped.heap 0 stopped.num_buckets

pub data Init : Type 0 where
  created : Cache → Init
  refused : Init
  crashed : Init

-- `pthread_mutex_destroy(&cache->collector_lock)` and what follows it, through the pointer to the cache.
unfoldable pub destroy_collector_lock : Option Cache → Init
destroy_collector_lock none = crashed
destroy_collector_lock (some c) = refused

-- The Booleans say whether the two allocations and the start of the collector thread succeed.
unfoldable pub http_cache_init : (cache_ok buckets_ok thread_ok : Bool) → ℕ → Init
unfolding new_cache http_cache_shutdown_no_collector destroy_collector_lock
http_cache_init cache_ok buckets_ok thread_ok max_size =
    if cache_ok
    then if buckets_ok
      then if thread_ok
        then created (new_cache max_size)
        else elim (http_cache_shutdown_no_collector (some (new_cache max_size))) [
          | none ↦ crashed
          | some cache ↦ destroy_collector_lock cache
        ]
      else refused
    else refused
