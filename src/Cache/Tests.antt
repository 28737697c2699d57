-- ===== src/Cache/Tests.antt =====
-- Concrete entries and caches, with the theorems of the cache at them.
use os2_labs.Common.{
  ℕ, ◌≡◌, refl, ◌⊎◌, inl, inr, true, false, Option, none, some, List, [], ◌∷◌, ◌++◌, arith, ◌==◌,
  if◌then◌else◌, take, drop, concat, ◌&&◌,
}
use os2_labs.Cache.Entry.{
  Entry, Wake, entry_incomplete, entry_complete, entry_cancelled, is_cancelled, must_wait, got,
  failed, read_ready, cache_entry_read, cache_entry_append_chunk, find_chunk, copy_chunks,
  wait_data,
}
use os2_labs.Cache.Entry.Append.{IsSized, append_chunk-read}
use os2_labs.Cache.Entry.Wait.{Seen, cache_entry_read-got}
use os2_labs.Cache.Lru.{Ptr, Lru, lru_add_head, lru_remove}
use os2_labs.Cache.Lru.Chain.{IsLru}
use os2_labs.Cache.Lru.Add.{lru_add_head-cons}
use os2_labs.Cache.Lru.Remove.{lru_remove-append}
use os2_labs.Cache.Store.{
  Cache, empty_lru, new_cache, cache_insert, cache_lookup, cleanup_cancelled_entries,
  http_cache_init, http_cache_shutdown, created, refused, crashed, default_cache_size,
}
use os2_labs.Cache.Store.Invariant.{IsCache, stored, cache_insert-IsCache}
use os2_labs.Cache.Store.Lookup.{Miss, Hit, cache_lookup-Hit}
use os2_labs.Cache.Store.Collect.{dead_cell}
use os2_labs.Cache.Store.Sweep.{cleanup_cancelled_entries-IsCache}
use os2_labs.Cache.Store.Collector.{Keeps, collector_thread_func, collector_thread_func-ends}
use os2_labs.Cache.Store.Life.{
  new_cache-IsCache, http_cache_init-IsCache, http_cache_shutdown-frees,
}

-- An entry of two chunks, and the same when it is complete or cancelled.
abbrev half : Entry
half = record {
  url = 47 ∷ [];
  chunks = (1 ∷ 2 ∷ 3 ∷ []) ∷ (4 ∷ 5 ∷ []) ∷ [];
  total_size = 5;
  last_access = 9;
  state = entry_incomplete;
  refcount = 1;
}

abbrev whole : Entry
whole = record half { state = entry_complete }

abbrev dropped : Entry
dropped = record half { state = entry_cancelled }

abbrev finished : List Wake
finished = record { timed_out = false; entry = whole } ∷ []

abbrev cancelled : List Wake
cancelled = record { timed_out = false; entry = dropped } ∷ []

append_chunk-read_example :
    (cache_entry_read half [] 1 3 ≡ got (take 3 (drop 1 (concat half.chunks))))
    × (cache_entry_read (cache_entry_append_chunk true true half (6 ∷ [])).0 [] 1 3
        ≡ cache_entry_read half [] 1 3)
append_chunk-read_example =
    append_chunk-read half (6 ∷ []) 1 3 refl refl (omega arith) (omega arith) (omega arith)

-- A read at the end of what is there waits, until the entry is complete or cancelled.
read_end : cache_entry_read half finished 5 8 ≡ got []
unfolding cache_entry_read wait_data find_chunk copy_chunks read_ready
read_end = refl

read_cancelled : cache_entry_read half cancelled 5 8 ≡ failed
unfolding cache_entry_read wait_data find_chunk copy_chunks read_ready
read_cancelled = refl

cache_entry_read-got_example :
    (e' : Entry) × Seen half finished e'
    × (must_wait 5 e' ≡ false)
    × (is_cancelled e'.state ≡ false)
    × ((let e : List ℕ = [] in e) ≡ take 8 (drop 5 (concat e'.chunks)))
cache_entry_read-got_example = cache_entry_read-got half finished 5 8 read_end

Seen-IsSized : (e' : Entry) → Seen half finished e' → IsSized e'
Seen-IsSized e' (inl same) = rw (← same) refl
Seen-IsSized e' (inr same) = rw (← same) refl

-- The LRU list of one entry, and of two.
abbrev one_lru : Lru
one_lru = lru_add_head empty_lru 2

no_entries-IsLru : IsLru empty_lru []
no_entries-IsLru = record { links = tt; nodup = tt; head = refl; tail = refl }

two_entries-IsLru : IsLru (lru_add_head one_lru 1) (1 ∷ 2 ∷ [])
two_entries-IsLru =
    lru_add_head-cons one_lru 1 (2 ∷ [])
      (lru_add_head-cons empty_lru 2 [] no_entries-IsLru (omega arith) refl) (omega arith) refl

one_entry-IsLru : IsLru one_lru (2 ∷ [])
one_entry-IsLru = lru_add_head-cons empty_lru 2 [] no_entries-IsLru (omega arith) refl

lru_remove-append_example : IsLru (lru_remove (lru_add_head one_lru 1) 2) ((1 ∷ []) ++ [])
lru_remove-append_example =
    lru_remove-append (lru_add_head one_lru 1) (1 ∷ []) 2 [] two_entries-IsLru

-- A cache with one entry, at the address 7, and the same with the entry cancelled and released.
abbrev slash : List ℕ
slash = 47 ∷ []

abbrev one_cache : Cache
one_cache = (cache_insert 7 (new_cache 0) slash 5).1

cache_insert-IsCache_example :
    ((cache_insert 7 (new_cache 0) slash 5).0 ≡ 7)
    × IsCache (cache_insert 7 (new_cache 0) slash 5).1 (7 ∷ [])
    × ((p : Ptr)
        → (cache_insert 7 (new_cache 0) slash 5).1.heap p
          ≡ (if p == 7 then some (stored slash 5) else (new_cache 0).heap p))
cache_insert-IsCache_example =
    cache_insert-IsCache (new_cache 0) [] 7 slash 5 (new_cache-IsCache 0) (omega arith)
      (unfold new_cache in refl) (omega arith)

one_cache-IsCache : IsCache one_cache (7 ∷ [])
one_cache-IsCache =
    (cache_insert-IsCache (new_cache 0) [] 7 slash 5 (new_cache-IsCache 0) (omega arith)
      (unfold new_cache in refl) (omega arith)).1

cache_lookup-Hit_example :
    (r : Ptr × Cache) × (cache_lookup one_cache slash 6 ≡ some r)
    × (Miss one_cache slash r ⊎ Hit one_cache (7 ∷ []) slash 6 r.0 r.1)
cache_lookup-Hit_example = cache_lookup-Hit one_cache slash 6 (7 ∷ []) one_cache-IsCache

cleanup_cancelled_entries-IsCache_example :
    (c' : Cache) × (cleanup_cancelled_entries one_cache ≡ some c')
    × ((ys : List Ptr) × IsCache c' ys)
    × ((q : Ptr) → c'.heap q ≡ (if dead_cell (one_cache.heap q) then none else one_cache.heap q))
cleanup_cancelled_entries-IsCache_example =
    cleanup_cancelled_entries-IsCache one_cache (7 ∷ []) one_cache-IsCache

http_cache_init-IsCache_example :
    ((c : Cache) × (true ≡ true)
      × (true ≡ true)
      × (false ≡ true)
      × (http_cache_init true true false 0 ≡ created c)
      × IsCache c []
      × (c.max_size ≡ (if 0 == 0 then default_cache_size else 0)))
    ⊎ (((true && true) ≡ false) × (http_cache_init true true false 0 ≡ refused))
    ⊎ ((true ≡ true)
        × (true ≡ true)
        × (false ≡ false)
        × (http_cache_init true true false 0 ≡ crashed))
http_cache_init-IsCache_example = http_cache_init-IsCache true true false 0

http_cache_shutdown-frees_example :
    (heap : Ptr → Option Entry) × (http_cache_shutdown one_cache ≡ some heap)
    × ((q : Ptr) → heap q ≡ none)
http_cache_shutdown-frees_example = http_cache_shutdown-frees one_cache (7 ∷ []) one_cache-IsCache

-- The other threads do nothing in the first wait of the collector, and stop it in the second.
abbrev idle : Cache → Cache
idle c = c

abbrev stop_collector : Cache → Cache
stop_collector c = record c { collector_running = false }

idle-Keeps : Keeps idle
unfolding Keeps
idle-Keeps c xs is = (xs, is)

stop_collector-Keeps : Keeps stop_collector
unfolding Keeps
stop_collector-Keeps c xs is = (
  xs,
  record {
    lru = is.lru;
    live = is.live;
    distinct = is.distinct;
    chains = is.chains;
    some_buckets = is.some_buckets;
  },
)

collector_thread_func-ends_example :
    (c' : Cache) × (collector_thread_func ((idle ∷ []) ++ stop_collector ∷ []) one_cache
      ≡ some (c', true))
    × (c'.collector_running ≡ false)
    × ((ys : List Ptr) × IsCache c' ys)
collector_thread_func-ends_example =
    collector_thread_func-ends (idle ∷ []) stop_collector [] (idle-Keeps, tt) stop_collector-Keeps
      (λ c. refl) one_cache (7 ∷ []) one_cache-IsCache
