-- ===== src/Lib.antt =====
-- Verification of OS2-labs: the caching HTTP proxy, and exercises on threads.
--
-- caching_http_proxy is a proxy that keeps the responses it forwards. A pool of workers (threading)
-- polls the sockets of the clients and runs a request on each that is readable (proxy); requests share
-- a cache of responses (caching), whose entries are filled by the request that misses and read, while
-- they grow, by the requests that hit; a collector thread frees the entries that were cancelled.
--
--   Common              tests, lists, machine integers and the library names that the rest shares
--   Cache.Entry         caching/httpcache.[ch]: one entry, `cache_entry_append_chunk`,
--                       `cache_entry_read`, `cache_entry_complete`, `_release`, `_cancel`
--   Cache.Lru           caching/httpcache.c: `lru_remove`, `lru_add_head` on the pointers
--   Cache.Store         caching/httpcache.c: `hash_url`, `cache_lookup`, `cache_insert`,
--                       `cleanup_cancelled_entries`, `collector_thread_func`,
--                       `http_cache_init`, `http_cache_shutdown`
--   Threadpool          threading/threadpool.[ch]: `pick_worker`, `threadpool_add_client`, the rounds
--                       and the end of `client_worker_main`, `threadpool_init` and
--                       `threadpool_shutdown`
--   Proxy               proxy/proxy.[ch]. Server: `proxy_start`, with the accept loop and the
--                       workers in any interleaving. The rest is `process_request`. Text, Headers: the
--                       header lookup and `get_content_len`; Connect: `resolve_and_connect`; Send:
--                       `send_buffer`; Cached: `handle_cached_request`; Session: the state and the
--                       calls on it; Request: the phases up to the cache and the head of the
--                       response; Relay: the loops that pass the body on; Process: the whole handler
--   Storage             2/2.3/mutex and 2/2.3/spinlock, `main.c` and `storage.h`: threads that count and
--                       swap the nodes of one linked list with a lock per node
--   RwStorage           2/2.3/rwlock/main.c: the same threads with a read-write lock per node
--   Queue               2/2.1/queue.c, 2/2.2/mutex/queue.c and 2/2.2/spinlock/queue.c: `queue_add`,
--                       `queue_get` and `queue_destroy`, without and with a lock
--   Queue.Threads       2/2.2/mutex/queue-threads.c and 2/2.2/spinlock/queue-threads.c: `reader` and
--                       `writer` over the queue with a lock
--   Queue.Racing        2/2.1/queue.c: `queue_add` and `queue_get` a statement at a time
--   Queue.Waiting       2/2.2/condvar/queue.c and 2/2.2/semaphor/queue.c: the operations that wait, and
--                       the histories of additions and removals
--   Uthread             1/1.7/uthread.[ch]: `uschedule`, `uthread_create`, `uthread_manager_init`
--   Mythread            1/1.6/mythread_create.[ch]: the thread's structure, and the steps of
--                       `my_thread_start_up` and `my_thread_join`
--   Locks               2/2.4/mutex.c and 2/2.4/speen.c: the mutex on a futex, the spinlock, and the
--                       counting threads under them
--
-- (The paths of Cache, Threadpool and Proxy are below caching_http_proxy.) The state of a component is a
-- record with the fields of the C structures; memory is a function from addresses to what lies there,
-- if anything, and a result `none` or `fault` is an access to memory that is not allocated. What runs
-- under one lock is one function; what other threads do while a lock is given up is an argument.
-- Results of `malloc`, `time` and `poll` are arguments too. Arithmetic of `uint32_t` and `size_t` keeps
-- its wrap-around.
--
-- The directories 1 and 2 are exercises on threads, each a program of its own. Their locks are the
-- owner of a node (Storage), its readers or its writer (RwStorage), one step for a critical
-- section (Queue), none at all (Queue.Racing), or the code itself (Locks); the interleavings of the threads are
-- step relations.
--
-- Loops are structural recursion on the list they walk, but for three, which have fuel: the clean-up
-- loop of a worker, `nfds` rounds, since each round leaves one cell fewer to look at; the loop of the
-- scheduler of user threads, as many rounds as there are threads, enough as soon as one of them can
-- run; and that of `queue_destroy`, one round more than there are nodes.
--
-- In Proxy, what `recv`, `send` and the reads of the cache return are lists of events, of connections
-- that come to an end, none of them silent for ever; the answers of the HTTP parser and of the resolver are fields of `Env`. A
-- handler runs with the cache to itself there: of the other threads it sees what its reads find.
--
-- Server leaves the cache out, but for its creation and its end: what the requests make of it is a function
-- that keeps its invariant, as the handler of a request does. Which workers miss the signal at the end of the
-- pool, which comes without their lock, is an argument; the program then hangs in a join.
--
-- Not modelled: `remove_entry` and `evict_lru_entries` of the cache, which nothing calls; the system calls of
-- `create_stack` and `my_thread_create`; the sleeping threads and the signals of the queue with condition
-- variables, a wait there being allowed to end at any time; logging; the HTTP parser and log library of
-- third_party; and the other exercises of the directories 1 and 2.
mod Common
pub mod Cache
pub mod Threadpool
pub mod Storage
pub mod Queue
pub mod Uthread
pub mod Locks
pub mod Mythread
pub mod Proxy
pub mod RwStorage
