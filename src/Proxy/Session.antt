-- ===== src/Proxy/Session.antt =====
-- caching_http_proxy/proxy/proxy.c: the state that `process_request` works on, and the calls that it
-- makes on its sockets, on the mutex and on the entry of the cache.
--
-- The handler is a function of what `recv` and `send` return, of what the parser and the resolver answer
-- and of the results of the allocations; the cache is as this thread leaves it. `fault` is a call that
-- the C standard or POSIX leaves undefined: an access outside of an object or to an entry that is not
-- there, or the unlocking of a mutex that the thread does not hold.
use os2_labs.Common.{
  ℕ, suc, ◌+◌, Bool, true, false, Option, none, some, List, ◌==◌, if◌then◌else◌, ℤ, negsuc,
}
use os2_labs.Cache.Entry.{
  Entry, cache_entry_append_chunk, cache_entry_complete, cache_entry_release, cache_entry_cancel,
}
use os2_labs.Cache.Lru.{Ptr, null}
use os2_labs.Cache.Store.{Cache, put_entry}
use os2_labs.Proxy.Send.{SendEvent, send_buffer}

-- One return of `recv`; a connection that the peer closes gives no bytes.
pub data RecvEvent : Type 0 where
  received : (bytes : List ℕ) → RecvEvent
  recv_interrupted recv_failed : RecvEvent

-- `sock_fd` is that of the connection's slot; `locked`, whether this thread holds the mutex; `sends`, what
-- the calls of `send` still to come return; `memory`, what the allocations of the next append give.
pub record Session : Type 0 where
  pub sock_fd : ℤ
  pub locked : Bool
  pub cache : Cache
  pub to_client : List ℕ
  pub to_remote : List ℕ
  pub sends : List SendEvent
  pub memory : ℕ → Bool × Bool
  pub client_closes : ℕ
  pub remote_opens : ℕ
  pub remote_closes : ℕ

-- `waiting` is a read of the cache that does not return.
pub data Outcome : Type 0 where
  finished : Session → Outcome
  waiting fault : Outcome

-- Go on with the next statement, unless there was a fault.
abbrev pub on : Option Session → (Session → Outcome) → Outcome
on none next = fault
on (some s) next = next s

unfoldable pub lock : Session → Session
lock s = record s { locked = true }

unfoldable pub unlock : Session → Option Session
unlock s = if s.locked then some (record s { locked = false }) else none

-- `disconnect(client_sock_fd); conn->sock_fd = -1;`
unfoldable pub hang_up : Session → Session
hang_up s = record s { sock_fd = negsuc 0; client_closes = s.client_closes + 1 }

-- `disconnect(remote_sock_fd);`
unfoldable pub hang_up_remote : Session → Session
hang_up_remote s = record s { remote_closes = s.remote_closes + 1 }

unfoldable pub send_client : Session → List ℕ → Bool × Session
send_client s bytes =
    let sent = send_buffer s.sends bytes s.to_client in
    (sent.ok, record s { to_client = sent.out; sends = sent.events })

unfoldable pub send_remote : Session → List ℕ → Bool × Session
send_remote s bytes =
    let sent = send_buffer s.sends bytes s.to_remote in
    (sent.ok, record s { to_remote = sent.out; sends = sent.events })

-- An operation on the entry at `p`; each of those that are called so does nothing with a null pointer.
unfoldable pub on_entry : (Entry → Entry) → Ptr → Session → Option Session
on_entry f p s = if p == null then some s else elim (s.cache.heap p) [
  | none ↦ none
  | some e ↦ some (record s { cache = put_entry s.cache p (some (f e)) })
]

-- `cache_entry_append_chunk`, whose result is not looked at.
unfoldable pub append_entry : List ℕ → Ptr → Session → Option Session
unfolding put_entry
append_entry bytes p s = elim (s.cache.heap p) [
  | none ↦ none
  | some e ↦
      let (chunk_ok, data_ok) = s.memory 0 in
      some (record s {
        cache = put_entry s.cache p (some (cache_entry_append_chunk chunk_ok data_ok e bytes).0);
        memory = λ n. s.memory (suc n);
      })
]

-- The operations that are done `if (do_cache)`.
abbrev pub only_if : (do_cache : Bool) → (Session → Option Session) → Session → Option Session
only_if true f s = f s
only_if false f s = some s

unfoldable pub complete_entry : Ptr → Session → Option Session
unfolding on_entry
complete_entry p s = on_entry cache_entry_complete p s

unfoldable pub release_entry : Ptr → Session → Option Session
unfolding on_entry
release_entry p s = on_entry cache_entry_release p s

unfoldable pub cancel_entry : Ptr → Session → Option Session
unfolding on_entry
cancel_entry p s = on_entry cache_entry_cancel p s
