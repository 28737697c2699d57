-- ===== src/Proxy/Relay.antt =====
-- caching_http_proxy/proxy/proxy.c: the two loops of `process_request` that pass the body on.
pub mod Ops
pub mod Length
pub mod Close
use os2_labs.Common.{
  ℕ, zero, suc, ◌-◌, Bool, true, false, List, [], ◌∷◌, ◌==◌, if◌then◌else◌, take, length,
}
use os2_labs.Cache.Lru.{Ptr}
use os2_labs.Proxy.Session.{
  RecvEvent, received, recv_interrupted, recv_failed, Session, Outcome, finished, on, only_if,
  hang_up, hang_up_remote, send_client, append_entry, complete_entry, release_entry, cancel_entry,
}

-- BUFFER_SIZE; `recv` gives no more than is asked for: what an event has beyond that is no part of it.
abbrev pub buffer_size : ℕ
buffer_size = 8192

unfoldable pub hang_up_both : Session → Outcome
hang_up_both s = finished (hang_up_remote (hang_up s))

-- The two calls in one order, then the ends of the connections.
unfoldable pub release_cancel : (do_cache : Bool) → Ptr → Session → Outcome
unfolding hang_up_both
release_cancel do_cache entry s =
    on (only_if do_cache (release_entry entry) s)
      (λ s₁. on (only_if do_cache (cancel_entry entry) s₁) hang_up_both)

unfoldable pub cancel_release : (do_cache : Bool) → Ptr → Session → Outcome
unfolding hang_up_both
cancel_release do_cache entry s =
    on (only_if do_cache (cancel_entry entry) s)
      (λ s₁. on (only_if do_cache (release_entry entry) s₁) hang_up_both)

unfoldable pub complete_release : (do_cache : Bool) → Ptr → Session → Outcome
unfolding hang_up_both
complete_release do_cache entry s =
    on (only_if do_cache (complete_entry entry) s)
      (λ s₁. on (only_if do_cache (release_entry entry) s₁) hang_up_both)

-- The length is known: `remaining` bytes are still to come, and the loop ends when it is no longer
-- positive. The events are those of a connection that comes to an end.
unfoldable pub relay_length :
    List RecvEvent → (remaining : ℕ) → (do_cache : Bool) → Ptr → Session → Outcome
unfolding complete_release release_cancel
relay_length es zero do_cache entry s = complete_release do_cache entry s
relay_length [] (suc r) do_cache entry s = release_cancel do_cache entry s
relay_length (recv_interrupted ∷ es) (suc r) do_cache entry s = release_cancel do_cache entry s
relay_length (recv_failed ∷ es) (suc r) do_cache entry s = release_cancel do_cache entry s
relay_length (received [] ∷ es) (suc r) do_cache entry s = release_cancel do_cache entry s
relay_length (received (b ∷ bs) ∷ es) (suc r) do_cache entry s =
    let bytes = take buffer_size (b ∷ bs) in
    on (only_if do_cache (append_entry bytes entry) s) (λ s₁.
      let (ok, s₂) = send_client s₁ bytes in
      elim ok [
        | true ↦ relay_length es (suc r - length bytes) do_cache entry s₂
        | false ↦ release_cancel do_cache entry s₂
      ])

-- The length is not known: the loop ends with the connection, or as soon as the client gets no more.
unfoldable pub relay_close : List RecvEvent → (do_cache : Bool) → Ptr → Session → Outcome
unfolding complete_release cancel_release
relay_close [] do_cache entry s = cancel_release do_cache entry s
relay_close (recv_interrupted ∷ es) do_cache entry s = cancel_release do_cache entry s
relay_close (recv_failed ∷ es) do_cache entry s = cancel_release do_cache entry s
relay_close (received [] ∷ es) do_cache entry s = complete_release do_cache entry s
relay_close (received (b ∷ bs) ∷ es) do_cache entry s =
    let bytes = take buffer_size (b ∷ bs) in
    let (ok, s₁) = send_client s bytes in
    elim ok [ true ↦ relay_close es do_cache entry s₁ | false ↦ cancel_release do_cache entry s₁ ]
