-- ===== src/Proxy/Process.antt =====
-- caching_http_proxy/proxy/proxy.c: `process_request`.
pub mod Open
pub mod Entries
pub mod Ends
pub mod Exchange
pub mod Handler
use os2_labs.Common.{
  ℕ, ◌+◌, ◌-◌, ◌^◌, Bool, true, false, ◌||◌, Option, none, some, List, [], ◌∷◌, ◌==◌, leb,
  if◌then◌else◌, take, length, ℤ, pos, negsuc,
}
use os2_labs.Cache.Lru.{Ptr, null}
use os2_labs.Cache.Store.{Cache, cache_lookup, cache_insert}
use os2_labs.Proxy.Headers.{Header, get_content_len}
use os2_labs.Proxy.Connect.{Attempt, resolve_and_connect}
use os2_labs.Proxy.Cached.{Reading, Cached, served, not_served, waits, handle_cached_request}
use os2_labs.Proxy.Session.{
  RecvEvent, Session, Outcome, finished, waiting, fault, on, lock, unlock, hang_up, hang_up_remote,
  send_client, send_remote, append_entry, release_entry, cancel_entry,
}
use os2_labs.Proxy.Relay.{hang_up_both, release_cancel, relay_length, relay_close}
use os2_labs.Proxy.Request.{
  Request, ParsedRequest, ReadRequest, got_request, no_request, read_request, accepted, rejected,
  overrun, Checked, check_request, Head, head, no_head, read_head,
}

pub record Response : Type 0 where
  pub status : ℕ
  pub headers : List Header

-- What the handler gets from outside: the returns of `recv` on the two sockets and of the reads of the
-- entry at an address, the parser's answers (`none`: a negative number) and the resolver's, the address
-- that `calloc` gives for an entry, the time at the lookup and at the insertion, and whether `errno` is
-- ERANGE or EINVAL when the length is parsed.
pub record Env : Type 0 where
  pub from_client : List RecvEvent
  pub from_remote : List RecvEvent
  pub readings : Ptr → List Reading
  pub phr_parse_request : List ℕ → ℕ → ParsedRequest
  pub phr_parse_response : List ℕ → Option Response
  pub getaddrinfo : List ℕ → Option (List Attempt)
  pub fresh : Ptr
  pub now_lookup : ℕ
  pub now_insert : ℕ
  pub errno_bad : Bool

-- The rest of the body. A sum of the lengths that does not fit in an `ssize_t` is a fault.
unfoldable pub pass_body :
    List RecvEvent
    → (header_len total : ℕ) → (content_len : ℤ) → (do_cache : Bool) → Ptr
    → Session
    → Outcome
unfolding relay_length relay_close
pass_body es header_len total (negsuc _) do_cache entry s = relay_close es do_cache entry s
pass_body es header_len total (pos content_len) do_cache entry s =
    if leb (2 ^ 63) (header_len + content_len)
    then fault
    else relay_length es (header_len + content_len - total) do_cache entry s

-- The head goes to the client, with what came of the body along with it.
unfoldable pub pass_head :
    List RecvEvent
    → (buffer : List ℕ) → (header_len : ℕ) → (content_len : ℤ) → (do_cache : Bool) → Ptr
    → Session
    → Outcome
unfolding pass_body release_cancel
pass_head es buffer header_len content_len do_cache entry s =
    let (ok, s₁) = send_client s buffer in
    elim ok [
      | true ↦ pass_body es header_len (length buffer) content_len do_cache entry s₁
      | false ↦ release_cancel true entry s₁
    ]

unfoldable pub give_up : Session → Outcome
unfolding unlock hang_up_both
give_up s = on (unlock s) hang_up_both

-- The response goes into the new entry, once the mutex is free.
unfoldable pub fill_entry :
    List RecvEvent
    → (buffer : List ℕ) → (header_len : ℕ) → (content_len : ℤ) → Ptr × Cache
    → Session
    → Outcome
unfolding give_up unlock append_entry pass_head
fill_entry es buffer header_len content_len (entry, c) s =
    if entry == null
    then give_up s
    else on (unlock (record s { cache = c })) (λ s₁.
      on (append_entry buffer entry s₁)
        (λ s₂. pass_head es buffer header_len content_len true entry s₂))

unfoldable pub handle_response :
    Env
    → (url : List ℕ) → List RecvEvent
    → (buffer : List ℕ) → (header_len : ℕ) → Option Response
    → Session
    → Outcome
unfolding give_up fill_entry cache_insert unlock pass_head get_content_len
handle_response env url es buffer header_len none s = give_up s
handle_response env url es buffer header_len (some response) s =
    let content_len = get_content_len env.errno_bad response.headers in
    if (response.status == 200) || (response.status == 304)
    then fill_entry es buffer header_len content_len
        (cache_insert env.fresh s.cache url env.now_insert) s
    else on (unlock s) (λ s₁. pass_head es buffer header_len content_len false null s₁)

unfoldable pub handle_head : Env → (url : List ℕ) → Head → Session → Outcome
unfolding give_up handle_response
handle_head env url no_head s = give_up s
handle_head env url (head buffer header_len es) s =
    handle_response env url es buffer header_len (env.phr_parse_response (take header_len buffer)) s

-- The request goes to the host, and the head of its response is read.
unfoldable pub exchange : Env → (request_bytes url : List ℕ) → Session → Outcome
unfolding give_up send_remote read_head handle_head
exchange env request_bytes url s =
    let (ok, s₁) = send_remote s request_bytes in
    elim ok [ true ↦ handle_head env url (read_head env.from_remote []) s₁ | false ↦ give_up s₁ ]

unfoldable pub with_remote :
    Env → (request_bytes url : List ℕ) → (remote_sock_fd : ℤ) → Session → Outcome
unfolding unlock hang_up exchange
with_remote env request_bytes url (negsuc _) s = on (unlock s) (λ s₁. finished (hang_up s₁))
with_remote env request_bytes url (pos _) s =
    exchange env request_bytes url (record s { remote_opens = s.remote_opens + 1 })

unfoldable pub serve : Ptr → Cached → Session → Outcome
unfolding release_entry hang_up
serve entry waits s = waiting
serve entry (served out sends) s =
    on (release_entry entry (record s { to_client = out; sends = sends }))
      (λ s₁. finished (hang_up s₁))
serve entry (not_served out sends) s =
    on (release_entry entry (record s { to_client = out; sends = sends }))
      (λ s₁. finished (hang_up s₁))

-- What the lookup finds is served; else the page is fetched, with the mutex held.
unfoldable pub serve_or_fetch :
    Env → (request_bytes hostname url : List ℕ) → Option (Ptr × Cache) → Session → Outcome
unfolding resolve_and_connect with_remote unlock handle_cached_request serve
serve_or_fetch env request_bytes hostname url none s = fault
serve_or_fetch env request_bytes hostname url (some (entry, c)) s =
    if entry == null
    then with_remote env request_bytes url (resolve_and_connect (env.getaddrinfo hostname)).result s
    else on (unlock (record s { cache = c }))
        (λ s₁. serve entry (handle_cached_request (env.readings entry) s₁.sends 0 s₁.to_client) s₁)

-- A request that has been checked.
unfoldable pub answer : Env → (buffer : List ℕ) → Checked → Session → Outcome
unfolding hang_up lock cache_lookup serve_or_fetch
answer env buffer overrun s = fault
answer env buffer rejected s = finished (hang_up s)
answer env buffer (accepted hostname url) s =
    let s₁ = lock s in
    serve_or_fetch env buffer hostname url (cache_lookup s₁.cache url env.now_lookup) s₁

unfoldable pub handle_request : Env → ReadRequest → Session → Outcome
unfolding hang_up check_request answer
handle_request env no_request s = finished (hang_up s)
handle_request env (got_request request buffer) s = answer env buffer (check_request request) s

unfoldable pub process_request : Env → Session → Outcome
unfolding read_request handle_request
process_request env s = handle_request env (read_request env.phr_parse_request env.from_client []) s
