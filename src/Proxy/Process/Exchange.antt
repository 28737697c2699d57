-- ===== src/Proxy/Process/Exchange.antt =====
-- The exchange with the host, from the connection to the end of the response.
use os2_labs.Common.{
  ℕ, ◌+◌, ◌<◌, ◌≡◌, ◌≢◌, refl, ap, ◌∙◌, inl, inr, true, false, Option, none, some, List, [], ◌∷◌,
  arith, ◌==◌, ◌||◌, Bool-cases, is_some, All, length, take, ℤ, pos, negsuc, ==_refl, ne_of_==,
}
use os2_labs.Cache.Lru.{Ptr, null}
use os2_labs.Cache.Store.{cache_insert, max_url_length}
use os2_labs.Cache.Store.Invariant.{cache_insert-IsCache}
use os2_labs.Proxy.Headers.{Header, find_header, get_content_len}
use os2_labs.Proxy.Cached.{Reading}
use os2_labs.Cache.Entry.Wait.{ends_wait}
use os2_labs.Proxy.Session.{RecvEvent, Session, send_remote}
use os2_labs.Proxy.Request.{
  Request, got_request, host, max_hostname_len, max_url_name_len, Head, head, no_head, read_request,
  read_head,
}
use os2_labs.Proxy.Process.{Env, Response, handle_response, handle_head, exchange, with_remote}
use os2_labs.Proxy.Process.Entries.{send_remote-Open}
use os2_labs.Proxy.Process.Open.{Open, Ends, on-Ends, hang_up-Closed, unlock-Goes}
use os2_labs.Proxy.Process.Ends.{LengthFits, fill_entry-Ends, pass_head-Ends, give_up-Ends}

-- What the handler gets when the request that the client sends, if it is one, names its host and its names
-- fit their arrays, the response of the host, if it is one, does not announce more than an `ssize_t` can
-- count, and each wait for the cache comes to an end. Nothing is asked of the parser on any other bytes.
pub record Polite (env : Env) : Type 0 where
  pub named :
      (buffer : List ℕ) (r : Request)
      → read_request env.phr_parse_request env.from_client [] ≡ got_request r buffer
      → (h : Header) × (find_header r.headers host ≡ some h)
        × (length h.value < max_hostname_len)
        × (length r.path < max_url_name_len)
  pub short :
      (buffer : List ℕ) (header_len : ℕ) (es : List RecvEvent) (r : Response)
      → read_head env.from_remote [] ≡ head buffer header_len es
      → env.phr_parse_response (take header_len buffer) ≡ some r
      → LengthFits header_len (get_content_len env.errno_bad r.headers)
  pub answered : (p : Ptr) → All (λ (r : Reading). ends_wait r.wakes ≡ true) (env.readings p)

module _ (env : Env) (polite : Polite env) where
  -- The response to a request whose page was not cached.
  module _ (url : List ℕ) (short : length url < max_url_length) where
    inserted :
        (s : Session)
        → Open true 1 s
        → s.cache.heap env.fresh ≡ none
        → (cache_insert env.fresh s.cache url env.now_insert).0 ≢ null
        → Open true 1 (record s { cache = (cache_insert env.fresh s.cache url env.now_insert).1 })
          × (is_some (
                (cache_insert env.fresh s.cache url env.now_insert).1.heap
                  (cache_insert env.fresh s.cache url env.now_insert).0)
              ≡ true)
    inserted s is free some_memory = elim (Bool-cases (env.fresh == null)) [
      | inl no_memory ↦ absurd (some_memory (unfold cache_insert in rw no_memory))
      | inr real ↦
          let (same, keeps, holds) =
            cache_insert-IsCache s.cache is.keeps.0 env.fresh url env.now_insert is.keeps.1
              (ne_of_== env.fresh null real) free short in
          (
            record {
              mutex = is.mutex;
              client = is.client;
              remote = is.remote;
              keeps = (env.fresh ∷ is.keeps.0, keeps);
            },
            rw same (ap is_some (holds env.fresh) ∙ rw (==_refl env.fresh)),
          )
    ]

    handle_response-Ends :
        (es : List RecvEvent) (buffer : List ℕ) (header_len : ℕ) (response : Option Response)
        (s : Session)
        → ((r : Response)
            → response ≡ some r
            → LengthFits header_len (get_content_len env.errno_bad r.headers))
        → Open true 1 s
        → s.cache.heap env.fresh ≡ none
        → Ends (handle_response env url es buffer header_len response s)
    unfolding handle_response
    handle_response-Ends es buffer header_len none s fits is free = give_up-Ends s is
    handle_response-Ends es buffer header_len (some r) s fits is free =
        elim (Bool-cases ((r.status == 200) || (r.status == 304))) [
          | inl cacheable ↦
              rw (cacheable, handle_response)
                (fill_entry-Ends es buffer header_len _ _ _ s (fits r refl) is (inserted s is free))
          | inr other ↦
              rw (other, handle_response)
                (on-Ends false null _ _ (unlock-Goes s 1 false null is refl) (λ s₁ is₁ there₁.
                  pass_head-Ends es buffer header_len _ false null s₁ (fits r refl) is₁ there₁))
        ]

    handle_head-Ends :
        (h : Head) (s : Session)
        → read_head env.from_remote [] ≡ h
        → Open true 1 s
        → s.cache.heap env.fresh ≡ none
        → Ends (handle_head env url h s)
    unfolding handle_head
    handle_head-Ends no_head s e is free = give_up-Ends s is
    handle_head-Ends (head buffer header_len es) s e is free =
        let response = env.phr_parse_response (take header_len buffer) in
        handle_response-Ends es buffer header_len response s
          (λ r p. polite.short buffer header_len es r e p) is free

    exchange-Ends :
        (request_bytes : List ℕ) (s : Session)
        → Open true 1 s
        → s.cache.heap env.fresh ≡ none
        → Ends (exchange env request_bytes url s)
    unfolding exchange send_remote
    exchange-Ends request_bytes s is free =
        let is₁ = send_remote-Open s request_bytes is in
        elim (Bool-cases (send_remote s request_bytes).0) [
          | inl ok ↦
              rw (ok, exchange) (handle_head-Ends _ (send_remote s request_bytes).1 refl is₁ free)
          | inr ko ↦ rw (ko, exchange) (give_up-Ends (send_remote s request_bytes).1 is₁)
        ]

    pub with_remote-Ends :
        (request_bytes : List ℕ) (fd : ℤ) (s : Session)
        → Open true 0 s
        → s.cache.heap env.fresh ≡ none
        → Ends (with_remote env request_bytes url fd s)
    unfolding with_remote
    with_remote-Ends request_bytes (negsuc _) s is free =
        on-Ends false null _ _ (unlock-Goes s 0 false null is refl)
          (λ s₁ is₁ there₁. hang_up-Closed s₁ is₁)
    with_remote-Ends request_bytes (pos _) s is free =
        let opened : Session = record s { remote_opens = s.remote_opens + 1 } in
        exchange-Ends request_bytes opened
          (record {
            mutex = is.mutex;
            client = is.client;
            remote = omega (arith, is.remote);
            keeps = is.keeps;
          })
          free
