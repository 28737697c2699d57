-- ===== src/Proxy/Process/Handler.antt =====
-- `process_request` as a whole: no fault, and what it opens it closes.
use os2_labs.Common.{
  ℕ, ◌<◌, ◌≡◌, ◌≢◌, refl, ap, inl, inr, true, false, none, List, [], arith, ◌==◌, Bool-cases,
  is_some, length,
}
use os2_labs.Cache.Lru.{Ptr, null}
use os2_labs.Cache.Store.{cache_lookup, max_url_length}
use os2_labs.Cache.Store.Invariant.{IsCache}
use os2_labs.Cache.Store.Lookup.{cache_lookup-Hit}
use os2_labs.Proxy.Text.{c_str}
use os2_labs.Proxy.Cached.{Cached, served, not_served, waits}
use os2_labs.Proxy.Cached.Pages.{handle_cached_request-returns}
use os2_labs.Proxy.Session.{Session, lock}
use os2_labs.Proxy.Request.{
  Request, ReadRequest, got_request, no_request, read_request, check_request,
}
use os2_labs.Proxy.Request.Bounds.{c_str-le, check_request-fits}
use os2_labs.Proxy.Process.{Env, serve, serve_or_fetch, answer, handle_request, process_request}
use os2_labs.Proxy.Process.Entries.{release_entry-Goes}
use os2_labs.Proxy.Process.Open.{Open, Ends, EntryAt, on-Ends, hang_up-Closed, unlock-Goes}
use os2_labs.Proxy.Process.Exchange.{Polite, with_remote-Ends}

module _ (env : Env) (polite : Polite env) where
  serve-Ends :
      (p : Ptr) (c : Cached) (s : Session)
      → c ≢ waits
      → Open false 0 s
      → EntryAt true s p
      → Ends (serve p c s)
  unfolding serve
  serve-Ends p waits s over is there = absurd (over refl)
  serve-Ends p (served out sends) s over is there =
      on-Ends true p _ _
        (release_entry-Goes true p (record s { to_client = out; sends = sends })
          (record { mutex = is.mutex; client = is.client; remote = is.remote; keeps = is.keeps })
          there)
        (λ s₁ is₁ there₁. hang_up-Closed s₁ is₁)
  serve-Ends p (not_served out sends) s over is there =
      on-Ends true p _ _
        (release_entry-Goes true p (record s { to_client = out; sends = sends })
          (record { mutex = is.mutex; client = is.client; remote = is.remote; keeps = is.keeps })
          there)
        (λ s₁ is₁ there₁. hang_up-Closed s₁ is₁)

  -- What the lookup gives, on a cache that is in order.
  serve_or_fetch-Ends :
      (request_bytes hostname url : List ℕ) (s : Session)
      → length url < max_url_length
      → Open true 0 s
      → s.cache.heap env.fresh ≡ none
      → Ends (
          serve_or_fetch env request_bytes hostname url (cache_lookup s.cache url env.now_lookup) s)
  unfolding serve_or_fetch
  serve_or_fetch-Ends request_bytes hostname url s short is free =
      let ((p, c), found, what) =
        cache_lookup-Hit s.cache url env.now_lookup is.keeps.0 is.keeps.1 in
      rw found (elim what [
        | inl (gone, same, others) ↦
            rw gone (with_remote-Ends env polite url short request_bytes _ s is free)
        | inr hit ↦ elim (Bool-cases (p == null)) [
          | inl gone ↦
              rw (gone, serve_or_fetch)
                (with_remote-Ends env polite url short request_bytes _ s is free)
          | inr here ↦
              let s₁ : Session = record s { cache = c } in
              rw (here, serve_or_fetch)
                (on-Ends true p _ _
                  (unlock-Goes s₁ 0 true p
                    (record {
                      mutex = is.mutex;
                      client = is.client;
                      remote = is.remote;
                      keeps = (_, hit.kept);
                    })
                    (ap is_some hit.counted))
                  (λ s₂ is₂ there₂.
                    serve-Ends p _ s₂
                      (handle_cached_request-returns (env.readings p) _ _ _ (polite.answered p)) is₂
                      there₂))
        ]
      ])

module _ (env : Env) (polite : Polite env) where
  answer-Ends :
      (buffer : List ℕ) (r : Request) (s : Session)
      → read_request env.phr_parse_request env.from_client [] ≡ got_request r buffer
      → Open false 0 s
      → s.cache.heap env.fresh ≡ none
      → Ends (answer env buffer (check_request r) s)
  unfolding answer lock
  answer-Ends buffer r s reads is free =
      let (h, found, name_fits, path_fits) = polite.named buffer r reads in
      elim (check_request-fits r h found name_fits path_fits) [
        | inl unfit ↦ rw unfit (hang_up-Closed s is)
        | inr fit ↦ rw fit (
            serve_or_fetch-Ends env polite buffer (c_str h.value) (c_str r.path) (lock s)
              (omega (arith, c_str-le r.path))
              (record { mutex = refl; client = is.client; remote = is.remote; keeps = is.keeps })
              free)
      ]

  handle_request-Ends :
      (read : ReadRequest) (s : Session)
      → read_request env.phr_parse_request env.from_client [] ≡ read
      → Open false 0 s
      → s.cache.heap env.fresh ≡ none
      → Ends (handle_request env read s)
  unfolding handle_request
  handle_request-Ends no_request s e is free = hang_up-Closed s is
  handle_request-Ends (got_request r buffer) s e is free = answer-Ends buffer r s e is free

  -- For a client whose bytes are no request, or one that names its host, with a host and a path that fit
  -- their arrays, a response whose length fits in an `ssize_t`, waits for the cache that end, a cache in
  -- order and memory that is free for a new entry, and with connections that are not silent for ever:
  -- whatever they do until their end, and wherever they fail, the handler has no fault; and when it is done the
  -- client's connection is closed, once, its slot marked, each connection to a host closed, once, the
  -- mutex free, and the cache in order.
  pub process_request-Ends :
      (xs : List Ptr) (s : Session)
      → IsCache s.cache xs
      → s.cache.heap env.fresh ≡ none
      → s.locked ≡ false
      → s.client_closes ≡ 0
      → s.remote_opens ≡ s.remote_closes
      → Ends (process_request env s)
  unfolding process_request
  process_request-Ends xs s is free idle connected none_open =
      handle_request-Ends _ s refl
        (record {
          mutex = idle;
          client = connected;
          remote = omega (arith, none_open);
          keeps = (xs, is);
        })
        free
