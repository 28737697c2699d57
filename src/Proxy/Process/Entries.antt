-- ===== src/Proxy/Process/Entries.antt =====
-- The operations on the entry of a session: what they keep.
use os2_labs.Common.{
  ℕ, suc, ◌≡◌, refl, sym, ap, ◌∙◌, inl, inr, Bool, true, false, some, List, arith, ◌==◌,
  if◌then◌else◌, Bool-cases, Option-cases, ==_iff, is_some,
}
use os2_labs.Cache.Entry.{
  Entry, cache_entry_append_chunk, cache_entry_complete, cache_entry_release, cache_entry_cancel,
}
use os2_labs.Cache.Lru.{Ptr, null}
use os2_labs.Cache.Store.{Cache, put_entry}
use os2_labs.Cache.Store.Invariant.{IsCache, in_bucket}
use os2_labs.Proxy.Session.{
  Session, on, only_if, send_client, send_remote, on_entry, append_entry, complete_entry,
  release_entry, cancel_entry,
}
use os2_labs.Proxy.Relay.{hang_up_both, release_cancel, cancel_release, complete_release}
use os2_labs.Proxy.Process.Open.{Open, Ends, EntryAt, Goes, on-Ends, hang_up_both-Ends}

module _ (c : Cache) (p : Ptr) (e e' : Entry) (here : c.heap p ≡ some e)
    (same : e'.url ≡ e.url) where
  put-in_bucket :
      (n i : ℕ) (q : Ptr)
      → in_bucket n i (if q == p then some e' else c.heap q) ≡ in_bucket n i (c.heap q)
  put-in_bucket n i q = elim (Bool-cases (q == p)) [
    | inl at_p ↦ rw (at_p, same) (sym (ap (in_bucket n i) (ap c.heap ((==_iff q p).0 at_p) ∙ here)))
    | inr other ↦ rw other
  ]

  put-is_some : (q : Ptr) → is_some (if q == p then some e' else c.heap q) ≡ is_some (c.heap q)
  put-is_some q = elim (Bool-cases (q == p)) [
    | inl at_p ↦ rw at_p (sym (ap is_some (ap c.heap ((==_iff q p).0 at_p) ∙ here)))
    | inr other ↦ rw other
  ]

  -- An entry gives way to one with the same URL.
  put_entry-IsCache : (xs : List Ptr) → IsCache c xs → IsCache (put_entry c p (some e')) xs
  unfolding put_entry
  put_entry-IsCache xs is = record {
    lru = is.lru;
    live = λ q. is.live q ∙ sym (put-is_some q);
    distinct = is.distinct;
    chains = λ i lt q. is.chains i lt q ∙ sym (put-in_bucket c.num_buckets i q);
    some_buckets = is.some_buckets;
  }

-- The session whose entry at `p` has become `e'`.
at_entry : Session → Ptr → Entry → (ℕ → Bool × Bool) → Session
at_entry s p e' memory = record s { cache = put_entry s.cache p (some e'); memory = memory }

at_entry-Open :
    {held : Bool} {remotes : ℕ} (s : Session) (p : Ptr) (e e' : Entry) (memory : ℕ → Bool × Bool)
    → Open held remotes s
    → s.cache.heap p ≡ some e
    → e'.url ≡ e.url
    → Open held remotes (at_entry s p e' memory) × EntryAt true (at_entry s p e' memory) p
unfolding at_entry put_entry
at_entry-Open s p e e' memory is here same = (
  record {
    mutex = is.mutex;
    client = is.client;
    remote = is.remote;
    keeps = (
      is.keeps.0,
      unfold put_entry in put_entry-IsCache s.cache p e e' here same is.keeps.0 is.keeps.1,
    );
  },
  put-is_some s.cache p e e' here same p ∙ ap is_some here,
)

on_entry-Goes :
    {held : Bool} {remotes : ℕ} (f : Entry → Entry) (do_cache : Bool) (p : Ptr) (s : Session)
    → ((e : Entry) → (f e).url ≡ e.url)
    → Open held remotes s
    → EntryAt do_cache s p
    → Goes held remotes do_cache p (on_entry f p s)
on_entry-Goes f false p s same is there = (s, rw there (unfold on_entry in refl), is, there)
on_entry-Goes f true p s same is there = elim (Bool-cases (p == null)) [
  | inl at_null ↦ (s, unfold on_entry in rw at_null, is, there)
  | inr real ↦ elim (Option-cases (s.cache.heap p)) [
    | inl gone ↦ cc (ap is_some gone)
    | inr (e, here) ↦
        let (is', there') = at_entry-Open s p e (f e) s.memory is here (same e) in
        (at_entry s p (f e) s.memory, unfold on_entry at_entry in rw (real, here), is', there')
  ]
]

-- An operation that is done under a condition.
only_if-Goes :
    {held : Bool} {remotes : ℕ} (f : Entry → Entry) (flag do_cache : Bool) (p : Ptr) (s : Session)
    → ((e : Entry) → (f e).url ≡ e.url)
    → Open held remotes s
    → EntryAt do_cache s p
    → Goes held remotes do_cache p (only_if flag (on_entry f p) s)
only_if-Goes f true do_cache p s same is there = on_entry-Goes f do_cache p s same is there
only_if-Goes f false do_cache p s same is there = (s, refl, is, there)

append_chunk-url :
    (chunk_ok data_ok : Bool) (e : Entry) (bytes : List ℕ)
    → (cache_entry_append_chunk chunk_ok data_ok e bytes).0.url ≡ e.url
unfolding cache_entry_append_chunk
append_chunk-url true true e bytes = ground arith
append_chunk-url true false e bytes = ground arith
append_chunk-url false data_ok e bytes = ground arith

pub append_entry-Goes :
    {held : Bool} {remotes : ℕ} (bytes : List ℕ) (p : Ptr) (s : Session)
    → Open held remotes s
    → EntryAt true s p
    → Goes held remotes true p (append_entry bytes p s)
append_entry-Goes bytes p s is there = elim (Option-cases (s.cache.heap p)) [
  | inl gone ↦ cc (ap is_some gone)
  | inr (e, here) ↦
      let (chunk_ok, data_ok) = s.memory 0 in
      let e' = (cache_entry_append_chunk chunk_ok data_ok e bytes).0 in
      let memory : ℕ → Bool × Bool = λ n. s.memory (suc n) in
      let (is', there') =
        at_entry-Open s p e e' memory is here (append_chunk-url chunk_ok data_ok e bytes) in
      (at_entry s p e' memory, unfold append_entry at_entry in rw (here, append_entry), is', there')
]

pub send_client-Open :
    {held : Bool} {remotes : ℕ} (s : Session) (bytes : List ℕ)
    → Open held remotes s
    → Open held remotes (send_client s bytes).1
unfolding send_client
send_client-Open s bytes is = record {
  mutex = is.mutex;
  client = is.client;
  remote = is.remote;
  keeps = is.keeps;
}

pub send_client-EntryAt :
    (do_cache : Bool) (s : Session) (p : Ptr) (bytes : List ℕ)
    → EntryAt do_cache s p
    → EntryAt do_cache (send_client s bytes).1 p
unfolding send_client
send_client-EntryAt true s p bytes there = there
send_client-EntryAt false s p bytes there = there

pub send_remote-Open :
    {held : Bool} {remotes : ℕ} (s : Session) (bytes : List ℕ)
    → Open held remotes s
    → Open held remotes (send_remote s bytes).1
unfolding send_remote
send_remote-Open s bytes is = record {
  mutex = is.mutex;
  client = is.client;
  remote = is.remote;
  keeps = is.keeps;
}

-- Two operations on the entry, one after the other, and the ends of the connections.
two-Ends :
    (f g : Entry → Entry) (flag do_cache : Bool) (p : Ptr) (s : Session)
    → ((e : Entry) → (f e).url ≡ e.url)
    → ((e : Entry) → (g e).url ≡ e.url)
    → Open false 1 s
    → EntryAt do_cache s p
    → Ends (
        on (only_if flag (on_entry f p) s) (λ s₁. on (only_if flag (on_entry g p) s₁) hang_up_both))
two-Ends f g flag do_cache p s same_f same_g is there =
    on-Ends do_cache p _ _ (only_if-Goes f flag do_cache p s same_f is there) (λ s₁ is₁ there₁.
      on-Ends do_cache p _ _ (only_if-Goes g flag do_cache p s₁ same_g is₁ there₁)
        (λ s₂ is₂ there₂. hang_up_both-Ends s₂ is₂))

module _ (flag do_cache : Bool) (p : Ptr) (s : Session) (is : Open false 1 s)
    (there : EntryAt do_cache s p) where
  pub release_cancel-Ends : Ends (release_cancel flag p s)
  unfolding release_cancel release_entry cancel_entry cache_entry_release cache_entry_cancel
  release_cancel-Ends =
      two-Ends cache_entry_release cache_entry_cancel flag do_cache p s (λ e. refl) (λ e. refl) is
        there

  pub cancel_release-Ends : Ends (cancel_release flag p s)
  unfolding cancel_release release_entry cancel_entry cache_entry_release cache_entry_cancel
  cancel_release-Ends =
      two-Ends cache_entry_cancel cache_entry_release flag do_cache p s (λ e. refl) (λ e. refl) is
        there

  pub complete_release-Ends : Ends (complete_release flag p s)
  unfolding complete_release release_entry complete_entry cache_entry_release cache_entry_complete
  complete_release-Ends =
      two-Ends cache_entry_complete cache_entry_release flag do_cache p s (λ e. refl) (λ e. refl) is
        there

pub release_entry-Goes :
    {held : Bool} {remotes : ℕ} (do_cache : Bool) (p : Ptr) (s : Session)
    → Open held remotes s
    → EntryAt do_cache s p
    → Goes held remotes do_cache p (release_entry p s)
unfolding release_entry cache_entry_release
release_entry-Goes do_cache p s is there =
    on_entry-Goes cache_entry_release do_cache p s (λ e. refl) is there
