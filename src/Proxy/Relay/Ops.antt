-- ===== src/Proxy/Relay/Ops.antt =====
-- The operations that the relay loops do on the entry, on its bytes.
use os2_labs.Common.{
  ℕ, suc, ◌≡◌, ◌≢◌, refl, ◌∙◌, ◌⊎◌, inl, inr, true, false, Option, some, List, ◌++◌, ==_refl, ne→==,
  sub_u32,
}
use os2_labs.Cache.Entry.{
  Entry, EntryState, entry_complete, entry_cancelled, cache_entry_append_chunk,
  cache_entry_complete, cache_entry_release, cache_entry_cancel,
}
use os2_labs.Cache.Lru.{Ptr, null}
use os2_labs.Cache.Store.{put_entry}
use os2_labs.Proxy.Send.{send_buffer_lem}
use os2_labs.Proxy.Session.{
  Session, Outcome, finished, on, hang_up, hang_up_remote, send_client, on_entry, append_entry,
  complete_entry, release_entry, cancel_entry,
}
use os2_labs.Proxy.Relay.{hang_up_both, release_cancel, cancel_release, complete_release}

-- The entry at an address that is not null.
pub record Writes (p : Ptr) (s : Session) (e : Entry) : Type 0 where
  pub real : p ≢ null
  pub here : s.cache.heap p ≡ some e

-- The handler ends, the client has got `out`, and the entry is `e`.
abbrev pub Left : (p : Ptr) (out : List ℕ) (e : Entry) → Outcome → Type 0
Left p out e o = (s : Session) × (o ≡ finished s) × (s.to_client ≡ out) × (s.cache.heap p ≡ some e)

-- The step has no fault: the client has got `out`, and the entry is `e`.
abbrev pub Does : (p : Ptr) (out : List ℕ) (e : Entry) → Option Session → Type 0
Does p out e r = (s : Session) × (r ≡ some s) × (s.to_client ≡ out) × Writes p s e

on_entry-Does :
    (f : Entry → Entry) (p : Ptr) (s : Session) (e : Entry)
    → Writes p s e
    → Does p s.to_client (f e) (on_entry f p s)
unfolding on_entry put_entry
on_entry-Does f p s e w = (
  record s { cache = put_entry s.cache p (some (f e)) },
  rw (ne→== p null w.real, on_entry) (rw w.here),
  refl,
  record { real = w.real; here = rw (==_refl p) },
)

two-Left :
    (f g : Entry → Entry) (p : Ptr) (s : Session) (e : Entry)
    → Writes p s e
    → Left p s.to_client (g (f e)) (on (on_entry f p s) (λ s₁. on (on_entry g p s₁) hang_up_both))
unfolding hang_up_both hang_up hang_up_remote
two-Left f g p s e w =
    let (s₁, r₁, out₁, w₁) = on_entry-Does f p s e w in
    let (s₂, r₂, out₂, w₂) = on_entry-Does g p s₁ (f e) w₁ in
    rw r₁ (rw r₂ (hang_up_remote (hang_up s₂), refl, out₂ ∙ out₁, w₂.here))

-- The entry once it is no longer written: one reference less, in its last state.
abbrev pub left : Entry → EntryState → Entry
left e state = record e { state = state; refcount = sub_u32 e.refcount 1 }

module _ (p : Ptr) (s : Session) (e : Entry) (w : Writes p s e) where
  pub release_cancel-Left : Left p s.to_client (left e entry_cancelled) (release_cancel true p s)
  unfolding release_cancel release_entry cancel_entry cache_entry_release cache_entry_cancel
  release_cancel-Left = two-Left cache_entry_release cache_entry_cancel p s e w

  pub cancel_release-Left : Left p s.to_client (left e entry_cancelled) (cancel_release true p s)
  unfolding cancel_release release_entry cancel_entry cache_entry_release cache_entry_cancel
  cancel_release-Left = two-Left cache_entry_cancel cache_entry_release p s e w

  pub complete_release-Left : Left p s.to_client (left e entry_complete) (complete_release true p s)
  unfolding complete_release release_entry complete_entry cache_entry_release cache_entry_complete
  complete_release-Left = two-Left cache_entry_complete cache_entry_release p s e w

-- There is memory for each append.
abbrev pub HasMemory : Session → Type 0
HasMemory s = (n : ℕ) → s.memory n ≡ (true, true)

pub append_entry-Does :
    (bytes : List ℕ) (p : Ptr) (s : Session) (e : Entry)
    → Writes p s e
    → HasMemory s
    → (s₁ : Session) × (append_entry bytes p s ≡ some s₁)
      × (s₁.to_client ≡ s.to_client)
      × Writes p s₁ (cache_entry_append_chunk true true e bytes).0
      × HasMemory s₁
unfolding append_entry put_entry
append_entry-Does bytes p s e w memory = (
  record s {
    cache = put_entry s.cache p (some (cache_entry_append_chunk true true e bytes).0);
    memory = λ n. s.memory (suc n);
  },
  rw (w.here, append_entry) (rw (memory 0)),
  refl,
  record { real = w.real; here = rw (==_refl p) },
  λ n. memory (suc n),
)

-- A send changes neither the cache nor what `malloc` gives.
pub send_client-Writes :
    (bytes : List ℕ) (p : Ptr) (s : Session) (e : Entry)
    → Writes p s e
    → Writes p (send_client s bytes).1 e
unfolding send_client
send_client-Writes bytes p s e w = record { real = w.real; here = w.here }

pub send_client-HasMemory :
    (bytes : List ℕ) (s : Session) → HasMemory s → HasMemory (send_client s bytes).1
unfolding send_client
send_client-HasMemory bytes s memory = memory

pub send_client-ok :
    (bytes : List ℕ) (s : Session)
    → (((send_client s bytes).0 ≡ true)
        × ((send_client s bytes).1.to_client ≡ s.to_client ++ bytes))
      ⊎ ((send_client s bytes).0 ≡ false)
unfolding send_client
send_client-ok bytes s = elim (send_buffer_lem s.sends bytes s.to_client) [
  | inl (ok, all) ↦ inl (ok, all)
  | inr (ko, part) ↦ inr ko
]
