-- ===== src/Proxy/Cached.antt =====
-- caching_http_proxy/proxy/proxy.c: `handle_cached_request`, with the bytes that the client gets.
pub mod Pages
use os2_labs.Common.{
  ℕ, ◌+◌, ◌≤◌, ◌<◌, ◌≡◌, ◌≢◌, refl, sym, ap, ◌∙◌, inl, inr, true, false, List, [], ◌∷◌, ◌++◌,
  append-nil, append_assoc, arith, take, drop, length, Bool-cases, concat, take-append, drop-append,
  drop-append_of_le, take_cong, drop-drop, drop_all, drop_cong, leb, ◌-◌, take-append-drop,
  take_all, All,
}
use os2_labs.Cache.Entry.{
  Entry, Wake, ReadResult, got, failed, blocked, cache_entry_read, entry_complete,
}
use os2_labs.Cache.Entry.Append.{IsSized}
use os2_labs.Cache.Entry.Wait.{
  Seen, ends_wait, cache_entry_read-got, cache_entry_read-end, cache_entry_read-returns,
}
use os2_labs.Proxy.Send.{SendEvent, send_buffer, send_buffer_lem}

-- What one call of `cache_entry_read` finds: the entry, and the returns of its wait.
pub record Reading : Type 0 where
  pub entry : Entry
  pub wakes : List Wake

-- What the client has got, and the events of `send` that are left; `waits` is a read that does not
-- return.
pub data Cached : Type 0 where
  served not_served : (out : List ℕ) → List SendEvent → Cached
  waits : Cached

abbrev pub buffer_len : ℕ
buffer_len = 8192

-- The readings are those of an entry that is no longer written: after them a read times out.
unfoldable pub handle_cached_request :
    List Reading → List SendEvent → (offset : ℕ) → (out : List ℕ) → Cached
handle_cached_request [] sends offset out = not_served out sends
handle_cached_request (r ∷ rs) sends offset out =
    elim (cache_entry_read r.entry r.wakes offset buffer_len) [
      | blocked ↦ waits
      | failed ↦ not_served out sends
      | got [] ↦ served out sends
      | got (b ∷ bytes) ↦
          let s = send_buffer sends (b ∷ bytes) out in
          elim s.ok [
            | true ↦ handle_cached_request rs s.events (offset + length (b ∷ bytes)) s.out
            | false ↦ not_served s.out s.events
          ]
    ]
