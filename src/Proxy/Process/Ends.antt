-- ===== src/Proxy/Process/Ends.antt =====
-- The way of a request from the lookup to its end: no fault, and what is open gets closed.
use os2_labs.Common.{
  ℕ, zero, suc, ◌+◌, ◌-◌, ◌^◌, ◌<◌, ◌≡◌, ◌≢◌, refl, inl, inr, Bool, true, false, List, [], ◌∷◌,
  arith, ◌==◌, leb, Bool-cases, is_some, length, take, ℤ, pos, negsuc, ne_of_==,
}
use os2_labs.Cache.Lru.{Ptr, null}
use os2_labs.Cache.Store.{Cache}
use os2_labs.Proxy.Session.{
  RecvEvent, received, recv_interrupted, recv_failed, Session, only_if, send_client, append_entry,
}
use os2_labs.Proxy.Relay.{relay_length, relay_close, buffer_size}
use os2_labs.Proxy.Process.{pass_body, pass_head, give_up, fill_entry}
use os2_labs.Proxy.Process.Entries.{
  append_entry-Goes, send_client-Open, send_client-EntryAt, release_cancel-Ends,
  cancel_release-Ends, complete_release-Ends,
}
use os2_labs.Proxy.Process.Open.{Open, Ends, EntryAt, Goes, on-Ends, hang_up_both-Ends, unlock-Goes}

pub relay_length-Ends :
    (es : List RecvEvent) (remaining : ℕ) (do_cache : Bool) (p : Ptr) (s : Session)
    → Open false 1 s
    → EntryAt do_cache s p
    → Ends (relay_length es remaining do_cache p s)
unfolding relay_length
relay_length-Ends es zero do_cache p s is there =
    complete_release-Ends do_cache do_cache p s is there
relay_length-Ends [] (suc r) do_cache p s is there =
    release_cancel-Ends do_cache do_cache p s is there
relay_length-Ends (recv_interrupted ∷ es) (suc r) do_cache p s is there =
    release_cancel-Ends do_cache do_cache p s is there
relay_length-Ends (recv_failed ∷ es) (suc r) do_cache p s is there =
    release_cancel-Ends do_cache do_cache p s is there
relay_length-Ends (received [] ∷ es) (suc r) do_cache p s is there =
    release_cancel-Ends do_cache do_cache p s is there
relay_length-Ends (received (b ∷ bs) ∷ es) (suc r) do_cache p s is there =
    on-Ends do_cache p _ _ (appended do_cache is there) (λ s₁ is₁ there₁.
      let is₂ = send_client-Open s₁ bytes is₁ in
      let there₂ = send_client-EntryAt do_cache s₁ p bytes there₁ in
      elim (Bool-cases (send_client s₁ bytes).0) [
        | inl ok ↦ rw ok (
            relay_length-Ends es (suc r - length bytes) do_cache p (send_client s₁ bytes).1 is₂
              there₂)
        | inr ko ↦
            rw ko (release_cancel-Ends do_cache do_cache p (send_client s₁ bytes).1 is₂ there₂)
      ])
  where
    bytes : List ℕ
    bytes = take buffer_size (b ∷ bs)

    appended :
        (do_cache : Bool)
        → Open false 1 s
        → EntryAt do_cache s p
        → Goes false 1 do_cache p (only_if do_cache (append_entry bytes p) s)
    appended true is there = append_entry-Goes bytes p s is there
    appended false is there = (s, refl, is, there)

pub relay_close-Ends :
    (es : List RecvEvent) (do_cache : Bool) (p : Ptr) (s : Session)
    → Open false 1 s
    → EntryAt do_cache s p
    → Ends (relay_close es do_cache p s)
unfolding relay_close
relay_close-Ends [] do_cache p s is there = cancel_release-Ends do_cache do_cache p s is there
relay_close-Ends (recv_interrupted ∷ es) do_cache p s is there =
    cancel_release-Ends do_cache do_cache p s is there
relay_close-Ends (recv_failed ∷ es) do_cache p s is there =
    cancel_release-Ends do_cache do_cache p s is there
relay_close-Ends (received [] ∷ es) do_cache p s is there =
    complete_release-Ends do_cache do_cache p s is there
relay_close-Ends (received (b ∷ bs) ∷ es) do_cache p s is there =
    let bytes = take buffer_size (b ∷ bs) in
    let is' = send_client-Open s bytes is in
    let there' = send_client-EntryAt do_cache s p bytes there in
    elim (Bool-cases (send_client s bytes).0) [
      | inl ok ↦
          rw (ok, relay_close) (relay_close-Ends es do_cache p (send_client s bytes).1 is' there')
      | inr ko ↦
          rw (ko, relay_close)
            (cancel_release-Ends do_cache do_cache p (send_client s bytes).1 is' there')
    ]

-- A length that with that of the head fits in an `ssize_t`.
abbrev pub LengthFits : (header_len : ℕ) → ℤ → Type 0
LengthFits header_len (pos content_len) = header_len + content_len < 2 ^ 63
LengthFits header_len (negsuc _) = Unit

pass_body-Ends :
    (es : List RecvEvent) (header_len total : ℕ) (content_len : ℤ) (do_cache : Bool) (p : Ptr)
    (s : Session)
    → LengthFits header_len content_len
    → Open false 1 s
    → EntryAt do_cache s p
    → Ends (pass_body es header_len total content_len do_cache p s)
unfolding pass_body
pass_body-Ends es header_len total (negsuc _) do_cache p s fits is there =
    relay_close-Ends es do_cache p s is there
pass_body-Ends es header_len total (pos n) do_cache p s fits is there =
    let small : leb (2 ^ 63) (header_len + n) ≡ false = ground arith in
    rw small (relay_length-Ends es (header_len + n - total) do_cache p s is there)

pub pass_head-Ends :
    (es : List RecvEvent) (buffer : List ℕ) (header_len : ℕ) (content_len : ℤ) (do_cache : Bool)
    (p : Ptr) (s : Session)
    → LengthFits header_len content_len
    → Open false 1 s
    → EntryAt do_cache s p
    → Ends (pass_head es buffer header_len content_len do_cache p s)
unfolding pass_head
pass_head-Ends es buffer header_len content_len do_cache p s fits is there =
    let is' = send_client-Open s buffer is in
    let there' = send_client-EntryAt do_cache s p buffer there in
    elim (Bool-cases (send_client s buffer).0) [
      | inl ok ↦
          rw (ok, pass_head)
            (pass_body-Ends es header_len (length buffer) content_len do_cache p
              (send_client s buffer).1 fits is' there')
      | inr ko ↦
          rw (ko, pass_head)
            (release_cancel-Ends true do_cache p (send_client s buffer).1 is' there')
    ]

pub give_up-Ends : (s : Session) → Open true 1 s → Ends (give_up s)
unfolding give_up
give_up-Ends s is =
    on-Ends false null _ _ (unlock-Goes s 1 false null is refl)
      (λ s₁ is₁ there. hang_up_both-Ends s₁ is₁)

-- The mutex is given up with the new entry in place, or with none.
pub fill_entry-Ends :
    (es : List RecvEvent) (buffer : List ℕ) (header_len : ℕ) (content_len : ℤ) (p : Ptr) (c : Cache)
    (s : Session)
    → LengthFits header_len content_len
    → Open true 1 s
    → ((p ≢ null) → Open true 1 (record s { cache = c }) × (is_some (c.heap p) ≡ true))
    → Ends (fill_entry es buffer header_len content_len (p, c) s)
unfolding fill_entry
fill_entry-Ends es buffer header_len content_len p c s fits is made =
    elim (Bool-cases (p == null)) [
      | inl no_memory ↦ rw (no_memory, fill_entry) (give_up-Ends s is)
      | inr some_memory ↦
          let s₁ : Session = record s { cache = c } in
          let (is₁, there₁) = made (ne_of_== p null some_memory) in
          rw (some_memory, fill_entry)
            (on-Ends true p _ _ (unlock-Goes s₁ 1 true p is₁ there₁) (λ s₂ is₂ there₂.
              on-Ends true p _ _ (append_entry-Goes buffer p s₂ is₂ there₂) (λ s₃ is₃ there₃.
                pass_head-Ends es buffer header_len content_len true p s₃ fits is₃ there₃)))
    ]
