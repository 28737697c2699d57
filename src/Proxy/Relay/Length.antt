-- ===== src/Proxy/Relay/Length.antt =====
-- The loop for a body whose length is known: what the client and the entry get.
use os2_labs.Common.{
  ℕ, zero, suc, ◌+◌, ◌-◌, ◌≤◌, ◌<◌, ◌^◌, ◌≡◌, refl, sym, ap, ◌∙◌, ◌⊎◌, inl, inr, true, false, some,
  List, [], ◌∷◌, ◌++◌, arith, append-nil, append_assoc, length, length-append, length-take, concat,
  take, sub_u32,
}
use os2_labs.Cache.Entry.{
  Entry, entry_complete, entry_cancelled, is_cancelled, cache_entry_append_chunk,
}
use os2_labs.Cache.Entry.Append.{IsSized, append_chunk-bytes, append_chunk-state}
use os2_labs.Cache.Lru.{Ptr}
use os2_labs.Proxy.Session.{
  RecvEvent, received, recv_interrupted, recv_failed, Session, Outcome, on, append_entry,
  send_client,
}
use os2_labs.Proxy.Relay.{buffer_size, relay_length, release_cancel}
use os2_labs.Proxy.Relay.Ops.{
  Writes, Left, left, HasMemory, release_cancel-Left, complete_release-Left, append_entry-Does,
  send_client-Writes, send_client-HasMemory, send_client-ok,
}

-- How much `recv` can give.
abbrev pub stream_len : List RecvEvent → ℕ
stream_len [] = 0
stream_len (received bytes ∷ es) = length bytes + stream_len es
stream_len (recv_interrupted ∷ es) = stream_len es
stream_len (recv_failed ∷ es) = stream_len es

-- Either the client gets at least what remains, the same bytes stand behind those of the entry, and the
-- entry is complete; or the entry is cancelled. It has a reference less.
abbrev pub Copied : (remaining : ℕ) → Ptr → (out bytes : List ℕ) → (refcount : ℕ) → Outcome → Type 0
Copied remaining p out bytes refcount o =
    ((body : List ℕ) × (remaining ≤ length body)
      × ((e : Entry) × (e.state ≡ entry_complete)
          × (concat e.chunks ≡ bytes ++ body)
          × (e.refcount ≡ sub_u32 refcount 1)
          × Left p (out ++ body) e o))
    ⊎ ((out' : List ℕ) × ((e : Entry) × (e.state ≡ entry_cancelled)
          × (e.refcount ≡ sub_u32 refcount 1)
          × Left p out' e o))

-- An entry in writing, with room for `more` bytes.
pub record Room (e : Entry) (more : ℕ) : Type 0 where
  pub alive : is_cancelled e.state ≡ false
  pub sized : IsSized e
  pub fits : e.total_size + more < 2 ^ 64

append_chunk-refcount :
    (e : Entry) (bytes : List ℕ)
    → (cache_entry_append_chunk true true e bytes).0.refcount ≡ e.refcount
unfolding cache_entry_append_chunk
append_chunk-refcount e bytes = ground arith

append_chunk-Room :
    (e : Entry) (bytes : List ℕ) (more : ℕ)
    → Room e (length bytes + more)
    → Room (cache_entry_append_chunk true true e bytes).0 more
      × (concat (cache_entry_append_chunk true true e bytes).0.chunks ≡ concat e.chunks ++ bytes)
append_chunk-Room e bytes more room =
    let (ok, joined, sized) =
      append_chunk-bytes e bytes room.sized room.alive (omega (arith, room.fits)) in
    (
      record {
        alive = ap is_cancelled (append_chunk-state e bytes) ∙ room.alive;
        sized = sized;
        fits = omega (
          arith,
          sized,
          ap length joined,
          length-append (concat e.chunks) bytes,
          room.sized,
          room.fits,
        );
      },
      joined,
    )

cancelled-Copied :
    (remaining : ℕ) (p : Ptr) (out bytes : List ℕ) (s : Session) (e : Entry)
    → Writes p s e
    → Copied remaining p out bytes e.refcount (release_cancel true p s)
cancelled-Copied remaining p out bytes s e w =
    inr (s.to_client, (left e entry_cancelled, refl, refl, release_cancel-Left p s e w))

-- One round of the loop went well: what it passed on stands before the rest.
round-Copied :
    (remaining : ℕ) (p : Ptr) (new out bytes : List ℕ) {out' bytes' : List ℕ}
    {refcount refcount' : ℕ} {o o' : Outcome}
    → out' ≡ out ++ new
    → bytes' ≡ bytes ++ new
    → refcount' ≡ refcount
    → o ≡ o'
    → Copied (remaining - length new) p out' bytes' refcount' o'
    → Copied remaining p out bytes refcount o
round-Copied remaining p new out bytes sent stored same goes
      (inr (out', (e, state, count, (s, ends, got_part, here)))) =
    inr (out', (e, state, count ∙ ap (λ n. sub_u32 n 1) same, (s, goes ∙ ends, got_part, here)))
round-Copied remaining p new out bytes sent stored same goes
      (inl (body, enough, (e, state, holds, count, (s, ends, got_all, here)))) =
    inl (
      new ++ body,
      omega (arith, length-append new body),
      (
        e,
        state,
        holds ∙ ap (λ r. r ++ body) stored ∙ append_assoc bytes new body,
        count ∙ ap (λ n. sub_u32 n 1) same,
        (s, goes ∙ ends, got_all ∙ ap (λ r. r ++ body) sent ∙ append_assoc out new body, here),
      ),
    )

module _ (b : ℕ) (bs : List ℕ) (es : List RecvEvent) (r : ℕ) (p : Ptr) (s s₁ : Session)
    (appended : append_entry (take buffer_size (b ∷ bs)) p s ≡ some s₁) where
  round-ok :
      (send_client s₁ (take buffer_size (b ∷ bs))).0 ≡ true
      → relay_length (received (b ∷ bs) ∷ es) (suc r) true p s
        ≡ relay_length es
            (suc r - length (take buffer_size (b ∷ bs)))
            true
            p
            (send_client s₁ (take buffer_size (b ∷ bs))).1
  unfolding relay_length
  round-ok ok = rw (appended, relay_length) (rw (ok, on))

  round-fails :
      (send_client s₁ (take buffer_size (b ∷ bs))).0 ≡ false
      → relay_length (received (b ∷ bs) ∷ es) (suc r) true p s
        ≡ release_cancel true p (send_client s₁ (take buffer_size (b ∷ bs))).1
  unfolding relay_length
  round-fails ko = rw (appended, relay_length) (rw (ko, on))

-- With memory for each append and an entry in writing that has room for what may come, the loop for a
-- body whose length is known comes to an end without a fault: either the client has got at least what
-- remained, the entry has got the same bytes behind its own, and it is complete; or the entry is
-- cancelled. In both cases it has lost one reference.
pub relay_length-Copied :
    (es : List RecvEvent) (remaining : ℕ) (p : Ptr) (s : Session) (e : Entry)
    → Writes p s e
    → HasMemory s
    → Room e (stream_len es)
    → Copied remaining p s.to_client
        (concat e.chunks)
        e.refcount
        (relay_length es remaining true p s)
unfolding relay_length
relay_length-Copied es zero p s e w memory room = inl (
  [],
  omega arith,
  (
    left e entry_complete,
    refl,
    sym (append-nil (concat e.chunks)),
    refl,
    rw (append-nil s.to_client) (complete_release-Left p s e w),
  ),
)
relay_length-Copied [] (suc r) p s e w memory room = cancelled-Copied (suc r) p s.to_client _ s e w
relay_length-Copied (recv_interrupted ∷ es) (suc r) p s e w memory room =
    cancelled-Copied (suc r) p s.to_client _ s e w
relay_length-Copied (recv_failed ∷ es) (suc r) p s e w memory room =
    cancelled-Copied (suc r) p s.to_client _ s e w
relay_length-Copied (received [] ∷ es) (suc r) p s e w memory room =
    cancelled-Copied (suc r) p s.to_client _ s e w
relay_length-Copied (received (b ∷ bs) ∷ es) (suc r) p s e w memory room =
    let (s₁, appended, same_out, w₁, memory₁) = append_entry-Does bytes p s e w memory in
    let (room₁, joined) = append_chunk-Room e bytes (stream_len es) enough in
    let w₂ = send_client-Writes bytes p s₁ e₁ w₁ in
    elim (send_client-ok bytes s₁) [
      | inr ko ↦
          let (s', ends, sent, here) = release_cancel-Left p (send_client s₁ bytes).1 e₁ w₂ in
          inr (
            s'.to_client,
            (
              left e₁ entry_cancelled,
              refl,
              ap (λ n. sub_u32 n 1) (append_chunk-refcount e bytes),
              (s', round-fails b bs es r p s s₁ appended ko ∙ ends, refl, here),
            ),
          )
      | inl (ok, all) ↦
          round-Copied (suc r) p bytes s.to_client (concat e.chunks)
            (all ∙ ap (λ r. r ++ bytes) same_out) joined (append_chunk-refcount e bytes)
            (round-ok b bs es r p s s₁ appended ok)
            (relay_length-Copied es (suc r - length bytes) p (send_client s₁ bytes).1 e₁ w₂
              (send_client-HasMemory bytes s₁ memory₁) room₁)
    ]
  where
    bytes : List ℕ
    bytes = take buffer_size (b ∷ bs)

    e₁ : Entry
    e₁ = (cache_entry_append_chunk true true e bytes).0

    enough : Room e (length bytes + stream_len es)
    enough = record {
      alive = room.alive;
      sized = room.sized;
      fits = omega (arith, room.fits, length-take buffer_size (b ∷ bs));
    }
