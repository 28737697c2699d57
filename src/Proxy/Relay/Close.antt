-- ===== src/Proxy/Relay/Close.antt =====
-- The loop for a body without a length: what the client and the entry get.
use os2_labs.Common.{
  ℕ, ◌≡◌, refl, ap, ◌∙◌, ◌⊎◌, inl, inr, true, Option, none, some, List, [], ◌∷◌, ◌++◌, append-nil,
  append_assoc, take,
}
use os2_labs.Cache.Entry.{Entry, entry_complete, entry_cancelled}
use os2_labs.Cache.Lru.{Ptr}
use os2_labs.Proxy.Session.{
  RecvEvent, received, recv_interrupted, recv_failed, Session, Outcome, send_client,
}
use os2_labs.Proxy.Relay.{buffer_size, relay_close}
use os2_labs.Proxy.Relay.Ops.{
  Writes, Left, left, cancel_release-Left, complete_release-Left, send_client-Writes,
  send_client-ok,
}

-- The bytes that come until the host closes the connection; `none` if it never does.
abbrev pub body_of : List RecvEvent → Option (List ℕ)
body_of [] = none
body_of (recv_failed ∷ es) = none
body_of (recv_interrupted ∷ es) = none
body_of (received [] ∷ es) = some []
body_of (received (b ∷ bs) ∷ es) = elim (body_of es) [
  | none ↦ none
  | some rest ↦ some (take buffer_size (b ∷ bs) ++ rest)
]

-- The entry ends as it was, less a reference, complete when the client has got the whole body, else
-- cancelled.
abbrev pub Unfilled : List RecvEvent → Ptr → (out : List ℕ) → Entry → Outcome → Type 0
Unfilled es p out e o =
    ((body : List ℕ) × (body_of es ≡ some body) × Left p (out ++ body) (left e entry_complete) o)
    ⊎ ((out' : List ℕ) × Left p out' (left e entry_cancelled) o)

-- A body that ends with the connection is passed on, but nothing of it goes into the entry, which keeps
-- the chunks that it had: the entry is then complete if the client has got the whole body and the host
-- has closed the connection, and cancelled if not.
pub relay_close-Unfilled :
    (es : List RecvEvent) (p : Ptr) (s : Session) (e : Entry)
    → Writes p s e
    → Unfilled es p s.to_client e (relay_close es true p s)
unfolding relay_close
relay_close-Unfilled [] p s e w = inr (_, cancel_release-Left p s e w)
relay_close-Unfilled (recv_failed ∷ es) p s e w = inr (_, cancel_release-Left p s e w)
relay_close-Unfilled (recv_interrupted ∷ es) p s e w = inr (_, cancel_release-Left p s e w)
relay_close-Unfilled (received [] ∷ es) p s e w =
    inl ([], refl, rw (append-nil s.to_client) (complete_release-Left p s e w))
relay_close-Unfilled (received (b ∷ bs) ∷ es) p s e w = elim (send_client-ok bytes s) [
  | inl (ok, all) ↦ elim (relay_close-Unfilled es p s₁ e w₁) [
    | inl (body, came, (s', ends, got_all, here)) ↦ inl (
      bytes ++ body,
      rw came,
      (
        s',
        rw (ok, relay_close) ends,
        got_all ∙ ap (λ r. r ++ body) all ∙ append_assoc s.to_client bytes body,
        here,
      ),
    )
    | inr (out', (s', ends, got_part, here)) ↦
        inr (out', (s', rw (ok, relay_close) ends, got_part, here))
  ]
  | inr ko ↦
      inr ((send_client s bytes).1.to_client, rw (ko, relay_close) (cancel_release-Left p s₁ e w₁))
]
  where
    bytes : List ℕ
    bytes = take buffer_size (b ∷ bs)

    s₁ : Session
    s₁ = (send_client s bytes).1

    w₁ : Writes p s₁ e
    w₁ = send_client-Writes bytes p s e w
