-- ===== src/Proxy/Send.antt =====
-- caching_http_proxy/proxy/proxy.c: `send_buffer`.
--
-- What `send` returns is an argument, an event for each call. The events are those of a connection that
-- comes to an end: after them `send` fails.
use os2_labs.Common.{
  ℕ, zero, suc, ◌+◌, ◌<◌, ◌≡◌, refl, sym, ap, ◌∙◌, ◌⊎◌, inl, inr, Bool, true, false, List, [], ◌∷◌,
  ◌++◌, append-nil, append_assoc, arith, take, drop, length, take-append-drop, length-drop,
  take_cong, take-nil,
}

pub data SendEvent : Type 0 where
  sent : ℕ → SendEvent
  send_interrupted send_failed : SendEvent

-- Whether the whole buffer is sent, what the peer has got so far, and the events that are left. The
-- loop ends as soon as `rest`, what is still to be sent, is empty; `send` takes no more than that.
pub record Sent : Type 0 where
  pub ok : Bool
  pub out : List ℕ
  pub events : List SendEvent

unfoldable pub send_buffer : List SendEvent → (rest out : List ℕ) → Sent
send_buffer es [] out = record { ok = true; out = out; events = es }
send_buffer [] (b ∷ rest) out = record { ok = false; out = out; events = [] }
send_buffer (send_failed ∷ es) (b ∷ rest) out = record { ok = false; out = out; events = es }
send_buffer (send_interrupted ∷ es) (b ∷ rest) out = send_buffer es (b ∷ rest) out
send_buffer (sent zero ∷ es) (b ∷ rest) out = record { ok = false; out = out; events = es }
send_buffer (sent (suc n) ∷ es) (b ∷ rest) out =
    send_buffer es (drop n rest) (out ++ b ∷ take n rest)

take-add : (n k : ℕ) (xs : List ℕ) → take (n + k) xs ≡ take n xs ++ take k (drop n xs)
take-add zero k xs = take_cong xs (omega arith)
take-add (suc n) zero [] = take-nil (suc n + 0)
take-add (suc n) (suc k) [] = take-nil (suc n + suc k)
take-add (suc n) k (x ∷ xs) =
    take_cong (x ∷ xs) (let e : suc n + k ≡ suc (n + k) = omega arith in e)
    ∙ ap (λ r. x ∷ r) (take-add n k xs)

-- Either the whole buffer reaches the peer, behind what it had got, or the result is -1 and a part of the
-- buffer that is not all of it does, from its start on.
pub send_buffer_lem :
    (es : List SendEvent) (buffer out : List ℕ)
    → (((send_buffer es buffer out).ok ≡ true) × ((send_buffer es buffer out).out ≡ out ++ buffer))
      ⊎ (((send_buffer es buffer out).ok ≡ false)
          × ((k : ℕ) × (k < length buffer)
              × ((send_buffer es buffer out).out ≡ out ++ take k buffer)))
unfolding send_buffer
send_buffer_lem es [] out = inl (refl, sym (append-nil out))
send_buffer_lem [] (b ∷ rest) out = inr (refl, (0, omega arith, sym (append-nil out)))
send_buffer_lem (send_failed ∷ es) (b ∷ rest) out =
    inr (refl, (0, omega arith, sym (append-nil out)))
send_buffer_lem (send_interrupted ∷ es) (b ∷ rest) out = send_buffer_lem es (b ∷ rest) out
send_buffer_lem (sent zero ∷ es) (b ∷ rest) out = inr (refl, (0, omega arith, sym (append-nil out)))
send_buffer_lem (sent (suc n) ∷ es) (b ∷ rest) out =
    elim (send_buffer_lem es (drop n rest) (out ++ b ∷ take n rest)) [
      | inl (ok, all) ↦ inl (
        ok,
        all
            ∙ append_assoc out (b ∷ take n rest) (drop n rest)
            ∙ ap (λ r. out ++ b ∷ r) (take-append-drop n rest),
      )
      | inr (ko, (k, part, some)) ↦ inr (
        ko,
        (
          suc (n + k),
          omega (arith, length-drop n rest),
          some
              ∙ append_assoc out (b ∷ take n rest) (take k (drop n rest))
              ∙ ap (λ r. out ++ b ∷ r) (sym (take-add n k rest)),
        ),
      )
    ]
