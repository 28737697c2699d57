-- ===== src/Proxy/Cached/Pages.antt =====
-- What `handle_cached_request` gives to the client: the page, or a first part of it.
use os2_labs.Common.{
  ℕ, ◌+◌, ◌≤◌, ◌<◌, ◌≡◌, ◌≢◌, refl, sym, ap, ◌∙◌, inl, inr, true, List, [], ◌∷◌, ◌++◌, append-nil,
  append_assoc, arith, take, drop, length, Bool-cases, concat, take-append, drop-append,
  drop-append_of_le, take_cong, drop-drop, drop_all, drop_cong, leb, ◌-◌, take-append-drop,
  take_all, All,
}
use os2_labs.Cache.Entry.{Entry, ReadResult, got, failed, blocked, cache_entry_read, entry_complete}
use os2_labs.Cache.Entry.Append.{IsSized}
use os2_labs.Cache.Entry.Wait.{
  Seen, ends_wait, cache_entry_read-got, cache_entry_read-end, cache_entry_read-returns,
}
use os2_labs.Proxy.Send.{SendEvent, send_buffer, send_buffer_lem}
use os2_labs.Proxy.Cached.{
  Reading, Cached, served, not_served, waits, buffer_len, handle_cached_request,
}

abbrev pub IsPrefix : List ℕ → List ℕ → Type 0
IsPrefix xs ys = (zs : List ℕ) × (xs ++ zs ≡ ys)

-- At each moment that the read looks at its entry, the entry holds a first part of `file`, all of it
-- once it is complete.
pub record Reads (file : List ℕ) (r : Reading) : Type 0 where
  pub sized : (e : Entry) → Seen r.entry r.wakes e → IsSized e
  pub part : (e : Entry) → Seen r.entry r.wakes e → IsPrefix (concat e.chunks) file
  pub whole :
      (e : Entry) → Seen r.entry r.wakes e → e.state ≡ entry_complete → concat e.chunks ≡ file
  pub times_out : ends_wait r.wakes ≡ true

drop-append_any :
    (n : ℕ) (xs ys : List ℕ) → drop n (xs ++ ys) ≡ drop n xs ++ drop (n - length xs) ys
drop-append_any n xs ys = elim (Bool-cases (leb n (length xs))) [
  | inl inside ↦
      drop-append_of_le n xs ys (ground arith)
      ∙ ap (λ r. drop n xs ++ r) (drop_cong {m = 0} ys (ground arith))
  | inr past ↦
      drop-append n xs ys (ground arith)
      ∙ ap (λ r. r ++ drop (n - length xs) ys) (sym (drop_all n xs (ground arith)))
]

-- What the read copies is a first part of what `file` has from the offset on.
copied :
    (n offset : ℕ) (xs file : List ℕ)
    → IsPrefix xs file
    → IsPrefix (take n (drop offset xs)) (drop offset file)
copied n offset xs file (zs, e) = (
  drop n (drop offset xs) ++ drop (offset - length xs) zs,
  sym (
        append_assoc (take n (drop offset xs)) (drop n (drop offset xs))
          (drop (offset - length xs) zs))
      ∙ ap (λ r. r ++ drop (offset - length xs) zs) (take-append-drop n (drop offset xs))
      ∙ sym (drop-append_any offset xs zs)
      ∙ ap (drop offset) e,
)

-- The client has got `out` and the file from the offset on, or a first part of that.
abbrev pub Serves : (file : List ℕ) (offset : ℕ) (out : List ℕ) → Cached → Type 0
Serves file offset out (served out' sends) = out' ≡ out ++ drop offset file
Serves file offset out (not_served out' sends) = (k : ℕ) × (out' ≡ out ++ take k (drop offset file))
Serves file offset out waits = ¬ Unit

take-of_prefix : (k : ℕ) (xs zs : List ℕ) → k < length xs → take k xs ≡ take k (xs ++ zs)
take-of_prefix k xs zs h =
    sym (append-nil (take k xs))
    ∙ ap (λ r. take k xs ++ r) (take_cong {m = 0} zs (omega arith))
    ∙ sym (take-append k xs zs)

drop-of_prefix : (xs zs : List ℕ) → drop (length xs) (xs ++ zs) ≡ zs
drop-of_prefix xs zs =
    drop-append (length xs) xs zs (omega arith) ∙ drop_cong {n = 0} zs (omega arith)

-- The bytes `bytes`, which stand next in the file, have been sent: the rest is served from behind them.
next_read :
    (file bytes out : List ℕ) (offset : ℕ) (c : Cached)
    → IsPrefix bytes (drop offset file)
    → Serves file (offset + length bytes) (out ++ bytes) c
    → Serves file offset out c
next_read file bytes out offset c (zs, e) h = from c h
  where
    behind : drop (offset + length bytes) file ≡ zs
    behind =
        sym (drop-drop (length bytes) offset file)
        ∙ ap (drop (length bytes)) (sym e)
        ∙ drop-of_prefix bytes zs

    from :
        (c : Cached)
        → Serves file (offset + length bytes) (out ++ bytes) c
        → Serves file offset out c
    from (served out' sends) h =
        h
        ∙ append_assoc out bytes (drop (offset + length bytes) file)
        ∙ ap (λ r. out ++ (bytes ++ r)) behind
        ∙ ap (λ r. out ++ r) e
    from (not_served out' sends) (k, h) = (
      length bytes + k,
      h
          ∙ append_assoc out bytes (take k (drop (offset + length bytes) file))
          ∙ ap (λ r. out ++ (bytes ++ take k r)) behind
          ∙ ap (λ r. out ++ r) (more k)
          ∙ ap (λ r. out ++ take (length bytes + k) r) e,
    )
      where
        more : (k : ℕ) → bytes ++ take k zs ≡ take (length bytes + k) (bytes ++ zs)
        more k = sym (
            take-append (length bytes + k) bytes zs
            ∙ ap (λ r. r ++ take (length bytes + k - length bytes) zs)
                (take_all (length bytes + k) bytes (omega arith))
            ∙ ap (λ r. bytes ++ r) (take_cong zs (omega arith)))
    from waits h = h

-- One round, where the rest of the loop serves what it has to.
round-Serves :
    (file : List ℕ) (r : Reading) (rs : List Reading) (sends : List SendEvent) (offset : ℕ)
    (out : List ℕ)
    → Reads file r
    → ((sends' : List SendEvent) (offset' : ℕ) (out' : List ℕ)
        → Serves file offset' out' (handle_cached_request rs sends' offset' out'))
    → Serves file offset out (handle_cached_request (r ∷ rs) sends offset out)
unfolding handle_cached_request
round-Serves file r rs sends offset out reads rest =
    go (cache_entry_read r.entry r.wakes offset buffer_len) refl
  where
    all_read :
        (e : Entry)
        → length (concat e.chunks) ≤ offset
        → concat e.chunks ≡ file
        → drop offset file ≡ []
    all_read e past same = drop_all offset file (rw (← same) past)

    prefix :
        {bytes : List ℕ}
        → cache_entry_read r.entry r.wakes offset buffer_len ≡ got bytes
        → IsPrefix bytes (drop offset file)
    prefix h =
        let (e, seen, test, alive, same) =
          cache_entry_read-got r.entry r.wakes offset buffer_len h in
        rw same (copied buffer_len offset (concat e.chunks) file (reads.part e seen))

    go :
        (res : ReadResult)
        → cache_entry_read r.entry r.wakes offset buffer_len ≡ res
        → Serves file offset out (handle_cached_request (r ∷ rs) sends offset out)
    go blocked h =
        elim (cache_entry_read-returns r.entry r.wakes offset buffer_len reads.times_out) [
          | inl ko ↦ cc
          | inr (bytes, ok) ↦ cc
        ]
    go failed h = rw (h, handle_cached_request) (0, sym (append-nil out))
    go (got []) h =
        let (e, seen, state, past) =
          cache_entry_read-end r.entry r.wakes offset buffer_len reads.sized (omega arith) h in
        rw (h, handle_cached_request)
          (sym (append-nil out)
            ∙ ap (λ r. out ++ r) (sym (all_read e past (reads.whole e seen state))))
    go (got (b ∷ bytes)) h = elim (send_buffer_lem sends (b ∷ bytes) out) [
      | inl (ok, all) ↦
          rw (h, handle_cached_request)
            (rw ok (next_read file (b ∷ bytes) out offset _ (prefix h) (rw all (rest _ _ _))))
      | inr (ko, (k, part, some)) ↦
          let (zs, e) = prefix h in
          rw (h, handle_cached_request)
            (rw ko (
              k,
              some
                  ∙ ap (λ r. out ++ r) (take-of_prefix k (b ∷ bytes) zs part)
                  ∙ ap (λ r. out ++ take k r) e,
            ))
    ]

-- While other threads extend and complete the entry of a file, and each wait for it ends: a request that
-- is served from the cache gets the file, and one that is not gets a first part of it.
pub handle_cached_request-Serves :
    (file : List ℕ) (readings : List Reading) (sends : List SendEvent) (offset : ℕ) (out : List ℕ)
    → All (Reads file) readings
    → Serves file offset out (handle_cached_request readings sends offset out)
handle_cached_request-Serves file [] sends offset out all =
    unfold handle_cached_request in (0, sym (append-nil out))
handle_cached_request-Serves file (r ∷ rs) sends offset out all =
    round-Serves file r rs sends offset out all.0
      (λ sends' offset' out'. handle_cached_request-Serves file rs sends' offset' out' all.1)

-- Where each wait ends, each read returns, and so does the loop.
pub handle_cached_request-returns :
    (readings : List Reading) (sends : List SendEvent) (offset : ℕ) (out : List ℕ)
    → All (λ (r : Reading). ends_wait r.wakes ≡ true) readings
    → handle_cached_request readings sends offset out ≢ waits
unfolding handle_cached_request
handle_cached_request-returns [] sends offset out over h = cc
handle_cached_request-returns (r ∷ rs) sends offset out over h =
    elim (cache_entry_read-returns r.entry r.wakes offset buffer_len over.0) [
      | inl ko ↦ cc (rw (ko, handle_cached_request) at h)
      | inr ([], ok) ↦ cc (rw (ok, handle_cached_request) at h)
      | inr (b ∷ bytes, ok) ↦ elim (Bool-cases (send_buffer sends (b ∷ bytes) out).ok) [
        | inl all ↦
            handle_cached_request-returns rs _ _ _ over.1
              (rw all at (rw (ok, handle_cached_request) at h))
        | inr part ↦ cc (rw part at (rw (ok, handle_cached_request) at h))
      ]
    ]
