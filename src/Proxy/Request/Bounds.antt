-- ===== src/Proxy/Request/Bounds.antt =====
-- The reading and the checking of a request, and the head of a response: what is found, and where.
use os2_labs.Common.{
  ◌⊎◌, ℕ, suc, ◌-◌, ◌≤◌, ◌<◌, ◌≡◌, refl, inl, inr, true, some, List, [], ◌∷◌, ◌++◌, arith, ◌==◌,
  leb, Bool-cases, Option-cases, length, take, length-append, length-take,
}
use os2_labs.Proxy.Text.{c_str, starts_with, at_end, header_end}
use os2_labs.Proxy.Headers.{Header, find_header}
use os2_labs.Proxy.Session.{RecvEvent, received, recv_interrupted, recv_failed}
use os2_labs.Proxy.Relay.{buffer_size}
use os2_labs.Proxy.Request.{
  Request, ParsedRequest, parsed, malformed, incomplete, got_request, read_request, accepted,
  rejected, check_request, host, max_hostname_len, max_url_name_len, head, read_head,
}

starts_with-le : (cs bs : List ℕ) → starts_with cs bs ≡ true → length bs ≤ length cs
unfolding starts_with
starts_with-le cs [] h = omega arith
starts_with-le [] (b ∷ bs) h = cc
starts_with-le (a ∷ cs) (b ∷ bs) h = ground (arith, starts_with-le cs bs)

-- The end of the head lies in the text.
pub header_end-le : (cs : List ℕ) (n : ℕ) → header_end cs ≡ some n → n ≤ length cs
unfolding header_end
header_end-le [] n h = cc
header_end-le (c ∷ cs) n h = elim (Bool-cases (c == 0)) [
  | inl nul ↦ cc (rw nul at h)
  | inr char ↦ elim (Bool-cases (at_end (c ∷ cs))) [
    | inl here ↦
        let same : 4 ≡ n = cc (rw (char, here) at h) in
        let long = starts_with-le (c ∷ cs) (13 ∷ 10 ∷ 13 ∷ 10 ∷ []) (unfold at_end in here) in
        omega arith
    | inr further ↦ elim (Option-cases (header_end cs)) [
      | inl gone ↦ cc (rw (char, further, gone) at h)
      | inr (m, there) ↦
          let same : suc m ≡ n = cc (rw (char, further, there) at h) in
          let le = header_end-le cs m there in omega arith
    ]
  ]
]

-- The head lies in the buffer, which has room behind it for a zero byte.
pub read_head-le :
    (es : List RecvEvent) (buffer : List ℕ) {buffer' : List ℕ} {header_len : ℕ}
    {es' : List RecvEvent}
    → read_head es buffer ≡ head buffer' header_len es'
    → (header_len ≤ length buffer') × (length buffer' < buffer_size)
unfolding read_head
read_head-le [] buffer h = cc
read_head-le (recv_failed ∷ es) buffer h = cc
read_head-le (recv_interrupted ∷ es) buffer h = cc
read_head-le (received [] ∷ es) buffer h = cc
read_head-le (received (b ∷ bs) ∷ es) buffer {buffer'} {header_len} h =
    elim (Bool-cases (leb (buffer_size - 1) (length buffer))) [
      | inl full ↦ cc (rw full at h)
      | inr room ↦ elim (Option-cases (header_end next)) [
        | inl more ↦ read_head-le es next (rw (room, more) at h)
        | inr (n, there) ↦
            let same : head next n es ≡ head buffer' header_len _ = rw (room, there) at h in
            let same_buffer : next ≡ buffer' = cc in
            let same_len : n ≡ header_len = cc in
            let le = header_end-le next n there in
            rw (← same_buffer, ← same_len) (le, fits (ground arith))
      ]
    ]
  where
    next : List ℕ
    next = buffer ++ take (buffer_size - length buffer - 1) (b ∷ bs)

    fits : length buffer < buffer_size - 1 → length next < buffer_size
    fits room = omega (
      arith,
      length-append buffer (take (buffer_size - length buffer - 1) (b ∷ bs)),
      length-take (buffer_size - length buffer - 1) (b ∷ bs),
    )

pub c_str-le : (cs : List ℕ) → length (c_str cs) ≤ length cs
unfolding c_str
c_str-le [] = omega arith
c_str-le (c ∷ cs) = ground (arith, c_str-le cs)

-- With a host header and names that fit, a request is rejected or accepted.
pub check_request-fits :
    (r : Request) (h : Header)
    → find_header r.headers host ≡ some h
    → length h.value < max_hostname_len
    → length r.path < max_url_name_len
    → (check_request r ≡ rejected) ⊎ (check_request r ≡ accepted (c_str h.value) (c_str r.path))
unfolding check_request
check_request-fits r h found name_fits path_fits = rw found (ground arith)

ParsedRequest-cases :
    (p : ParsedRequest) → ((r : Request) × (p ≡ parsed r)) ⊎ (p ≡ malformed) ⊎ (p ≡ incomplete)
ParsedRequest-cases (parsed r) = inl (r, refl)
ParsedRequest-cases malformed = inr (inl refl)
ParsedRequest-cases incomplete = inr (inr refl)

-- A request that is read is one that the parser gave.
pub read_request-parsed :
    (phr_parse_request : List ℕ → ℕ → ParsedRequest) (es : List RecvEvent) (buffer : List ℕ)
    {r : Request} {buffer' : List ℕ}
    → read_request phr_parse_request es buffer ≡ got_request r buffer'
    → (n : ℕ) × (phr_parse_request buffer' n ≡ parsed r)
unfolding read_request
read_request-parsed parse [] buffer h = cc
read_request-parsed parse (recv_failed ∷ es) buffer h = cc
read_request-parsed parse (recv_interrupted ∷ es) buffer h = read_request-parsed parse es buffer h
read_request-parsed parse (received [] ∷ es) buffer h = cc
read_request-parsed parse (received (b ∷ bs) ∷ es) buffer {r} {buffer'} h =
    elim (ParsedRequest-cases (parse next (length buffer))) [
      | inl (r₂, it) ↦
          let same : got_request r₂ next ≡ got_request r buffer' = rw (it, read_request) at h in
          let same_buffer : next ≡ buffer' = cc in
          let same_request : r₂ ≡ r = cc in (length buffer, rw (← same_buffer, ← same_request) it)
      | inr (inl bad) ↦ cc (rw (bad, read_request) at h)
      | inr (inr more) ↦ elim (Bool-cases (length next == buffer_size)) [
        | inl full ↦ cc (rw full at (rw (more, read_request) at h))
        | inr room ↦ read_request-parsed parse es next (rw room at (rw (more, read_request) at h))
      ]
    ]
  where
    next : List ℕ
    next = buffer ++ take (buffer_size - length buffer) (b ∷ bs)
