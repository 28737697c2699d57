-- ===== src/Proxy/Connect.antt =====
-- caching_http_proxy/proxy/proxy.c: `resolve_and_connect`.
use os2_labs.Common.{
  ◌≡◌, refl, sym, ap, ◌⊎◌, inl, inr, Option, none, some, List, [], ◌∷◌, ◌++◌, append-nil,
  append_assoc, ℤ, negsuc,
}

-- What happens at one of the addresses that `getaddrinfo` gives: `socket` fails, or gives a descriptor
-- with which `connect` fails or succeeds.
pub data Attempt : Type 0 where
  no_socket : Attempt
  refused : (sockfd : ℤ) → Attempt
  connected : (sockfd : ℤ) → Attempt

pub record Connected : Type 0 where
  pub result : ℤ
  pub closed : List ℤ

-- The loop over the addresses, with the descriptor of the last attempt and those that are closed; the
-- one that is left when the list ends is closed as well.
unfoldable pub connect_loop : List Attempt → (sockfd : ℤ) → (closed : List ℤ) → Connected
connect_loop [] sockfd closed = record { result = negsuc 0; closed = closed ++ sockfd ∷ [] }
connect_loop (no_socket ∷ rp) sockfd closed = connect_loop rp (negsuc 0) closed
connect_loop (refused fd ∷ rp) sockfd closed = connect_loop rp fd (closed ++ fd ∷ [])
connect_loop (connected fd ∷ rp) sockfd closed = record { result = fd; closed = closed }

-- `none`: `getaddrinfo` fails.
unfoldable pub resolve_and_connect : Option (List Attempt) → Connected
unfolding connect_loop
resolve_and_connect none = record { result = negsuc 0; closed = [] }
resolve_and_connect (some res) = connect_loop res (negsuc 0) []

-- The descriptors of the attempts that come before one that succeeds.
abbrev pub refused_fds : List Attempt → List ℤ
refused_fds [] = []
refused_fds (no_socket ∷ rp) = refused_fds rp
refused_fds (refused fd ∷ rp) = fd ∷ refused_fds rp
refused_fds (connected fd ∷ rp) = []

-- The descriptor of the attempt that succeeds first.
abbrev pub first_connected : List Attempt → Option ℤ
first_connected [] = none
first_connected (no_socket ∷ rp) = first_connected rp
first_connected (refused fd ∷ rp) = first_connected rp
first_connected (connected fd ∷ rp) = some fd

-- The descriptor that the last attempt leaves in `sockfd`.
abbrev pub last_fd : ℤ → List Attempt → ℤ
last_fd sockfd [] = sockfd
last_fd sockfd (no_socket ∷ rp) = last_fd (negsuc 0) rp
last_fd sockfd (refused fd ∷ rp) = last_fd fd rp
last_fd sockfd (connected fd ∷ rp) = last_fd fd rp

connect_loop_lem :
    (res : List Attempt) (sockfd : ℤ) (closed : List ℤ)
    → ((fd : ℤ) × (first_connected res ≡ some fd)
        × ((connect_loop res sockfd closed).result ≡ fd)
        × ((connect_loop res sockfd closed).closed ≡ closed ++ refused_fds res))
      ⊎ ((first_connected res ≡ none)
          × ((connect_loop res sockfd closed).result ≡ negsuc 0)
          × ((connect_loop res sockfd closed).closed
              ≡ closed ++ refused_fds res ++ last_fd sockfd res ∷ []))
unfolding connect_loop
connect_loop_lem [] sockfd closed =
    inr (refl, refl, ap (λ r. r ++ sockfd ∷ []) (sym (append-nil closed)))
connect_loop_lem (no_socket ∷ rp) sockfd closed = connect_loop_lem rp (negsuc 0) closed
connect_loop_lem (refused fd ∷ rp) sockfd closed =
    rw (← append_assoc closed (fd ∷ []) (refused_fds rp))
      (connect_loop_lem rp fd (closed ++ fd ∷ []))
connect_loop_lem (connected fd ∷ rp) sockfd closed = inl (fd, refl, refl, sym (append-nil closed))

-- The result is the descriptor of the first attempt that succeeds, and each descriptor with which an
-- attempt before it failed is closed once. If none succeeds, -1 is returned and each descriptor of a
-- failed attempt is closed, but what the last attempt left in `sockfd`, such a descriptor or -1, is
-- closed once more.
pub resolve_and_connect-closed :
    (res : List Attempt)
    → ((fd : ℤ) × (first_connected res ≡ some fd)
        × ((resolve_and_connect (some res)).result ≡ fd)
        × ((resolve_and_connect (some res)).closed ≡ refused_fds res))
      ⊎ ((first_connected res ≡ none)
          × ((resolve_and_connect (some res)).result ≡ negsuc 0)
          × ((resolve_and_connect (some res)).closed
              ≡ refused_fds res ++ last_fd (negsuc 0) res ∷ []))
unfolding resolve_and_connect
resolve_and_connect-closed res = connect_loop_lem res (negsuc 0) []
