-- ===== src/Threadpool/Add.antt =====
-- `add_client_to_worker` keeps a worker within its arrays.
use os2_labs.Common.{
  ℕ, ◌+◌, ◌-◌, ◌≤◌, ◌≡◌, ◌≢◌, refl, ap, ◌∙◌, ◌⊎◌, inl, inr, true, false, Bool-cases, none, some,
  List, [], ◌∷◌, ◌++◌, arith, length, length-append, length-take, take, take_all, ℤ, pos, negsuc,
  has, IsNodup, ◌==◌, ◌||◌, ==_iff, ==_refl, leb→le, ne_of_==, leb, take-append, take_cong,
  append-nil,
}
use os2_labs.Threadpool.{
  Worker, Conns, Ptr, PollFd, no_events, set_fd, add_client_to_worker, max_clients_per_thread,
}

-- The two arrays are `nfds` cells long, and within their capacity; the connections are distinct and
-- allocated: the worker is consistent. What the cells of `fds` hold is left open here.
pub record IsWorker (s : Conns) (w : Worker) : Type 0 where
  pub fds : length w.fds ≡ w.nfds
  pub connections : length w.connections ≡ w.nfds
  pub capacity : w.nfds ≤ max_clients_per_thread
  pub distinct : IsNodup w.connections
  pub live : (p : Ptr) → has p w.connections ≡ true → (fd : ℤ) × (s.sock_fd p ≡ some fd)

take_cut :
    (n : ℕ) (xs : List PollFd) (y : PollFd) → length xs ≡ n → take n (take n xs ++ y ∷ []) ≡ xs
take_cut n xs y e =
    rw (take_all n xs (omega arith), take-append n xs (y ∷ []), take_all n xs (omega arith))
      (ap (λ (r : List PollFd). xs ++ r) (take_cong {n = 0} (y ∷ []) (omega arith)) ∙ append-nil xs)

has-snoc : (a x : Ptr) (xs : List Ptr) → has a (xs ++ x ∷ []) ≡ (has a xs || a == x)
has-snoc a x [] = ground arith
has-snoc a x (y ∷ xs) = ground (arith, has-snoc a x xs)

IsNodup-snoc : (x : Ptr) (xs : List Ptr) → IsNodup xs → has x xs ≡ false → IsNodup (xs ++ x ∷ [])
IsNodup-snoc x [] d out = (refl, tt)
IsNodup-snoc x (y ∷ xs) (y_out, d) out =
    (ground (arith, has-snoc y x xs), IsNodup-snoc x xs d (ground arith))

module _ (s : Conns) (w : Worker) (client_fd : ℤ) (is : IsWorker s w) where
  cell : PollFd
  cell = record { fd = client_fd; revents = no_events }

  added : Ptr → Worker
  added fresh = record w {
    nfds = w.nfds + 1;
    fds = take w.nfds w.fds ++ cell ∷ [];
    connections = take w.nfds w.connections ++ fresh ∷ [];
  }

  added-connections : (fresh : Ptr) → (added fresh).connections ≡ w.connections ++ fresh ∷ []
  unfolding added
  added-connections fresh =
      ap (λ r. r ++ fresh ∷ []) (take_all w.nfds w.connections (omega (arith, is.connections)))

  added-live :
      (fresh p : Ptr)
      → has p (w.connections ++ fresh ∷ []) ≡ true
      → (fd : ℤ) × ((set_fd s fresh (some client_fd)).sock_fd p ≡ some fd)
  added-live fresh p m = elim (Bool-cases (p == fresh)) [
    | inl new ↦ (client_fd, rw new)
    | inr old ↦ rw old (is.live p (ground (arith, has-snoc p fresh w.connections)))
  ]

  added-IsWorker :
      (fresh : Ptr)
      → leb max_clients_per_thread w.nfds ≡ false
      → s.sock_fd fresh ≡ none
      → IsWorker (set_fd s fresh (some client_fd)) (added fresh)
  added-IsWorker fresh room free =
      let out : has fresh w.connections ≡ false = elim (Bool-cases (has fresh w.connections)) [
        | inl old ↦ let (fd, here) = is.live fresh old in cc
        | inr new ↦ new
      ] in
      record {
        fds =
            unfold added in
            omega (
              arith,
              is.fds,
              length-append (take w.nfds w.fds) (cell ∷ []),
              length-take w.nfds w.fds,
            );
        connections = rw added-connections (
            unfold added in
            omega (arith, is.connections, length-append w.connections (fresh ∷ [])));
        capacity = unfold added in ground (arith, is.capacity);
        distinct = rw added-connections (IsNodup-snoc fresh w.connections is.distinct out);
        live = λ p. rw added-connections (added-live fresh p);
      }

  -- For a consistent worker, and an address for the connection that is not in use unless it is
  -- null: if the worker is full or the address is null, the client is refused with -1 and the
  -- worker stays as it was; else 0 is returned, the client is the last of the worker, and the
  -- worker is consistent and within its capacity.
  pub add_client-IsWorker :
      (fresh : Ptr)
      → (fresh ≢ 0 → s.sock_fd fresh ≡ none)
      → ((((max_clients_per_thread ≤ w.nfds) ⊎ (fresh ≡ 0)))
          × (add_client_to_worker fresh s w client_fd ≡ (s, w, negsuc 0)))
        ⊎ ((s' : Conns) × (w' : Worker) × (add_client_to_worker fresh s w client_fd
              ≡ (s', w', pos 0))
            × IsWorker s' w'
            × (w'.connections ≡ w.connections ++ fresh ∷ [])
            × (w'.nfds ≡ w.nfds + 1)
            × (s'.sock_fd fresh ≡ some client_fd))
  unfolding add_client_to_worker added cell
  add_client-IsWorker fresh free = elim (Bool-cases (leb max_clients_per_thread w.nfds)) [
    | inl full ↦ inl (inl (leb→le max_clients_per_thread w.nfds full), rw full)
    | inr room ↦ elim (Bool-cases (fresh == 0)) [
      | inl no_memory ↦
          let back : w.nfds + 1 - 1 ≡ w.nfds = omega arith in
          inl (
            inr ((==_iff fresh 0).0 no_memory),
            rw (room, no_memory, take_cut w.nfds w.fds cell is.fds, back),
          )
      | inr memory ↦
          let ne : fresh ≢ 0 = ne_of_== fresh 0 memory in
          inr (
            set_fd s fresh (some client_fd),
            added fresh,
            rw (room, memory),
            added-IsWorker fresh room (free ne),
            added-connections fresh,
            refl,
            rw (==_refl fresh),
          )
    ]
  ]
