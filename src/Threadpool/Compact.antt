-- ===== src/Threadpool/Compact.antt =====
-- The clean-up loop of `client_worker_main` keeps exactly the open connections, in order.
use os2_labs.Common.{
  ℕ, zero, suc, ◌+◌, ◌-◌, ◌≤◌, ◌≡◌, refl, sym, ap, ◌∙◌, inl, inr, Bool, true, false, not, ◌&&◌,
  Option, Bool-cases, none, some, List, [], ◌∷◌, ◌++◌, arith, ltb, lt→ltb, if◌then◌else◌, length,
  length-append, ℤ, is_neg, has, IsNodup, ◌==◌, ne→==, ==_iff, ==_refl, get_elem?, append_assoc,
}
use os2_labs.Threadpool.{Worker, Conns, Ptr, PollFd, set_fd, compact, remove_at}

abbrev pub open_fd : Option ℤ → Bool
open_fd none = false
open_fd (some fd) = not (is_neg fd)

-- The connections that are open, and their cells of `fds`.
unfoldable pub keep : (Ptr → Option ℤ) → List Ptr → List Ptr
keep h [] = []
keep h (p ∷ ps) = if open_fd (h p) then p ∷ keep h ps else keep h ps

unfoldable pub keep_fds : (Ptr → Option ℤ) → List Ptr → List PollFd → List PollFd
keep_fds h [] fs = []
keep_fds h (p ∷ ps) [] = []
keep_fds h (p ∷ ps) (f ∷ fs) = if open_fd (h p) then f ∷ keep_fds h ps fs else keep_fds h ps fs

-- `(s', w')` is `(s, w)` after the loop has gone over `rest`, which stands behind `done`.
pub record Compacted (s : Conns) (w : Worker) (done rest : List Ptr)
    (done_fds rest_fds : List PollFd) (s' : Conns) (w' : Worker) : Type 0 where
  pub connections : w'.connections ≡ done ++ keep s.sock_fd rest
  pub fds : w'.fds ≡ done_fds ++ keep_fds s.sock_fd rest rest_fds
  pub nfds : w'.nfds ≡ length (done ++ keep s.sock_fd rest)
  pub heap :
      (q : Ptr)
      → s'.sock_fd q ≡ (if has q rest && not (open_fd (s.sock_fd q)) then none else s.sock_fd q)
  pub is_shutdown : w'.is_shutdown ≡ w.is_shutdown

get_elem?-append {ℓ} :
    {A : Type ℓ} (xs : List A) (y : A) (ys : List A) → get_elem? (xs ++ y ∷ ys) (length xs) ≡ some y
get_elem?-append [] y ys = refl
get_elem?-append (x ∷ xs) y ys = get_elem?-append xs y ys

remove_at-append {ℓ} :
    {A : Type ℓ} (xs : List A) (y : A) (ys : List A)
    → remove_at (length xs) (xs ++ y ∷ ys) ≡ xs ++ ys
unfolding remove_at
remove_at-append [] y ys = refl
remove_at-append (x ∷ xs) y ys = ap (λ r. x ∷ r) (remove_at-append xs y ys)

-- A connection that is not in the list does not matter to it.
keep-frame :
    (h : Ptr → Option ℤ) (p : Ptr) (ps : List Ptr)
    → has p ps ≡ false
    → keep (λ q. if q == p then none else h q) ps ≡ keep h ps
unfolding keep
keep-frame h p [] out = refl
keep-frame h p (x ∷ ps) out = rw (ne x out, keep-frame h p ps (ground arith))
  where
    ne : (x : Ptr) → has p (x ∷ ps) ≡ false → (x == p) ≡ false
    ne x out = ground arith

keep_fds-frame :
    (h : Ptr → Option ℤ) (p : Ptr) (ps : List Ptr) (fs : List PollFd)
    → has p ps ≡ false
    → keep_fds (λ q. if q == p then none else h q) ps fs ≡ keep_fds h ps fs
unfolding keep_fds
keep_fds-frame h p [] fs out = refl
keep_fds-frame h p (x ∷ ps) [] out = refl
keep_fds-frame h p (x ∷ ps) (f ∷ fs) out = rw (ne x out, keep_fds-frame h p ps fs (ground arith))
  where
    ne : (x : Ptr) → has p (x ∷ ps) ≡ false → (x == p) ≡ false
    ne x out = ground arith

abbrev removed : Worker → ℕ → Worker
removed w i = record w {
  fds = remove_at i w.fds;
  connections = remove_at i w.connections;
  nfds = w.nfds - 1;
}

compact-end :
    (fuel i : ℕ) (s : Conns) (w : Worker) → ltb i w.nfds ≡ false → compact fuel i s w ≡ some (s, w)
unfolding compact
compact-end zero i s w stop = rw stop
compact-end (suc fuel) i s w stop = rw stop

module _ (fuel i : ℕ) (s : Conns) (w : Worker) where
  compact-open :
      (p : Ptr) (fd : ℤ)
      → ltb i w.nfds ≡ true
      → get_elem? w.connections i ≡ some p
      → s.sock_fd p ≡ some fd
      → is_neg fd ≡ false
      → compact (suc fuel) i s w ≡ compact fuel (i + 1) s w
  unfolding compact
  compact-open p fd more at_i here up = rw (more, at_i, compact) (rw here (rw up))

  compact-closed :
      (p : Ptr) (fd : ℤ)
      → ltb i w.nfds ≡ true
      → get_elem? w.connections i ≡ some p
      → s.sock_fd p ≡ some fd
      → is_neg fd ≡ true
      → compact (suc fuel) i s w ≡ compact fuel i (set_fd s p none) (removed w i)
  unfolding compact
  compact-closed p fd more at_i here down = rw (more, at_i, compact) (rw here (rw down))

-- The worker's arrays at index `i` of the loop: `done` stands before it and `rest` from it on.
pub record At (i : ℕ) (s : Conns) (w : Worker) (done rest : List Ptr)
    (done_fds rest_fds : List PollFd) : Type 0 where
  pub connections : w.connections ≡ done ++ rest
  pub fds : w.fds ≡ done_fds ++ rest_fds
  pub index : i ≡ length done
  pub fds_index : i ≡ length done_fds
  pub fds_rest : length rest_fds ≡ length rest
  pub nfds : w.nfds ≡ i + length rest
  pub distinct : IsNodup rest
  pub live : (p : Ptr) → has p rest ≡ true → (fd : ℤ) × (s.sock_fd p ≡ some fd)

module _ (i : ℕ) (s : Conns) (w : Worker) (done : List Ptr) (p : Ptr) (ps : List Ptr)
    (done_fds : List PollFd) (f : PollFd) (fs : List PollFd) (fd : ℤ)
    (a : At i s w done (p ∷ ps) done_fds (f ∷ fs)) (here : s.sock_fd p ≡ some fd) where
  At-open : At (i + 1) s w (done ++ p ∷ []) ps (done_fds ++ f ∷ []) fs
  At-open = record {
    connections = a.connections ∙ sym (append_assoc done (p ∷ []) ps);
    fds = a.fds ∙ sym (append_assoc done_fds (f ∷ []) fs);
    index = omega (arith, a.index, length-append done (p ∷ []));
    fds_index = omega (arith, a.fds_index, length-append done_fds (f ∷ []));
    fds_rest = omega (arith, a.fds_rest);
    nfds = omega (arith, a.nfds);
    distinct = a.distinct.1;
    live = λ q m. a.live q (ground arith);
  }

  At-closed : At i (set_fd s p none) (removed w i) done ps done_fds fs
  At-closed = record {
    connections = rw (a.connections, a.index) (remove_at-append done p ps);
    fds = rw (a.fds, a.fds_index) (remove_at-append done_fds f fs);
    index = a.index;
    fds_index = a.fds_index;
    fds_rest = omega (arith, a.fds_rest);
    nfds = omega (arith, a.nfds);
    distinct = a.distinct.1;
    live = λ q m. rw (other q m) (a.live q (ground arith));
  }
    where
      other : (q : Ptr) → has q ps ≡ true → (q == p) ≡ false
      other q m = ne→== q p (λ e. cc (a.distinct.0))

  cell_at : (q : Ptr) → (q == p) ≡ true → s.sock_fd q ≡ some fd
  cell_at q same = ap s.sock_fd ((==_iff q p).0 same) ∙ here

  out_at : (q : Ptr) → (q == p) ≡ true → has q ps ≡ false
  out_at q same = ap (λ y. has y ps) ((==_iff q p).0 same) ∙ a.distinct.0

  Compacted-open :
      (s' : Conns) (w' : Worker)
      → is_neg fd ≡ false
      → Compacted s w (done ++ p ∷ []) ps (done_fds ++ f ∷ []) fs s' w'
      → Compacted s w done (p ∷ ps) done_fds (f ∷ fs) s' w'
  unfolding keep keep_fds
  Compacted-open s' w' up c = record {
    connections = rw (here, up) (c.connections ∙ append_assoc done (p ∷ []) (keep s.sock_fd ps));
    fds = rw (here, up) (c.fds ∙ append_assoc done_fds (f ∷ []) (keep_fds s.sock_fd ps fs));
    nfds = rw (here, up) (c.nfds ∙ ap length (append_assoc done (p ∷ []) (keep s.sock_fd ps)));
    heap = λ q. elim (Bool-cases (q == p)) [
      | inl same ↦ rw (same, cell_at q same, up) (c.heap q ∙ rw (out_at q same) (cell_at q same))
      | inr other ↦ rw other (c.heap q)
    ];
    is_shutdown = c.is_shutdown;
  }

  Compacted-closed :
      (s' : Conns) (w' : Worker)
      → is_neg fd ≡ true
      → Compacted (set_fd s p none) (removed w i) done ps done_fds fs s' w'
      → Compacted s w done (p ∷ ps) done_fds (f ∷ fs) s' w'
  unfolding keep keep_fds
  Compacted-closed s' w' down c = record {
    connections =
        rw (here, down)
          (c.connections ∙ ap (λ r. done ++ r) (keep-frame s.sock_fd p ps a.distinct.0));
    fds =
        rw (here, down)
          (c.fds ∙ ap (λ r. done_fds ++ r) (keep_fds-frame s.sock_fd p ps fs a.distinct.0));
    nfds =
        rw (here, down)
          (c.nfds ∙ ap (λ r. length (done ++ r)) (keep-frame s.sock_fd p ps a.distinct.0));
    heap = λ q. elim (Bool-cases (q == p)) [
      | inl same ↦ rw (same, cell_at q same, down) (c.heap q ∙ rw (out_at q same, same))
      | inr other ↦ rw other (rw other at (c.heap q))
    ];
    is_shutdown = c.is_shutdown;
  }

-- With fuel for the cells that are left, the loop ends, and has kept exactly the open ones of them.
pub compact-Compacted :
    (fuel i : ℕ) (s : Conns) (w : Worker) (done rest : List Ptr) (done_fds rest_fds : List PollFd)
    → At i s w done rest done_fds rest_fds
    → length rest ≤ fuel
    → (r : Conns × Worker) × (compact fuel i s w ≡ some r)
      × Compacted s w done rest done_fds rest_fds r.0 r.1
unfolding keep keep_fds
compact-Compacted fuel i s w done [] done_fds [] a enough = (
  (s, w),
  compact-end fuel i s w (ground (arith, a.nfds)),
  record {
    connections = a.connections;
    fds = a.fds;
    nfds = ground (arith, a.nfds, a.index, length-append done []);
    heap = λ q. refl;
    is_shutdown = refl;
  },
)
compact-Compacted fuel i s w done [] done_fds (f ∷ fs) a enough = absurd (omega (arith, a.fds_rest))
compact-Compacted fuel i s w done (p ∷ ps) done_fds [] a enough = absurd (omega (arith, a.fds_rest))
compact-Compacted zero i s w done (p ∷ ps) done_fds (f ∷ fs) a enough = absurd (omega arith)
compact-Compacted (suc fuel) i s w done (p ∷ ps) done_fds (f ∷ fs) a enough =
    let (fd, here) = a.live p (rw (==_refl p)) in
    let more : ltb i w.nfds ≡ true = lt→ltb i w.nfds (omega (arith, a.nfds)) in
    let at_i : get_elem? w.connections i ≡ some p =
      rw (a.connections, a.index) (get_elem?-append done p ps) in
    elim (Bool-cases (is_neg fd)) [
      | inl down ↦
          let (r, run, c) =
            compact-Compacted fuel i (set_fd s p none) (removed w i) done ps done_fds fs
              (At-closed i s w done p ps done_fds f fs fd a here) (omega arith) in
          (
            r,
            compact-closed fuel i s w p fd more at_i here down ∙ run,
            Compacted-closed i s w done p ps done_fds f fs fd a here r.0 r.1 down c,
          )
      | inr up ↦
          let (r, run, c) =
            compact-Compacted fuel (i + 1) s w (done ++ p ∷ []) ps (done_fds ++ f ∷ []) fs
              (At-open i s w done p ps done_fds f fs fd a here) (omega arith) in
          (
            r,
            compact-open fuel i s w p fd more at_i here up ∙ run,
            Compacted-open i s w done p ps done_fds f fs fd a here r.0 r.1 up c,
          )
    ]
