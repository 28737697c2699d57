-- ===== src/Threadpool/Pass.antt =====
-- A round of `client_worker_main` after `poll`: events, copy back, clean-up.
use os2_labs.Common.{
  ◌≤◌, ◌≡◌, refl, sym, ap, ◌∙◌, inl, inr, Bool, true, false, ◌&&◌, Option, Option-cases, Bool-cases,
  not, none, if◌then◌else◌, some, List, [], ◌∷◌, ◌++◌, arith, length, length-append, length-drop,
  drop, ℤ, negsuc, has, has-append, IsNodup, ◌==◌, ==_iff, ==_refl,
}
use os2_labs.Threadpool.{
  Worker, Conns, Ptr, PollFd, Events, events, set_fd, handle_events, handle_all, finish_pass,
}
use os2_labs.Threadpool.Add.{IsWorker}
use os2_labs.Threadpool.Compact.{open_fd, keep, keep_fds, At, Compacted, compact-Compacted}

-- What the events of one connection change: at most where its descriptor lies, which stays allocated.
handle_events-lem :
    (s : Conns) (p : Ptr) (ev : Events) (fd : ℤ)
    → s.sock_fd p ≡ some fd
    → (s' : Conns) × (handle_events s p ev ≡ some s')
      × ((fd' : ℤ) × (s'.sock_fd p ≡ some fd'))
      × ((q : Ptr) → (q == p) ≡ false → s'.sock_fd q ≡ s.sock_fd q)
unfolding handle_events
handle_events-lem s p (events true nval in_ hup) fd here = (
  set_fd (record s { closed = fd ∷ s.closed }) p (some (negsuc 0)),
  rw (here, handle_events),
  (negsuc 0, rw (==_refl p)),
  λ q other. rw other,
)
handle_events-lem s p (events false true in_ hup) fd here = (
  set_fd s p (some (negsuc 0)),
  rw (here, handle_events),
  (negsuc 0, rw (==_refl p)),
  λ q other. rw other,
)
handle_events-lem s p (events false false true hup) fd here = (
  set_fd (record s { closed = fd ∷ s.closed }) p (some (negsuc 0)),
  rw (here, handle_events),
  (negsuc 0, rw (==_refl p)),
  λ q other. rw other,
)
handle_events-lem s p (events false false false true) fd here = (
  set_fd (record s { closed = fd ∷ s.closed }) p (some (negsuc 0)),
  rw (here, handle_events),
  (negsuc 0, rw (==_refl p)),
  λ q other. rw other,
)
handle_events-lem s p (events false false false false) fd here =
    (s, rw (here, handle_events), (fd, here), λ q other. refl)

-- What the events of all polled connections change.
pub record Handled (s : Conns) (ps : List Ptr) (s' : Conns) : Type 0 where
  pub live : (q : Ptr) → (fd : ℤ) → s.sock_fd q ≡ some fd → (fd' : ℤ) × (s'.sock_fd q ≡ some fd')
  pub others : (q : Ptr) → has q ps ≡ false → s'.sock_fd q ≡ s.sock_fd q

handle_all-Handled :
    (s : Conns) (ps : List Ptr) (fds : List PollFd)
    → ((p : Ptr) → has p ps ≡ true → (fd : ℤ) × (s.sock_fd p ≡ some fd))
    → (s' : Conns) × (handle_all s ps fds ≡ some s') × Handled s ps s'
unfolding handle_all
handle_all-Handled s [] fds live =
    (s, refl, record { live = λ q fd here. (fd, here); others = λ q out. refl })
handle_all-Handled s (p ∷ ps) [] live =
    (s, refl, record { live = λ q fd here. (fd, here); others = λ q out. refl })
handle_all-Handled s (p ∷ ps) (f ∷ fds) live =
    let (fd, here) = live p (rw (==_refl p)) in
    let (s₁, one, (fd₁, still), others₁) = handle_events-lem s p f.revents fd here in
    let live₁ = one_live s s₁ p fd₁ still others₁ in
    let (s', all, h) =
      handle_all-Handled s₁ ps fds
        (λ q m. let (fd_q, here_q) = live q (ground arith) in live₁ q fd_q here_q) in
    (
      s',
      rw (one, handle_all) all,
      record {
        live = λ q fd_q here_q. let (fd', here') = live₁ q fd_q here_q in h.live q fd' here';
        others = λ q out. h.others q (ground arith) ∙ others₁ q (ground arith);
      },
    )
  where
    one_live :
        (s s₁ : Conns) (p : Ptr) (fd₁ : ℤ)
        → s₁.sock_fd p ≡ some fd₁
        → ((q : Ptr) → (q == p) ≡ false → s₁.sock_fd q ≡ s.sock_fd q)
        → (q : Ptr) (fd : ℤ) → s.sock_fd q ≡ some fd
        → (fd' : ℤ) × (s₁.sock_fd q ≡ some fd')
    one_live s s₁ p fd₁ still others₁ q fd here = elim (Bool-cases (q == p)) [
      | inl same ↦ (fd₁, ap s₁.sock_fd ((==_iff q p).0 same) ∙ still)
      | inr other ↦ (fd, others₁ q other ∙ here)
    ]

pub keep-has :
    (h : Ptr → Option ℤ) (p : Ptr) (ps : List Ptr) → has p (keep h ps) ≡ (has p ps && open_fd (h p))
unfolding keep
keep-has h p [] = refl
keep-has h p (x ∷ ps) = elim (Bool-cases (p == x)) [
  | inl same ↦
      rw ((==_iff p x).0 same, ==_refl x)
        (elim (Bool-cases (open_fd (h x))) [
          | inl up ↦ rw (up, ==_refl x)
          | inr down ↦ rw down (keep-has h x ps ∙ rw down (ground arith))
        ])
  | inr other ↦ rw other (elim (Bool-cases (open_fd (h x))) [
    | inl up ↦ rw (up, other) (keep-has h p ps)
    | inr down ↦ rw down (keep-has h p ps)
  ])
]

IsNodup-keep : (h : Ptr → Option ℤ) (ps : List Ptr) → IsNodup ps → IsNodup (keep h ps)
unfolding keep
IsNodup-keep h [] d = tt
IsNodup-keep h (x ∷ ps) (out, d) = elim (Bool-cases (open_fd (h x))) [
  | inl up ↦ rw up (rw (keep-has h x ps, out), IsNodup-keep h ps d)
  | inr down ↦ rw down (IsNodup-keep h ps d)
]

length-keep : (h : Ptr → Option ℤ) (ps : List Ptr) → length (keep h ps) ≤ length ps
unfolding keep
length-keep h [] = omega arith
length-keep h (x ∷ ps) = ground (arith, length-keep h ps)

length-keep_fds :
    (h : Ptr → Option ℤ) (ps : List Ptr) (fs : List PollFd)
    → length fs ≡ length ps
    → length (keep_fds h ps fs) ≡ length (keep h ps)
unfolding keep keep_fds
length-keep_fds h [] fs e = refl
length-keep_fds h (p ∷ ps) [] e = absurd (omega arith)
length-keep_fds h (p ∷ ps) (f ∷ fs) e = ground (arith, length-keep_fds h ps fs)

and_left : (a b : Bool) → (a && b) ≡ true → a ≡ true
and_left a b h = ground arith

and_right : (a b : Bool) → (a && b) ≡ true → b ≡ true
and_right a b h = ground arith

module _ (s : Conns) (w : Worker) (polled : List PollFd) (conn_local added : List Ptr)
    (is : IsWorker s w) (copied : w.connections ≡ conn_local ++ added)
    (same_length : length polled ≡ length conn_local) where
  back : Worker
  back = record w {
    fds = polled ++ drop (length conn_local) w.fds;
    connections = conn_local ++ drop (length conn_local) w.connections;
  }

  back-connections : back.connections ≡ w.connections
  unfolding back
  back-connections =
      ap (λ r. conn_local ++ r)
        (ap (drop (length conn_local)) copied ∙ drop_prefix conn_local added)
      ∙ sym copied
    where
      drop_prefix : (xs ys : List Ptr) → drop (length xs) (xs ++ ys) ≡ ys
      drop_prefix [] ys = refl
      drop_prefix (x ∷ xs) ys = drop_prefix xs ys

  back-fds : length back.fds ≡ w.nfds
  unfolding back
  back-fds = omega (
    arith,
    length-append polled (drop (length conn_local) w.fds),
    length-drop (length conn_local) w.fds,
    is.fds,
    is.connections,
    ap length copied,
    length-append conn_local added,
  )

  -- For a worker whose arrays have the lengths that it counts, with distinct, allocated connections, when it
  -- takes its lock again, with the polled connections first and those that were added meanwhile behind
  -- them: the rest of the round accesses no freed connection; the worker is left with exactly the
  -- connections that are then still open, in their order, each with the cell of `fds` that it had, the
  -- polled ones as `poll` left them, and with arrays of the right lengths; a connection that was not polled keeps its
  -- descriptor while the events are handled; and what is freed after that are exactly the
  -- connections of the worker that are not open.
  pub finish_pass-keeps :
      (s₁ : Conns) × (r : Conns × Worker) × (handle_all s conn_local polled ≡ some s₁)
      × (finish_pass s polled conn_local w ≡ some r)
      × (r.1.connections ≡ keep s₁.sock_fd (conn_local ++ added))
      × (r.1.fds
          ≡ keep_fds s₁.sock_fd (conn_local ++ added) (polled ++ drop (length conn_local) w.fds))
      × IsWorker r.0 r.1
      × ((p : Ptr) → has p conn_local ≡ false → s₁.sock_fd p ≡ s.sock_fd p)
      × ((p : Ptr)
          → r.0.sock_fd p
            ≡ (if has p w.connections && not (open_fd (s₁.sock_fd p)) then none else s₁.sock_fd p))
  unfolding finish_pass
  finish_pass-keeps =
      let (s₁, run, h) =
        handle_all-Handled s conn_local polled
          (λ p m. is.live p (rw copied (has-append p conn_local added ∙ rw m))) in
      let (r, loop, c) =
        compact-Compacted w.nfds 0 s₁ back [] (conn_local ++ added) [] back.fds (start s₁ h)
          (omega (arith, is.connections, ap length copied)) in
      (
        s₁,
        r,
        run,
        unfold back in rw (run, finish_pass) loop,
        c.connections,
        unfold back in c.fds,
        kept s₁ r c,
        h.others,
        λ p.
            c.heap p
            ∙ ap
                (λ (l : List Ptr).
                  if has p l && not (open_fd (s₁.sock_fd p)) then none else s₁.sock_fd p)
                (sym copied),
      )
    where
      start :
          (s₁ : Conns) → Handled s conn_local s₁ → At 0 s₁ back [] (conn_local ++ added) [] back.fds
      start s₁ h = record {
        connections = back-connections ∙ copied;
        fds = refl;
        index = refl;
        fds_index = refl;
        fds_rest = omega (arith, back-fds, is.connections, ap length copied);
        nfds = unfold back in omega (arith, is.connections, ap length copied);
        distinct = rw copied at is.distinct;
        live = λ p m. let (fd, here) = is.live p (rw copied m) in h.live p fd here;
      }

      still_open :
          (s₁ : Conns) (r : Conns × Worker)
          → Compacted s₁ back [] (conn_local ++ added) [] back.fds r.0 r.1
          → (p : Ptr) → (has p (conn_local ++ added) && open_fd (s₁.sock_fd p)) ≡ true
          → (fd : ℤ) × (r.0.sock_fd p ≡ some fd)
      still_open s₁ r c p m =
          let listed : has p (conn_local ++ added) ≡ true =
            and_left (has p (conn_local ++ added)) (open_fd (s₁.sock_fd p)) m in
          let up : open_fd (s₁.sock_fd p) ≡ true =
            and_right (has p (conn_local ++ added)) (open_fd (s₁.sock_fd p)) m in
          elim (Option-cases (s₁.sock_fd p)) [
            | inl gone ↦ cc (rw gone at up)
            | inr (fd, here) ↦ (fd, c.heap p ∙ rw (listed, up) here)
          ]

      kept :
          (s₁ : Conns) (r : Conns × Worker)
          → Compacted s₁ back [] (conn_local ++ added) [] back.fds r.0 r.1
          → IsWorker r.0 r.1
      kept s₁ r c =
          let ps = conn_local ++ added in
          let len : length ps ≡ w.nfds = omega (arith, is.connections, ap length copied) in
          let n : r.1.nfds ≡ length (keep s₁.sock_fd ps) = c.nfds in
          record {
            fds =
                ap length c.fds
                ∙ length-keep_fds s₁.sock_fd ps back.fds (omega (arith, back-fds))
                ∙ sym n;
            connections = ap length c.connections ∙ sym n;
            capacity = omega (arith, is.capacity, length-keep s₁.sock_fd ps);
            distinct = rw c.connections (IsNodup-keep s₁.sock_fd ps (rw copied at is.distinct));
            live = λ p m.
                still_open s₁ r c p
                  (sym (keep-has s₁.sock_fd p ps) ∙ ap (has p) (sym c.connections) ∙ m);
          }
