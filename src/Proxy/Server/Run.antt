-- ===== src/Proxy/Server/Run.antt =====
-- What the events of the accepting thread and of the workers keep.
use os2_labs.Common.{
  ℕ, ◌≡◌, ◌≢◌, refl, ap, ◌∙◌, inl, inr, Bool, true, false, none, some, List, [], ◌∷◌, if◌then◌else◌,
  Bool-cases, ℤ, is_neg,
}
use os2_labs.Threadpool.{Ptr, Conns}
use os2_labs.Threadpool.Life.Shutdown.{IsPool-frame}
use os2_labs.Threadpool.Rounds.{Pool, begin_at}
use os2_labs.Threadpool.Rounds.Steps.{IsServing, begin_at-IsServing, end_at-IsServing}
use os2_labs.Threadpool.Rounds.Admission.{hand_out-IsServing}
use os2_labs.Proxy.Server.{
  Accept, eintr, accept_error, client, Event, signal, accept, lock_worker, poll_returns, Server,
  accepted, accept_round, with_pool, serve_event, serve_events,
}

-- `calloc` gives null, or an address at which nothing is allocated.
abbrev pub IsCalloc : (ℕ → Conns → Ptr) → Type 0
IsCalloc calloc =
    (choice : ℕ) (s : Conns) → calloc choice s ≢ 0 → s.sock_fd (calloc choice s) ≡ none

-- What an event keeps.
pub record Served (v v' : Server) : Type 0 where
  pub pool : IsServing v'.pool
  pub told : v.keep_running ≡ false → v'.keep_running ≡ false
  pub over : v.accepting ≡ false → v'.accepting ≡ false

logged-IsServing :
    (p : Pool) (fds : List ℤ)
    → IsServing p
    → IsServing (record p { conns = record p.conns { closed = fds } })
logged-IsServing p fds is = record {
  pool = IsPool-frame p.conns (record p.conns { closed = fds }) p.workers (λ q there. refl) is.pool;
  owned = is.owned;
  eight = is.eight;
  copies = is.copies;
}

module _ (calloc : ℕ → Conns → Ptr) (law : IsCalloc calloc) where
  pub accept_round-Served :
      (v : Server) (a : Accept)
      → v.accepting ≡ true
      → IsServing v.pool
      → (v' : Server) × (accept_round calloc v a ≡ some v') × Served v v'
  unfolding accept_round accepted
  accept_round-Served v eintr on_ is = (
    record v { accepting = v.keep_running },
    refl,
    record { pool = is; told = λ e. e; over = λ e. cc },
  )
  accept_round-Served v accept_error on_ is =
      (v, refl, record { pool = is; told = λ e. e; over = λ e. e })
  accept_round-Served v (client client_fd choice) on_ is =
      let (p, ret, run, is', r) =
        hand_out-IsServing (calloc choice v.pool.conns) client_fd v.pool is
          (law choice v.pool.conns) in
      elim (Bool-cases (is_neg ret)) [
        | inl refused_ ↦ (
          record v {
            pool = record p { conns = record p.conns { closed = client_fd ∷ p.conns.closed } };
            accepting = v.keep_running;
          },
          rw run (rw refused_ refl),
          record {
            pool = logged-IsServing p (client_fd ∷ p.conns.closed) is';
            told = λ e. e;
            over = λ e. cc;
          },
        )
        | inr taken ↦ (
          record v { pool = record p { conns = p.conns }; accepting = v.keep_running },
          rw run (rw taken refl),
          record { pool = logged-IsServing p p.conns.closed is'; told = λ e. e; over = λ e. cc },
        )
      ]

  pub serve_event-Served :
      (v : Server) (ev : Event)
      → IsServing v.pool
      → (v' : Server) × (serve_event calloc v ev ≡ some v') × Served v v'
  unfolding serve_event with_pool
  serve_event-Served v signal is = (
    record v { keep_running = false },
    refl,
    record { pool = is; told = λ e. refl; over = λ e. e },
  )
  serve_event-Served v (accept a) is = elim (Bool-cases v.accepting) [
    | inl going ↦
        let (v', run, s) = accept_round-Served v a going is in
        (v', ap (λ (t : Bool). if t then accept_round calloc v a else some v) going ∙ run, s)
    | inr over ↦ (
      v,
      ap (λ (t : Bool). if t then accept_round calloc v a else some v) over,
      record { pool = is; told = λ e. e; over = λ e. e },
    )
  ]
  serve_event-Served v (lock_worker i) is = (
    record v { pool = begin_at i v.pool },
    refl,
    record { pool = begin_at-IsServing i v.pool is; told = λ e. e; over = λ e. e },
  )
  serve_event-Served v (poll_returns i r) is =
      let (p, run, is') = end_at-IsServing i r v.pool is in
      (record v { pool = p }, rw run refl, record { pool = is'; told = λ e. e; over = λ e. e })

  pub serve_events-Served :
      (v : Server) (evs : List Event)
      → IsServing v.pool
      → (v' : Server) × (serve_events calloc v evs ≡ some v') × Served v v'
  unfolding serve_events
  serve_events-Served v [] is = (v, refl, record { pool = is; told = λ e. e; over = λ e. e })
  serve_events-Served v (ev ∷ evs) is =
      let (v₁, run, s₁) = serve_event-Served v ev is in
      let (v₂, rest, s₂) = serve_events-Served v₁ evs s₁.pool in
      (
        v₂,
        rw (run, serve_events) rest,
        record { pool = s₂.pool; told = λ e. s₂.told (s₁.told e); over = λ e. s₂.over (s₁.over e) },
      )
