-- ===== src/Threadpool/Rounds/Steps.antt =====
-- The rounds of the workers keep the pool in order.
use os2_labs.Common.{
  ℕ, zero, suc, ◌≡◌, refl, sym, ap, ◌∙◌, inl, inr, true, false, not, ◌&&◌, Option, none, some, List,
  [], ◌∷◌, ◌++◌, arith, get_elem?, set, length, take, take_all, append-nil, Bool-cases,
  Option-cases, has, has-append, ◌||◌, ◌==◌, ==_iff, if◌then◌else◌,
}
use os2_labs.Threadpool.{Ptr, Conns, Worker, PollFd, Events, finish_pass, max_worker_threads}
use os2_labs.Threadpool.Add.{IsWorker}
use os2_labs.Threadpool.Compact.{open_fd}
use os2_labs.Threadpool.Pass.{finish_pass-keeps, keep-has}
use os2_labs.Threadpool.Life.Shutdown.{pool_connections, IsPool}
use os2_labs.Threadpool.Rounds.{
  Pool, Begun, waiting, ending, copied, begin_round, Poll, poll_error, timeout, polled,
  with_revents, end_round, begun_at, begin_at, ended_at, end_at, end_rounds,
}
use os2_labs.Threadpool.Rounds.Replace.{
  get_elem?-set, length-set, pool-has, pool-IsWorker, pool-lost, set-IsPool,
}

-- A worker that polls has copied connections that are still the first of its own.
pub record Copied (w : Worker) (fds : List PollFd) (conns : List Ptr) : Type 0 where
  pub same_length : length fds ≡ length conns
  pub added : List Ptr
  pub first : w.connections ≡ conns ++ added

-- The pool has all its workers, which are consistent and share no connection; every connection that is
-- allocated is one of a worker.
pub record IsServing (p : Pool) : Type 0 where
  pub pool : IsPool p.conns p.workers
  pub owned : (q : Ptr) → has q (pool_connections p.workers) ≡ false → p.conns.sock_fd q ≡ none
  pub eight : length p.workers ≡ max_worker_threads
  pub copies :
      (i : ℕ) (w : Worker) (fds : List PollFd) (conns : List Ptr)
      → get_elem? p.workers i ≡ some w
      → p.polling i ≡ some (fds, conns)
      → Copied w fds conns

length-with_revents :
    (fds : List PollFd) (evs : List Events) → length (with_revents fds evs) ≡ length fds
unfolding with_revents
length-with_revents [] evs = refl
length-with_revents (f ∷ fds) [] = refl
length-with_revents (f ∷ fds) (ev ∷ evs) = omega (arith, length-with_revents fds evs)

-- What the end of a round leaves of a consistent worker and of the memory.
record Round (s : Conns) (w : Worker) (s' : Conns) (w' : Worker) : Type 0 where
  worker : IsWorker s' w'
  fewer : (p : Ptr) → has p w'.connections ≡ true → has p w.connections ≡ true
  others : (p : Ptr) → has p w.connections ≡ false → s'.sock_fd p ≡ s.sock_fd p
  freed :
      (p : Ptr) → has p w.connections ≡ true → has p w'.connections ≡ false → s'.sock_fd p ≡ none

Round-same : (s : Conns) (w : Worker) → IsWorker s w → Round s w s w
Round-same s w is = record {
  worker = is;
  fewer = λ p m. m;
  others = λ p out. refl;
  freed = λ p m out. cc;
}

module _ (s : Conns) (w : Worker) (fds : List PollFd) (conns : List Ptr) (is : IsWorker s w)
    (c : Copied w fds conns) where
  finish_pass-Round :
      (evs : List Events)
      → (s' : Conns) × (w' : Worker) × (finish_pass s (with_revents fds evs) conns w
          ≡ some (s', w'))
        × Round s w s' w'
  finish_pass-Round evs =
      let (s₁, (s', w'), run, ends, left, left_fds, is', unpolled, heap) =
        finish_pass-keeps s w (with_revents fds evs) conns c.added is c.first
          (length-with_revents fds evs ∙ c.same_length) in
      let split : (p : Ptr) → has p w.connections ≡ (has p conns || has p c.added) =
        λ p. ap (has p) c.first ∙ has-append p conns c.added in
      let kept : (p : Ptr)
          → has p w'.connections ≡ (has p w.connections && open_fd (s₁.sock_fd p)) =
        λ p.
          ap (has p) left
          ∙ keep-has s₁.sock_fd p (conns ++ c.added)
          ∙ ap (λ (l : List Ptr). has p l && open_fd (s₁.sock_fd p)) (sym c.first) in
      (
        s',
        w',
        ends,
        record {
          worker = is';
          fewer = λ p m. ground (arith, kept p);
          others = λ p out. heap p ∙ rw out (unpolled p (ground (arith, split p)));
          freed = λ p m out. heap p ∙ ground (arith, kept p);
        },
      )

  end_round-Round :
      (r : Poll)
      → (s' : Conns) × (w' : Worker) × (end_round s fds conns r w ≡ some (s', w')) × Round s w s' w'
  unfolding end_round
  end_round-Round poll_error = (s, w, refl, Round-same s w is)
  end_round-Round timeout = (s, w, refl, Round-same s w is)
  end_round-Round (polled evs) = finish_pass-Round evs

-- The worker `i` is replaced by what its round makes of it, and its copy is dropped.
ended-IsServing :
    (i : ℕ) (p : Pool) (w : Worker) (s' : Conns) (w' : Worker)
    → IsServing p
    → get_elem? p.workers i ≡ some w
    → Round p.conns w s' w'
    → IsServing (record p {
      conns = s';
      workers = set p.workers i w';
      polling = λ j. if j == i then none else p.polling j;
    })
ended-IsServing i p w s' w' is at_i round = record {
  pool =
      set-IsPool p.conns s' p.workers i w w' is.pool at_i round.worker
        (λ q got there. round.fewer q got) (λ q there out. round.others q out);
  owned = λ q out. elim (Bool-cases (has q (pool_connections p.workers))) [
    | inr nowhere ↦ elim (Bool-cases (has q w.connections)) [
      | inl mine ↦ cc (pool-has p.workers i w q at_i mine)
      | inr other ↦ round.others q other ∙ is.owned q nowhere
    ]
    | inl there ↦
        let (mine, gone) = pool-lost p.workers i w w' q at_i there out in round.freed q mine gone
  ];
  eight = length-set p.workers i w' ∙ is.eight;
  copies = λ j v fds conns at_j busy. elim (Bool-cases (j == i)) [
    | inl same ↦ cc (rw same at busy)
    | inr other ↦ elim (get_elem?-set p.workers i j w' v at_j) [
      | inl (same, e) ↦ absurd (ground arith)
      | inr (differ, at_old) ↦ is.copies j v fds conns at_old (rw other at busy)
    ]
  ];
}

begin_round-Copied :
    (s : Conns) (w : Worker) (fds : List PollFd) (conns : List Ptr)
    → IsWorker s w
    → begin_round w ≡ copied fds conns
    → Copied w fds conns
unfolding begin_round
begin_round-Copied s w fds conns is e = elim (Bool-cases ((w.nfds == 0) && not w.is_shutdown)) [
  | inl idle ↦ cc (rw idle at e)
  | inr busy ↦ elim (Bool-cases w.is_shutdown) [
    | inl told ↦ cc (rw (busy, told) at e)
    | inr going ↦
        let same : copied (take w.nfds w.fds) (take w.nfds w.connections) ≡ copied fds conns =
          rw (busy, going) at e in
        let all_fds = take_all w.nfds w.fds (omega (arith, is.fds)) in
        let all_conns = take_all w.nfds w.connections (omega (arith, is.connections)) in
        let fds_e : w.fds ≡ fds = cc in
        let conns_e : w.connections ≡ conns = cc in
        record {
          same_length = omega (arith, ap length fds_e, ap length conns_e, is.fds, is.connections);
          added = [];
          first = conns_e ∙ sym (append-nil conns);
        }
  ]
]

pub begin_at-IsServing : (i : ℕ) (p : Pool) → IsServing p → IsServing (begin_at i p)
unfolding begin_at begun_at
begin_at-IsServing i p is = elim (Option-cases (p.polling i)) [
  | inr (c, busy) ↦ rw (busy, begin_at) is
  | inl free ↦ elim (Option-cases (get_elem? p.workers i)) [
    | inl outside ↦ rw (free, begin_at) (rw (outside, begin_at) is)
    | inr (w, at_i) ↦ rw (free, begin_at) (rw (at_i, begin_at) (begun w at_i (begin_round w) refl))
  ]
]
  where
    begun :
        (w : Worker)
        → get_elem? p.workers i ≡ some w
        → (b : Begun) → begin_round w ≡ b
        → IsServing (begun_at i p b)
    begun w at_i waiting e = is
    begun w at_i ending e = is
    begun w at_i (copied fds conns) e = record {
      pool = is.pool;
      owned = is.owned;
      eight = is.eight;
      copies = λ j v fds' conns' at_j busy. elim (Bool-cases (j == i)) [
        | inl same ↦
            let e_ij : j ≡ i = (==_iff j i).0 same in
            let mine : ◌≡◌ {A = Option (List PollFd × List Ptr)} (some (fds, conns))
                (some (fds', conns')) =
              rw same at busy in
            let e' : begin_round v ≡ copied fds' conns' = cc in
            begin_round-Copied p.conns v fds' conns'
              (pool-IsWorker p.conns p.workers j v is.pool at_j) e'
        | inr other ↦ is.copies j v fds' conns' at_j (rw other at busy)
      ];
    }

-- Whatever `poll` returns, the end of a round accesses no freed connection.
pub end_at-IsServing :
    (i : ℕ) (r : Poll) (p : Pool)
    → IsServing p
    → (p' : Pool) × (end_at i r p ≡ some p') × IsServing p'
unfolding end_at ended_at
end_at-IsServing i r p is = elim (Option-cases (p.polling i)) [
  | inl free ↦ (p, rw (free, end_at), is)
  | inr ((fds, conns), busy) ↦ elim (Option-cases (get_elem? p.workers i)) [
    | inl outside ↦ (p, rw (busy, end_at) (rw (outside, end_at) refl), is)
    | inr (w, at_i) ↦
        let (s', w', run, round) =
          end_round-Round p.conns w fds conns (pool-IsWorker p.conns p.workers i w is.pool at_i)
            (is.copies i w fds conns at_i busy) r in
        (
          record p {
            conns = s';
            workers = set p.workers i w';
            polling = λ j. if j == i then none else p.polling j;
          },
          rw (busy, end_at) (rw (at_i, end_at) (rw run refl)),
          ended-IsServing i p w s' w' is at_i round,
        )
  ]
]

pub end_rounds-IsServing :
    (n : ℕ) (r : ℕ → Poll) (p : Pool)
    → IsServing p
    → (p' : Pool) × (end_rounds n r p ≡ some p') × IsServing p'
unfolding end_rounds
end_rounds-IsServing zero r p is = (p, refl, is)
end_rounds-IsServing (suc i) r p is =
    let (p₁, run, is₁) = end_at-IsServing i (r i) p is in
    let (p₂, rest, is₂) = end_rounds-IsServing i r p₁ is₁ in (p₂, rw (run, end_rounds) rest, is₂)
