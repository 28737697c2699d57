-- ===== src/Threadpool/Rounds.antt =====
-- caching_http_proxy/threading/threadpool.c: the rounds of `client_worker_main`, and the pool that the
-- accepting thread and the workers share.
--
-- A worker holds its lock twice a round: to copy its arrays, and to write back what `poll` has left of the
-- copy. Each of the two is one step of the pool; clients are added between them. What the handling of the
-- events does is part of the second step.
pub mod Replace
pub mod Steps
pub mod Admission
use os2_labs.Common.{
  ℕ, zero, suc, Bool, true, false, not, ◌&&◌, Option, none, some, List, [], ◌∷◌, ◌==◌,
  if◌then◌else◌, get_elem?, set, take, ℤ,
}
use os2_labs.Threadpool.{
  Ptr, Worker, Conns, PollFd, Events, finish_pass, pick_worker, threadpool_add_client,
}

-- `polling`: the local copies of the workers that are between the two steps of a round.
pub record Pool : Type 0 where
  pub conns : Conns
  pub workers : List Worker
  pub last_worker : ℕ
  pub polling : ℕ → Option (List PollFd × List Ptr)

pub data Begun : Type 0 where
  waiting : Begun
  ending : Begun
  copied : List PollFd → List Ptr → Begun

-- The start of a round, under the lock: the wait for a client or the shutdown, the test of the flag,
-- and the copies.
unfoldable pub begin_round : Worker → Begun
begin_round w =
    if (w.nfds == 0) && not w.is_shutdown
    then waiting
    else if w.is_shutdown
    then ending
    else copied (take w.nfds w.fds) (take w.nfds w.connections)

-- What `poll` returns; `polled` with the events of the sockets, in their order.
pub data Poll : Type 0 where
  poll_error : Poll
  timeout : Poll
  polled : List Events → Poll

unfoldable pub with_revents : List PollFd → List Events → List PollFd
with_revents [] evs = []
with_revents (f ∷ fds) [] = f ∷ fds
with_revents (f ∷ fds) (ev ∷ evs) = record f { revents = ev } ∷ with_revents fds evs

unfoldable pub end_round :
    Conns
    → (fds_local : List PollFd) → (conn_local : List Ptr) → Poll
    → Worker
    → Option (Conns × Worker)
unfolding with_revents
end_round s fds_local conn_local poll_error w = some (s, w)
end_round s fds_local conn_local timeout w = some (s, w)
end_round s fds_local conn_local (polled evs) w =
    finish_pass s (with_revents fds_local evs) conn_local w

unfoldable pub begun_at : ℕ → Pool → Begun → Pool
begun_at i p waiting = p
begun_at i p ending = p
begun_at i p (copied fds conns) = record p {
  polling = λ j. if j == i then some (fds, conns) else p.polling j;
}

-- Worker `i` starts a round, unless it is in one.
unfoldable pub begin_at : ℕ → Pool → Pool
unfolding begun_at begin_round
begin_at i p = elim (p.polling i) [
  | some _ ↦ p
  | none ↦ elim (get_elem? p.workers i) [ none ↦ p | some w ↦ begun_at i p (begin_round w) ]
]

unfoldable pub ended_at : ℕ → Pool → Option (Conns × Worker) → Option Pool
ended_at i p none = none
ended_at i p (some (s, w)) = some (record p {
  conns = s;
  workers = set p.workers i w;
  polling = λ j. if j == i then none else p.polling j;
})

-- The `poll` of worker `i` returns, if the worker is in a round, and the round ends.
unfoldable pub end_at : ℕ → Poll → Pool → Option Pool
unfolding ended_at end_round
end_at i r p = elim (p.polling i) [
  | none ↦ some p
  | some (fds, conns) ↦ elim (get_elem? p.workers i) [
    | none ↦ some p
    | some w ↦ ended_at i p (end_round p.conns fds conns r w)
  ]
]

-- The rounds of the workers below `n` that have begun come to their ends.
unfoldable pub end_rounds : (n : ℕ) → (ℕ → Poll) → Pool → Option Pool
end_rounds zero r p = some p
end_rounds (suc i) r p = elim (end_at i (r i) p) [ none ↦ none | some p' ↦ end_rounds i r p' ]

-- The accepting thread hands a client to a worker; the pick is the new `last_worker`.
unfoldable pub hand_out : (fresh : Ptr) → ℤ → Pool → Option (Pool × ℤ)
hand_out fresh client_fd p =
    elim (threadpool_add_client fresh p.conns p.workers p.last_worker client_fd) [
      | none ↦ none
      | some (s, ws, ret) ↦
          let last : ℕ = elim (pick_worker p.workers p.last_worker) [ none ↦ 0 | some b ↦ b ] in
          some (record p { conns = s; workers = ws; last_worker = last }, ret)
    ]
