-- ===== src/Threadpool/End.antt =====
-- The end of `client_worker_main`: the remaining connections are closed and freed.
use os2_labs.Common.{
  ◌≡◌, refl, sym, ap, ◌∙◌, inl, inr, true, false, ◌||◌, Option, none, some, List, [], ◌∷◌, ◌++◌,
  ◌==◌, if◌then◌else◌, ==_refl, has, IsNodup, Bool-cases, arith, ℤ, is_neg, append_assoc, Bool,
}
use os2_labs.Cache.Lru.Chain.{ne-has}
use os2_labs.Threadpool.{Ptr, Conns, Worker, free_connections, end_worker}
use os2_labs.Threadpool.Add.{IsWorker}

-- The open descriptors of the connections, the last connection's first.
abbrev pub opens : Option ℤ → List ℤ
opens none = []
opens (some fd) = if is_neg fd then [] else fd ∷ []

abbrev pub open_fds : (Ptr → Option ℤ) → List Ptr → List ℤ
open_fds h [] = []
open_fds h (p ∷ ps) = open_fds h ps ++ opens (h p)

abbrev freed : (Ptr → Option ℤ) → Ptr → Ptr → Option ℤ
freed h p q = if q == p then none else h q

open_fds-frame :
    (h : Ptr → Option ℤ) (p : Ptr) (ps : List Ptr)
    → has p ps ≡ false
    → open_fds (freed h p) ps ≡ open_fds h ps
open_fds-frame h p [] out = refl
open_fds-frame h p (x ∷ ps) out = rw (ne, open_fds-frame h p ps (ground arith))
  where
    ne : (x == p) ≡ false
    ne = ground arith

either :
    (late early : Bool) (cell : Option ℤ)
    → (if late then none else if early then none else cell) ≡ (if early || late then none else cell)
either late early cell = ground arith

free_connections-step :
    (s : Conns) (p : Ptr) (ps : List Ptr) (fd : ℤ)
    → s.sock_fd p ≡ some fd
    → free_connections s (p ∷ ps)
      ≡ free_connections
          (record { sock_fd = freed s.sock_fd p; closed = opens (some fd) ++ s.closed })
          ps
unfolding free_connections
free_connections-step s p ps fd here = elim (Bool-cases (is_neg fd)) [
  | inl down ↦ rw (here, free_connections, down)
  | inr up ↦ rw (here, free_connections, up)
]

free_connections-lem :
    (s : Conns) (ps : List Ptr)
    → IsNodup ps
    → ((p : Ptr) → has p ps ≡ true → (fd : ℤ) × (s.sock_fd p ≡ some fd))
    → (s' : Conns) × (free_connections s ps ≡ some s')
      × ((p : Ptr) → s'.sock_fd p ≡ (if has p ps then none else s.sock_fd p))
      × (s'.closed ≡ open_fds s.sock_fd ps ++ s.closed)
free_connections-lem s [] d live = (s, unfold free_connections in refl, λ p. refl, refl)
free_connections-lem s (x ∷ ps) (out, d) live =
    let (fd, here) = live x (rw (==_refl x)) in
    let s₁ : Conns = record { sock_fd = freed s.sock_fd x; closed = opens (some fd) ++ s.closed } in
    let (s', run, gone, closed) =
      free_connections-lem s₁ ps d (λ q m. rw (ne-has x q ps out m) (live q (ground arith))) in
    (
      s',
      free_connections-step s x ps fd here ∙ run,
      λ q. gone q ∙ either (has q ps) (q == x) (s.sock_fd q),
      closed
          ∙ ap (λ r. r ++ (opens (some fd) ++ s.closed)) (open_fds-frame s.sock_fd x ps out)
          ∙ sym (append_assoc (open_fds s.sock_fd ps) (opens (some fd)) s.closed)
          ∙ ap (λ r. (open_fds s.sock_fd ps ++ opens r) ++ s.closed) (sym here),
    )

-- A worker whose arrays have the lengths that it counts, with distinct, allocated connections, frees each of
-- its connections once and no other when it ends, closes exactly those of their descriptors that are open,
-- and is left so, with no client.
pub end_worker-frees :
    (s : Conns) (w : Worker)
    → IsWorker s w
    → (s' : Conns) × (w' : Worker) × (end_worker s w ≡ some (s', w'))
      × (w'.nfds ≡ 0)
      × IsWorker s' w'
      × ((p : Ptr) → s'.sock_fd p ≡ (if has p w.connections then none else s.sock_fd p))
      × (s'.closed ≡ open_fds s.sock_fd w.connections ++ s.closed)
unfolding end_worker
end_worker-frees s w is =
    let (s', run, gone, closed) = free_connections-lem s w.connections is.distinct is.live in
    (
      s',
      record w { nfds = 0; connections = []; fds = [] },
      rw (run, end_worker),
      refl,
      record {
        fds = refl;
        connections = refl;
        capacity = omega arith;
        distinct = tt;
        live = λ p m. cc;
      },
      gone,
      closed,
    )
