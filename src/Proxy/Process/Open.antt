-- ===== src/Proxy/Process/Open.antt =====
-- A request in progress and at its end, and the calls that lead from the one to the other.
use os2_labs.Common.{
  ℕ, ◌+◌, ◌≡◌, refl, Bool, true, false, Option, some, List, arith, is_some, negsuc,
}
use os2_labs.Cache.Lru.{Ptr, null}
use os2_labs.Cache.Store.Invariant.{IsCache}
use os2_labs.Proxy.Session.{
  Session, Outcome, finished, waiting, fault, on, unlock, hang_up, hang_up_remote,
}
use os2_labs.Proxy.Relay.{hang_up_both}

-- The request is in progress: the client is connected, and `remotes` connections to hosts are open.
pub record Open (held : Bool) (remotes : ℕ) (s : Session) : Type 0 where
  pub mutex : s.locked ≡ held
  pub client : s.client_closes ≡ 0
  pub remote : s.remote_opens ≡ s.remote_closes + remotes
  pub keeps : (xs : List Ptr) × IsCache s.cache xs

-- The request is at its end: the client's connection is closed, once, and its slot is marked; each
-- connection to a host is closed, once; the mutex is free and the cache is in order.
pub record Closed (s : Session) : Type 0 where
  pub fd : s.sock_fd ≡ negsuc 0
  pub mutex : s.locked ≡ false
  pub client : s.client_closes ≡ 1
  pub remote : s.remote_opens ≡ s.remote_closes
  pub keeps : (xs : List Ptr) × IsCache s.cache xs

abbrev pub Ends : Outcome → Type 0
Ends (finished s) = Closed s
Ends waiting = ¬ Unit
Ends fault = ¬ Unit

-- The entry that is written when there is one, and the null pointer when there is not.
abbrev pub EntryAt : Bool → Session → Ptr → Type 0
EntryAt true s p = is_some (s.cache.heap p) ≡ true
EntryAt false s p = p ≡ null

-- The step has no fault, and the request is still in progress.
abbrev pub Goes : (held : Bool) (remotes : ℕ) (do_cache : Bool) → Ptr → Option Session → Type 0
Goes held remotes do_cache p r =
    (s : Session) × (r ≡ some s) × Open held remotes s × EntryAt do_cache s p

pub on-Ends :
    {held : Bool} {remotes : ℕ} (do_cache : Bool) (p : Ptr) (r : Option Session)
    (next : Session → Outcome)
    → Goes held remotes do_cache p r
    → ((s : Session) → Open held remotes s → EntryAt do_cache s p → Ends (next s))
    → Ends (on r next)
on-Ends do_cache p r next (s, e, is, there) ends = rw e (ends s is there)

pub hang_up-Closed : (s : Session) → Open false 0 s → Closed (hang_up s)
unfolding hang_up
hang_up-Closed s is = record {
  fd = refl;
  mutex = is.mutex;
  client = omega (arith, is.client);
  remote = omega (arith, is.remote);
  keeps = is.keeps;
}

pub hang_up_both-Ends : (s : Session) → Open false 1 s → Ends (hang_up_both s)
unfolding hang_up_both hang_up hang_up_remote
hang_up_both-Ends s is = record {
  fd = refl;
  mutex = is.mutex;
  client = omega (arith, is.client);
  remote = omega (arith, is.remote);
  keeps = is.keeps;
}

pub unlock-Goes :
    (s : Session) (remotes : ℕ) (do_cache : Bool) (p : Ptr)
    → Open true remotes s
    → EntryAt do_cache s p
    → Goes false remotes do_cache p (unlock s)
unfolding unlock
unlock-Goes s remotes true p is there = (
  record s { locked = false },
  rw is.mutex,
  record { mutex = refl; client = is.client; remote = is.remote; keeps = is.keeps },
  there,
)
unlock-Goes s remotes false p is there = (
  record s { locked = false },
  rw is.mutex,
  record { mutex = refl; client = is.client; remote = is.remote; keeps = is.keeps },
  there,
)
