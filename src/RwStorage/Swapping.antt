-- ===== src/RwStorage/Swapping.antt =====
-- The steps of the swapping threads, which write.
use os2_labs.Common.{
  ℕ, ◌≡◌, ◌≢◌, refl, sym, ap, ◌∙◌, inl, inr, Bool, true, false, List, [], arith, ◌==◌,
  if◌then◌else◌, some, Bool-cases, Option-cases, ==_refl, ne→==, ne_of_==, has, IsNodup,
}
use os2_labs.Storage.{Ptr, null, Thread, outside, counting, swapping, swapping_two, swap_nodes}
use os2_labs.Storage.Chain.{
  Chain, Chain-next, Chain-first, Relinked, swap_nodes-Relinked, swap_nodes-other,
}
use os2_labs.RwStorage.{
  Sync, read_by, written_by, Stats, Shared, wrlock, set_sync, release, swap_step,
}
use os2_labs.RwStorage.Locking.{
  Held, holds, Frame, Stepped, Outcome, Frame-trans, wrlock-Frame, wrlock-free, release-Frame,
}

module _ (t : ℕ) (sh : Shared) (xs : List Ptr) (chain : Chain sh.next sh.first xs)
    (nodup : IsNodup xs) where
  unchanged : Relinked sh.next sh.first xs xs
  unchanged = record { chain = chain; nodup = nodup; same = λ q. refl }

  -- The thread that writes holds the lock.
  writes-holds : (p : Ptr) → sh.sync p ≡ written_by t → holds t (sh.sync p) ≡ true
  writes-holds p mine = rw mine (==_refl t)

  apart : (p q : Ptr) → sh.sync p ≡ written_by t → sh.sync q ≡ read_by [] → (p == q) ≡ false
  apart p q mine free = ne→== p q (λ e. let same : sh.sync p ≡ sh.sync q = ap sh.sync e in cc)

  -- A node that another thread holds is neither one of `t` nor free.
  not_mine :
      (u : ℕ) (p q : Ptr)
      → u ≢ t
      → holds u (sh.sync q) ≡ true
      → sh.sync p ≡ written_by t
      → (q == p) ≡ false
  not_mine u p q ne h mine = ne→== q p (λ e.
      let same : sh.sync q ≡ written_by t = ap sh.sync e ∙ mine in
      let both : holds u (written_by t) ≡ true = rw same at h in ne (ground arith))

  not_free :
      (u : ℕ) (p q : Ptr) → holds u (sh.sync q) ≡ true → sh.sync p ≡ read_by [] → (q == p) ≡ false
  not_free u p q h free = ne→== q p (λ e.
      let same : sh.sync q ≡ read_by [] = ap sh.sync e ∙ free in
      let none_reads : holds u (read_by []) ≡ true = rw same at h in cc)

  -- A node is locked and given up again, and then `prev`.
  module _ (prev p : Ptr) (s : Sync) (mine : sh.sync prev ≡ written_by t)
      (got : wrlock t (sh.sync p) ≡ some s) where
    differ : (prev == p) ≡ false
    differ = apart prev p mine (wrlock-free t (sh.sync p) got).0

    taken_Frame : Frame t sh (release t p (set_sync p s sh))
    taken_Frame =
        Frame-trans t sh (set_sync p s sh) (release t p (set_sync p s sh))
          (wrlock-Frame t p s sh got)
          (release-Frame t p (set_sync p s sh)
            (rw (==_refl p, (wrlock-free t (sh.sync p) got).1) (==_refl t)))

    both_Frame : Frame t sh (release t prev (release t p (set_sync p s sh)))
    both_Frame =
        Frame-trans t sh (release t p (set_sync p s sh))
          (release t prev (release t p (set_sync p s sh))) taken_Frame
          (release-Frame t prev (release t p (set_sync p s sh))
            (rw differ (writes-holds prev mine)))

  -- The third step of a swapping thread, with `prev` and `cur` locked.
  module _ (prev cur : Ptr) (s : Sync) (h : Held sh xs t (swapping_two prev cur))
      (got : wrlock t (sh.sync (sh.next cur)) ≡ some s) where
    cur_inside : has cur xs ≡ true
    cur_inside =
        let (mine, mine_cur, inside, follows, differ, ne, more) = h in
        ap (λ y. has y xs) (sym follows)
        ∙ Chain-next sh.next sh.first xs prev chain inside (λ e. ne (sym follows ∙ e))

    still_mine :
        (release t prev (release t (sh.next cur) (set_sync (sh.next cur) s sh))).sync cur
        ≡ written_by t
    still_mine =
        let c_p : (cur == prev) ≡ false = ground (arith, h.4) in
        rw (c_p, apart cur (sh.next cur) h.1 (wrlock-free t (sh.sync (sh.next cur)) got).0) h.1

    swap-Stepped :
        (swapped : Stats → Stats) (flip : Bool)
        → Stepped t sh xs
            (release t prev (
              release t (sh.next cur) (
                if flip
                then record (set_sync (sh.next cur) s sh) {
                  next = swap_nodes sh.next prev cur (sh.next cur);
                  stats = swapped sh.stats;
                }
                else set_sync (sh.next cur) s sh)))
            (swapping cur)
    swap-Stepped swapped true =
        let (mine, mine_cur, inside, follows, differ, ne, more) = h in
        let (ys, r) =
          swap_nodes-Relinked sh.next sh.first xs prev cur (sh.next cur) chain nodup inside follows
            refl ne more in
        record {
          order = ys;
          relinked = r;
          first = refl;
          lengths = refl;
          held = (still_mine, r.same cur ∙ cur_inside);
          frame = λ u q u_ne. (
            (both_Frame prev (sh.next cur) s mine got u q u_ne).0,
            λ o.
                swap_nodes-other sh.next prev cur (sh.next cur) q (not_mine u prev q u_ne o mine)
                  (not_mine u cur q u_ne o mine_cur)
                  (not_free u (sh.next cur) q o (wrlock-free t (sh.sync (sh.next cur)) got).0),
          );
        }
    swap-Stepped swapped false = record {
      order = xs;
      relinked = unchanged;
      first = refl;
      lengths = refl;
      held = (still_mine, cur_inside);
      frame = both_Frame prev (sh.next cur) s h.0 got;
    }

  advance-Stepped :
      (prev : Ptr) (s : Sync)
      → Held sh xs t (swapping prev)
      → (sh.next prev == null) ≡ false
      → wrlock t (sh.sync (sh.next prev)) ≡ some s
      → (sh.next (sh.next prev) == null) ≡ false
      → Stepped t sh xs (set_sync (sh.next prev) s sh) (swapping_two prev (sh.next prev))
  advance-Stepped prev s (mine, inside) some_next got more = record {
    order = xs;
    relinked = unchanged;
    first = refl;
    lengths = refl;
    held = (
      rw (differ prev (sh.next prev) s mine got) mine,
      rw (==_refl (sh.next prev)) (wrlock-free t (sh.sync (sh.next prev)) got).1,
      inside,
      refl,
      differ prev (sh.next prev) s mine got,
      ne_of_== (sh.next prev) null some_next,
      ne_of_== (sh.next (sh.next prev)) null more,
    );
    frame = wrlock-Frame t (sh.next prev) s sh got;
  }

  -- The thread leaves its inner loop.
  leave-Stepped :
      (sh' : Shared)
      → sh'.next ≡ sh.next
      → sh'.first ≡ sh.first
      → sh'.strlen_of ≡ sh.strlen_of
      → Frame t sh sh'
      → Stepped t sh xs sh' outside
  leave-Stepped sh' same_next same_first same_lengths frame = record {
    order = xs;
    relinked = rw same_next unchanged;
    first = same_first;
    lengths = same_lengths;
    held = tt;
    frame = frame;
  }

  start-Stepped :
      (s : Sync)
      → sh.first ≢ null
      → wrlock t (sh.sync sh.first) ≡ some s
      → Stepped t sh xs (set_sync sh.first s sh) (swapping sh.first)
  start-Stepped s ne got = record {
    order = xs;
    relinked = unchanged;
    first = refl;
    lengths = refl;
    held = (
      rw (==_refl sh.first) (wrlock-free t (sh.sync sh.first) got).1,
      Chain-first sh.next sh.first xs chain ne,
    );
    frame = wrlock-Frame t sh.first s sh got;
  }

  not_last : (prev cur : Ptr) → Held sh xs t (swapping_two prev cur) → sh.next cur ≢ null
  not_last prev cur (mine, mine_cur, inside, follows, apart_, ne, more) = more

  pub swap_step-Outcome :
      (swapped : Stats → Stats) (flip : Bool) (th : Thread)
      → sh.first ≢ null
      → Held sh xs t th
      → Outcome t sh xs (swap_step swapped flip t sh th)
  unfolding swap_step
  swap_step-Outcome swapped flip outside ne held =
      rw (ne→== sh.first null ne) (elim (Option-cases (wrlock t (sh.sync sh.first))) [
        | inl busy ↦ inl (rw busy)
        | inr (s, got) ↦ inr (_, swapping sh.first, rw got, start-Stepped s ne got)
      ])
  swap_step-Outcome swapped flip (swapping prev) ne held =
      elim (Bool-cases (sh.next prev == null)) [
        | inl end ↦ inr (
          release t prev sh,
          outside,
          rw end,
          leave-Stepped _ refl refl refl (release-Frame t prev sh (writes-holds prev held.0)),
        )
        | inr some_next ↦ elim (Option-cases (wrlock t (sh.sync (sh.next prev)))) [
          | inl busy ↦ inl (rw (some_next, busy))
          | inr (s, got) ↦ elim (Bool-cases (sh.next (sh.next prev) == null)) [
            | inl end ↦ inr (
              _,
              outside,
              rw (some_next, got, end),
              leave-Stepped
                  (release t prev (release t (sh.next prev) (set_sync (sh.next prev) s sh))) refl
                  refl refl (both_Frame prev (sh.next prev) s held.0 got),
            )
            | inr more ↦ inr (
              _,
              swapping_two prev (sh.next prev),
              rw (some_next, got, more),
              advance-Stepped prev s held some_next got more,
            )
          ]
        ]
      ]
  swap_step-Outcome swapped flip (swapping_two prev cur) ne held =
      let some_next = ne→== (sh.next cur) null (not_last prev cur held) in
      elim (Option-cases (wrlock t (sh.sync (sh.next cur)))) [
        | inl busy ↦ inl (rw (some_next, busy))
        | inr (s, got) ↦
            inr
              (_, swapping cur, rw (some_next, got), swap-Stepped prev cur s held got swapped flip)
      ]
  swap_step-Outcome swapped flip (counting cur) ne held = inl refl
