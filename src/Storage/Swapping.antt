-- ===== src/Storage/Swapping.antt =====
-- The steps of the swapping threads.
use os2_labs.Common.{
  ℕ, ◌≡◌, ◌≢◌, refl, sym, ap, ◌∙◌, inl, inr, Bool, true, false, List, arith, ◌==◌, if◌then◌else◌,
  none, some, Bool-cases, ==_refl, ne→==, ne_of_==, has, IsNodup,
}
use os2_labs.Storage.{
  Ptr, null, write, Stats, Shared, Thread, outside, counting, swapping, swapping_two, acquire,
  release, taken, swap_step, swap_nodes,
}
use os2_labs.Storage.Chain.{
  Chain, Chain-next, Chain-first, Relinked, swap_nodes-Relinked, swap_nodes-other,
}
use os2_labs.Storage.Invariant.{
  Held, Frame, Stepped, Outcome, Frame-trans, acquire-Frame, release-Frame, not_taken, apart,
}

module _ (t : ℕ) (sh : Shared) (xs : List Ptr) (chain : Chain sh.next sh.first xs)
    (nodup : IsNodup xs) where
  unchanged : Relinked sh.next sh.first xs xs
  unchanged = record { chain = chain; nodup = nodup; same = λ q. refl }

  -- The third step of a swapping thread, with `prev` and `cur` locked and the next node free.
  module _ (prev cur : Ptr) (h : Held sh xs t (swapping_two prev cur))
      (free : sh.owner (sh.next cur) ≡ none) where
    nx : Ptr
    nx = sh.next cur

    another :
        (u : ℕ) (q p : Ptr) → u ≢ t → sh.owner q ≡ some u → sh.owner p ≡ some t → (q == p) ≡ false
    another u q p ne o m =
        ne→== q p (λ e. ne (let same : sh.owner q ≡ sh.owner p = ap sh.owner e in cc))

    not_free : (u : ℕ) (q : Ptr) → sh.owner q ≡ some u → (q == sh.next cur) ≡ false
    not_free u q o = apart sh u q (sh.next cur) o free

    cur_inside : has cur xs ≡ true
    cur_inside =
        let (mine, mine_cur, inside, follows, differ, ne, more) = h in
        ap (λ y. has y xs) (sym follows)
        ∙ Chain-next sh.next sh.first xs prev chain inside (λ e. ne (sym follows ∙ e))

    still_mine :
        write (write (write sh.owner (sh.next cur) (some t)) (sh.next cur) none) prev none cur
        ≡ some t
    still_mine =
        let c_p : (cur == prev) ≡ false = ground (arith, h.4) in rw (c_p, not_free t cur h.1) h.1

    owners_kept :
        (u : ℕ) (q : Ptr)
        → u ≢ t
        → sh.owner q ≡ some u
        → write (write (write sh.owner (sh.next cur) (some t)) (sh.next cur) none) prev none q
          ≡ some u
    owners_kept u q ne o = rw (another u q prev ne o h.0, not_free u q o) o

    swap-Stepped :
        (swapped : Stats → Stats) (flip : Bool)
        → Stepped t sh xs
            (release prev (
              release (sh.next cur) (
                if flip
                then record (acquire t (sh.next cur) sh) {
                  next = swap_nodes sh.next prev cur (sh.next cur);
                  stats = swapped sh.stats;
                }
                else acquire t (sh.next cur) sh)))
            (swapping cur)
    unfolding acquire release
    swap-Stepped swapped true =
        let (mine, mine_cur, inside, follows, differ, ne, more) = h in
        let (ys, r) =
          swap_nodes-Relinked sh.next sh.first xs prev cur (sh.next cur) chain nodup inside follows
            refl ne more in
        record {
          order = ys;
          relinked = r;
          first = refl;
          lengths = refl;
          held = (still_mine, r.same cur ∙ cur_inside);
          frame = λ u q u_ne o. (
            owners_kept u q u_ne o,
            swap_nodes-other sh.next prev cur (sh.next cur) q (another u q prev u_ne o mine)
                (another u q cur u_ne o mine_cur) (not_free u q o),
          );
        }
    swap-Stepped swapped false = record {
      order = xs;
      relinked = unchanged;
      first = refl;
      lengths = refl;
      held = (still_mine, cur_inside);
      frame = λ u q u_ne o. (owners_kept u q u_ne o, refl);
    }

  -- The second step, with `prev` locked and the next node free.
  module _ (prev : Ptr) (mine : sh.owner prev ≡ some t) (inside : has prev xs ≡ true)
      (some_next : (sh.next prev == null) ≡ false) (free : sh.owner (sh.next prev) ≡ none) where
    differ : (prev == sh.next prev) ≡ false
    differ = apart sh t prev (sh.next prev) mine free

    advance-Frame : Frame t sh (acquire t (sh.next prev) sh)
    advance-Frame = acquire-Frame t (sh.next prev) sh free

    give_up-Stepped :
        Stepped t sh xs
          (release prev (release (sh.next prev) (acquire t (sh.next prev) sh)))
          outside
    unfolding acquire release
    give_up-Stepped =
        let a = acquire t (sh.next prev) sh in
        let b = release (sh.next prev) a in
        record {
          order = xs;
          relinked = unchanged;
          first = refl;
          lengths = refl;
          held = tt;
          frame =
              Frame-trans t sh b (release prev b)
                (Frame-trans t sh a b advance-Frame
                  (release-Frame t (sh.next prev) a (rw (==_refl (sh.next prev)))))
                (release-Frame t prev b (rw differ mine));
        }

    advance-Stepped :
        (sh.next (sh.next prev) == null) ≡ false
        → Stepped t sh xs (acquire t (sh.next prev) sh) (swapping_two prev (sh.next prev))
    unfolding acquire
    advance-Stepped more = record {
      order = xs;
      relinked = unchanged;
      first = refl;
      lengths = refl;
      held = (
        rw differ mine,
        rw (==_refl (sh.next prev)),
        inside,
        refl,
        differ,
        ne_of_== (sh.next prev) null some_next,
        ne_of_== (sh.next (sh.next prev)) null more,
      );
      frame = advance-Frame;
    }

  not_last : (prev cur : Ptr) → Held sh xs t (swapping_two prev cur) → sh.next cur ≢ null
  not_last prev cur (mine, mine_cur, inside, follows, apart_, ne, more) = more

  pub swap_step-Outcome :
      (swapped : Stats → Stats) (flip : Bool) (th : Thread)
      → sh.first ≢ null
      → Held sh xs t th
      → Outcome t sh xs (swap_step swapped flip t sh th)
  unfolding swap_step
  swap_step-Outcome swapped flip outside ne held = elim (Bool-cases (taken sh sh.first)) [
    | inl busy ↦ inl (rw (ne→== sh.first null ne, busy))
    | inr unlocked ↦ inr (
      acquire t sh.first sh,
      swapping sh.first,
      rw (ne→== sh.first null ne, unlocked),
      start-Stepped ne (not_taken sh sh.first unlocked),
    )
  ]
    where
      start-Stepped :
          sh.first ≢ null
          → sh.owner sh.first ≡ none
          → Stepped t sh xs (acquire t sh.first sh) (swapping sh.first)
      start-Stepped ne free =
          unfold acquire in
          record {
            order = xs;
            relinked = unchanged;
            first = refl;
            lengths = refl;
            held = (rw (==_refl sh.first), Chain-first sh.next sh.first xs chain ne);
            frame = acquire-Frame t sh.first sh free;
          }
  swap_step-Outcome swapped flip (swapping prev) ne (mine, inside) =
      elim (Bool-cases (sh.next prev == null)) [
        | inl end ↦ inr (
          release prev sh,
          outside,
          rw end,
          unfold release in
              record {
                order = xs;
                relinked = unchanged;
                first = refl;
                lengths = refl;
                held = tt;
                frame = release-Frame t prev sh mine;
              },
        )
        | inr some_next ↦ elim (Bool-cases (taken sh (sh.next prev))) [
          | inl busy ↦ inl (rw (some_next, busy))
          | inr unlocked ↦
              let free = not_taken sh (sh.next prev) unlocked in
              elim (Bool-cases (sh.next (sh.next prev) == null)) [
                | inl end ↦ inr (
                  release prev (release (sh.next prev) (acquire t (sh.next prev) sh)),
                  outside,
                  rw (some_next, unlocked, end),
                  give_up-Stepped prev mine inside some_next free,
                )
                | inr more ↦ inr (
                  acquire t (sh.next prev) sh,
                  swapping_two prev (sh.next prev),
                  rw (some_next, unlocked, more),
                  advance-Stepped prev mine inside some_next free more,
                )
              ]
        ]
      ]
  swap_step-Outcome swapped flip (swapping_two prev cur) ne held =
      let some_next = ne→== (sh.next cur) null (not_last prev cur held) in
      elim (Bool-cases (taken sh (sh.next cur))) [
        | inl busy ↦ inl (rw (some_next, busy))
        | inr unlocked ↦ inr (
          _,
          swapping cur,
          rw (some_next, unlocked),
          swap-Stepped prev cur held (not_taken sh (sh.next cur) unlocked) swapped flip,
        )
      ]
  swap_step-Outcome swapped flip (counting cur) ne held = inl refl
