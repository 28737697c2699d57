-- ===== src/Storage/Counting.antt =====
-- The steps of the counting threads.
use os2_labs.Common.{
  ℕ, ◌≡◌, ◌≢◌, refl, inl, inr, Bool, false, List, arith, ◌==◌, if◌then◌else◌, Bool-cases, ==_refl,
  ne→==, ne_of_==, IsNodup,
}
use os2_labs.Storage.{
  Ptr, null, Stats, Shared, Thread, outside, counting, swapping, swapping_two, acquire, release,
  taken, count_step,
}
use os2_labs.Storage.Chain.{Chain, Chain-next, Chain-first, Relinked}
use os2_labs.Storage.Invariant.{
  Held, Outcome, Frame-trans, acquire-Frame, release-Frame, not_taken, apart,
}

module _ (t : ℕ) (sh : Shared) (xs : List Ptr) (chain : Chain sh.next sh.first xs)
    (nodup : IsNodup xs) where
  unchanged : Relinked sh.next sh.first xs xs
  unchanged = record { chain = chain; nodup = nodup; same = λ q. refl }

  pub count_step-Outcome :
      (test : ℕ → ℕ → Bool) (found compared finished : Stats → Stats) (th : Thread)
      → sh.first ≢ null
      → Held sh xs t th
      → Outcome t sh xs (count_step test found compared finished t sh th)
  unfolding count_step acquire release
  count_step-Outcome test found compared finished outside ne held =
      elim (Bool-cases (taken sh sh.first)) [
        | inl busy ↦ inl (rw (ne→== sh.first null ne, busy))
        | inr unlocked ↦ inr (
          acquire t sh.first sh,
          counting sh.first,
          rw (ne→== sh.first null ne, unlocked),
          record {
            order = xs;
            relinked = unchanged;
            first = refl;
            lengths = refl;
            held = (rw (==_refl sh.first), Chain-first sh.next sh.first xs chain ne);
            frame = acquire-Frame t sh.first sh (not_taken sh sh.first unlocked);
          },
        )
      ]
  count_step-Outcome test found compared finished (counting cur) ne (mine, inside) =
      elim (Bool-cases (sh.next cur == null)) [
        | inl end ↦ inr (
          record (release cur sh) { stats = finished sh.stats },
          outside,
          rw end,
          record {
            order = xs;
            relinked = unchanged;
            first = refl;
            lengths = refl;
            held = tt;
            frame = release-Frame t cur sh mine;
          },
        )
        | inr more ↦ elim (Bool-cases (taken sh (sh.next cur))) [
          | inl busy ↦ inl (rw (more, busy))
          | inr unlocked ↦
              let free = not_taken sh (sh.next cur) unlocked in
              let differ = apart sh t cur (sh.next cur) mine free in
              let differ' : (sh.next cur == cur) ≡ false = ground arith in
              let counted =
                if test (sh.strlen_of cur) (sh.strlen_of (sh.next cur))
                then found sh.stats
                else sh.stats in
              let sh' =
                release cur (record (acquire t (sh.next cur) sh) { stats = compared counted }) in
              inr (
                sh',
                counting (sh.next cur),
                rw (more, unlocked),
                record {
                  order = xs;
                  relinked = unchanged;
                  first = refl;
                  lengths = refl;
                  held = (
                    rw (differ', ==_refl (sh.next cur)),
                    Chain-next sh.next sh.first xs cur chain inside
                        (ne_of_== (sh.next cur) null more),
                  );
                  frame =
                      Frame-trans t sh (acquire t (sh.next cur) sh)
                        (release cur (acquire t (sh.next cur) sh))
                        (acquire-Frame t (sh.next cur) sh free)
                        (release-Frame t cur (acquire t (sh.next cur) sh) (rw differ mine));
                },
              )
        ]
      ]
  count_step-Outcome test found compared finished (swapping prev) ne held = inl refl
  count_step-Outcome test found compared finished (swapping_two prev cur) ne held = inl refl
