-- ===== src/RwStorage/Counting.antt =====
-- The steps of the counting threads, which read.
use os2_labs.Common.{
  ℕ, ◌≡◌, ◌≢◌, refl, inl, inr, Bool, true, false, List, ◌==◌, if◌then◌else◌, some, Bool-cases,
  Option-cases, ==_refl, ==_comm, ◌∙◌, ne→==, ne_of_==, IsNodup,
}
use os2_labs.Storage.{Ptr, null, Thread, outside, counting, swapping, swapping_two}
use os2_labs.Storage.Chain.{Chain, Chain-next, Chain-next_other, Chain-first, Relinked}
use os2_labs.RwStorage.{Sync, Stats, Shared, rdlock, set_sync, release, count_step}
use os2_labs.RwStorage.Locking.{
  Held, holds, Stepped, Outcome, Frame-trans, rdlock-Frame, rdlock-Keeps, release-Frame,
}

module _ (t : ℕ) (sh : Shared) (xs : List Ptr) (chain : Chain sh.next sh.first xs)
    (nodup : IsNodup xs) where
  unchanged : Relinked sh.next sh.first xs xs
  unchanged = record { chain = chain; nodup = nodup; same = λ q. refl }

  start-Stepped :
      (s : Sync)
      → sh.first ≢ null
      → rdlock t (sh.sync sh.first) ≡ some s
      → Stepped t sh xs (set_sync sh.first s sh) (counting sh.first)
  start-Stepped s ne got = record {
    order = xs;
    relinked = unchanged;
    first = refl;
    lengths = refl;
    held = (
      rw (==_refl sh.first) (rdlock-Keeps t (sh.sync sh.first) s t got).0,
      Chain-first sh.next sh.first xs chain ne,
    );
    frame = rdlock-Frame t sh.first s sh got;
  }

  end-Stepped :
      (stats : Stats) (cur : Ptr)
      → holds t (sh.sync cur) ≡ true
      → Stepped t sh xs (record (release t cur sh) { stats = stats }) outside
  end-Stepped stats cur mine = record {
    order = xs;
    relinked = unchanged;
    first = refl;
    lengths = refl;
    held = tt;
    frame = release-Frame t cur sh mine;
  }

  advance-Stepped :
      (stats : Stats) (cur : Ptr) (s : Sync)
      → Held sh xs t (counting cur)
      → sh.next cur ≢ null
      → rdlock t (sh.sync (sh.next cur)) ≡ some s
      → Stepped t sh xs
          (release t cur (record (set_sync (sh.next cur) s sh) { stats = stats }))
          (counting (sh.next cur))
  advance-Stepped stats cur s (mine, inside) ne got =
      let differ = Chain-next_other sh.next sh.first xs cur chain nodup inside in
      let differ' : (sh.next cur == cur) ≡ false = ==_comm (sh.next cur) cur ∙ differ in
      let a = set_sync (sh.next cur) s sh in
      record {
        order = xs;
        relinked = unchanged;
        first = refl;
        lengths = refl;
        held = (
          rw (differ', ==_refl (sh.next cur)) (rdlock-Keeps t (sh.sync (sh.next cur)) s t got).0,
          Chain-next sh.next sh.first xs cur chain inside ne,
        );
        frame =
            Frame-trans t sh a (release t cur a) (rdlock-Frame t (sh.next cur) s sh got)
              (release-Frame t cur a (rw differ mine));
      }

  pub count_step-Outcome :
      (test : ℕ → ℕ → Bool) (found finished : Stats → Stats) (th : Thread)
      → sh.first ≢ null
      → Held sh xs t th
      → Outcome t sh xs (count_step test found finished t sh th)
  unfolding count_step
  count_step-Outcome test found finished outside ne held =
      rw (ne→== sh.first null ne) (elim (Option-cases (rdlock t (sh.sync sh.first))) [
        | inl busy ↦ inl (rw busy)
        | inr (s, got) ↦ inr (_, counting sh.first, rw got, start-Stepped s ne got)
      ])
  count_step-Outcome test found finished (counting cur) ne held =
      elim (Bool-cases (sh.next cur == null)) [
        | inl end ↦ inr (_, outside, rw end, end-Stepped (finished sh.stats) cur held.0)
        | inr more ↦ elim (Option-cases (rdlock t (sh.sync (sh.next cur)))) [
          | inl busy ↦ inl (rw (more, busy))
          | inr (s, got) ↦ inr (
            _,
            counting (sh.next cur),
            rw (more, got),
            advance-Stepped
                (if test (sh.strlen_of cur) (sh.strlen_of (sh.next cur))
                  then found sh.stats
                  else sh.stats)
                cur s held (ne_of_== (sh.next cur) null more) got,
          )
        ]
      ]
  count_step-Outcome test found finished (swapping prev) ne held = inl refl
  count_step-Outcome test found finished (swapping_two prev cur) ne held = inl refl
