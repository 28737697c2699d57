-- ===== src/Storage/Ownership.antt =====
-- A thread has no locks but those that its state names.
use os2_labs.Common.{
  ℕ, ◌≡◌, refl, ◌⊎◌, inl, inr, Bool, true, false, ◌||◌, Option, none, some, arith, ◌==◌,
  if◌then◌else◌, Bool-cases,
}
use os2_labs.Storage.{
  Ptr, null, Stats, Shared, Thread, outside, counting, swapping, swapping_two, Step, to, blocked,
  fault, write, acquire, release, taken, count_step, swap_step, swap_nodes,
}

-- Whether a thread with this state has the lock of `p`.
abbrev pub locks : Thread → Ptr → Bool
locks outside p = false
locks (counting cur) p = p == cur
locks (swapping prev) p = p == prev
locks (swapping_two prev cur) p = (p == prev) || (p == cur)

-- The states of the counting threads, and those of the swapping threads.
abbrev pub fits : (counter : Bool) → Thread → Bool
fits c outside = true
fits c (counting cur) = c
fits true (swapping prev) = false
fits false (swapping prev) = true
fits true (swapping_two prev cur) = false
fits false (swapping_two prev cur) = true

-- After a step of `t` each lock that is held is one that the new state of `t` names, or is held as before and
-- is not one that the old state names.
abbrev pub Settles : (counter : Bool) → ℕ → Shared → Thread → Step → Type 0
Settles c t sh th (to sh' th') =
    (fits c th' ≡ true)
    × ((p : Ptr) (u : ℕ)
        → sh'.owner p ≡ some u
        → ((u ≡ t) × (locks th' p ≡ true)) ⊎ ((sh.owner p ≡ some u) × (locks th p ≡ false)))
Settles c t sh th blocked = Unit
Settles c t sh th fault = Unit

taking :
    (owner : Ptr → Option ℕ) (t : ℕ) (q p : Ptr) (u : ℕ)
    → write owner q (some t) p ≡ some u
    → ((u ≡ t) × ((p == q) ≡ true)) ⊎ (owner p ≡ some u)
taking owner t q p u o = elim (Bool-cases (p == q)) [
  | inl here ↦ let e : ◌≡◌ {A = Option ℕ} (some t) (some u) = rw here at o in inl (cc, here)
  | inr other ↦ inr (rw other at o)
]

giving :
    (owner : Ptr → Option ℕ) (q p : Ptr) (u : ℕ)
    → write owner q none p ≡ some u
    → ((p == q) ≡ false) × (owner p ≡ some u)
giving owner q p u o = elim (Bool-cases (p == q)) [
  | inl here ↦ cc (rw here at o)
  | inr other ↦ (other, rw other at o)
]

module _ (test : ℕ → ℕ → Bool) (found compared finished : Stats → Stats) (t : ℕ) (sh : Shared) where
  pub count_step-Settles :
      (th : Thread)
      → fits true th ≡ true
      → Settles true t sh th (count_step test found compared finished t sh th)
  unfolding count_step acquire release
  count_step-Settles outside fit = elim (Bool-cases (sh.first == null)) [
    | inl empty ↦ rw empty tt
    | inr more ↦ elim (Bool-cases (taken sh sh.first)) [
      | inl held ↦ rw (more, held) tt
      | inr free ↦
          rw (more, free)
            (
              refl,
              λ p u o. elim (taking sh.owner t sh.first p u o) [
                | inl mine ↦ inl mine
                | inr old ↦ inr (old, refl)
              ],
            )
    ]
  ]
  count_step-Settles (counting cur) fit = elim (Bool-cases (sh.next cur == null)) [
    | inl end ↦
        rw end (refl, λ p u o. let (other, old) = giving sh.owner cur p u o in inr (old, other))
    | inr more ↦ elim (Bool-cases (taken sh (sh.next cur))) [
      | inl held ↦ rw (more, held) tt
      | inr free ↦
          rw (more, free)
            (
              refl,
              λ p u o.
                  let (other, left) = giving (write sh.owner (sh.next cur) (some t)) cur p u o in
                  elim (taking sh.owner t (sh.next cur) p u left) [
                    | inl mine ↦ inl mine
                    | inr old ↦ inr (old, other)
                  ],
            )
    ]
  ]
  count_step-Settles (swapping prev) fit = cc
  count_step-Settles (swapping_two prev cur) fit = cc

module _ (swapped : Stats → Stats) (flip : Bool) (t : ℕ) (sh : Shared) where
  pub swap_step-Settles :
      (th : Thread)
      → fits false th ≡ true
      → ((p : Ptr) → locks th p ≡ true → sh.owner p ≡ some t)
      → Settles false t sh th (swap_step swapped flip t sh th)
  unfolding swap_step acquire release
  swap_step-Settles outside fit has_ = elim (Bool-cases (sh.first == null)) [
    | inl empty ↦ rw empty (refl, λ p u o. inr (o, refl))
    | inr more ↦ elim (Bool-cases (taken sh sh.first)) [
      | inl held ↦ rw (more, held) tt
      | inr free ↦
          rw (more, free)
            (
              refl,
              λ p u o. elim (taking sh.owner t sh.first p u o) [
                | inl mine ↦ inl mine
                | inr old ↦ inr (old, refl)
              ],
            )
    ]
  ]
  swap_step-Settles (counting cur) fit has_ = cc
  swap_step-Settles (swapping prev) fit has_ = elim (Bool-cases (sh.next prev == null)) [
    | inl end ↦
        rw end (refl, λ p u o. let (other, old) = giving sh.owner prev p u o in inr (old, other))
    | inr more ↦ elim (Bool-cases (taken sh (sh.next prev))) [
      | inl held ↦ rw (more, held) tt
      | inr free ↦ elim (Bool-cases (sh.next (sh.next prev) == null)) [
        | inl last ↦
            rw (more, free, last)
              (
                refl,
                λ p u o.
                    let acquired = write sh.owner (sh.next prev) (some t) in
                    let (other, kept) = giving (write acquired (sh.next prev) none) prev p u o in
                    let (away, left) = giving acquired (sh.next prev) p u kept in
                    elim (taking sh.owner t (sh.next prev) p u left) [
                      | inl mine ↦ cc (away, mine.1)
                      | inr old ↦ inr (old, other)
                    ],
              )
        | inr longer ↦
            rw (more, free, longer)
              (
                refl,
                λ p u o. elim (taking sh.owner t (sh.next prev) p u o) [
                  | inl new ↦ inl (new.0, ground (arith, new.1))
                  | inr old ↦ elim (Bool-cases (p == prev)) [
                    | inl first ↦ inl (cc (has_ p first), ground arith)
                    | inr other ↦ inr (old, other)
                  ]
                ],
              )
      ]
    ]
  ]
  swap_step-Settles (swapping_two prev cur) fit has_ = elim (Bool-cases (sh.next cur == null)) [
    | inl end ↦ rw end tt
    | inr more ↦ elim (Bool-cases (taken sh (sh.next cur))) [
      | inl held ↦ rw (more, held) tt
      | inr free ↦ rw (more, free) (refl, λ p u o. left p u (same_owner flip p u o))
    ]
  ]
    where
      after : Bool → Shared
      after f =
          if f
          then record sh {
            next = swap_nodes sh.next prev cur (sh.next cur);
            owner = write sh.owner (sh.next cur) (some t);
            stats = swapped sh.stats;
          }
          else record sh { owner = write sh.owner (sh.next cur) (some t) }

      same_owner :
          (f : Bool) (p : Ptr) (u : ℕ)
          → write (write (after f).owner (sh.next cur) none) prev none p ≡ some u
          → write (write (write sh.owner (sh.next cur) (some t)) (sh.next cur) none) prev none p
            ≡ some u
      same_owner true p u o = o
      same_owner false p u o = o

      left :
          (p : Ptr) (u : ℕ)
          → write (write (write sh.owner (sh.next cur) (some t)) (sh.next cur) none) prev none p
            ≡ some u
          → ((u ≡ t) × ((p == cur) ≡ true))
            ⊎ ((sh.owner p ≡ some u) × (((p == prev) || (p == cur)) ≡ false))
      left p u o =
          let acquired = write sh.owner (sh.next cur) (some t) in
          let (other, kept) = giving (write acquired (sh.next cur) none) prev p u o in
          let (away, old_) = giving acquired (sh.next cur) p u kept in
          elim (taking sh.owner t (sh.next cur) p u old_) [
            | inl mine ↦ cc (away, mine.1)
            | inr old ↦ elim (Bool-cases (p == cur)) [
              | inl first ↦ inl (cc (has_ p (ground arith)), first)
              | inr differs ↦ inr (old, ground arith)
            ]
          ]
