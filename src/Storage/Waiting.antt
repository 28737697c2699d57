-- ===== src/Storage/Waiting.antt =====
-- What a thread that cannot go on waits for.
use os2_labs.Common.{
  ℕ, suc, ◌+◌, ◌≤◌, ◌<◌, ◌≡◌, ◌≢◌, refl, sym, ap, ◌∙◌, ◌⊎◌, inl, inr, Bool, true, false, some, List,
  [], ◌∷◌, arith, length, ◌==◌, ==_iff, ==_refl, if◌then◌else◌, Bool-cases, Option-cases, has,
  IsNodup, ne→==, ne_of_==,
}
use os2_labs.Storage.{
  Ptr, null, Stats, Shared, Thread, outside, counting, swapping, swapping_two, Step, to, blocked,
  fault, taken, count_step, swap_step,
}
use os2_labs.Storage.Chain.{Chain, Chain-next, Chain-first}
use os2_labs.Storage.Invariant.{Held}
use os2_labs.Storage.Ownership.{locks, fits}

-- How many nodes of the list stand before `q`.
abbrev pub index : Ptr → List Ptr → ℕ
index q [] = 0
index q (x ∷ xs) = if q == x then 0 else suc (index q xs)

pub index-lt-length : (q : Ptr) (xs : List Ptr) → has q xs ≡ true → index q xs < length xs
index-lt-length q [] m = cc
index-lt-length q (x ∷ xs) m = elim (Bool-cases (q == x)) [
  | inl here ↦ rw here (omega arith)
  | inr other ↦ rw other (omega (arith, index-lt-length q xs (ground arith)))
]

index-first :
    (next : Ptr → Ptr) (p : Ptr) (xs : List Ptr) → Chain next p xs → p ≢ null → index p xs ≡ 0
index-first next p [] c ne = absurd (ne c)
index-first next p (x ∷ xs) c ne = rw (c.0, ==_refl x) refl

-- The node that follows another stands right behind it.
index-next :
    (next : Ptr → Ptr) (p : Ptr) (xs : List Ptr) (q : Ptr)
    → Chain next p xs
    → IsNodup xs
    → has q xs ≡ true
    → next q ≢ null
    → index (next q) xs ≡ index q xs + 1
index-next next p [] q c d m ne = cc
index-next next p (x ∷ xs) q (e, x_ne, c) (out, d) m ne = elim (Bool-cases (q == x)) [
  | inl here ↦
      let same : q ≡ x = (==_iff q x).0 here in
      let more : next x ≢ null = λ end. ne (ap next same ∙ end) in
      let other : (next q == x) ≡ false =
        away (ap (λ (r : Ptr). has (next r) xs) same ∙ Chain-first next (next x) xs c more) in
      let at_once : index (next q) xs ≡ 0 =
        ap (λ (r : Ptr). index (next r) xs) same ∙ index-first next (next x) xs c more in
      rw (here, other, at_once) (omega arith)
  | inr differs ↦
      let inside : has q xs ≡ true = ground arith in
      let other : (next q == x) ≡ false = away (Chain-next next (next x) xs q c inside ne) in
      rw (differs, other) (omega (arith, index-next next (next x) xs q c d inside ne))
]
  where
    away : has (next q) xs ≡ true → (next q == x) ≡ false
    away inside = elim (Bool-cases (next q == x)) [
      | inr other ↦ other
      | inl same ↦
          let e' : next q ≡ x = (==_iff (next q) x).0 same in
          let again : has x xs ≡ true = ap (λ (r : Ptr). has r xs) (sym e') ∙ inside in cc
    ]

-- A thread waits for a node of the list that another thread has the lock of, and that stands behind all
-- those that it has itself.
abbrev pub Waits : Shared → List Ptr → Thread → Type 0
Waits sh xs th =
    (w : Ptr) × (u : ℕ) × (sh.owner w ≡ some u)
    × (has w xs ≡ true)
    × ((p : Ptr) → locks th p ≡ true → index p xs < index w xs)

abbrev pub Moves : Step → Type 0
Moves (to sh' th') = Unit
Moves blocked = ⊥
Moves fault = ⊥

pub Moves-to : (s : Step) → Moves s → (sh' : Shared) × (th' : Thread) × (s ≡ to sh' th')
Moves-to (to sh' th') m = (sh', th', refl)
Moves-to blocked m = absurd m
Moves-to fault m = absurd m

abbrev pub Goes : Shared → List Ptr → Thread → Step → Type 0
Goes sh xs th s = Moves s ⊎ Waits sh xs th

owned : (sh : Shared) (p : Ptr) → taken sh p ≡ true → (u : ℕ) × (sh.owner p ≡ some u)
owned sh p h = elim (Option-cases (sh.owner p)) [
  | inl free ↦ cc (rw free at h)
  | inr (u, o) ↦ (u, o)
]

module _ (t : ℕ) (sh : Shared) (xs : List Ptr) (chain : Chain sh.next sh.first xs)
    (nodup : IsNodup xs) (some_node : sh.first ≢ null) where
  Waits-first :
      (th : Thread) → ((p : Ptr) → locks th p ≡ false) → taken sh sh.first ≡ true → Waits sh xs th
  Waits-first th nothing held =
      let (u, o) = owned sh sh.first held in
      (sh.first, u, o, Chain-first sh.next sh.first xs chain some_node, λ p mine. cc (nothing p))

  Waits-next :
      (th : Thread) (cur : Ptr)
      → has cur xs ≡ true
      → sh.next cur ≢ null
      → ((p : Ptr) → locks th p ≡ true → index p xs ≤ index cur xs)
      → taken sh (sh.next cur) ≡ true
      → Waits sh xs th
  Waits-next th cur m ne before held =
      let (u, o) = owned sh (sh.next cur) held in
      (
        sh.next cur,
        u,
        o,
        Chain-next sh.next sh.first xs cur chain m ne,
        λ p mine. omega (arith, before p mine, index-next sh.next sh.first xs cur chain nodup m ne),
      )

  only : (cur p : Ptr) → (p == cur) ≡ true → index p xs ≤ index cur xs
  only cur p same = let e : p ≡ cur = (==_iff p cur).0 same in rw e (omega arith)

  pub count_step-Goes :
      (test : ℕ → ℕ → Bool) (found compared finished : Stats → Stats) (th : Thread)
      → fits true th ≡ true
      → Held sh xs t th
      → Goes sh xs th (count_step test found compared finished t sh th)
  unfolding count_step
  count_step-Goes test found compared finished outside fit h =
      let some_first : (sh.first == null) ≡ false = ne→== sh.first null some_node in
      elim (Bool-cases (taken sh sh.first)) [
        | inl held ↦ inr (Waits-first outside (λ p. refl) held)
        | inr free ↦ inl (rw (some_first, free) tt)
      ]
  count_step-Goes test found compared finished (counting cur) fit h =
      elim (Bool-cases (sh.next cur == null)) [
        | inl end ↦ inl (rw end tt)
        | inr more ↦ elim (Bool-cases (taken sh (sh.next cur))) [
          | inl held ↦
              inr (
                Waits-next (counting cur) cur h.1 (ne_of_== (sh.next cur) null more) (only cur)
                  held)
          | inr free ↦ inl (rw (more, free) tt)
        ]
      ]
  count_step-Goes test found compared finished (swapping prev) fit h = cc
  count_step-Goes test found compared finished (swapping_two prev cur) fit h = cc

  pub swap_step-Goes :
      (swapped : Stats → Stats) (flip : Bool) (th : Thread)
      → fits false th ≡ true
      → Held sh xs t th
      → Goes sh xs th (swap_step swapped flip t sh th)
  unfolding swap_step
  swap_step-Goes swapped flip outside fit h =
      let some_first : (sh.first == null) ≡ false = ne→== sh.first null some_node in
      elim (Bool-cases (taken sh sh.first)) [
        | inl held ↦ inr (Waits-first outside (λ p. refl) held)
        | inr free ↦ inl (rw (some_first, free) tt)
      ]
  swap_step-Goes swapped flip (counting cur) fit h = cc
  swap_step-Goes swapped flip (swapping prev) fit h = elim (Bool-cases (sh.next prev == null)) [
    | inl end ↦ inl (rw end tt)
    | inr more ↦ elim (Bool-cases (taken sh (sh.next prev))) [
      | inl held ↦
          inr (
            Waits-next (swapping prev) prev h.1 (ne_of_== (sh.next prev) null more) (only prev)
              held)
      | inr free ↦ elim (Bool-cases (sh.next (sh.next prev) == null)) [
        | inl last ↦ inl (rw (more, free, last) tt)
        | inr longer ↦ inl (rw (more, free, longer) tt)
      ]
    ]
  ]
  swap_step-Goes swapped flip (swapping_two prev cur) fit
        (own, own_cur, m, follows, differ, cur_ne, more) =
      let some_next : (sh.next cur == null) ≡ false = ne→== (sh.next cur) null more in
      elim (Bool-cases (taken sh (sh.next cur))) [
        | inr free ↦ inl (rw (some_next, free) tt)
        | inl held ↦
            let next_ne : sh.next prev ≢ null = λ end. cur_ne (sym follows ∙ end) in
            let inside : has cur xs ≡ true =
              ap (λ (r : Ptr). has r xs) (sym follows)
              ∙ Chain-next sh.next sh.first xs prev chain m next_ne in
            let behind : index cur xs ≡ index prev xs + 1 =
              ap (λ (r : Ptr). index r xs) (sym follows)
              ∙ index-next sh.next sh.first xs prev chain nodup m next_ne in
            inr (
              Waits-next (swapping_two prev cur) cur inside more
                (λ p mine. elim (Bool-cases (p == cur)) [
                  | inl same ↦ only cur p same
                  | inr other ↦ omega (arith, only prev p (ground arith), behind)
                ])
                held)
      ]
