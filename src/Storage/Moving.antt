-- ===== src/Storage/Moving.antt =====
-- Threads that keep their locks in their states and wait for locks further back never block for good.
use os2_labs.Common.{
  ℕ, zero, suc, ◌+◌, ◌≤◌, ◌<◌, ◌≡◌, ◌≢◌, refl, sym, ap, ◌∙◌, inl, inr, Bool, true, false, none,
  some, List, arith, length, ◌==◌, ltb, ltb→lt, ==_iff, ==_refl, if◌then◌else◌, Bool-cases, has,
  IsNodup,
}
use os2_labs.Storage.{
  Ptr, null, Shared, Thread, outside, counting, swapping, swapping_two, Step, to, blocked,
}
use os2_labs.Storage.Chain.{Chain}
use os2_labs.Storage.Invariant.{Held}
use os2_labs.Storage.Ownership.{locks, fits, Settles}
use os2_labs.Storage.Waiting.{index, index-lt-length, Moves, Goes}
use os2_labs.Storage.Interleaving.{Kept, IsSafe, Reach-Kept}
use os2_labs.Storage.Program.{System, Reach, start, step, initial}

abbrev pub threads_count : ℕ
threads_count = 6

-- The first three threads count.
abbrev pub counts : ℕ → Bool
counts zero = true
counts (suc zero) = true
counts (suc (suc zero)) = true
counts (suc (suc (suc t))) = false

Held-locks :
    (sh : Shared) (xs : List Ptr) (t : ℕ) (th : Thread) (p : Ptr)
    → Held sh xs t th
    → locks th p ≡ true
    → sh.owner p ≡ some t
Held-locks sh xs t outside p h l = cc
Held-locks sh xs t (counting cur) p h l = ap sh.owner ((==_iff p cur).0 l) ∙ h.0
Held-locks sh xs t (swapping prev) p h l = ap sh.owner ((==_iff p prev).0 l) ∙ h.0
Held-locks sh xs t (swapping_two prev cur) p h l = elim (Bool-cases (p == prev)) [
  | inl first ↦ ap sh.owner ((==_iff p prev).0 first) ∙ h.0
  | inr other ↦ ap sh.owner ((==_iff p cur).0 (ground arith)) ∙ h.1
]

-- A program of which each thread keeps its kind and its locks in its state, and goes on or waits.
pub record IsLively (program : ℕ → Bool → Shared → Thread → Step) : Type 0 where
  pub settles :
      (t : ℕ) (flip : Bool) (sh : Shared) (th : Thread)
      → fits (counts t) th ≡ true
      → ((p : Ptr) → locks th p ≡ true → sh.owner p ≡ some t)
      → Settles (counts t) t sh th (program t flip sh th)
  pub goes :
      (t : ℕ) (flip : Bool) (sh : Shared) (xs : List Ptr) (th : Thread)
      → t < threads_count
      → Chain sh.next sh.first xs
      → IsNodup xs
      → sh.first ≢ null
      → fits (counts t) th ≡ true
      → Held sh xs t th
      → Goes sh xs th (program t flip sh th)
  pub idle :
      (t : ℕ) (flip : Bool) (sh : Shared) (th : Thread)
      → threads_count ≤ t
      → program t flip sh th ≡ blocked

-- Each thread has the locks that its state names, and nobody else has any.
record Exact (a : System) : Type 0 where
  fitting : (t : ℕ) → fits (counts t) (a.threads t) ≡ true
  owns :
      (p : Ptr) (u : ℕ)
      → a.shared.owner p ≡ some u
      → (u < threads_count) × (locks (a.threads u) p ≡ true)

module _ (program : ℕ → Bool → Shared → Thread → Step) (lively : IsLively program)
    (safe : IsSafe program) (sh : Shared) (xs : List Ptr) (chain : Chain sh.next sh.first xs)
    (nodup : IsNodup xs) (some_node : sh.first ≢ null)
    (unlocked : (p : Ptr) → sh.owner p ≡ none) where
  below :
      (t : ℕ) (flip : Bool) (s : Shared) (th : Thread) (s' : Shared) (th' : Thread)
      → program t flip s th ≡ to s' th'
      → t < threads_count
  below t flip s th s' th' e = elim (Bool-cases (ltb t threads_count)) [
    | inl lt ↦ ltb→lt t threads_count lt
    | inr ge ↦ cc (lively.idle t flip s th (ground arith))
  ]

  Exact-step :
      (a : System) (t : ℕ) (flip : Bool) (sh' : Shared) (th' : Thread)
      → Kept sh xs a
      → Exact a
      → program t flip a.shared (a.threads t) ≡ to sh' th'
      → Exact (record { shared = sh'; threads = λ u. if u == t then th' else a.threads u })
  Exact-step a t flip sh' th' k ex e =
      let settled : Settles (counts t) t a.shared (a.threads t) (to sh' th') = rw e at (
        lively.settles t flip a.shared (a.threads t) (ex.fitting t)
          (λ p. Held-locks a.shared k.order t (a.threads t) p (k.held t))) in
      let lt = below t flip a.shared (a.threads t) sh' th' e in
      record {
        fitting = λ u. elim (Bool-cases (u == t)) [
          | inl here ↦
              rw here (ap (λ (v : ℕ). fits (counts v) th') ((==_iff u t).0 here) ∙ settled.0)
          | inr other ↦ rw other (ex.fitting u)
        ];
        owns = λ p u o. elim (settled.1 p u o) [
          | inl (same, l) ↦
              let here : (u == t) ≡ true = rw same (==_refl t) in (rw same lt, rw here l)
          | inr (old, out) ↦
              let (u_lt, l) = ex.owns p u old in
              elim (Bool-cases (u == t)) [
                | inl here ↦
                    let mine : locks (a.threads t) p ≡ true =
                      ap (λ (v : ℕ). locks (a.threads v) p) (sym ((==_iff u t).0 here)) ∙ l in
                    cc
                | inr other ↦ (u_lt, rw other l)
              ]
        ];
      }

  Reach-Exact : (a : System) → Reach program (initial sh) a → Exact a
  Reach-Exact a start = record { fitting = λ t. refl; owns = λ p u o. cc (unlocked p) }
  Reach-Exact b (step a t flip sh' th' r e) =
      Exact-step a t flip sh' th' (Reach-Kept program safe sh xs chain nodup some_node a r)
        (Reach-Exact a r) e

  -- From the owner of a lock to the owner of the lock that it waits for: the locks stand ever further back in
  -- the list.
  follow :
      (fuel : ℕ) (a : System) (flip : Bool) (k : Kept sh xs a) (w : Ptr) (u : ℕ)
      → Exact a
      → a.shared.owner w ≡ some u
      → has w k.order ≡ true
      → length k.order ≤ fuel + index w k.order
      → (t : ℕ) × (t < threads_count) × Moves (program t flip a.shared (a.threads t))
  follow zero a flip k w u ex o inside enough =
      absurd (omega (arith, index-lt-length w k.order inside))
  follow (suc n) a flip k w u ex o inside enough =
      let (lt, l) = ex.owns w u o in
      elim (lively.goes u flip a.shared k.order (a.threads u) lt (rw k.first k.relinked.chain)
        k.relinked.nodup (λ e. some_node (sym k.first ∙ e)) (ex.fitting u) (k.held u)) [
          | inl moves ↦ (u, lt, moves)
          | inr (w', u', o', inside', ahead) ↦
              follow n a flip k w' u' ex o' inside' (omega (arith, ahead w l, enough))
        ]

  pub some-Moves :
      (a : System) (flip : Bool)
      → Reach program (initial sh) a
      → (t : ℕ) × (t < threads_count) × Moves (program t flip a.shared (a.threads t))
  some-Moves a flip r =
      let k = Reach-Kept program safe sh xs chain nodup some_node a r in
      let ex = Reach-Exact a r in
      let linked : Chain a.shared.next a.shared.first k.order = rw k.first k.relinked.chain in
      elim (lively.goes 0 flip a.shared k.order (a.threads 0) (omega arith) linked k.relinked.nodup
        (λ e. some_node (sym k.first ∙ e)) (ex.fitting 0) (k.held 0)) [
          | inl moves ↦ (0, omega arith, moves)
          | inr (w, u, o, inside, ahead) ↦
              follow (length k.order) a flip k w u ex o inside (omega arith)
        ]
