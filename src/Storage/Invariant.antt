-- ===== src/Storage/Invariant.antt =====
-- What every step of a thread keeps: the list, and what the locks protect of the other threads.
use os2_labs.Common.{
  ℕ, ◌≡◌, ◌≢◌, refl, ap, ◌∙◌, ◌⊎◌, inl, inr, true, false, List, ◌==◌, none, some, Bool-cases,
  Option-cases, ==_iff, ne→==, has,
}
use os2_labs.Storage.{
  Ptr, null, Shared, Thread, outside, counting, swapping, swapping_two, Step, to, blocked, acquire,
  release, taken,
}
use os2_labs.Storage.Chain.{Relinked}

-- What the thread `t` relies on: it has the locks of its nodes, which are of the list, and `cur`
-- follows `prev` and is not the last.
abbrev pub Held : Shared → List Ptr → ℕ → Thread → Type 0
Held sh xs t outside = Unit
Held sh xs t (counting cur) = (sh.owner cur ≡ some t) × (has cur xs ≡ true)
Held sh xs t (swapping prev) = (sh.owner prev ≡ some t) × (has prev xs ≡ true)
Held sh xs t (swapping_two prev cur) =
    (sh.owner prev ≡ some t)
    × (sh.owner cur ≡ some t)
    × (has prev xs ≡ true)
    × (sh.next prev ≡ cur)
    × ((prev == cur) ≡ false)
    × (cur ≢ null)
    × (sh.next cur ≢ null)

-- A step of `t` leaves the other threads their locks, and the links of the nodes that they have locked.
abbrev pub Frame : ℕ → Shared → Shared → Type 0
Frame t sh sh' =
    (u : ℕ) (q : Ptr)
    → u ≢ t
    → sh.owner q ≡ some u
    → (sh'.owner q ≡ some u) × (sh'.next q ≡ sh.next q)

pub record Stepped (t : ℕ) (sh : Shared) (xs : List Ptr) (sh' : Shared) (th' : Thread)
    : Type 0 where
  pub order : List Ptr
  pub relinked : Relinked sh'.next sh.first xs order
  pub first : sh'.first ≡ sh.first
  pub lengths : sh'.strlen_of ≡ sh.strlen_of
  pub held : Held sh' order t th'
  pub frame : Frame t sh sh'

abbrev pub Outcome : ℕ → Shared → List Ptr → Step → Type 0
Outcome t sh xs s =
    (s ≡ blocked) ⊎ ((sh' : Shared) × (th' : Thread) × (s ≡ to sh' th') × Stepped t sh xs sh' th')

pub Frame-trans : (t : ℕ) (a b c : Shared) → Frame t a b → Frame t b c → Frame t a c
Frame-trans t a b c f g u q ne o =
    let (o₁, n₁) = f u q ne o in let (o₂, n₂) = g u q ne o₁ in (o₂, n₂ ∙ n₁)

pub acquire-Frame :
    (t : ℕ) (p : Ptr) (sh : Shared) → sh.owner p ≡ none → Frame t sh (acquire t p sh)
unfolding acquire
acquire-Frame t p sh free u q ne o = elim (Bool-cases (q == p)) [
  | inl here ↦ let same : sh.owner q ≡ none = ap sh.owner ((==_iff q p).0 here) ∙ free in cc
  | inr other ↦ (rw other o, refl)
]

pub release-Frame :
    (t : ℕ) (p : Ptr) (sh : Shared) → sh.owner p ≡ some t → Frame t sh (release p sh)
unfolding release
release-Frame t p sh mine u q ne o = elim (Bool-cases (q == p)) [
  | inl here ↦
      let same : sh.owner q ≡ some t = ap sh.owner ((==_iff q p).0 here) ∙ mine in absurd (ne cc)
  | inr other ↦ (rw other o, refl)
]

pub not_taken : (sh : Shared) (p : Ptr) → taken sh p ≡ false → sh.owner p ≡ none
not_taken sh p h = elim (Option-cases (sh.owner p)) [
  | inl free ↦ free
  | inr (u, o) ↦ cc (rw o at h)
]

-- A lock that is held and one that is free are of two nodes.
pub apart :
    (sh : Shared) (t : ℕ) (p q : Ptr) → sh.owner p ≡ some t → sh.owner q ≡ none → (p == q) ≡ false
apart sh t p q mine free = ne→== p q (λ e. let same : sh.owner p ≡ sh.owner q = ap sh.owner e in cc)
