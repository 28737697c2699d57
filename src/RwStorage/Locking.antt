-- ===== src/RwStorage/Locking.antt =====
-- What the read-write locks protect, and what every step of a thread keeps.
use os2_labs.Common.{
  ℕ, ◌≡◌, ◌≢◌, refl, sym, ap, ◌∙◌, ◌⊎◌, inl, inr, true, false, Bool, List, [], ◌∷◌, ◌==◌, some,
  arith, Bool-cases, ==_iff, ==_refl, has, erase,
}
use os2_labs.Storage.{Ptr, null, Thread, outside, counting, swapping, swapping_two}
use os2_labs.Storage.Chain.{Relinked}
use os2_labs.RwStorage.{
  Sync, read_by, written_by, rdlock, wrlock, unlock, Shared, Step, to, blocked, set_sync, release,
}

abbrev pub holds : ℕ → Sync → Bool
holds u (read_by ts) = has u ts
holds u (written_by t) = u == t

-- What the thread `t` relies on: it has the locks of its nodes, which are of the list, and `cur` follows
-- `prev` and is not the last.
abbrev pub Held : Shared → List Ptr → ℕ → Thread → Type 0
Held sh xs t outside = Unit
Held sh xs t (counting cur) = (holds t (sh.sync cur) ≡ true) × (has cur xs ≡ true)
Held sh xs t (swapping prev) = (sh.sync prev ≡ written_by t) × (has prev xs ≡ true)
Held sh xs t (swapping_two prev cur) =
    (sh.sync prev ≡ written_by t)
    × (sh.sync cur ≡ written_by t)
    × (has prev xs ≡ true)
    × (sh.next prev ≡ cur)
    × ((prev == cur) ≡ false)
    × (cur ≢ null)
    × (sh.next cur ≢ null)

-- The lock that `u` has, to read or to write, stays with it.
abbrev pub Keeps : ℕ → Sync → Sync → Type 0
Keeps u a b = (holds u a ≡ true → holds u b ≡ true) × (a ≡ written_by u → b ≡ written_by u)

-- A step of `t` leaves the other threads their locks, and the links of the nodes that they have locked.
abbrev pub Frame : ℕ → Shared → Shared → Type 0
Frame t sh sh' =
    (u : ℕ) (q : Ptr)
    → u ≢ t
    → Keeps u (sh.sync q) (sh'.sync q) × (holds u (sh.sync q) ≡ true → sh'.next q ≡ sh.next q)

pub record Stepped (t : ℕ) (sh : Shared) (xs : List Ptr) (sh' : Shared) (th' : Thread)
    : Type 0 where
  pub order : List Ptr
  pub relinked : Relinked sh'.next sh.first xs order
  pub first : sh'.first ≡ sh.first
  pub lengths : sh'.strlen_of ≡ sh.strlen_of
  pub held : Held sh' order t th'
  pub frame : Frame t sh sh'

abbrev pub Outcome : ℕ → Shared → List Ptr → Step → Type 0
Outcome t sh xs s =
    (s ≡ blocked) ⊎ ((sh' : Shared) × (th' : Thread) × (s ≡ to sh' th') × Stepped t sh xs sh' th')

pub Frame-trans : (t : ℕ) (a b c : Shared) → Frame t a b → Frame t b c → Frame t a c
Frame-trans t a b c f g u q ne =
    let ((h₁, w₁), n₁) = f u q ne in
    let ((h₂, w₂), n₂) = g u q ne in ((λ h. h₂ (h₁ h), λ w. w₂ (w₁ w)), λ h. n₂ (h₁ h) ∙ n₁ h)

-- A change of one lock that leaves the others theirs.
pub set_sync-Frame :
    (t : ℕ) (p : Ptr) (s : Sync) (sh : Shared)
    → ((u : ℕ) → u ≢ t → Keeps u (sh.sync p) s)
    → Frame t sh (set_sync p s sh)
set_sync-Frame t p s sh keeps u q ne = elim (Bool-cases (q == p)) [
  | inl here ↦ rw here (rw (ap sh.sync ((==_iff q p).0 here)) (keeps u ne), λ h. refl)
  | inr other ↦ rw other ((λ h. h, λ w. w), λ h. refl)
]

-- What the calls on a lock do.
pub rdlock-Keeps :
    (t : ℕ) (a b : Sync) (u : ℕ) → rdlock t a ≡ some b → (holds t b ≡ true) × Keeps u a b
unfolding rdlock
rdlock-Keeps t (read_by ts) b u e =
    let same : read_by (t ∷ ts) ≡ b = cc in
    rw (← same) (rw (==_refl t), (λ h. ground arith, λ w. cc))
rdlock-Keeps t (written_by v) b u e = cc

pub wrlock-free :
    (t : ℕ) (a : Sync) {b : Sync} → wrlock t a ≡ some b → (a ≡ read_by []) × (b ≡ written_by t)
unfolding wrlock
wrlock-free t (read_by []) e = (refl, cc)
wrlock-free t (read_by (v ∷ ts)) e = cc
wrlock-free t (written_by v) e = cc

has-erase_other : (t u : ℕ) (ts : List ℕ) → u ≢ t → has u ts ≡ true → has u (erase t ts) ≡ true
has-erase_other t u [] ne h = cc
has-erase_other t u (x ∷ ts) ne h = elim (Bool-cases (t == x)) [
  | inl here ↦ rw here (ground arith)
  | inr other ↦ rw other (ground (arith, has-erase_other t u ts ne))
]

pub unlock-Keeps : (t : ℕ) (a : Sync) (u : ℕ) → holds t a ≡ true → u ≢ t → Keeps u a (unlock t a)
unfolding unlock
unlock-Keeps t (read_by ts) u mine ne = (has-erase_other t u ts ne, λ w. cc)
unlock-Keeps t (written_by v) u mine ne =
    let same : t ≡ v = (==_iff t v).0 mine in
    (
      λ h. absurd (ne ((==_iff u v).0 h ∙ sym same)),
      λ w. let other : v ≡ u = cc in absurd (ne (sym other ∙ sym same)),
    )

wrlock-Keeps : (t : ℕ) (a b : Sync) (u : ℕ) → wrlock t a ≡ some b → Keeps u a b
wrlock-Keeps t a b u e = let (free, mine) = wrlock-free t a e in rw free ((λ h. cc), λ w. cc)

-- A lock that is taken, and one that is given up.
pub rdlock-Frame :
    (t : ℕ) (p : Ptr) (s : Sync) (sh : Shared)
    → rdlock t (sh.sync p) ≡ some s
    → Frame t sh (set_sync p s sh)
rdlock-Frame t p s sh e = set_sync-Frame t p s sh (λ u ne. (rdlock-Keeps t (sh.sync p) s u e).1)

pub wrlock-Frame :
    (t : ℕ) (p : Ptr) (s : Sync) (sh : Shared)
    → wrlock t (sh.sync p) ≡ some s
    → Frame t sh (set_sync p s sh)
wrlock-Frame t p s sh e = set_sync-Frame t p s sh (λ u ne. wrlock-Keeps t (sh.sync p) s u e)

pub release-Frame :
    (t : ℕ) (p : Ptr) (sh : Shared) → holds t (sh.sync p) ≡ true → Frame t sh (release t p sh)
release-Frame t p sh mine =
    set_sync-Frame t p (unlock t (sh.sync p)) sh (λ u ne. unlock-Keeps t (sh.sync p) u mine ne)
