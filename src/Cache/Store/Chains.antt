-- ===== src/Cache/Store/Chains.antt =====
-- The search along a bucket's chain, and the hash that chooses the bucket.
use Prim.Native.Nat.{bit_xor}
use os2_labs.Common.{
  ℕ, u32, ◌*◌, Option-cases, ◌<◌, ◌^◌, ◌≡◌, refl, ◌∙◌, ◌⊎◌, inl, inr, true, false, ◌&&◌, not,
  Option, some, List, [], ◌∷◌, arith, ◌==◌, Bool-cases, ==_iff, ==_refl, has, is_some,
}
use os2_labs.Cache.Entry.{Entry, is_cancelled}
use os2_labs.Cache.Lru.{Ptr, null}
use os2_labs.Cache.Store.{hash_loop, hash_url, bucket_idx, url_eq, find_entry}

-- The hash is a 32-bit word, and the bucket's index is in range.
hash_loop-lt : (hash : ℕ) (url : List ℕ) → hash < 2 ^ 32 → hash_loop hash url < 2 ^ 32
unfolding hash_loop
hash_loop-lt hash [] h = h
hash_loop-lt hash (c ∷ url) h = hash_loop-lt (u32 (bit_xor hash c * 16777619)) url (omega arith)

pub hash_url-lt : (url : List ℕ) → hash_url url < 2 ^ 32
unfolding hash_url
hash_url-lt url = hash_loop-lt 2166136261 url (omega arith)

pub bucket_idx-lt : (n : ℕ) (url : List ℕ) → 0 < n → bucket_idx n url < n
unfolding bucket_idx
bucket_idx-lt n url h = omega arith

pub url_eq_refl : (a : List ℕ) → url_eq a a ≡ true
unfolding url_eq
url_eq_refl [] = refl
url_eq_refl (x ∷ a) = rw (==_refl x) (url_eq_refl a)

pub eq_of_url_eq : (a b : List ℕ) → url_eq a b ≡ true → a ≡ b
unfolding url_eq
eq_of_url_eq [] [] h = refl
eq_of_url_eq [] (y ∷ b) h = cc
eq_of_url_eq (x ∷ a) [] h = cc
eq_of_url_eq (x ∷ a) (y ∷ b) h = ground (arith, eq_of_url_eq a b)

-- An entry that a lookup of `url` may return.
pub record IsHit (heap : Ptr → Option Entry) (url : List ℕ) (p : Ptr) : Type 0 where
  pub entry : Entry
  pub here : heap p ≡ some entry
  pub same_url : entry.url ≡ url
  pub usable : is_cancelled entry.state ≡ false

-- What the search finds on a chain whose addresses all hold entries.
abbrev pub Found : (Ptr → Option Entry) → List ℕ → List Ptr → Ptr → Type 0
Found heap url ps p =
    (p ≡ null × ((q : Ptr) → has q ps ≡ true → ¬ IsHit heap url q))
    ⊎ ((has p ps ≡ true) × IsHit heap url p)

module _ (heap : Ptr → Option Entry) (url : List ℕ) where
  find_entry-stop :
      (x : Ptr) (ps : List Ptr) (e : Entry)
      → heap x ≡ some e
      → url_eq e.url url ≡ true
      → is_cancelled e.state ≡ false
      → find_entry heap url (x ∷ ps) ≡ some x
  unfolding find_entry
  find_entry-stop x ps e here same usable = ground arith

  find_entry-skip :
      (x : Ptr) (ps : List Ptr) (e : Entry)
      → heap x ≡ some e
      → (url_eq e.url url && not (is_cancelled e.state)) ≡ false
      → find_entry heap url (x ∷ ps) ≡ find_entry heap url ps
  unfolding find_entry
  find_entry-skip x ps e here no_hit = ground arith

  not-IsHit :
      (x : Ptr) (e : Entry)
      → heap x ≡ some e
      → (url_eq e.url url && not (is_cancelled e.state)) ≡ false
      → ¬ IsHit heap url x
  not-IsHit x e here no_hit hit =
      let same : e ≡ hit.entry = cc (hit.here) in
      let equal : url_eq e.url url ≡ true = rw (same, hit.same_url) (url_eq_refl url) in
      let usable : is_cancelled e.state ≡ false = rw same hit.usable in ground arith

  Found-skip :
      (x : Ptr) (ps : List Ptr) (p : Ptr)
      → ¬ IsHit heap url x
      → Found heap url ps p
      → Found heap url (x ∷ ps) p
  Found-skip x ps p no_hit (inl (e, none_hit)) = inl (
    e,
    λ q m. elim (Bool-cases (q == x)) [
      | inl here ↦ rw ((==_iff q x).0 here) no_hit
      | inr further ↦ none_hit q (ground arith)
    ],
  )
  Found-skip x ps p no_hit (inr (m, hit)) = inr (ground arith, hit)

  find_entry-step :
      (x : Ptr) (ps : List Ptr) (e : Entry)
      → heap x ≡ some e
      → (p : Ptr) × (find_entry heap url ps ≡ some p) × Found heap url ps p
      → (p : Ptr) × (find_entry heap url (x ∷ ps) ≡ some p) × Found heap url (x ∷ ps) p
  find_entry-step x ps e here (p, found, what) =
      elim (Bool-cases (url_eq e.url url && not (is_cancelled e.state))) [
        | inl hit ↦ (
          x,
          find_entry-stop x ps e here (ground arith) (ground arith),
          inr (
            rw (==_refl x),
            record {
              entry = e;
              here = here;
              same_url = eq_of_url_eq e.url url (ground arith);
              usable = ground arith;
            },
          ),
        )
        | inr miss ↦ (
          p,
          find_entry-skip x ps e here miss ∙ found,
          Found-skip x ps p (not-IsHit x e here miss) what,
        )
      ]

  -- On a chain of live entries the search finds the first that a lookup may return, if there is one.
  pub find_entry-Found :
      (ps : List Ptr)
      → ((q : Ptr) → has q ps ≡ true → is_some (heap q) ≡ true)
      → (p : Ptr) × (find_entry heap url ps ≡ some p) × Found heap url ps p
  find_entry-Found [] live = (null, unfold find_entry in refl, inl (refl, λ q m. cc))
  find_entry-Found (x ∷ ps) live = elim (Option-cases (heap x)) [
    | inl gone ↦ cc (rw gone at (live x (rw (==_refl x))))
    | inr (e, here) ↦
        find_entry-step x ps e here (find_entry-Found ps (λ q m. live q (ground arith)))
  ]
