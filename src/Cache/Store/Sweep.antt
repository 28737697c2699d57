-- ===== src/Cache/Store/Sweep.antt =====
-- The collector's pass over all buckets.
use os2_labs.Common.{
  ℕ, zero, suc, ◌+◌, ◌≤◌, ◌<◌, ◌≡◌, refl, sym, ap, ◌∙◌, inl, inr, false, ◌&&◌, not, Option, none,
  some, List, arith, ◌==◌, leb, if◌then◌else◌, Bool-cases, ==_iff, has, IsNodup,
}
use os2_labs.Cache.Entry.{Entry}
use os2_labs.Cache.Lru.{Ptr}
use os2_labs.Cache.Store.{
  Cache, is_dead, bucket_idx, set_bucket, cleanup_chain, cleanup_from, cleanup_cancelled_entries,
}
use os2_labs.Cache.Store.Chains.{bucket_idx-lt}
use os2_labs.Cache.Store.Invariant.{IsCache, in_bucket, in_bucket-is_some}
use os2_labs.Cache.Store.Collect.{dead_cell, Swept, cleanup_chain-Swept}

-- A cell after the walk along the chain of `i`, and after the walks from `i` on.
abbrev walked : (n i : ℕ) → Option Entry → Option Entry
walked n i cell = if in_bucket n i cell && dead_cell cell then none else cell

abbrev swept : (n i : ℕ) → Option Entry → Option Entry
swept n i none = none
swept n i (some e) = if is_dead e && leb i (bucket_idx n e.url) then none else some e

walked-here :
    (n i : ℕ) (cell : Option Entry)
    → (in_bucket n i cell && not (dead_cell cell)) ≡ in_bucket n i (walked n i cell)
walked-here n i none = refl
walked-here n i (some e) = ground arith

walked-other :
    (n i j : ℕ) (cell : Option Entry)
    → (j == i) ≡ false
    → in_bucket n j cell ≡ in_bucket n j (walked n i cell)
walked-other n i j none ne = refl
walked-other n i j (some e) ne = ground arith

swept-walked : (n i : ℕ) (cell : Option Entry) → swept n (i + 1) (walked n i cell) ≡ swept n i cell
swept-walked n i none = refl
swept-walked n i (some e) = ground arith

swept_past : (n i : ℕ) (cell : Option Entry) → 0 < n → n ≤ i → cell ≡ swept n i cell
swept_past n i none some_buckets past = refl
swept_past n i (some e) some_buckets past = ground (arith, bucket_idx-lt n e.url some_buckets)

swept_all : (n : ℕ) (cell : Option Entry) → swept n 0 cell ≡ (if dead_cell cell then none else cell)
swept_all n none = refl
swept_all n (some e) = ground arith

module _ (c : Cache) (xs : List Ptr) (i : ℕ) (is : IsCache c xs) (lt : i < c.num_buckets)
    (rest : List Ptr) (c' : Cache) (s : Swept c (c.buckets i) rest c') where
  heap_after : (q : Ptr) → c'.heap q ≡ walked c.num_buckets i (c.heap q)
  heap_after q = s.heap q ∙ rw (is.chains i lt q)

  chain_after :
      (j : ℕ)
      → j < c.num_buckets
      → (q : Ptr)
      → has q (if j == i then rest else c.buckets j) ≡ in_bucket c.num_buckets j (c'.heap q)
  chain_after j j_lt q = elim (Bool-cases (j == i)) [
    | inl here ↦
        rw (here, heap_after q, (==_iff j i).0 here)
          (s.chain q ∙ rw (is.chains i lt q) (walked-here c.num_buckets i (c.heap q)))
    | inr other ↦
        rw (other, heap_after q)
          (is.chains j j_lt q ∙ walked-other c.num_buckets i j (c.heap q) other)
  ]

  after-IsNodup : (j : ℕ) → j < c.num_buckets → IsNodup (if j == i then rest else c.buckets j)
  after-IsNodup j j_lt = elim (Bool-cases (j == i)) [
    | inl here ↦ rw here s.nodup
    | inr other ↦ rw other (is.distinct j j_lt)
  ]

  set_bucket-IsCache : IsCache (set_bucket c' i rest) s.order
  unfolding set_bucket
  set_bucket-IsCache = record {
    lru = s.tracks.lru;
    live = s.tracks.live;
    distinct = rw (s.buckets, s.num_buckets) after-IsNodup;
    chains = rw (s.buckets, s.num_buckets) chain_after;
    some_buckets = rw s.num_buckets is.some_buckets;
  }

set_bucket-fields :
    (c : Cache) (i : ℕ) (l : List Ptr)
    → ((set_bucket c i l).num_buckets ≡ c.num_buckets) × ((set_bucket c i l).heap ≡ c.heap)
unfolding set_bucket
set_bucket-fields c i l = (refl, refl)

cleanup_from-step :
    (c : Cache) (i n : ℕ) (rest : List Ptr) (c₁ c' : Cache)
    → cleanup_chain c (c.buckets i) ≡ some (rest, c₁)
    → cleanup_from (set_bucket c₁ i rest) (i + 1) n ≡ some c'
    → cleanup_from c i (suc n) ≡ some c'
unfolding cleanup_from
cleanup_from-step c i n rest c₁ c' run later = rw (run, cleanup_from) later

-- After the walks along the chains from `i` on.
pub record Cleaned (c : Cache) (i : ℕ) (c' : Cache) : Type 0 where
  pub order : List Ptr
  pub kept : IsCache c' order
  pub heap : (q : Ptr) → c'.heap q ≡ swept c.num_buckets i (c.heap q)

cleanup_from-Cleaned :
    (c : Cache) (xs : List Ptr) (i n : ℕ)
    → IsCache c xs
    → i + n ≡ c.num_buckets
    → (c' : Cache) × (cleanup_from c i n ≡ some c') × Cleaned c i c'
cleanup_from-Cleaned c xs i zero is e = (
  c,
  unfold cleanup_from in refl,
  record {
    order = xs;
    kept = is;
    heap = λ q. swept_past c.num_buckets i (c.heap q) is.some_buckets (omega arith);
  },
)
cleanup_from-Cleaned c xs i (suc n) is e =
    let lt : i < c.num_buckets = omega arith in
    let (r, run, s) =
      cleanup_chain-Swept c xs (c.buckets i) (record { lru = is.lru; live = is.live })
        (is.distinct i lt)
        (λ q m. in_bucket-is_some c.num_buckets i (c.heap q) (sym (is.chains i lt q) ∙ m)) in
    let c₂ = set_bucket r.1 i r.0 in
    let (same_num, same_heap) = set_bucket-fields r.1 i r.0 in
    let num : c₂.num_buckets ≡ c.num_buckets = same_num ∙ s.num_buckets in
    let (c', later, cleaned) =
      cleanup_from-Cleaned c₂ s.order (i + 1) n (set_bucket-IsCache c xs i is lt r.0 r.1 s)
        (omega arith) in
    (
      c',
      cleanup_from-step c i n r.0 r.1 c' run later,
      record {
        order = cleaned.order;
        kept = cleaned.kept;
        heap = λ q.
            cleaned.heap q
            ∙ ap (λ k. swept k (i + 1) (c₂.heap q)) num
            ∙ ap (swept c.num_buckets (i + 1))
                (ap (λ h. h q) same_heap ∙ heap_after c xs i is lt r.0 r.1 s q)
            ∙ swept-walked c.num_buckets i (c.heap q);
      },
    )

-- On a cache that keeps the invariant, a pass of the collector ends without touching freed memory;
-- it frees the entries that are cancelled and have no reference, and no other, changes no entry
-- that it leaves, and keeps the invariant.
pub cleanup_cancelled_entries-IsCache :
    (c : Cache) (xs : List Ptr)
    → IsCache c xs
    → (c' : Cache) × (cleanup_cancelled_entries c ≡ some c')
      × ((ys : List Ptr) × IsCache c' ys)
      × ((q : Ptr) → c'.heap q ≡ (if dead_cell (c.heap q) then none else c.heap q))
unfolding cleanup_cancelled_entries
cleanup_cancelled_entries-IsCache c xs is =
    let (c', run, cleaned) = cleanup_from-Cleaned c xs 0 c.num_buckets is (omega arith) in
    (
      c',
      run,
      (cleaned.order, cleaned.kept),
      λ q. cleaned.heap q ∙ swept_all c.num_buckets (c.heap q),
    )
