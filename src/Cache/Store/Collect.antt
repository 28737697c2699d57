-- ===== src/Cache/Store/Collect.antt =====
-- The collector's walk along one chain.
use os2_labs.Common.{
  ◌≡◌, refl, ap, ◌∙◌, inl, inr, Bool, true, false, ◌&&◌, not, Option, none, some, List, [], ◌∷◌,
  arith, ◌==◌, if◌then◌else◌, Bool-cases, ==_iff, ==_refl, has, IsNodup, is_some, erase,
  Option-cases,
}
use os2_labs.Cache.Entry.{Entry, is_cancelled}
use os2_labs.Cache.Lru.{Ptr}
use os2_labs.Cache.Lru.Chain.{IsLru, ne-has}
use os2_labs.Cache.Store.{Cache, is_dead, collect, cleanup_chain}
use os2_labs.Cache.Store.Lookup.{lru_remove-erase, has-erase}

-- The collector takes the entries that are cancelled and that nothing refers to.
abbrev pub dead_cell : Option Entry → Bool
dead_cell none = false
dead_cell (some e) = is_cancelled e.state && (e.refcount == 0)

-- The LRU list holds the entries that are allocated.
pub record Tracks (c : Cache) (xs : List Ptr) : Type 0 where
  pub lru : IsLru c.lru xs
  pub live : (p : Ptr) → has p xs ≡ is_some (c.heap p)

-- `c'` is `c` after the walk along `ps`, which leaves `rest` of the chain: exactly the dead entries of
-- the chain are gone from memory, the chain and the LRU list.
pub record Swept (c : Cache) (ps rest : List Ptr) (c' : Cache) : Type 0 where
  pub order : List Ptr
  pub tracks : Tracks c' order
  pub heap : (q : Ptr) → c'.heap q ≡ (if has q ps && dead_cell (c.heap q) then none else c.heap q)
  pub chain : (q : Ptr) → has q rest ≡ (has q ps && not (dead_cell (c.heap q)))
  pub nodup : IsNodup rest
  pub buckets : c'.buckets ≡ c.buckets
  pub num_buckets : c'.num_buckets ≡ c.num_buckets

collect-heap :
    (c : Cache) (p : Ptr) (e : Entry) (q : Ptr)
    → (collect c p e).heap q ≡ (if q == p then none else c.heap q)
unfolding collect
collect-heap c p e q = refl

collect-Tracks :
    (c : Cache) (xs : List Ptr) (p : Ptr) (e : Entry)
    → Tracks c xs
    → c.heap p ≡ some e
    → Tracks (collect c p e) (erase p xs)
unfolding collect
collect-Tracks c xs p e tracks here = record {
  lru = (lru_remove-erase c.lru xs p tracks.lru (tracks.live p ∙ ap is_some here)).0;
  live = λ q. has-erase p q xs tracks.lru.nodup ∙ elim (Bool-cases (q == p)) [
    | inl same ↦ rw same (ground arith)
    | inr other ↦ rw other (ground (arith, tracks.live q))
  ];
}

module _ (c : Cache) (x : Ptr) (ps : List Ptr) (e : Entry) (here : c.heap x ≡ some e) where
  walk_dead :
      (rest : List Ptr) (c' : Cache)
      → is_dead e ≡ true
      → cleanup_chain (collect c x e) ps ≡ some (rest, c')
      → cleanup_chain c (x ∷ ps) ≡ some (rest, c')
  unfolding cleanup_chain
  walk_dead rest c' dead walked = rw (here, cleanup_chain) (rw (dead, walked) (rw dead))

  walk_alive :
      (rest : List Ptr) (c' : Cache)
      → is_dead e ≡ false
      → cleanup_chain c ps ≡ some (rest, c')
      → cleanup_chain c (x ∷ ps) ≡ some (x ∷ rest, c')
  unfolding cleanup_chain
  walk_alive rest c' alive walked = rw (here, cleanup_chain) (rw (alive, walked) (rw alive))

  cell_at : (q : Ptr) → (q == x) ≡ true → c.heap q ≡ some e
  cell_at q same = ap c.heap ((==_iff q x).0 same) ∙ here

  out_at : (q : Ptr) → (q == x) ≡ true → has x ps ≡ false → has q ps ≡ false
  out_at q same out = ap (λ y. has y ps) ((==_iff q x).0 same) ∙ out

  Swept-dead :
      (rest : List Ptr) (c' : Cache)
      → is_dead e ≡ true
      → has x ps ≡ false
      → Swept (collect c x e) ps rest c'
      → Swept c (x ∷ ps) rest c'
  Swept-dead rest c' dead out s = record {
    order = s.order;
    tracks = s.tracks;
    heap = λ q. elim (Bool-cases (q == x)) [
      | inl same ↦
          rw (same, cell_at q same, dead)
            (s.heap q ∙ rw (out_at q same out) (collect-heap c x e q ∙ rw same))
      | inr other ↦ rw other (rw (collect-heap c x e q, other) at (s.heap q))
    ];
    chain = λ q. elim (Bool-cases (q == x)) [
      | inl same ↦ rw (same, cell_at q same, dead) (s.chain q ∙ rw (out_at q same out))
      | inr other ↦ rw other (rw (collect-heap c x e q, other) at (s.chain q))
    ];
    nodup = s.nodup;
    buckets = s.buckets ∙ unfold collect in refl;
    num_buckets = s.num_buckets ∙ unfold collect in refl;
  }

  Swept-alive :
      (rest : List Ptr) (c' : Cache)
      → is_dead e ≡ false
      → has x ps ≡ false
      → Swept c ps rest c'
      → Swept c (x ∷ ps) (x ∷ rest) c'
  Swept-alive rest c' alive out s = record {
    order = s.order;
    tracks = s.tracks;
    heap = λ q. elim (Bool-cases (q == x)) [
      | inl same ↦
          rw (same, cell_at q same, alive) (s.heap q ∙ rw (out_at q same out) (cell_at q same))
      | inr other ↦ rw other (s.heap q)
    ];
    chain = λ q. elim (Bool-cases (q == x)) [
      | inl same ↦ rw (same, cell_at q same, alive)
      | inr other ↦ rw other (s.chain q)
    ];
    nodup = (s.chain x ∙ rw out, s.nodup);
    buckets = s.buckets;
    num_buckets = s.num_buckets;
  }

-- The walk touches no freed memory, and takes out exactly the dead entries.
pub cleanup_chain-Swept :
    (c : Cache) (xs ps : List Ptr)
    → Tracks c xs
    → IsNodup ps
    → ((q : Ptr) → has q ps ≡ true → is_some (c.heap q) ≡ true)
    → (r : List Ptr × Cache) × (cleanup_chain c ps ≡ some r) × Swept c ps r.0 r.1
cleanup_chain-Swept c xs [] tracks d live = (
  ([], c),
  unfold cleanup_chain in refl,
  record {
    order = xs;
    tracks = tracks;
    heap = λ q. refl;
    chain = λ q. refl;
    nodup = tt;
    buckets = refl;
    num_buckets = refl;
  },
)
cleanup_chain-Swept c xs (x ∷ ps) tracks (out, d) live = elim (Option-cases (c.heap x)) [
  | inl gone ↦ cc (rw gone at (live x (rw (==_refl x))))
  | inr (e, here) ↦ elim (Bool-cases (is_dead e)) [
    | inl dead ↦
        let (r, walked, s) =
          cleanup_chain-Swept (collect c x e) (erase x xs) ps (collect-Tracks c xs x e tracks here)
            d (λ q m. rw (collect-heap c x e q, ne-has x q ps out m) (live q (ground arith))) in
        (
          r,
          walk_dead c x ps e here r.0 r.1 dead walked,
          Swept-dead c x ps e here r.0 r.1 dead out s,
        )
    | inr alive ↦
        let (r, walked, s) = cleanup_chain-Swept c xs ps tracks d (λ q m. live q (ground arith)) in
        (
          (x ∷ r.0, r.1),
          walk_alive c x ps e here r.0 r.1 alive walked,
          Swept-alive c x ps e here r.0 r.1 alive out s,
        )
  ]
]
