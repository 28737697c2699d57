-- ===== src/Storage/Chain.antt =====
-- The list that starts at `first`, and what a swap does to it.
use os2_labs.Common.{
  ◌≡◌, ◌≢◌, refl, sym, ap, ◌∙◌, inl, inr, true, false, ◌||◌, List, [], ◌∷◌, arith, ◌==◌, Bool-cases,
  ==_iff, ==_refl, ne→==, has, IsNodup,
}
use os2_labs.Cache.Lru.Chain.{ne-has}
use os2_labs.Storage.{Ptr, null, swap_nodes}

-- The nodes `xs` follow each other from `p` on.
abbrev pub Chain : (Ptr → Ptr) → Ptr → List Ptr → Type 0
Chain next p [] = p ≡ null
Chain next p (x ∷ xs) = (p ≡ x) × (x ≢ null) × Chain next (next x) xs

pub Chain-frame :
    (next next' : Ptr → Ptr) (p : Ptr) (xs : List Ptr)
    → ((q : Ptr) → has q xs ≡ true → next' q ≡ next q)
    → Chain next p xs
    → Chain next' p xs
Chain-frame next next' p [] same c = c
Chain-frame next next' p (x ∷ xs) same (e, ne, c) = (
  e,
  ne,
  rw (same x (rw (==_refl x)))
      (Chain-frame next next' (next x) xs (λ q m. same q (ground arith)) c),
)

-- The node that follows one of the list is of the list.
pub Chain-next :
    (next : Ptr → Ptr) (p : Ptr) (xs : List Ptr) (q : Ptr)
    → Chain next p xs
    → has q xs ≡ true
    → next q ≢ null
    → has (next q) xs ≡ true
Chain-next next p [] q c m ne = cc
Chain-next next p (x ∷ xs) q (e, x_ne, c) m ne = elim (Bool-cases (q == x)) [
  | inl here ↦
      let same : q ≡ x = (==_iff q x).0 here in
      let from : next q ≡ next x = ap next same in
      let inside : has (next q) xs ≡ true =
        ap (λ y. has y xs) from ∙ head_in (next x) xs c (λ e. ne (from ∙ e)) in
      ground arith
  | inr further ↦
      let inside : has (next q) xs ≡ true = Chain-next next (next x) xs q c (rw further at m) ne in
      ground arith
]
  where
    head_in : (y : Ptr) (ys : List Ptr) → Chain next y ys → y ≢ null → has y ys ≡ true
    head_in y [] d ne = absurd (ne d)
    head_in y (z ∷ zs) d ne = rw (d.0, ==_refl z)

-- No node of the list follows itself.
pub Chain-next_other :
    (next : Ptr → Ptr) (p : Ptr) (xs : List Ptr) (q : Ptr)
    → Chain next p xs
    → IsNodup xs
    → has q xs ≡ true
    → (q == next q) ≡ false
Chain-next_other next p [] q c d m = cc
Chain-next_other next p (x ∷ []) q (e, ne, end) (out, d) m =
    let same : q ≡ x = (==_iff q x).0 (ground arith) in
    ne→== q (next q) (λ loop. ne (sym same ∙ loop ∙ ap next same ∙ end))
Chain-next_other next p (x ∷ y ∷ ys) q (e, ne, c) (out, d) m = elim (Bool-cases (q == x)) [
  | inl here ↦
      let same : q ≡ x = (==_iff q x).0 here in
      let other : (x == y) ≡ false = ground arith in rw (same, c.0) other
  | inr further ↦ Chain-next_other next (next x) (y ∷ ys) q c d (rw further at m)
]

-- The start of the list is of it, unless it is empty.
pub Chain-first :
    (next : Ptr → Ptr) (p : Ptr) (xs : List Ptr) → Chain next p xs → p ≢ null → has p xs ≡ true
Chain-first next p [] c ne = absurd (ne c)
Chain-first next p (x ∷ xs) c ne = rw (c.0, ==_refl x)

-- `ys` has the nodes of `xs`, each once, and is linked by `next` from `p` on.
pub record Relinked (next : Ptr → Ptr) (p : Ptr) (xs ys : List Ptr) : Type 0 where
  pub chain : Chain next p ys
  pub nodup : IsNodup ys
  pub same : (q : Ptr) → has q ys ≡ has q xs

module _ (next : Ptr → Ptr) (prev cur nx : Ptr) where
  after : Ptr → Ptr
  unfolding swap_nodes
  after = swap_nodes next prev cur nx

  -- A swap writes to the three nodes only.
  pub swap_nodes-other :
      (q : Ptr)
      → (q == prev) ≡ false
      → (q == cur) ≡ false
      → (q == nx) ≡ false
      → swap_nodes next prev cur nx q ≡ next q
  unfolding swap_nodes
  swap_nodes-other q a b c = rw (a, b, c)

  three-swapped :
      (bs : List Ptr)
      → Chain next prev (prev ∷ cur ∷ nx ∷ bs)
      → IsNodup (prev ∷ cur ∷ nx ∷ bs)
      → Relinked after prev (prev ∷ cur ∷ nx ∷ bs) (prev ∷ nx ∷ cur ∷ bs)
  unfolding after swap_nodes
  three-swapped bs (e, ne, (f, cur_ne, (g, nx_ne, c))) (p_out, (c_out, (n_out, d))) =
      let pc : (prev == cur) ≡ false = ground arith in
      let pn : (prev == nx) ≡ false = ground arith in
      let cn : (cur == nx) ≡ false = ground arith in
      let np : (nx == prev) ≡ false = ground arith in
      let p_bs : has prev bs ≡ false = ground arith in
      let c_bs : has cur bs ≡ false = ground arith in
      record {
        chain = (
          refl,
          ne,
          (
            rw (pn, pc, ==_refl prev),
            nx_ne,
            (
              rw (==_refl nx),
              cur_ne,
              rw (cn, ==_refl cur, np)
                  (Chain-frame next after (next nx) bs
                    (λ q m.
                      swap_nodes-other q (ne-has prev q bs p_bs m) (ne-has cur q bs c_bs m)
                        (ne-has nx q bs n_out m))
                    c),
            ),
          ),
        );
        nodup = (rw (pn, pc) p_bs, (ground arith, (c_bs, d)));
        same = λ q. ground arith;
      }

-- A swap of the two nodes behind one of the list, wherever that stands.
pub swap_nodes-Relinked :
    (next : Ptr → Ptr) (p : Ptr) (xs : List Ptr) (prev cur nx : Ptr)
    → Chain next p xs
    → IsNodup xs
    → has prev xs ≡ true
    → next prev ≡ cur
    → next cur ≡ nx
    → cur ≢ null
    → nx ≢ null
    → (ys : List Ptr) × Relinked (swap_nodes next prev cur nx) p xs ys
unfolding after
swap_nodes-Relinked next p [] prev cur nx c d m e f cur_ne nx_ne = cc
swap_nodes-Relinked next p (x ∷ xs) prev cur nx (start, x_ne, c) (out, d) m e f cur_ne nx_ne =
    elim (Bool-cases (prev == x)) [
      | inl here ↦ at_front xs c out d ((==_iff prev x).0 here)
      | inr further ↦
          let inside : has prev xs ≡ true = rw further at m in
          let cur_in : has cur xs ≡ true =
            ap (λ y. has y xs) (sym e)
            ∙ Chain-next next (next x) xs prev c inside (λ h. cur_ne (sym e ∙ h)) in
          let nx_in : has nx xs ≡ true =
            ap (λ y. has y xs) (sym f)
            ∙ Chain-next next (next x) xs cur c cur_in (λ h. nx_ne (sym f ∙ h)) in
          let (ys, r) =
            swap_nodes-Relinked next (next x) xs prev cur nx c d inside e f cur_ne nx_ne in
          let kept : swap_nodes next prev cur nx x ≡ next x =
            swap_nodes-other next prev cur nx x (apart prev inside) (apart cur cur_in)
              (apart nx nx_in) in
          (
            x ∷ ys,
            record {
              chain = (start, x_ne, rw kept r.chain);
              nodup = (r.same x ∙ out, r.nodup);
              same = λ q. ap (λ b. (q == x) || b) (r.same q);
            },
          )
    ]
  where
    apart : (q : Ptr) → has q xs ≡ true → (x == q) ≡ false
    apart q i = ne→== x q (λ h. cc)

    at_front :
        (zs : List Ptr)
        → Chain next (next x) zs
        → has x zs ≡ false
        → IsNodup zs
        → prev ≡ x
        → (ys : List Ptr) × Relinked (swap_nodes next prev cur nx) p (x ∷ zs) ys
    at_front [] c' out' d' same = absurd (cur_ne (sym e ∙ ap next same ∙ c'))
    at_front (a ∷ []) (g, a_ne, c') out' d' same =
        absurd (nx_ne (sym f ∙ ap next (sym e ∙ ap next same ∙ g) ∙ c'))
    at_front (a ∷ b ∷ bs) (g, a_ne, (h, b_ne, c')) out' d' same =
        let is_cur : cur ≡ a = sym e ∙ ap next same ∙ g in
        let is_nx : nx ≡ b = sym f ∙ ap next is_cur ∙ h in
        (
          x ∷ b ∷ a ∷ bs,
          rw (same, is_cur, is_nx, start)
              (three-swapped next x a b bs (refl, x_ne, (g, a_ne, (h, b_ne, c'))) (out', d')),
        )
