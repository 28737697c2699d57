-- ===== src/RwStorage/Interleaving.antt =====
-- What every interleaving of the threads of 2/2.3/rwlock keeps.
use os2_labs.Common.{
  ℕ, zero, suc, ◌≡◌, ◌≢◌, refl, sym, ap, ◌∙◌, inl, inr, Bool, true, false, ◌||◌, List, arith, ◌==◌,
  if◌then◌else◌, Bool-cases, ==_iff, has, IsNodup, ne_of_==,
}
use os2_labs.Storage.{Ptr, null, Thread, outside, counting, swapping, swapping_two}
use os2_labs.Storage.Chain.{Chain, Relinked}
use os2_labs.RwStorage.{Sync, written_by, Shared, Step, to, fault}
use os2_labs.RwStorage.Locking.{Held, holds, Frame, Stepped, Outcome}
use os2_labs.RwStorage.Counting.{count_step-Outcome}
use os2_labs.RwStorage.Swapping.{swap_step-Outcome}
use os2_labs.RwStorage.Program.{
  System, Reach, start, step, initial, rw_main, rw_count_asc, rw_count_desc, rw_count_eq,
  rw_swapper1, rw_swapper2, rw_swapper3,
}

-- The list has the nodes that it had, each once, and starts with the same; no string has changed; each
-- thread holds the locks that it relies on.
pub record Kept (sh : Shared) (xs : List Ptr) (sys : System) : Type 0 where
  pub order : List Ptr
  pub relinked : Relinked sys.shared.next sh.first xs order
  pub first : sys.shared.first ≡ sh.first
  pub lengths : sys.shared.strlen_of ≡ sh.strlen_of
  pub held : (t : ℕ) → Held sys.shared order t (sys.threads t)

rw_main-Outcome :
    (t : ℕ) (flip : Bool) (sh : Shared) (xs : List Ptr) (th : Thread)
    → Chain sh.next sh.first xs
    → IsNodup xs
    → sh.first ≢ null
    → Held sh xs t th
    → Outcome t sh xs (rw_main t flip sh th)
unfolding rw_main rw_count_asc rw_count_desc rw_count_eq rw_swapper1 rw_swapper2 rw_swapper3
rw_main-Outcome zero flip sh xs th c d ne h = count_step-Outcome 0 sh xs c d _ _ _ th ne h
rw_main-Outcome (suc zero) flip sh xs th c d ne h = count_step-Outcome 1 sh xs c d _ _ _ th ne h
rw_main-Outcome (suc (suc zero)) flip sh xs th c d ne h =
    count_step-Outcome 2 sh xs c d _ _ _ th ne h
rw_main-Outcome (suc (suc (suc zero))) flip sh xs th c d ne h =
    swap_step-Outcome 3 sh xs c d _ flip th ne h
rw_main-Outcome (suc (suc (suc (suc zero)))) flip sh xs th c d ne h =
    swap_step-Outcome 4 sh xs c d _ flip th ne h
rw_main-Outcome (suc (suc (suc (suc (suc zero))))) flip sh xs th c d ne h =
    swap_step-Outcome 5 sh xs c d _ flip th ne h
rw_main-Outcome (suc (suc (suc (suc (suc (suc t)))))) flip sh xs th c d ne h = inl (ground arith)

-- A step of another thread leaves a thread what it relies on.
Held-Frame :
    (t u : ℕ) (sh sh' : Shared) (xs ys : List Ptr) (th : Thread)
    → u ≢ t
    → Frame t sh sh'
    → ((q : Ptr) → has q ys ≡ has q xs)
    → Held sh xs u th
    → Held sh' ys u th
Held-Frame t u sh sh' xs ys outside ne f same h = tt
Held-Frame t u sh sh' xs ys (counting cur) ne f same (o, m) = ((f u cur ne).0.0 o, same cur ∙ m)
Held-Frame t u sh sh' xs ys (swapping prev) ne f same (o, m) = ((f u prev ne).0.1 o, same prev ∙ m)
Held-Frame t u sh sh' xs ys (swapping_two prev cur) ne f same
      (o, o_cur, m, e, differ, cur_ne, more) =
    let ((p_holds, p_writes), p_next) = f u prev ne in
    let ((c_holds, c_writes), c_next) = f u cur ne in
    (
      p_writes o,
      c_writes o_cur,
      same prev ∙ m,
      p_next (writes u (sh.sync prev) o) ∙ e,
      differ,
      cur_ne,
      λ end. more (sym (c_next (writes u (sh.sync cur) o_cur)) ∙ end),
    )
  where
    writes : (u : ℕ) (s : Sync) → s ≡ written_by u → holds u s ≡ true
    writes u s e = rw e (ground arith)

Stepped-to :
    (t : ℕ) (sh : Shared) (xs : List Ptr) (s : Step) (sh' : Shared) (th' : Thread)
    → Outcome t sh xs s
    → s ≡ to sh' th'
    → Stepped t sh xs sh' th'
Stepped-to t sh xs s sh' th' (inl stop) e = cc
Stepped-to t sh xs s sh' th' (inr (sh₂, th₂, e₂, st)) e =
    let same_sh : sh₂ ≡ sh' = cc in let same_th : th₂ ≡ th' = cc in rw (← same_sh, ← same_th) st

not_fault : (t : ℕ) (sh : Shared) (xs : List Ptr) (s : Step) → Outcome t sh xs s → s ≢ fault
not_fault t sh xs s (inl stop) e = cc
not_fault t sh xs s (inr (sh', th', go, st)) e = cc

module _ (sh : Shared) (xs : List Ptr) (chain : Chain sh.next sh.first xs) (nodup : IsNodup xs)
    (some_node : sh.first ≢ null) where
  system-Outcome :
      (a : System) (k : Kept sh xs a) (t : ℕ) (flip : Bool)
      → Outcome t a.shared k.order (rw_main t flip a.shared (a.threads t))
  system-Outcome a k t flip =
      rw_main-Outcome t flip a.shared k.order (a.threads t) (rw k.first k.relinked.chain)
        k.relinked.nodup (λ e. some_node (sym k.first ∙ e)) (k.held t)

  Kept-step :
      (a : System) (k : Kept sh xs a) (t : ℕ) (sh' : Shared) (th' : Thread)
      → Stepped t a.shared k.order sh' th'
      → Kept sh xs (record { shared = sh'; threads = λ u. if u == t then th' else a.threads u })
  Kept-step a k t sh' th' st = record {
    order = st.order;
    relinked = record {
      chain = rw k.first at st.relinked.chain;
      nodup = st.relinked.nodup;
      same = λ q. st.relinked.same q ∙ k.relinked.same q;
    };
    first = st.first ∙ k.first;
    lengths = st.lengths ∙ k.lengths;
    held = λ u. elim (Bool-cases (u == t)) [
      | inl here ↦ rw (here, (==_iff u t).0 here) st.held
      | inr other ↦ rw other (
          Held-Frame t u a.shared sh' k.order st.order (a.threads u) (ne_of_== u t other) st.frame
            st.relinked.same (k.held u))
    ];
  }

  pub Reach-Kept : (sys : System) → Reach (initial sh) sys → Kept sh xs sys
  Reach-Kept sys start = record {
    order = xs;
    relinked = record { chain = chain; nodup = nodup; same = λ q. refl };
    first = refl;
    lengths = refl;
    held = λ t. tt;
  }
  Reach-Kept sys (step a t flip sh' th' r e) =
      let k = Reach-Kept a r in
      Kept-step a k t sh' th' (
        Stepped-to t a.shared k.order (rw_main t flip a.shared (a.threads t)) sh' th'
          (system-Outcome a k t flip) e)

-- Started on a list that is not empty, with all its threads outside of their loops, the program with
-- read-write locks reaches only systems in which the list has the nodes that it had, each once, starts
-- with the same node and has the same strings, each thread holds the locks that it relies on, and no
-- thread can go through a null pointer next, whatever `rand` returns to it.
pub rw_main-Kept :
    (sh : Shared) (xs : List Ptr) (sys : System)
    → Chain sh.next sh.first xs
    → IsNodup xs
    → sh.first ≢ null
    → Reach (initial sh) sys
    → Kept sh xs sys × ((t : ℕ) (flip : Bool) → rw_main t flip sys.shared (sys.threads t) ≢ fault)
rw_main-Kept sh xs sys c d ne r =
    let k = Reach-Kept sh xs c d ne sys r in
    (k, λ t flip. not_fault t sys.shared k.order _ (system-Outcome sh xs c d ne sys k t flip))

-- Whether a thread has a node for swapping: the one that it is at, or either of the two that it is about to
-- swap.
abbrev pub has_to_swap : Ptr → Thread → Bool
has_to_swap p outside = false
has_to_swap p (counting cur) = false
has_to_swap p (swapping prev) = p == prev
has_to_swap p (swapping_two prev cur) = (p == prev) || (p == cur)

-- Whether it is at a node, to count or to swap.
abbrev pub is_at : Ptr → Thread → Bool
is_at p outside = false
is_at p (counting cur) = p == cur
is_at p (swapping prev) = p == prev
is_at p (swapping_two prev cur) = (p == prev) || (p == cur)

Held-written :
    (sh : Shared) (xs : List Ptr) (t : ℕ) (p : Ptr) (th : Thread)
    → Held sh xs t th
    → has_to_swap p th ≡ true
    → sh.sync p ≡ written_by t
Held-written sh xs t p outside h has_ = cc
Held-written sh xs t p (counting cur) h has_ = cc
Held-written sh xs t p (swapping prev) h has_ = ap sh.sync ((==_iff p prev).0 has_) ∙ h.0
Held-written sh xs t p (swapping_two prev cur) h has_ = elim (Bool-cases (p == prev)) [
  | inl first ↦ ap sh.sync ((==_iff p prev).0 first) ∙ h.0
  | inr other ↦ ap sh.sync ((==_iff p cur).0 (rw other at has_)) ∙ h.1
]

written-holds : (t : ℕ) (s : Sync) → s ≡ written_by t → holds t s ≡ true
written-holds t s e = rw e (ground arith)

Held-holds :
    (sh : Shared) (xs : List Ptr) (t : ℕ) (p : Ptr) (th : Thread)
    → Held sh xs t th
    → is_at p th ≡ true
    → holds t (sh.sync p) ≡ true
Held-holds sh xs t p outside h at_p = cc
Held-holds sh xs t p (counting cur) h at_p =
    ap (λ q. holds t (sh.sync q)) ((==_iff p cur).0 at_p) ∙ h.0
Held-holds sh xs t p (swapping prev) h at_p =
    written-holds t (sh.sync p) (Held-written sh xs t p (swapping prev) h at_p)
Held-holds sh xs t p (swapping_two prev cur) h at_p =
    written-holds t (sh.sync p) (Held-written sh xs t p (swapping_two prev cur) h at_p)

-- Under the same conditions: while a thread has a node for swapping, the one that it is at or one of the
-- two that it is about to swap, no other thread is at that node, neither to count nor to swap.
pub rw_main-exclusive :
    (sh : Shared) (xs : List Ptr) (sys : System) (t u : ℕ) (p : Ptr)
    → Chain sh.next sh.first xs
    → IsNodup xs
    → sh.first ≢ null
    → Reach (initial sh) sys
    → u ≢ t
    → has_to_swap p (sys.threads t) ≡ true
    → is_at p (sys.threads u) ≡ false
rw_main-exclusive sh xs sys t u p c d ne r other has_ =
    let k = Reach-Kept sh xs c d ne sys r in
    let mine : sys.shared.sync p ≡ written_by t =
      Held-written sys.shared k.order t p (sys.threads t) (k.held t) has_ in
    elim (Bool-cases (is_at p (sys.threads u))) [
      | inr away ↦ away
      | inl there ↦
          let theirs : holds u (sys.shared.sync p) ≡ true =
            Held-holds sys.shared k.order u p (sys.threads u) (k.held u) there in
          let both : holds u (written_by t) ≡ true = rw mine at theirs in
          absurd (other (ground arith))
    ]
