-- ===== src/Storage/Interleaving.antt =====
-- What every interleaving of the threads of 2/2.3 keeps.
use os2_labs.Common.{
  ℕ, zero, suc, ◌≡◌, ◌≢◌, refl, sym, ◌∙◌, inl, inr, Bool, List, arith, ◌==◌, if◌then◌else◌,
  Bool-cases, ==_iff, has, IsNodup, ne_of_==,
}
use os2_labs.Storage.{
  Ptr, null, Shared, Thread, outside, counting, swapping, swapping_two, Step, to, fault,
}
use os2_labs.Storage.Chain.{Chain, Relinked}
use os2_labs.Storage.Invariant.{Held, Frame, Stepped, Outcome}
use os2_labs.Storage.Counting.{count_step-Outcome}
use os2_labs.Storage.Swapping.{swap_step-Outcome}
use os2_labs.Storage.Program.{
  System, Reach, start, step, initial, mutex_main, mutex_count_asc, mutex_count_desc,
  mutex_count_eq, mutex_swapper1, mutex_swapper2, mutex_swapper3, spin_main, spin_count_asc,
  spin_count_desc, spin_count_eq, spin_swapper1, spin_swapper2, spin_swapper3,
}

-- The list has the nodes that it had, each once, and starts with the same; no string has changed; each
-- thread holds the locks that it relies on.
pub record Kept (sh : Shared) (xs : List Ptr) (sys : System) : Type 0 where
  pub order : List Ptr
  pub relinked : Relinked sys.shared.next sh.first xs order
  pub first : sys.shared.first ≡ sh.first
  pub lengths : sys.shared.strlen_of ≡ sh.strlen_of
  pub held : (t : ℕ) → Held sys.shared order t (sys.threads t)

-- A program of which each step has an outcome as those of `count_step` and `swap_step`.
abbrev pub IsSafe : (ℕ → Bool → Shared → Thread → Step) → Type 0
IsSafe program =
    (t : ℕ) (flip : Bool) (sh : Shared) (xs : List Ptr) (th : Thread)
    → Chain sh.next sh.first xs
    → IsNodup xs
    → sh.first ≢ null
    → Held sh xs t th
    → Outcome t sh xs (program t flip sh th)

pub mutex_main-IsSafe : IsSafe mutex_main
unfolding mutex_main mutex_count_asc mutex_count_desc mutex_count_eq mutex_swapper1 mutex_swapper2
    mutex_swapper3
mutex_main-IsSafe zero flip sh xs th c d ne h = count_step-Outcome 0 sh xs c d _ _ _ _ th ne h
mutex_main-IsSafe (suc zero) flip sh xs th c d ne h = count_step-Outcome 1 sh xs c d _ _ _ _ th ne h
mutex_main-IsSafe (suc (suc zero)) flip sh xs th c d ne h =
    count_step-Outcome 2 sh xs c d _ _ _ _ th ne h
mutex_main-IsSafe (suc (suc (suc zero))) flip sh xs th c d ne h =
    swap_step-Outcome 3 sh xs c d _ flip th ne h
mutex_main-IsSafe (suc (suc (suc (suc zero)))) flip sh xs th c d ne h =
    swap_step-Outcome 4 sh xs c d _ flip th ne h
mutex_main-IsSafe (suc (suc (suc (suc (suc zero))))) flip sh xs th c d ne h =
    swap_step-Outcome 5 sh xs c d _ flip th ne h
mutex_main-IsSafe (suc (suc (suc (suc (suc (suc t)))))) flip sh xs th c d ne h = inl (ground arith)

pub spin_main-IsSafe : IsSafe spin_main
unfolding spin_main spin_count_asc spin_count_desc spin_count_eq spin_swapper1 spin_swapper2
    spin_swapper3
spin_main-IsSafe zero flip sh xs th c d ne h = count_step-Outcome 0 sh xs c d _ _ _ _ th ne h
spin_main-IsSafe (suc zero) flip sh xs th c d ne h = count_step-Outcome 1 sh xs c d _ _ _ _ th ne h
spin_main-IsSafe (suc (suc zero)) flip sh xs th c d ne h =
    count_step-Outcome 2 sh xs c d _ _ _ _ th ne h
spin_main-IsSafe (suc (suc (suc zero))) flip sh xs th c d ne h =
    swap_step-Outcome 3 sh xs c d _ flip th ne h
spin_main-IsSafe (suc (suc (suc (suc zero)))) flip sh xs th c d ne h =
    swap_step-Outcome 4 sh xs c d _ flip th ne h
spin_main-IsSafe (suc (suc (suc (suc (suc zero))))) flip sh xs th c d ne h =
    swap_step-Outcome 5 sh xs c d _ flip th ne h
spin_main-IsSafe (suc (suc (suc (suc (suc (suc t)))))) flip sh xs th c d ne h = inl (ground arith)

-- A step of another thread leaves a thread what it relies on.
Held-Frame :
    (t u : ℕ) (sh sh' : Shared) (xs ys : List Ptr) (th : Thread)
    → u ≢ t
    → Frame t sh sh'
    → ((q : Ptr) → has q ys ≡ has q xs)
    → Held sh xs u th
    → Held sh' ys u th
Held-Frame t u sh sh' xs ys outside ne f same h = tt
Held-Frame t u sh sh' xs ys (counting cur) ne f same (o, m) = ((f u cur ne o).0, same cur ∙ m)
Held-Frame t u sh sh' xs ys (swapping prev) ne f same (o, m) = ((f u prev ne o).0, same prev ∙ m)
Held-Frame t u sh sh' xs ys (swapping_two prev cur) ne f same
      (o, o_cur, m, e, differ, cur_ne, more) =
    let (p_owner, p_next) = f u prev ne o in
    let (c_owner, c_next) = f u cur ne o_cur in
    (p_owner, c_owner, same prev ∙ m, p_next ∙ e, differ, cur_ne, λ end. more (sym c_next ∙ end))

Stepped-to :
    (t : ℕ) (sh : Shared) (xs : List Ptr) (s : Step) (sh' : Shared) (th' : Thread)
    → Outcome t sh xs s
    → s ≡ to sh' th'
    → Stepped t sh xs sh' th'
Stepped-to t sh xs s sh' th' (inl stop) e = cc
Stepped-to t sh xs s sh' th' (inr (sh₂, th₂, e₂, st)) e =
    let same_sh : sh₂ ≡ sh' = cc in let same_th : th₂ ≡ th' = cc in rw (← same_sh, ← same_th) st

not_fault : (t : ℕ) (sh : Shared) (xs : List Ptr) (s : Step) → Outcome t sh xs s → s ≢ fault
not_fault t sh xs s (inl stop) e = cc
not_fault t sh xs s (inr (sh', th', go, st)) e = cc

module _ (program : ℕ → Bool → Shared → Thread → Step) (safe : IsSafe program) (sh : Shared)
    (xs : List Ptr) (chain : Chain sh.next sh.first xs) (nodup : IsNodup xs)
    (some_node : sh.first ≢ null) where
  system-Outcome :
      (a : System) (k : Kept sh xs a) (t : ℕ) (flip : Bool)
      → Outcome t a.shared k.order (program t flip a.shared (a.threads t))
  system-Outcome a k t flip =
      safe t flip a.shared k.order (a.threads t) (rw k.first k.relinked.chain) k.relinked.nodup
        (λ e. some_node (sym k.first ∙ e)) (k.held t)

  Kept-step :
      (a : System) (k : Kept sh xs a) (t : ℕ) (sh' : Shared) (th' : Thread)
      → Stepped t a.shared k.order sh' th'
      → Kept sh xs (record { shared = sh'; threads = λ u. if u == t then th' else a.threads u })
  Kept-step a k t sh' th' st = record {
    order = st.order;
    relinked = record {
      chain = rw k.first at st.relinked.chain;
      nodup = st.relinked.nodup;
      same = λ q. st.relinked.same q ∙ k.relinked.same q;
    };
    first = st.first ∙ k.first;
    lengths = st.lengths ∙ k.lengths;
    held = λ u. elim (Bool-cases (u == t)) [
      | inl here ↦ rw (here, (==_iff u t).0 here) st.held
      | inr other ↦ rw other (
          Held-Frame t u a.shared sh' k.order st.order (a.threads u) (ne_of_== u t other) st.frame
            st.relinked.same (k.held u))
    ];
  }

  pub Reach-Kept : (sys : System) → Reach program (initial sh) sys → Kept sh xs sys
  Reach-Kept sys start = record {
    order = xs;
    relinked = record { chain = chain; nodup = nodup; same = λ q. refl };
    first = refl;
    lengths = refl;
    held = λ t. tt;
  }
  Reach-Kept sys (step a t flip sh' th' r e) =
      let k = Reach-Kept a r in
      Kept-step a k t sh' th' (
        Stepped-to t a.shared k.order (program t flip a.shared (a.threads t)) sh' th'
          (system-Outcome a k t flip) e)

-- Started on a list that is not empty, with all its threads outside of their loops, the program with
-- mutexes reaches only systems in which the list has the nodes that it had, each once, starts with the
-- same node and has the same strings, each thread holds the locks that it relies on, and no thread can
-- go through a null pointer next, whatever `rand` returns to it.
pub mutex_main-Kept :
    (sh : Shared) (xs : List Ptr) (sys : System)
    → Chain sh.next sh.first xs
    → IsNodup xs
    → sh.first ≢ null
    → Reach mutex_main (initial sh) sys
    → Kept sh xs sys
      × ((t : ℕ) (flip : Bool) → mutex_main t flip sys.shared (sys.threads t) ≢ fault)
mutex_main-Kept sh xs sys c d ne r =
    let k = Reach-Kept mutex_main mutex_main-IsSafe sh xs c d ne sys r in
    (
      k,
      λ t flip.
          not_fault t sys.shared k.order _
            (system-Outcome mutex_main mutex_main-IsSafe sh xs c d ne sys k t flip),
    )

-- Started on a list that is not empty, with all its threads outside of their loops, the program
-- with spinlocks reaches only systems in which the list has the nodes that it had, each once,
-- starts with the same node and has the same strings, each thread holds the locks that it relies
-- on, and no thread can go through a null pointer next, whatever `rand` returns to it.
pub spin_main-Kept :
    (sh : Shared) (xs : List Ptr) (sys : System)
    → Chain sh.next sh.first xs
    → IsNodup xs
    → sh.first ≢ null
    → Reach spin_main (initial sh) sys
    → Kept sh xs sys × ((t : ℕ) (flip : Bool) → spin_main t flip sys.shared (sys.threads t) ≢ fault)
spin_main-Kept sh xs sys c d ne r =
    let k = Reach-Kept spin_main spin_main-IsSafe sh xs c d ne sys r in
    (
      k,
      λ t flip.
          not_fault t sys.shared k.order _
            (system-Outcome spin_main spin_main-IsSafe sh xs c d ne sys k t flip),
    )
