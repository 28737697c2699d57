-- ===== src/Locks/Sums.antt =====
-- Sums over the threads.
use os2_labs.Common.{
  ℕ, zero, suc, ◌+◌, ◌*◌, ◌≤◌, ◌<◌, ◌≡◌, refl, inl, inr, false, arith, ◌==◌, Bool-cases, ==_iff,
  ne_of_==, ne→==,
}

-- The sum over the threads below `n`.
abbrev pub sum : (ℕ → ℕ) → ℕ → ℕ
sum f zero = 0
sum f (suc n) = sum f n + f n

pub sum-update :
    (f g : ℕ → ℕ) (t n : ℕ)
    → t < n
    → ((u : ℕ) → (u == t) ≡ false → g u ≡ f u)
    → sum g n + f t ≡ sum f n + g t
sum-update f g t zero lt same = absurd (omega arith)
sum-update f g t (suc n) lt same = elim (Bool-cases (n == t)) [
  | inl here ↦
      let e : n ≡ t = (==_iff n t).0 here in
      let rest : sum g n ≡ sum f n = below n (omega arith) in rw (← e) (omega (arith, rest))
  | inr other ↦
      let ne = ne_of_== n t other in
      omega (arith, sum-update f g t n (omega arith) same, same n other)
]
  where
    below : (m : ℕ) → m ≤ t → sum g m ≡ sum f m
    below zero le = refl
    below (suc m) le = omega (arith, below m (omega arith), same m (ne→== m t (λ e. omega arith)))

pub sum_one : (f : ℕ → ℕ) (t n : ℕ) → t < n → f t ≤ sum f n
sum_one f t zero lt = absurd (omega arith)
sum_one f t (suc n) lt = elim (Bool-cases (n == t)) [
  | inl here ↦ rw (← (==_iff n t).0 here) (omega arith)
  | inr other ↦ let ne = ne_of_== n t other in omega (arith, sum_one f t n (omega arith))
]

pub sum_two : (f : ℕ → ℕ) (t u n : ℕ) → t < u → u < n → f t + f u ≤ sum f n
sum_two f t u zero lt u_lt = absurd (omega arith)
sum_two f t u (suc n) lt u_lt = elim (Bool-cases (n == u)) [
  | inl here ↦
      let e : n ≡ u = (==_iff n u).0 here in rw (← e) (omega (arith, sum_one f t n (omega arith)))
  | inr other ↦ let ne = ne_of_== n u other in omega (arith, sum_two f t u n lt (omega arith))
]

pub sum_const : (f : ℕ → ℕ) (c n : ℕ) → ((t : ℕ) → t < n → f t ≡ c) → sum f n ≡ n * c
sum_const f c zero same = omega arith
sum_const f c (suc n) same =
    let ih = sum_const f c n (λ t lt. same t (omega arith)) in
    let last = same n (omega arith) in
    let e : suc n * c ≡ n * c + c = omega arith in omega (arith, ih, last, e)
