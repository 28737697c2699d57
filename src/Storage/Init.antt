-- ===== src/Storage/Init.antt =====
-- `init_storage` builds the list that the threads start from.
use os2_labs.Common.{
  ℕ, ◌+◌, ◌<◌, ◌≡◌, ◌≢◌, refl, inl, inr, true, false, some, List, [], ◌∷◌, arith, ◌==◌, Bool-cases,
  ==_refl, ne→==, has, IsNodup, length,
}
use os2_labs.Cache.Lru.Chain.{ne-has}
use os2_labs.Storage.{
  Ptr, null, Stats, Shared, write, generate_rand_len_string, init_loop, init_storage,
}
use os2_labs.Storage.Chain.{Chain, Chain-frame}

-- `calloc` succeeds in each round, with an address that is not in use.
abbrev pub IsFresh : List (Ptr × ℕ) → List Ptr → Type 0
IsFresh [] xs = Unit
IsFresh (r ∷ rs) xs = (r.0 ≢ null) × (has r.0 xs ≡ false) × IsFresh rs (r.0 ∷ xs)

-- The nodes after the rounds, the last first.
abbrev pub pushed : List (Ptr × ℕ) → List Ptr → List Ptr
pushed [] xs = xs
pushed (r ∷ rs) xs = pushed rs (r.0 ∷ xs)

-- The list has the nodes `xs`, each once, and all strings fit their field.
pub record IsStorage (sh : Shared) (xs : List Ptr) : Type 0 where
  pub chain : Chain sh.next sh.first xs
  pub nodup : IsNodup xs
  pub fits : (p : Ptr) → has p xs ≡ true → sh.strlen_of p < 100

init_loop-IsStorage :
    (sh : Shared) (rs : List (Ptr × ℕ)) (xs : List Ptr)
    → IsStorage sh xs
    → IsFresh rs xs
    → (sh' : Shared) × (init_loop sh rs ≡ some sh') × IsStorage sh' (pushed rs xs)
unfolding init_loop generate_rand_len_string
init_loop-IsStorage sh [] xs is fresh = (sh, refl, is)
init_loop-IsStorage sh ((new, rand) ∷ rs) xs is (ne, out, fresh) =
    let sh₁ : Shared = record sh {
      first = new;
      next = write sh.next new sh.first;
      strlen_of = write sh.strlen_of new (generate_rand_len_string rand 100);
    } in
    let kept : Chain sh₁.next sh.first xs =
      Chain-frame sh.next sh₁.next sh.first xs (λ q m. rw (ne-has new q xs out m)) is.chain in
    let (sh', run, is') =
      init_loop-IsStorage sh₁ rs (new ∷ xs)
        (record {
          chain = (refl, ne, rw (==_refl new) kept);
          nodup = (out, is.nodup);
          fits = λ p m. elim (Bool-cases (p == new)) [
            | inl here ↦ rw here (omega arith)
            | inr other ↦ rw other (is.fits p (rw other at m))
          ];
        })
        fresh in
    (sh', rw (ne→== new null ne) run, is')

-- Where `calloc` gives each round an address that is not in use, the storage is a list of as many
-- nodes as there are rounds, the last one first, each once, and each string is shorter than its
-- field.
pub init_storage-IsStorage :
    (stats : Stats) (rounds : List (Ptr × ℕ))
    → IsFresh rounds []
    → (sh : Shared) × (init_storage stats rounds ≡ some sh)
      × IsStorage sh (pushed rounds [])
      × (length (pushed rounds []) ≡ length rounds)
unfolding init_storage
init_storage-IsStorage stats rounds fresh =
    let same : length (pushed rounds []) ≡ length rounds = omega (arith, counted rounds []) in
    let (sh, run, is) =
      init_loop-IsStorage _ rounds [] (record { chain = refl; nodup = tt; fits = λ p m. cc })
        fresh in
    (sh, run, is, same)
  where
    counted : (rs : List (Ptr × ℕ)) (xs : List Ptr) → length (pushed rs xs) ≡ length rs + length xs
    counted [] xs = omega arith
    counted (r ∷ rs) xs = omega (arith, counted rs (r.0 ∷ xs))
