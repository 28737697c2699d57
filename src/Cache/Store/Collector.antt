-- ===== src/Cache/Store/Collector.antt =====
-- caching_http_proxy/caching/httpcache.c: the thread that runs the collector.
use os2_labs.Common.{
  ◌≡◌, ap, ◌∙◌, inl, inr, Bool, true, false, Option, none, some, List, [], ◌∷◌, ◌++◌, if◌then◌else◌,
  Bool-cases, All,
}
use os2_labs.Cache.Lru.{Ptr}
use os2_labs.Cache.Store.{Cache, cleanup_cancelled_entries}
use os2_labs.Cache.Store.Invariant.{IsCache}
use os2_labs.Cache.Store.Sweep.{cleanup_cancelled_entries-IsCache}

-- For each wait of the collector what the other threads do to the cache meanwhile; the result says whether
-- the thread has ended.
unfoldable pub collector_thread_func : List (Cache → Cache) → Cache → Option (Cache × Bool)
collector_thread_func [] c = some (c, false)
collector_thread_func (others ∷ waits) c =
    if (others c).collector_running
    then elim (cleanup_cancelled_entries (others c)) [
      | none ↦ none
      | some c' ↦ collector_thread_func waits c'
    ]
    else some (others c, true)

-- What the other threads do keeps the invariant of the cache.
unfoldable pub Keeps : (Cache → Cache) → Type 0
Keeps others = (c : Cache) (xs : List Ptr) → IsCache c xs → (ys : List Ptr) × IsCache (others c) ys

module _ (others : Cache → Cache) (waits : List (Cache → Cache)) (c : Cache) where
  wait_stopped :
      (others c).collector_running ≡ false
      → collector_thread_func (others ∷ waits) c ≡ some (others c, true)
  unfolding collector_thread_func
  wait_stopped off =
      ap
        (λ (t : Bool).
          if t
          then elim (cleanup_cancelled_entries (others c)) [
            | none ↦ none
            | some c' ↦ collector_thread_func waits c'
          ]
          else some (others c, true))
        off

  wait_over :
      (c₁ : Cache)
      → (others c).collector_running ≡ true
      → cleanup_cancelled_entries (others c) ≡ some c₁
      → collector_thread_func (others ∷ waits) c ≡ collector_thread_func waits c₁
  unfolding collector_thread_func
  wait_over c₁ on run =
      ap
        (λ (t : Bool).
          if t
          then elim (cleanup_cancelled_entries (others c)) [
            | none ↦ none
            | some c' ↦ collector_thread_func waits c'
          ]
          else some (others c, true))
        on
      ∙ ap
          (λ (o : Option Cache). elim o as (λ _. Option (Cache × Bool)) [
            | none ↦ none
            | some c' ↦ collector_thread_func waits c'
          ])
          run

-- If what the other threads do in each wait keeps the invariant of the cache, and what they do in a later wait
-- clears the flag of the collector: the thread ends without a fault, after a wait that found the flag
-- clear, and the invariant holds.
pub collector_thread_func-ends :
    (waits : List (Cache → Cache)) (stop : Cache → Cache) (later : List (Cache → Cache))
    → All Keeps waits
    → Keeps stop
    → ((c : Cache) → (stop c).collector_running ≡ false)
    → (c : Cache) (xs : List Ptr) → IsCache c xs
    → (c' : Cache) × (collector_thread_func (waits ++ stop ∷ later) c ≡ some (c', true))
      × (c'.collector_running ≡ false)
      × ((ys : List Ptr) × IsCache c' ys)
unfolding Keeps
collector_thread_func-ends [] stop later all keeps stops c xs is =
    (stop c, wait_stopped stop later c (stops c), stops c, keeps c xs is)
collector_thread_func-ends (others ∷ waits) stop later (keep, all) keeps stops c xs is =
    let (ys, is') = keep c xs is in
    elim (Bool-cases ((others c).collector_running)) [
      | inl on ↦
          let (c₁, run, (zs, is₁), _) = cleanup_cancelled_entries-IsCache (others c) ys is' in
          let (c', whole, flag, kept) =
            collector_thread_func-ends waits stop later all keeps stops c₁ zs is₁ in
          (c', wait_over others (waits ++ stop ∷ later) c c₁ on run ∙ whole, flag, kept)
      | inr off ↦ (others c, wait_stopped others (waits ++ stop ∷ later) c off, off, (ys, is'))
    ]
