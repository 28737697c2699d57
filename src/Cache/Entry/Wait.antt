-- ===== src/Cache/Entry/Wait.antt =====
-- The waiting of `cache_entry_read`: what it returns after any course of events, and that it ends.
use os2_labs.Common.{
  ℕ, ◌≤◌, ◌<◌, ◌≡◌, ◌≢◌, refl, ap, ◌⊎◌, inl, inr, Bool, true, false, List, [], ◌∷◌, arith,
  Bool-cases, length, take, drop, concat, length-take, length-drop, ◌||◌,
}
use os2_labs.Cache.Entry.{
  Entry, Wake, Waited, ready, gave_up, waiting, must_wait, wait_data, ReadResult, got, failed,
  blocked, read_ready, cache_entry_read, is_cancelled, entry_complete,
}
use os2_labs.Cache.Entry.Append.{IsSized}
use os2_labs.Cache.Entry.Read.{read_ready-bytes}

-- The entry as it is at the call, or at one of the returns of the wait.
abbrev pub Seen : Entry → List Wake → Entry → Type 0
Seen e [] e' = e ≡ e'
Seen e (w ∷ ws) e' = (e ≡ e') ⊎ Seen w.entry ws e'

-- Some return of the wait reports the timeout or finds the entry cancelled.
abbrev pub ends_wait : List Wake → Bool
ends_wait [] = false
ends_wait (w ∷ ws) = w.timed_out || is_cancelled w.entry.state || ends_wait ws

wait_data-ready :
    (offset : ℕ) (e : Entry) (wakes : List Wake) {e' : Entry}
    → wait_data offset e wakes ≡ ready e'
    → Seen e wakes e' × (must_wait offset e' ≡ false)
unfolding wait_data
wait_data-ready offset e [] {e'} h = elim (Bool-cases (must_wait offset e)) [
  | inl stop ↦ cc (rw stop at h)
  | inr go ↦ let same : e ≡ e' = cc (rw go at h) in (same, rw (← same) go)
]
wait_data-ready offset e (w ∷ ws) {e'} h = elim (Bool-cases (must_wait offset e)) [
  | inl stop ↦
      let (seen, test) = wait_data-ready offset w.entry ws (rest_ready stop) in (inr seen, test)
  | inr go ↦ let same : e ≡ e' = cc (rw go at h) in (inl same, rw (← same) go)
]
  where
    rest_ready : must_wait offset e ≡ true → wait_data offset w.entry ws ≡ ready e'
    rest_ready stop = ground arith

wait_data-ends :
    (offset : ℕ) (e : Entry) (wakes : List Wake)
    → ends_wait wakes ≡ true
    → wait_data offset e wakes ≢ waiting
unfolding wait_data
wait_data-ends offset e [] h = cc
wait_data-ends offset e (w ∷ ws) h = ground (arith, wait_data-ends offset w.entry ws)

wait_data-gave_up :
    (offset : ℕ) (e : Entry) (wakes : List Wake)
    → wait_data offset e wakes ≡ gave_up
    → ends_wait wakes ≡ true
unfolding wait_data
wait_data-gave_up offset e [] h = ground arith
wait_data-gave_up offset e (w ∷ ws) h = ground (arith, wait_data-gave_up offset w.entry ws)

read_ready-failed :
    (e : Entry) (offset size : ℕ)
    → is_cancelled e.state ≡ true
    → read_ready (ready e) offset size ≡ failed
unfolding read_ready
read_ready-failed e offset size gone = rw gone

-- The bytes that a finished wait leads to.
read_ready-got :
    (e : Entry) (offset size : ℕ) {bytes : List ℕ}
    → read_ready (ready e) offset size ≡ got bytes
    → (is_cancelled e.state ≡ false) × (bytes ≡ take size (drop offset (concat e.chunks)))
read_ready-got e offset size h = elim (Bool-cases (is_cancelled e.state)) [
  | inl gone ↦ cc (read_ready-failed e offset size gone)
  | inr alive ↦ (alive, cc (read_ready-bytes e offset size alive))
]

-- Whatever happens while a read waits: if it returns bytes, then they are those from the offset on,
-- at most as many as asked for, of the entry as it was at the call or at one of the returns of the
-- wait, and that entry was not cancelled and had bytes past the offset or was complete.
pub cache_entry_read-got :
    (e : Entry) (wakes : List Wake) (offset size : ℕ) {bytes : List ℕ}
    → cache_entry_read e wakes offset size ≡ got bytes
    → (e' : Entry) × Seen e wakes e'
      × (must_wait offset e' ≡ false)
      × (is_cancelled e'.state ≡ false)
      × (bytes ≡ take size (drop offset (concat e'.chunks)))
unfolding cache_entry_read
cache_entry_read-got e wakes offset size {bytes} h = go (wait_data offset e wakes) refl h
  where
    go :
        (r : Waited)
        → wait_data offset e wakes ≡ r
        → read_ready r offset size ≡ got bytes
        → (e' : Entry) × Seen e wakes e'
          × (must_wait offset e' ≡ false)
          × (is_cancelled e'.state ≡ false)
          × (bytes ≡ take size (drop offset (concat e'.chunks)))
    go (ready e') p q =
        let (seen, test) = wait_data-ready offset e wakes p in
        let (alive, same) = read_ready-got e' offset size q in (e', seen, test, alive, same)
    go gave_up p q = cc
    go waiting p q = cc

read_ready-blocked :
    (r : Waited) (offset size : ℕ) → read_ready r offset size ≡ blocked → r ≡ waiting
read_ready-blocked waiting offset size h = refl
read_ready-blocked gave_up offset size h = unfold read_ready in cc h
read_ready-blocked (ready e) offset size h = elim (Bool-cases (is_cancelled e.state)) [
  | inl gone ↦ cc (read_ready-failed e offset size gone)
  | inr alive ↦ cc (read_ready-bytes e offset size alive)
]

-- A read returns once some wait ends by the timeout or finds the entry cancelled: it does not wait
-- for ever then, whatever else happens, but fails or returns bytes.
pub cache_entry_read-returns :
    (e : Entry) (wakes : List Wake) (offset size : ℕ)
    → ends_wait wakes ≡ true
    → (cache_entry_read e wakes offset size ≡ failed)
      ⊎ ((bytes : List ℕ) × (cache_entry_read e wakes offset size ≡ got bytes))
cache_entry_read-returns e wakes offset size over = go (cache_entry_read e wakes offset size) refl
  where
    go :
        (r : ReadResult)
        → cache_entry_read e wakes offset size ≡ r
        → (cache_entry_read e wakes offset size ≡ failed)
          ⊎ ((bytes : List ℕ) × (cache_entry_read e wakes offset size ≡ got bytes))
    go (got bytes) p = inr (bytes, p)
    go failed p = inl p
    go blocked p = absurd (
        wait_data-ends offset e wakes over (
          read_ready-blocked (wait_data offset e wakes) offset size (unfold cache_entry_read in p)))

-- A read fails only because a wait ended by the timeout or found the entry cancelled, or because the
-- entry was cancelled at the call or at one of the returns of the wait.
pub cache_entry_read-failed :
    (e : Entry) (wakes : List Wake) (offset size : ℕ)
    → cache_entry_read e wakes offset size ≡ failed
    → (ends_wait wakes ≡ true) ⊎ ((e' : Entry) × Seen e wakes e' × (is_cancelled e'.state ≡ true))
unfolding cache_entry_read
cache_entry_read-failed e wakes offset size h = fails (wait_data offset e wakes) refl h
  where
    fails :
        (r : Waited)
        → wait_data offset e wakes ≡ r
        → read_ready r offset size ≡ failed
        → (ends_wait wakes ≡ true)
          ⊎ ((e' : Entry) × Seen e wakes e' × (is_cancelled e'.state ≡ true))
    fails (ready e') p q = elim (Bool-cases (is_cancelled e'.state)) [
      | inl gone ↦ inr (e', (wait_data-ready offset e wakes p).0, gone)
      | inr alive ↦ cc (read_ready-bytes e' offset size alive)
    ]
    fails gave_up p q = inl (wait_data-gave_up offset e wakes p)
    fails waiting p q = cc

-- Where `total_size` counts the bytes of the entry at every moment that the reader looks at it, a
-- read of at least one byte returns none only at the end: the entry that it read was complete, and
-- the offset is not before its end.
pub cache_entry_read-end :
    (e : Entry) (wakes : List Wake) (offset size : ℕ)
    → ((e' : Entry) → Seen e wakes e' → IsSized e')
    → 0 < size
    → cache_entry_read e wakes offset size ≡ got []
    → (e' : Entry) × Seen e wakes e'
      × (e'.state ≡ entry_complete)
      × (length (concat e'.chunks) ≤ offset)
cache_entry_read-end e wakes offset size sized some_bytes h =
    let (e', seen, test, alive, bytes) = cache_entry_read-got e wakes offset size h in
    let past : length (concat e'.chunks) ≤ offset = past_end (concat e'.chunks) (ap length bytes) in
    (e', seen, complete e' (sized e' seen) past test alive, past)
  where
    past_end : (xs : List ℕ) → 0 ≡ length (take size (drop offset xs)) → length xs ≤ offset
    past_end xs p = omega (arith, length-take size (drop offset xs), length-drop offset xs)

    complete :
        (e' : Entry)
        → IsSized e'
        → length (concat e'.chunks) ≤ offset
        → must_wait offset e' ≡ false
        → is_cancelled e'.state ≡ false
        → e'.state ≡ entry_complete
    complete e' exact past test alive = ground arith
