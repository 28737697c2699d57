-- ===== src/Cache/Entry/Append.antt =====
-- `cache_entry_append_chunk` against the entry's bytes as one sequence.
use os2_labs.Common.{
  ℕ, ◌+◌, ◌≤◌, ◌<◌, ◌^◌, ◌≡◌, refl, sym, ap, ◌∙◌, ◌⊎◌, inl, inr, Bool, true, false, List, [], ◌∷◌,
  ◌++◌, arith, length, take, drop, concat, append-nil, append_assoc, length-append, length-drop,
  take-append, take_cong, drop-append_of_le, pos, negsuc,
}
use os2_labs.Cache.Entry.{
  Entry, ready, wait_data, got, cache_entry_read, is_cancelled, link_chunk,
  cache_entry_append_chunk,
}
use os2_labs.Cache.Entry.Read.{read_ready-bytes}

-- `total_size` counts the bytes of the chunks.
abbrev pub IsSized : Entry → Type 0
IsSized e = e.total_size ≡ length (concat e.chunks)

concat-append : (cs ds : List (List ℕ)) → concat (cs ++ ds) ≡ concat cs ++ concat ds
concat-append [] ds = refl
concat-append (c ∷ cs) ds =
    ap (λ r. c ++ r) (concat-append cs ds) ∙ sym (append_assoc c (concat cs) (concat ds))

concat-link_chunk : (cs : List (List ℕ)) (b : List ℕ) → concat (link_chunk cs b) ≡ concat cs ++ b
unfolding link_chunk
concat-link_chunk [] b = append-nil b
concat-link_chunk (c ∷ cs) b =
    ap (λ r. c ++ r) (concat-append cs (b ∷ []) ∙ ap (λ r. concat cs ++ r) (append-nil b))
    ∙ sym (append_assoc c (concat cs) b)

-- On an entry that is not cancelled and whose `total_size` counts its bytes, with memory for the
-- chunk and a sum that fits in a `size_t`, an append returns 0, its bytes stand behind those that
-- were there, and `total_size` still counts them.
pub append_chunk-bytes :
    (e : Entry) (bytes : List ℕ)
    → IsSized e
    → is_cancelled e.state ≡ false
    → e.total_size + length bytes < 2 ^ 64
    → ((cache_entry_append_chunk true true e bytes).1 ≡ pos 0)
      × (concat (cache_entry_append_chunk true true e bytes).0.chunks ≡ concat e.chunks ++ bytes)
      × IsSized (cache_entry_append_chunk true true e bytes).0
unfolding cache_entry_append_chunk
append_chunk-bytes e bytes sized alive fits =
    rw (alive, concat-link_chunk e.chunks bytes)
      (refl, refl, omega (arith, length-append (concat e.chunks) bytes))

-- An append returns -1 exactly when the entry is cancelled or an allocation fails, and the entry is
-- then as it was; else it returns 0.
pub append_chunk-fails :
    (chunk_ok data_ok : Bool) (e : Entry) (bytes : List ℕ)
    → ((is_cancelled e.state ≡ false)
        × (chunk_ok ≡ true)
        × (data_ok ≡ true)
        × ((cache_entry_append_chunk chunk_ok data_ok e bytes).1 ≡ pos 0))
      ⊎ (((is_cancelled e.state ≡ true) ⊎ (chunk_ok ≡ false) ⊎ (data_ok ≡ false))
          × (cache_entry_append_chunk chunk_ok data_ok e bytes ≡ (e, negsuc 0)))
unfolding cache_entry_append_chunk
append_chunk-fails true true e bytes = ground arith
append_chunk-fails true false e bytes = inr (inr (inr refl), ground arith)
append_chunk-fails false data_ok e bytes = inr (inr (inl refl), ground arith)

wait_data-present :
    (e : Entry) (offset : ℕ) → offset < e.total_size → wait_data offset e [] ≡ ready e
unfolding wait_data
wait_data-present e offset h = ground arith

read-present :
    (e : Entry) (offset size : ℕ)
    → is_cancelled e.state ≡ false
    → offset < e.total_size
    → cache_entry_read e [] offset size ≡ got (take size (drop offset (concat e.chunks)))
unfolding cache_entry_read
read-present e offset size alive h =
    rw (wait_data-present e offset h) (read_ready-bytes e offset size alive)

take-drop-append :
    (offset size : ℕ) (xs ys : List ℕ)
    → offset + size ≤ length xs
    → take size (drop offset (xs ++ ys)) ≡ take size (drop offset xs)
take-drop-append offset size xs ys h =
    rw (drop-append_of_le offset xs ys (omega arith), take-append size (drop offset xs) ys)
      (ap (λ (r : List ℕ). take size (drop offset xs) ++ r)
          (take_cong {n = 0} ys (omega (arith, length-drop offset xs)))
        ∙ append-nil _)

pub append_chunk-state :
    (e : Entry) (bytes : List ℕ) → (cache_entry_append_chunk true true e bytes).0.state ≡ e.state
unfolding cache_entry_append_chunk
append_chunk-state e bytes = ground arith

-- On an entry that is not cancelled and whose `total_size` counts its bytes: at least one byte that
-- is there can be read without waiting, and an append that fits in a `size_t` does not change what
-- is read.
pub append_chunk-read :
    (e : Entry) (bytes : List ℕ) (offset size : ℕ)
    → IsSized e
    → is_cancelled e.state ≡ false
    → e.total_size + length bytes < 2 ^ 64
    → 0 < size
    → offset + size ≤ e.total_size
    → (cache_entry_read e [] offset size ≡ got (take size (drop offset (concat e.chunks))))
      × (cache_entry_read (cache_entry_append_chunk true true e bytes).0 [] offset size
          ≡ cache_entry_read e [] offset size)
append_chunk-read e bytes offset size sized alive fits some_bytes inside =
    let e' = (cache_entry_append_chunk true true e bytes).0 in
    let (done, joined, sized') = append_chunk-bytes e bytes sized alive fits in
    let before = read-present e offset size alive (omega arith) in
    let alive' : is_cancelled e'.state ≡ false =
      ap is_cancelled (append_chunk-state e bytes) ∙ alive in
    let longer : length (concat e'.chunks) ≡ length (concat e.chunks) + length bytes =
      ap length joined ∙ length-append (concat e.chunks) bytes in
    (
      before,
      read-present e' offset size alive' (omega arith)
          ∙ ap (λ (r : List ℕ). got (take size (drop offset r))) joined
          ∙ ap got (take-drop-append offset size (concat e.chunks) bytes (omega arith))
          ∙ sym before,
    )
