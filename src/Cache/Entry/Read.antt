-- ===== src/Cache/Entry/Read.antt =====
-- `cache_entry_read` against the entry's bytes as one sequence, and its waiting.
use os2_labs.Common.{
  ℕ, ◌+◌, ◌-◌, ◌≤◌, ◌≡◌, refl, sym, ap, ◌∙◌, inl, inr, false, List, [], ◌∷◌, ◌++◌, arith, ltb, leb,
  if◌then◌else◌, Bool-cases, length, take, drop, concat, length-drop, take-append, take_all,
  take_cong, drop-append, drop-append_of_le, take-nil, drop-nil,
}
use os2_labs.Cache.Entry.{Entry, ready, find_chunk, copy_chunks, got, read_ready, is_cancelled}

-- Dropping to the offset within the chunk that the first loop finds drops to the offset.
pub find_chunk-drop :
    (cs : List (List ℕ)) (offset : ℕ)
    → drop (find_chunk cs offset).1 (concat (find_chunk cs offset).0) ≡ drop offset (concat cs)
unfolding find_chunk
find_chunk-drop [] offset = refl
find_chunk-drop (c ∷ cs) offset = elim (Bool-cases (leb (length c) offset)) [
  | inl past ↦ rw past (
      find_chunk-drop cs (offset - length c)
      ∙ sym (drop-append offset c (concat cs) (ground arith)))
  | inr here ↦ rw here
]

-- The offset lies within the first chunk.
abbrev pub Within : List (List ℕ) → ℕ → Type 0
Within [] off = Unit
Within (c ∷ cs) off = off ≤ length c

Within-zero : (cs : List (List ℕ)) → Within cs 0
Within-zero [] = tt
Within-zero (c ∷ cs) = omega arith

pub find_chunk-Within :
    (cs : List (List ℕ)) (offset : ℕ) → Within (find_chunk cs offset).0 (find_chunk cs offset).1
unfolding find_chunk
find_chunk-Within [] offset = tt
find_chunk-Within (c ∷ cs) offset = elim (Bool-cases (leb (length c) offset)) [
  | inl past ↦ rw past (find_chunk-Within cs (offset - length c))
  | inr here ↦ rw here (ground arith)
]

-- One round of the copy loop, on what the chunk still holds.
take-split :
    (d rest : List ℕ) (r k : ℕ)
    → k ≡ (if ltb r (length d) then r else length d)
    → take k d ++ take (r - k) rest ≡ take r (d ++ rest)
take-split d rest r k e = elim (Bool-cases (ltb r (length d))) [
  | inl less ↦ rw (take-append r d rest) (
      ap (λ (k : ℕ). take k d ++ take (r - k) rest) (e ∙ rw less)
      ∙ ap (λ (k : ℕ). take r d ++ take k rest) (ground arith))
  | inr more ↦
      let k_eq : k ≡ length d = e ∙ rw more in
      rw (
        k_eq,
        take-append r d rest,
        take_all (length d) d (omega arith),
        take_all r d (ground arith),
      )
]

-- The copy loop takes what is still wanted from the bytes behind the offset.
pub copy_chunks-take :
    (cs : List (List ℕ)) (off read size : ℕ)
    → Within cs off
    → copy_chunks cs off read size ≡ take (size - read) (drop off (concat cs))
unfolding copy_chunks
copy_chunks-take [] off read size w = sym (ap (take (size - read)) (drop-nil off) ∙ take-nil _)
copy_chunks-take (c ∷ cs) off read size w = elim (Bool-cases (ltb read size)) [
  | inl more ↦
      rw (more, copy_chunks-take cs 0 (read + to_read) size (Within-zero cs))
        (ap (λ (k : ℕ). take to_read (drop off c) ++ take k (concat cs)) (omega arith)
          ∙ take-split (drop off c) (concat cs) (size - read) to_read (rw (length-drop off c))
          ∙ ap (take (size - read)) (sym (drop-append_of_le off c (concat cs) w)))
  | inr full ↦ rw full (sym (take_cong {n = 0} (drop off (c ++ concat cs)) (ground arith)))
]
  where
    to_read : ℕ
    to_read = if ltb (size - read) (length c - off) then size - read else length c - off

-- Once the wait is over, a read of an entry that is not cancelled returns the bytes of its chunks,
-- joined, from the offset on and at most as many as asked for.
pub read_ready-bytes :
    (e : Entry) (offset size : ℕ)
    → is_cancelled e.state ≡ false
    → read_ready (ready e) offset size ≡ got (take size (drop offset (concat e.chunks)))
unfolding read_ready
read_ready-bytes e offset size alive =
    rw
      (
        alive,
        copy_chunks-take (find_chunk e.chunks offset).0 (find_chunk e.chunks offset).1 0 size
            (find_chunk-Within e.chunks offset),
        find_chunk-drop e.chunks offset,
      )
      (ap got (take_cong (drop offset (concat e.chunks)) (omega arith)))
