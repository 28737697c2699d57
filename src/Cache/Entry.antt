-- ===== src/Cache/Entry.antt =====
-- caching_http_proxy/caching/httpcache.[ch]: one cache entry, without its links.
--
-- `data_head`, `data_tail` and the chunks between them are the list `chunks`; a chunk is its bytes,
-- and its `size` is their number. Each operation holds `entry->lock` from its first access to its
-- last, so it is a function on the entry. `cache_entry_read` gives the lock up while it waits on
-- `data_ready`: what the other threads have made of the entry by the time each wait returns is an
-- argument. The broadcasts themselves change no field. `malloc` results are arguments.
pub mod Read
pub mod Append
pub mod Wait
use os2_labs.Common.{
  ℕ, ◌+◌, ◌-◌, ◌≡◌, Bool, true, false, ◌&&◌, List, [], ◌∷◌, ◌++◌, ltb, leb, if◌then◌else◌, length,
  take, drop, ℤ, pos, negsuc, u64, u32, sub_u32,
}

pub data EntryState : Type 0 where
  entry_incomplete entry_complete entry_cancelled : EntryState

pub record Entry : Type 0 where
  pub url : List ℕ
  pub chunks : List (List ℕ)
  pub total_size : ℕ
  pub last_access : ℕ
  pub state : EntryState
  pub refcount : ℕ

abbrev pub is_cancelled : EntryState → Bool
is_cancelled entry_cancelled = true
is_cancelled _ = false

abbrev pub is_incomplete : EntryState → Bool
is_incomplete entry_incomplete = true
is_incomplete _ = false

-- The new chunk becomes head and tail of an empty list, or is linked behind the tail.
unfoldable pub link_chunk : List (List ℕ) → List ℕ → List (List ℕ)
link_chunk [] new_chunk = new_chunk ∷ []
link_chunk (c ∷ cs) new_chunk = c ∷ (cs ++ new_chunk ∷ [])

-- The two Booleans say whether the allocations of the chunk and of its bytes succeed.
unfoldable pub cache_entry_append_chunk : (chunk_ok data_ok : Bool) → Entry → List ℕ → Entry × ℤ
unfolding link_chunk
cache_entry_append_chunk chunk_ok data_ok e bytes =
    if is_cancelled e.state
    then (e, negsuc 0)
    else if chunk_ok
    then if data_ok
      then (
        record e {
          chunks = link_chunk e.chunks bytes;
          total_size = u64 (e.total_size + length bytes);
        },
        pos 0,
      )
      else (e, negsuc 0)
    else (e, negsuc 0)

unfoldable pub cache_entry_complete : Entry → Entry
cache_entry_complete e = record e { state = entry_complete }

unfoldable pub cache_entry_release : Entry → Entry
cache_entry_release e = record e { refcount = sub_u32 e.refcount 1 }

unfoldable pub cache_entry_cancel : Entry → Entry
cache_entry_cancel e = record e { state = entry_cancelled }

-- One return of `pthread_cond_timedwait`: whether it reports ETIMEDOUT, and the entry as it is then.
pub record Wake : Type 0 where
  pub timed_out : Bool
  pub entry : Entry

pub data Waited : Type 0 where
  ready : Entry → Waited
  gave_up : Waited
  waiting : Waited

-- The test of the wait loop; `offset` is never negative.
abbrev pub must_wait : ℕ → Entry → Bool
must_wait offset e = leb e.total_size offset && is_incomplete e.state

-- `waiting`: the list of returns is used up and the thread still waits.
unfoldable pub wait_data : ℕ → Entry → List Wake → Waited
wait_data offset e [] = if must_wait offset e then waiting else ready e
wait_data offset e (w ∷ ws) =
    let rest = wait_data offset w.entry ws in
    if must_wait offset e
    then if is_cancelled w.entry.state then gave_up else if w.timed_out then gave_up else rest
    else ready e

-- The starting chunk, and the offset within it.
unfoldable pub find_chunk : List (List ℕ) → ℕ → List (List ℕ) × ℕ
find_chunk [] chunk_offset = ([], chunk_offset)
find_chunk (c ∷ cs) chunk_offset =
    if leb (length c) chunk_offset
    then find_chunk cs (chunk_offset - length c)
    else (c ∷ cs, chunk_offset)

-- What the copy loop writes to the buffer from `bytes_read` on.
unfoldable pub copy_chunks : List (List ℕ) → (chunk_offset bytes_read size : ℕ) → List ℕ
copy_chunks [] chunk_offset bytes_read size = []
copy_chunks (c ∷ cs) chunk_offset bytes_read size =
    let available = length c - chunk_offset in
    let to_read = if ltb (size - bytes_read) available then size - bytes_read else available in
    let rest = copy_chunks cs 0 (bytes_read + to_read) size in
    if ltb bytes_read size then take to_read (drop chunk_offset c) ++ rest else []

pub data ReadResult : Type 0 where
  got : List ℕ → ReadResult
  failed : ReadResult
  blocked : ReadResult

unfoldable pub read_ready : Waited → (offset size : ℕ) → ReadResult
unfolding find_chunk copy_chunks
read_ready waiting offset size = blocked
read_ready gave_up offset size = failed
read_ready (ready e) offset size =
    let (cs, chunk_offset) = find_chunk e.chunks offset in
    if is_cancelled e.state then failed else got (copy_chunks cs chunk_offset 0 size)

-- `got bytes` is a return of their number, with the bytes in the buffer; `failed` is -1.
unfoldable pub cache_entry_read : Entry → List Wake → (offset size : ℕ) → ReadResult
unfolding wait_data read_ready
cache_entry_read e wakes offset size = read_ready (wait_data offset e wakes) offset size
