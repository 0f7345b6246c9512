-- ===== src/Guest/MassStorage.antt =====
-- usb-wasi-guest/examples/mass-storage/src/mass_storage.rs: a disk that is read and written by bytes at a
-- cursor, through a cache of 128 blocks. A panic is `none`.
pub mod Data
unfoldable pub use Data.*
pub mod Scsi
pub mod Blocks
pub mod Drive
pub mod Reading
pub mod Writing
use masters_sibren_wieme.Prelude.{
  ℕ, zero, suc, ◌+◌, ◌-◌, ◌*◌, ◌/◌, ◌%◌, ◌^◌, min, Bool, true, false, ◌&&◌, Option, none, some,
  List, [], ◌∷◌, ◌++◌, ◌==◌, ltb, if◌then◌else◌, length, take, drop, replicate,
}
use masters_sibren_wieme.Prelude.Int.{ℤ, pos, negsuc}
use masters_sibren_wieme.Guest.BulkOnly.{◌>>=◌}

pub data SeekFrom : Type 0 where
  start_of : ℕ → SeekFrom
  end_of current : ℤ → SeekFrom

-- The new cursor; `u64` wraps.
unfoldable pub moved : ℕ → ℤ → ℕ
moved base (pos offset) = (base + offset) % 2 ^ 64
moved base (negsuc n) = (base + 2 ^ 64 - (n + 1)) % 2 ^ 64

unfoldable pub seek_to : ℕ → ℕ → SeekFrom → ℕ
seek_to capacity cursor (start_of offset) = offset
seek_to capacity cursor (end_of offset) = moved capacity offset
seek_to capacity cursor (current offset) = moved cursor offset

-- The blocks that a read or a write of some bytes touches.
pub record Span : Type 0 where
  pub num_bytes : ℕ
  pub start_block : ℕ
  pub offset_in_start_block : ℕ
  pub end_block : ℕ
  pub num_blocks : ℕ
  pub offset_in_end_block : ℕ

abbrev pub span_between : ℕ → ℕ → ℕ → Span
span_between block_size start_address end_address = record {
  num_bytes = end_address - start_address;
  start_block = start_address / block_size;
  offset_in_start_block = start_address % block_size;
  end_block = (end_address - 1) / block_size;
  num_blocks = (end_address - 1) / block_size - start_address / block_size + 1;
  offset_in_end_block = (end_address - 1) % block_size + 1;
}

abbrev pub is_block : ℕ → CacheEntry → Bool
is_block block item = item.block == block

abbrev pub keep : CacheEntry → CacheEntry
keep item = item

-- The piece of a cached block that goes to the buffer.
unfoldable pub copy_cached : Span → ℕ → List ℕ → List ℕ → Option (List ℕ)
copy_cached span block bytes buf =
    let first_len = wrap_sub 512 span.offset_in_start_block in
    let middle = wrap (first_len + wrap_sub span.start_block block * 512) in
    if (block == span.start_block) && (block == span.end_block)
    then bytes_between span.offset_in_start_block span.offset_in_end_block bytes
      >>= (λ piece. copy_to 0 (length buf) piece buf)
    else if block == span.start_block
    then bytes_between span.offset_in_start_block 512 bytes
      >>= (λ piece. copy_to 0 first_len piece buf)
    else if block == span.end_block
    then bytes_between 0 span.offset_in_end_block bytes
      >>= (λ piece. copy_to (wrap (first_len + (span.num_blocks - 2) * 512)) (length buf) piece buf)
    else copy_to middle (wrap (middle + 512)) bytes buf

-- The state of the loop that finds which blocks to read.
pub record Scan (C : Type 0) : Type 0 where
  pub cache : C
  pub buf : List ℕ
  pub new_range : Option ℕ
  pub ranges : List (ℕ × ℕ)

abbrev pub close_range : Option ℕ → ℕ → List (ℕ × ℕ) → List (ℕ × ℕ)
close_range none block ranges = ranges
close_range (some new_range) block ranges = ranges ++ ((new_range, block) ∷ [])

abbrev pub open_range : Option ℕ → ℕ → Option ℕ
open_range none block = some block
open_range (some new_range) block = some new_range

unfoldable pub scan_found : {C : Type 0} → Span → ℕ → Option CacheEntry → Scan C → Option (Scan C)
scan_found span block none s = some (record s { new_range = open_range s.new_range block })
scan_found span block (some entry) s =
    copy_cached span block entry.bytes s.buf
    >>= (λ buf. some (record s { buf = buf; ranges = close_range s.new_range block s.ranges }))

-- What is copied from the data of a range that was read.
unfoldable pub copy_range : Span → ℕ → ℕ → List ℕ → List ℕ → Option (List ℕ)
copy_range span start stop bytes buf =
    let first_len = wrap_sub 512 span.offset_in_start_block in
    let before = wrap (first_len + wrap_sub (wrap_sub start span.start_block) 1 * 512) in
    let upto = wrap (first_len + wrap_sub (wrap_sub stop span.start_block) 1 * 512) in
    let full = (span.num_blocks - 1) * 512 in
    if (start == span.start_block) && (stop == span.end_block + 1)
    then bytes_between span.offset_in_start_block (full + span.offset_in_end_block) bytes
      >>= (λ piece. copy_to 0 (length buf) piece buf)
    else if start == span.start_block
    then bytes_between span.offset_in_start_block full bytes >>= (λ piece. copy_to 0 upto piece buf)
    else if stop == span.end_block + 1
    then bytes_between 0 (full + span.offset_in_end_block) bytes
      >>= (λ piece. copy_to before (length buf) piece buf)
    else copy_to before upto bytes buf

-- The part of the data that is cached: its last 128 blocks.
unfoldable pub cached_part : List ℕ → List ℕ
cached_part bytes =
    if ltb (512 * 128) (length bytes) then drop (length bytes - 512 * 128) bytes else bytes

abbrev pub set_data : List ℕ → CacheEntry → CacheEntry
set_data bytes item = record item { bytes = bytes }

abbrev pub set_dirty : List ℕ → CacheEntry → CacheEntry
set_dirty bytes item = record item { bytes = bytes; dirty = true }

module _ {C D : Type 0} (caches : LruCache C) (io : BlockIo D) where
  -- `if evicted_entry.dirty { self.write_blocks(block, 1, &evicted_entry.data) }`
  unfoldable pub write_evicted : ℕ → ℕ → Option CacheEntry → D → Option D
  write_evicted block_size block none d = some d
  write_evicted block_size block (some evicted_entry) d =
      if evicted_entry.dirty
      then io.write_blocks block_size block 1 evicted_entry.bytes d
      else some d

  unfoldable pub insert_entry : ℕ → CacheEntry → C → D → Option (C × D)
  insert_entry block_size entry c d =
      let inserted = caches.insert entry c in
      write_evicted block_size entry.block inserted.0 d >>= (λ d'. some (inserted.1, d'))

  -- One block into the cache, where `found` is what `find` gave, with the cache after it.
  unfoldable pub store_block : ℕ → ℕ → List ℕ → Option CacheEntry × C → D → Option (C × D)
  store_block block_size block bytes (some item, c') d = some (c', d)
  store_block block_size block bytes (none, c') d =
      insert_entry block_size (record { block = block; bytes = bytes; dirty = false }) c' d

  unfoldable pub cache_chunk : ℕ → ℕ → List ℕ → C → D → Option (C × D)
  cache_chunk block_size block chunk c d = do
    bytes ← checked_data chunk
    store_block block_size block bytes (caches.find (is_block block) (set_data bytes) c) d

  -- `for (i, chunk) in data[range].chunks(512).enumerate()`; the first argument is an upper bound.
  unfoldable pub cache_chunks : ℕ → ℕ → ℕ → List ℕ → C → D → Option (C × D)
  cache_chunks zero block_size block bytes c d = some (c, d)
  cache_chunks (suc n) block_size block bytes c d =
      let rest =
        cache_chunk block_size block (take 512 bytes) c d
        >>= (λ r. cache_chunks n block_size (wrap (block + 1)) (drop 512 bytes) r.0 r.1) in
      if length bytes == 0 then some (c, d) else rest

  unfoldable pub scan_blocks : ℕ → Span → ℕ → Scan C → Option (Scan C)
  scan_blocks zero span block s = some s
  scan_blocks (suc n) span block s =
      let found = caches.find (is_block block) keep s.cache in
      scan_found span block found.0 (record s { cache = found.1 })
      >>= (λ s'. scan_blocks n span (block + 1) s')

  unfoldable pub read_ranges : ℕ → Span → List (ℕ × ℕ) → List ℕ → C → D → Option (List ℕ × C × D)
  read_ranges block_size span [] buf c d = some (buf, c, d)
  read_ranges block_size span ((start, stop) ∷ ranges) buf c d = do
    (bytes, d1) ← io.read_blocks block_size span.start_block (wrap_sub stop start % 2 ^ 16) d
    (c2, d2) ← cache_chunks (length (cached_part bytes)) block_size start (cached_part bytes) c d1
    buf' ← copy_range span start stop bytes buf
    read_ranges block_size span ranges buf' c2 d2

  abbrev pub ranges_after : Span → Scan C → List (ℕ × ℕ)
  ranges_after span s = close_range s.new_range (span.end_block + 1) s.ranges

  -- `end_address - start_address`, or nothing to do.
  abbrev pub addresses : MassStorageDevice C D → ℕ → ℕ × ℕ
  addresses m len = (wrap m.cursor, wrap (min ((m.cursor + len) % 2 ^ 64) m.properties.capacity))

  unfoldable pub read_span :
      Span → List ℕ → MassStorageDevice C D → Option (ℕ × List ℕ × MassStorageDevice C D)
  read_span span buf m = do
    s ←
        scan_blocks (span.end_block + 1 - span.start_block) span span.start_block
          (record { cache = m.cache; buf = buf; new_range = none; ranges = [] })
    (buf', c, d) ←
        read_ranges m.properties.block_size span (ranges_after span s) s.buf s.cache m.device
    some (
      span.num_bytes,
      buf',
      record m { cache = c; device = d; cursor = (m.cursor + span.num_bytes) % 2 ^ 64 },
    )

  -- `read`: the number of bytes, the buffer after it, and the disk after it.
  unfoldable pub read : List ℕ → MassStorageDevice C D → Option (ℕ × List ℕ × MassStorageDevice C D)
  read buf m =
      let at = addresses m (length buf) in
      if at.1 - at.0 == 0
      then some (0, buf, m)
      else if m.properties.block_size == 0
      then none
      else read_span (span_between m.properties.block_size at.0 at.1) buf m

  -- The block as it is, from the cache or from the device.
  unfoldable pub original_block : ℕ → ℕ → Option CacheEntry → D → Option (List ℕ × D)
  original_block block_size block (some entry) d = some (entry.bytes, d)
  original_block block_size block none d = do
    (original_data, d') ← io.read_blocks block_size block 1 d
    bytes ← checked_data original_data
    some (bytes, d')

  unfoldable pub write_one : ℕ → Span → List ℕ → C → D → Option (C × D)
  write_one block_size span buf c d = do
    let found = caches.find (is_block span.start_block) keep c
    (original, d1) ← original_block block_size span.start_block found.0 d
    bytes ←
        copy_to span.offset_in_start_block (span.offset_in_start_block + length buf) buf original
    store_block block_size span.start_block bytes
        (caches.find (is_block span.start_block) (set_dirty bytes) found.1) d1

  -- One block of a longer write; an entry that is found is given the data of all blocks.
  unfoldable pub store_found : ℕ → ℕ → ℕ → List ℕ → Option CacheEntry → C → D → Option (C × D)
  store_found block_size key i bytes (some item) c d = checked_data bytes >>= (λ _. some (c, d))
  store_found block_size key i bytes none c d = do
    part ← bytes_between (i * 512) ((i + 1) * 512) bytes
    part512 ← checked_data part
    insert_entry block_size (record { block = key; bytes = part512; dirty = false }) c d

  -- `for i in 0..num_blocks`, from `i` on.
  unfoldable pub store_blocks : ℕ → ℕ → ℕ → ℕ → List ℕ → C → D → Option (C × D)
  store_blocks zero block_size start_block i bytes c d = some (c, d)
  store_blocks (suc n) block_size start_block i bytes c d = do
    let key = wrap (start_block + i)
    let found = caches.find (is_block key) (set_data bytes) c
    (c1, d1) ← store_found block_size key i bytes found.0 found.1 d
    store_blocks n block_size start_block (i + 1) bytes c1 d1

  unfoldable pub write_many : ℕ → Span → ℕ → List ℕ → C → D → Option (C × D)
  write_many block_size span num_blocks buf c d = do
    let found_first = caches.find (is_block span.start_block) keep c
    (first, d1) ← original_block block_size span.start_block found_first.0 d
    data1 ← copy_to 0 512 first (replicate (num_blocks * 512) 0)
    let found_last = caches.find (is_block span.end_block) keep found_first.1
    (last, d2) ← original_block block_size span.end_block found_last.0 d1
    data2 ← copy_to (num_blocks * 512 - 512) (num_blocks * 512) last data1
    bytes ← copy_to span.offset_in_start_block (span.offset_in_start_block + length buf) buf data2
    d3 ← io.write_blocks block_size span.start_block num_blocks bytes d2
    store_blocks num_blocks block_size span.start_block 0 bytes found_last.1 d3

  -- `num_blocks` is a u16.
  unfoldable pub write_span :
      Span → List ℕ → MassStorageDevice C D → Option (ℕ × MassStorageDevice C D)
  write_span span buf m =
      let num_blocks = span.num_blocks % 2 ^ 16 in
      let written =
        if num_blocks == 1
        then write_one m.properties.block_size span buf m.cache m.device
        else write_many m.properties.block_size span num_blocks buf m.cache m.device in
      written >>= (λ r. some (
        span.num_bytes,
        record m { cache = r.0; device = r.1; cursor = (m.cursor + span.num_bytes) % 2 ^ 64 },
      ))

  unfoldable pub write : List ℕ → MassStorageDevice C D → Option (ℕ × MassStorageDevice C D)
  write buf m =
      let at = addresses m (length buf) in
      if at.1 - at.0 == 0
      then some (0, m)
      else if m.properties.block_size == 0
      then none
      else write_span (span_between m.properties.block_size at.0 at.1) buf m

  unfoldable pub seek : SeekFrom → MassStorageDevice C D → ℕ × MassStorageDevice C D
  seek position m =
      let cursor = seek_to m.properties.capacity m.cursor position in
      (cursor, record m { cursor = cursor })

  -- `entries_to_write`
  abbrev pub dirty_entries : List CacheEntry → List CacheEntry
  dirty_entries [] = []
  dirty_entries (entry ∷ entries) =
      if entry.dirty then entry ∷ dirty_entries entries else dirty_entries entries

  unfoldable pub write_entries : ℕ → List CacheEntry → D → Option D
  write_entries block_size [] d = some d
  write_entries block_size (entry ∷ entries) d =
      io.write_blocks block_size entry.block 1 entry.bytes d >>= write_entries block_size entries

  -- Also what `flush` and `drop` do.
  unfoldable pub flush_cache : MassStorageDevice C D → Option (MassStorageDevice C D)
  flush_cache m =
      write_entries m.properties.block_size (dirty_entries (caches.iter m.cache)) m.device
      >>= (λ d. some (record m { device = d; cache = caches.clear m.cache }))
