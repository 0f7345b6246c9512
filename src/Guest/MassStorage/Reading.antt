-- ===== src/Guest/MassStorage/Reading.antt =====
-- Reading bytes of which no block is cached yet, against the bytes of the disk.
pub mod Disk
pub mod Chunks
pub mod Copies
use masters_sibren_wieme.Prelude.{
  ℕ, zero, suc, ◌≡◌, refl, ◌≤◌, ◌<◌, ◌+◌, ◌-◌, ◌*◌, ◌/◌, ◌%◌, ◌^◌, min, Bool, true, false, Option,
  none, some, List, [], ◌∷◌, ◌++◌, ◌==◌, ==_refl, length, take, drop, All, arith, sym, ◌∙◌, subst,
  ap, if◌then◌else◌, append-nil, length-take, length-drop, ne→==_false,
}
use masters_sibren_wieme.Guest.BulkOnly.{◌>>=◌}
use masters_sibren_wieme.Guest.MassStorage.Reading.Disk.{
  IsDisk, blocks_of, bytes_at, length-blocks_of, bytes_at-blocks_of,
}
use masters_sibren_wieme.Guest.MassStorage.Reading.Copies.{span_of, copy_range-whole}
use masters_sibren_wieme.Guest.MassStorage.Reading.Chunks.{IsGood, cache_chunks-IsGood}
use masters_sibren_wieme.Guest.MassStorage.{
  CacheEntry, BlockIo, LruCache, IsDocumented, MassStorageDevice, Span, Scan, first_match,
  bytes_between, copy_to, is_block, keep, span_between, scan_found, scan_blocks, open_range,
  close_range, read_ranges, read_span, read, copy_range, cached_part, cache_chunks,
}

module _ {C D : Type 0} (caches : LruCache C) (documented : IsDocumented caches) (io : BlockIo D)
    (contents : D → ℕ → List ℕ) (total : ℕ) (Ready : D → Type 0)
    (disk : IsDisk io contents total Ready) where
  -- A scan over blocks that are not cached.
  scan_blocks-open :
      (n : ℕ) (span : Span) (block r : ℕ) (c : C) (buf : List ℕ) (ranges : List (ℕ × ℕ))
      → ((k : ℕ) → block ≤ k → k < block + n → first_match (is_block k) (caches.iter c) ≡ none)
      → (c' : C) × (scan_blocks caches io n span block
            (record { cache = c; buf = buf; new_range = some r; ranges = ranges })
          ≡ some (record { cache = c'; buf = buf; new_range = some r; ranges = ranges }))
        × (caches.iter c' ≡ caches.iter c)
  unfolding scan_blocks scan_found
  scan_blocks-open zero span block r c buf ranges absent = (c, refl, refl)
  scan_blocks-open (suc n) span block r c buf ranges absent =
      let c1 = (caches.find (is_block block) keep c).1 in
      let missing = absent block (omega arith) (omega arith) in
      let same : caches.iter c1 ≡ caches.iter c =
        documented.iter_find (is_block block) keep c ∙ rw missing refl in
      let rest =
        scan_blocks-open n span (block + 1) r c1 buf ranges
          (λ k low high. rw same (absent k (omega (arith, low)) (omega (arith, high)))) in
      (rest.0, rw (documented.finds (is_block block) keep c, missing) rest.1, rest.2 ∙ same)

  -- From the start of a scan on.
  scan_blocks-whole :
      (n : ℕ) (span : Span) (block : ℕ) (c : C) (buf : List ℕ)
      → ((k : ℕ) → block ≤ k → k < block + suc n → first_match (is_block k) (caches.iter c) ≡ none)
      → (c' : C) × (scan_blocks caches io
            (suc n)
            span
            block
            (record { cache = c; buf = buf; new_range = none; ranges = [] })
          ≡ some (record { cache = c'; buf = buf; new_range = some block; ranges = [] }))
        × (caches.iter c' ≡ caches.iter c)
  unfolding scan_blocks scan_found
  scan_blocks-whole n span block c buf absent =
      let c1 = (caches.find (is_block block) keep c).1 in
      let missing = absent block (omega arith) (omega arith) in
      let same : caches.iter c1 ≡ caches.iter c =
        documented.iter_find (is_block block) keep c ∙ rw missing refl in
      let rest =
        scan_blocks-open n span (block + 1) block c1 buf []
          (λ k low high. rw same (absent k (omega (arith, low)) (omega (arith, high)))) in
      (rest.0, rw (documented.finds (is_block block) keep c, missing) rest.1, rest.2 ∙ same)

  cached_part-small : (bytes : List ℕ) → length bytes ≤ 512 * 128 → cached_part bytes ≡ bytes
  unfolding cached_part
  cached_part-small bytes small = ground arith

  read_ranges-one :
      (span : Span) (start stop count : ℕ) (bytes buf out : List ℕ) (c c' : C) (d d' : D)
      → (stop + 2 ^ 32 - start) % 2 ^ 32 % 2 ^ 16 ≡ count
      → io.read_blocks 512 span.start_block count d ≡ some (bytes, d')
      → cached_part bytes ≡ bytes
      → cache_chunks caches io (length bytes) 512 start bytes c d' ≡ some (c', d')
      → copy_range span start stop bytes buf ≡ some out
      → read_ranges caches io 512 span ((start, stop) ∷ []) buf c d ≡ some (out, c', d')
  unfolding read_ranges
  read_ranges-one span start stop count bytes buf out c c' d d' counted got part stored copied =
      rw (counted, got, part, stored, copied) refl

  -- Reading the one range of `num` blocks from `start` on that holds the bytes.
  read_ranges-whole :
      (address n : ℕ) (buf : List ℕ) (c : C) (d : D)
      → 0 < n
      → length buf ≡ n
      → address + n < 2 ^ 32
      → address + n ≤ total * 512
      → (span_of address n).num_blocks ≤ 128
      → All (IsGood (contents d)) (caches.iter c)
      → Ready d
      → (c' : C) × (d' : D) × (read_ranges caches io 512
            (span_of address n)
            ((address / 512, (address + n - 1) / 512 + 1) ∷ [])
            buf
            c
            d
          ≡ some (bytes_at (contents d) address n, c', d'))
        × ((k : ℕ) → contents d' k ≡ contents d k)
        × All (IsGood (contents d)) (caches.iter c')
        × Ready d'
  read_ranges-whole address n buf c d filled long small inside few good ready =
      let start = address / 512 in
      let num = (address + n - 1) / 512 - start + 1 in
      let bytes = blocks_of (contents d) start num in
      let count : ((address + n - 1) / 512 + 1 + 2 ^ 32 - start) % 2 ^ 32 % 2 ^ 16 ≡ num =
        omega arith in
      let got = disk.reads start num d ready (omega arith) (omega arith) (omega arith) in
      let size : length bytes ≡ num * 512 =
        length-blocks_of (contents d) (disk.sized d) start num in
      let part : cached_part bytes ≡ bytes = cached_part-small bytes (omega (arith, size, few)) in
      let stored =
        cache_chunks-IsGood (contents d) caches documented io num (length bytes) start c got.0
          (disk.sized d) (omega (arith, size)) (omega arith) good in
      (
        stored.0,
        got.0,
        read_ranges-one (span_of address n) start ((address + n - 1) / 512 + 1) num bytes buf
            (bytes_at (contents d) address n) c stored.0 d got.0 count got.1 part stored.1
            (copy_range-whole address n (contents d) buf (disk.sized d) filled long),
        got.2,
        stored.2,
        got.3,
      )

  read_span-whole :
      (m : MassStorageDevice C D) (buf : List ℕ)
      → m.properties.block_size ≡ 512
      → 0 < length buf
      → m.cursor + length buf < 2 ^ 32
      → m.cursor + length buf ≤ total * 512
      → (span_of m.cursor (length buf)).num_blocks ≤ 128
      → ((k : ℕ)
          → m.cursor / 512 ≤ k
          → k ≤ (m.cursor + length buf - 1) / 512
          → first_match (is_block k) (caches.iter m.cache) ≡ none)
      → All (IsGood (contents m.device)) (caches.iter m.cache)
      → Ready m.device
      → (m' : MassStorageDevice C D) × (read_span caches io (span_of m.cursor (length buf)) buf m
          ≡ some (length buf, bytes_at (contents m.device) m.cursor (length buf), m'))
        × (m'.cursor ≡ m.cursor + length buf)
        × ((k : ℕ) → contents m'.device k ≡ contents m.device k)
        × All (IsGood (contents m.device)) (caches.iter m'.cache)
        × Ready m'.device
  unfolding read_span
  read_span-whole m buf size filled small inside few absent good ready =
      let start = m.cursor / 512 in
      let stop = (m.cursor + length buf - 1) / 512 in
      let scanned =
        scan_blocks-whole (stop - start) (span_of m.cursor (length buf)) start m.cache buf
          (λ k low high. absent k low (omega (arith, high, filled))) in
      let got =
        read_ranges-whole m.cursor (length buf) buf scanned.0 m.device filled refl small inside few
          (subst (All (IsGood (contents m.device))) (sym scanned.2) good) ready in
      let count : stop + 1 - start ≡ suc (stop - start) = omega arith in
      let amount : m.cursor + length buf - m.cursor ≡ length buf = omega arith in
      let next : (m.cursor + length buf) % 2 ^ 64 ≡ m.cursor + length buf = omega arith in
      (
        record m { cache = got.0; device = got.1; cursor = m.cursor + length buf },
        rw (count, scanned.1, size, got.2, amount, next) refl,
        refl,
        got.3,
        got.4,
        got.5,
      )

  read-read_span :
      (m : MassStorageDevice C D) (buf : List ℕ)
      → m.properties.block_size ≡ 512
      → m.cursor + length buf ≤ m.properties.capacity
      → m.cursor + length buf < 2 ^ 32
      → 0 < length buf
      → read caches io buf m ≡ read_span caches io (span_of m.cursor (length buf)) buf m
  unfolding read
  read-read_span m buf size inside small filled =
      let from : m.cursor % 2 ^ 32 ≡ m.cursor = omega arith in
      let upto : min ((m.cursor + length buf) % 2 ^ 64) m.properties.capacity % 2 ^ 32
          ≡ m.cursor + length buf =
        omega arith in
      let some' : (m.cursor + length buf - m.cursor == 0) ≡ false =
        ne→==_false (m.cursor + length buf - m.cursor) 0 (λ e. omega (arith, e)) in
      rw (from, upto, some')
        (subst
          (λ k.
            (if k == 0
              then none
              else read_span caches io (span_between k m.cursor (m.cursor + length buf)) buf m)
            ≡ read_span caches io (span_of m.cursor (length buf)) buf m)
          (sym size) refl)

  -- On a disk of 512-byte blocks, a read that ends within the disk and within the first 4 GiB, that is
  -- not empty, that touches at most 128 blocks, none of which is cached, and that starts with a cache
  -- of clean copies of the disk's blocks, fills the buffer with the disk's bytes from the cursor on,
  -- moves the cursor behind them, leaves the disk as it was, and the cache with clean copies only.
  pub read-bytes_at :
      (m : MassStorageDevice C D) (buf : List ℕ)
      → m.properties.block_size ≡ 512
      → m.properties.capacity ≤ total * 512
      → m.cursor + length buf ≤ m.properties.capacity
      → m.cursor + length buf < 2 ^ 32
      → 0 < length buf
      → (span_of m.cursor (length buf)).num_blocks ≤ 128
      → ((k : ℕ)
          → m.cursor / 512 ≤ k
          → k ≤ (m.cursor + length buf - 1) / 512
          → first_match (is_block k) (caches.iter m.cache) ≡ none)
      → All (IsGood (contents m.device)) (caches.iter m.cache)
      → Ready m.device
      → (m' : MassStorageDevice C D) × (read caches io buf m
          ≡ some (length buf, bytes_at (contents m.device) m.cursor (length buf), m'))
        × (m'.cursor ≡ m.cursor + length buf)
        × ((k : ℕ) → contents m'.device k ≡ contents m.device k)
        × All (IsGood (contents m.device)) (caches.iter m'.cache)
        × Ready m'.device
  read-bytes_at m buf size fits inside small filled few absent good ready =
      let got = read_span-whole m buf size filled small (omega arith) few absent good ready in
      (got.0, read-read_span m buf size inside small filled ∙ got.1, got.2, got.3, got.4, got.5)
