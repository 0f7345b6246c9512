-- ===== src/Guest/MassStorage/Writing.antt =====
-- Writing bytes within one block, and what a flush then makes of them.
pub mod Entry
use masters_sibren_wieme.Prelude.{
  ℕ, ◌≡◌, refl, ◌≤◌, ◌<◌, ◌+◌, ◌-◌, ◌*◌, ◌/◌, ◌%◌, ◌^◌, min, true, false, ◌&&◌, leb, Option, none,
  some, List, [], ◌∷◌, ◌++◌, ◌==◌, ==_iff, length, take, drop, All, arith, sym, ◌∙◌, subst, ap,
  if◌then◌else◌, append-nil, length-append, length-take, length-drop, ne→==_false,
}
use masters_sibren_wieme.Guest.MassStorage.Reading.Disk.{IsDisk, blocks_of}
use masters_sibren_wieme.Guest.MassStorage.Reading.Copies.{span_of}
use masters_sibren_wieme.Guest.MassStorage.Reading.Chunks.{
  IsGood, All-take, All-first_match, first_match-IsOfBlock, write_evicted-clean, All-get_elem?,
  IsOfBlock, IsGoodOption,
}
use masters_sibren_wieme.Guest.MassStorage.{
  CacheEntry, BlockIo, LruCache, IsDocumented, MassStorageDevice, Span, first_match, remove_match,
  put_front, copy_to, is_block, keep, checked_data, set_dirty, dirty_entries, write_entries,
  flush_cache, insert_entry, store_block, original_block, write_one, write_span, write,
}
use masters_sibren_wieme.Guest.MassStorage.Writing.Entry.{
  spliced, length-spliced, clean-dirty_entries, write_one-missed, write_one-cached,
}

module _ {C D : Type 0} (caches : LruCache C) (documented : IsDocumented caches) (io : BlockIo D)
    (contents : D → ℕ → List ℕ) (total : ℕ) (Ready : D → Type 0)
    (disk : IsDisk io contents total Ready) where
  write-write_one :
      (m : MassStorageDevice C D) (buf : List ℕ) (c : C) (d : D)
      → m.properties.block_size ≡ 512
      → m.cursor + length buf ≤ m.properties.capacity
      → m.cursor + length buf < 2 ^ 32
      → 0 < length buf
      → m.cursor % 512 + length buf ≤ 512
      → write_one caches io 512 (span_of m.cursor (length buf)) buf m.cache m.device ≡ some (c, d)
      → write caches io buf m
        ≡ some (length buf, record m { cache = c; device = d; cursor = m.cursor + length buf })
  unfolding write write_span
  write-write_one m buf c d size inside small filled within wrote =
      let from : m.cursor % 2 ^ 32 ≡ m.cursor = omega arith in
      let upto : min ((m.cursor + length buf) % 2 ^ 64) m.properties.capacity % 2 ^ 32
          ≡ m.cursor + length buf =
        omega arith in
      let some' : (m.cursor + length buf - m.cursor == 0) ≡ false =
        ne→==_false (m.cursor + length buf - m.cursor) 0 (λ e. omega (arith, e)) in
      let one : ((m.cursor + length buf - 1) / 512 - m.cursor / 512 + 1) % 2 ^ 16 ≡ 1 =
        omega arith in
      let amount : m.cursor + length buf - m.cursor ≡ length buf = omega arith in
      let next : (m.cursor + length buf) % 2 ^ 64 ≡ m.cursor + length buf = omega arith in
      rw (from, upto, some', size, one, wrote, amount, next) refl

  -- With no dirty entry, a flush writes nothing.
  flush_cache-clean :
      (m : MassStorageDevice C D)
      → dirty_entries caches io (caches.iter m.cache) ≡ []
      → flush_cache caches io m ≡ some (record m { cache = caches.clear m.cache })
  unfolding flush_cache write_entries
  flush_cache-clean m clean = rw clean refl

  flush_cache-one :
      (m : MassStorageDevice C D) (block : ℕ) (bytes : List ℕ) (d : D)
      → m.properties.block_size ≡ 512
      → dirty_entries caches io (caches.iter m.cache)
        ≡ record { block = block; bytes = bytes; dirty = true } ∷ []
      → io.write_blocks 512 block 1 bytes m.device ≡ some d
      → flush_cache caches io m ≡ some (record m { device = d; cache = caches.clear m.cache })
  unfolding flush_cache write_entries
  flush_cache-one m block bytes d size dirty wrote = rw (dirty, size, wrote) refl

  -- A write within one block of a disk of 512-byte blocks, and a flush after it, when the cache holds
  -- clean copies of the disk only: if the block is cached, the disk's block then has the bytes, and
  -- every other block is as it was.
  pub write-flush_cache :
      (m : MassStorageDevice C D) (buf : List ℕ) (e : CacheEntry)
      → m.properties.block_size ≡ 512
      → m.properties.capacity ≤ total * 512
      → m.cursor + length buf ≤ m.properties.capacity
      → m.cursor + length buf < 2 ^ 32
      → 0 < length buf
      → m.cursor % 512 + length buf ≤ 512
      → first_match (is_block (m.cursor / 512)) (caches.iter m.cache) ≡ some e
      → All (IsGood (contents m.device)) (caches.iter m.cache)
      → Ready m.device
      → (m1 : MassStorageDevice C D) × (m2 : MassStorageDevice C D) × (write caches io buf m
          ≡ some (length buf, m1))
        × (flush_cache caches io m1 ≡ some m2)
        × ((k : ℕ)
            → contents m2.device k ≡ (
                if k == m.cursor / 512
                then spliced (m.cursor % 512) buf (contents m.device (m.cursor / 512))
                else contents m.device k))
        × Ready m2.device
  write-flush_cache m buf e size fits inside small filled within cached good ready =
      let block = m.cursor / 512 in
      let bytes = spliced (m.cursor % 512) buf (contents m.device block) in
      let rest = remove_match (is_block block) (caches.iter m.cache) in
      let stored =
        write_one-cached caches documented io contents total Ready disk m.cursor buf m.cache
          m.device e within cached good in
      let m1 : MassStorageDevice C D = record m {
        cache = stored.0;
        device = m.device;
        cursor = m.cursor + length buf;
      } in
      let wrote = disk.writes block bytes m.device ready (omega arith) (
        length-spliced (m.cursor % 512) buf (contents m.device block)
          (omega (arith, disk.sized m.device block, within))
        ∙ disk.sized m.device block) in
      let clean : dirty_entries caches io rest ≡ [] =
        clean-dirty_entries caches documented io contents total Ready disk (contents m.device) rest
          (All-first_match (contents m.device) (is_block block) (caches.iter m.cache) good).1 in
      let dirty : dirty_entries caches io (caches.iter stored.0)
          ≡ record { block = block; bytes = bytes; dirty = true } ∷ [] =
        ap (dirty_entries caches io) stored.2
        ∙ ap (λ es. record { block = block; bytes = bytes; dirty = true } ∷ es) clean in
      (
        m1,
        record m1 { device = wrote.0; cache = caches.clear stored.0 },
        write-write_one m buf stored.0 m.device size inside small filled within stored.1,
        flush_cache-one m1 block bytes wrote.0 size dirty wrote.1,
        wrote.2,
        wrote.3,
      )

  -- The same when the block is not cached: the write reports that it wrote all bytes, and the flush
  -- succeeds, but the disk is as it was.
  pub write-flush_cache-lost :
      (m : MassStorageDevice C D) (buf : List ℕ)
      → m.properties.block_size ≡ 512
      → m.properties.capacity ≤ total * 512
      → m.cursor + length buf ≤ m.properties.capacity
      → m.cursor + length buf < 2 ^ 32
      → 0 < length buf
      → m.cursor % 512 + length buf ≤ 512
      → first_match (is_block (m.cursor / 512)) (caches.iter m.cache) ≡ none
      → All (IsGood (contents m.device)) (caches.iter m.cache)
      → Ready m.device
      → (m1 : MassStorageDevice C D) × (m2 : MassStorageDevice C D) × (write caches io buf m
          ≡ some (length buf, m1))
        × (flush_cache caches io m1 ≡ some m2)
        × ((k : ℕ) → contents m2.device k ≡ contents m.device k)
        × Ready m2.device
  write-flush_cache-lost m buf size fits inside small filled within missing good ready =
      let stored =
        write_one-missed caches documented io contents total Ready disk m.cursor buf m.cache
          m.device ready within (omega arith) missing good in
      let m1 : MassStorageDevice C D = record m {
        cache = stored.0;
        device = stored.1;
        cursor = m.cursor + length buf;
      } in
      (
        m1,
        record m1 { cache = caches.clear stored.0 },
        write-write_one m buf stored.0 stored.1 size inside small filled within stored.2,
        flush_cache-clean m1 stored.4,
        stored.3,
        stored.5,
      )
