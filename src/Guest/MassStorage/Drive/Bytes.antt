-- ===== src/Guest/MassStorage/Drive/Bytes.antt =====
-- MassStorageDevice on a drive behind the Bulk Only Transport: its reads, and a write with the flush
-- after it, against the bytes of the drive.
use masters_sibren_wieme.Prelude.{
  ℕ, ◌≡◌, ◌≤◌, ◌<◌, ◌+◌, ◌-◌, ◌*◌, ◌/◌, ◌%◌, ◌^◌, none, some, List, ◌==◌, if◌then◌else◌, length,
  All,
}
use masters_sibren_wieme.Guest.BulkOnly.{DeviceHandle}
use masters_sibren_wieme.Guest.BulkOnly.Bytes.{BytesCrate, IsDocumented as IsBytes}
use masters_sibren_wieme.Guest.MassStorage.Scsi.{Scsi, scsi_io}
use masters_sibren_wieme.Guest.MassStorage.Reading.Disk.{bytes_at}
use masters_sibren_wieme.Guest.MassStorage.Reading.Copies.{span_of}
use masters_sibren_wieme.Guest.MassStorage.Reading.Chunks.{IsGood}
use masters_sibren_wieme.Guest.MassStorage.Reading.{read-bytes_at}
use masters_sibren_wieme.Guest.MassStorage.Writing.Entry.{spliced}
use masters_sibren_wieme.Guest.MassStorage.Writing.{write-flush_cache, write-flush_cache-lost}
use masters_sibren_wieme.Guest.MassStorage.Drive.{IsDrive, IsAttached, scsi_io-IsDisk}
use masters_sibren_wieme.Guest.MassStorage.{
  CacheEntry, LruCache, IsDocumented, MassStorageDevice, first_match, is_block, read, write,
  flush_cache,
}

module _ {C S : Type 0} (caches : LruCache C) (documented : IsDocumented caches)
    (h : DeviceHandle S) (b : BytesCrate) (doc : IsBytes b) (contents : S → ℕ → List ℕ) (total : ℕ)
    (Ready : S → Type 0) (drive : IsDrive h b doc contents total Ready) where
  -- The device of the program, on the transport.
  abbrev pub Disk : Type 0
  Disk = MassStorageDevice C (Scsi S)

  abbrev pub on_drive : Disk → ℕ → List ℕ
  on_drive m = contents m.device.host

  -- On a drive of 512-byte blocks that answers READ(10) and WRITE(10) over the transport, and a LUN below
  -- 16, a read that ends within the disk and within the first 4 GiB, that is not empty, that touches at
  -- most 128 blocks, none of which is cached, and that starts with a cache of clean copies of the
  -- drive's blocks, fills the buffer with the drive's bytes from the cursor on, moves the cursor behind
  -- them, and leaves the drive as it was and ready, and the cache with clean copies only.
  pub read-on_drive :
      (m : Disk) (buf : List ℕ)
      → m.properties.block_size ≡ 512
      → m.properties.capacity ≤ total * 512
      → m.cursor + length buf ≤ m.properties.capacity
      → m.cursor + length buf < 2 ^ 32
      → 0 < length buf
      → (span_of m.cursor (length buf)).num_blocks ≤ 128
      → ((k : ℕ)
          → m.cursor / 512 ≤ k
          → k ≤ (m.cursor + length buf - 1) / 512
          → first_match (is_block k) (caches.iter m.cache) ≡ none)
      → All (IsGood (on_drive m)) (caches.iter m.cache)
      → IsAttached h b doc Ready m.device
      → (m' : Disk) × (read caches (scsi_io h b) buf m
          ≡ some (length buf, bytes_at (on_drive m) m.cursor (length buf), m'))
        × (m'.cursor ≡ m.cursor + length buf)
        × ((k : ℕ) → on_drive m' k ≡ on_drive m k)
        × All (IsGood (on_drive m)) (caches.iter m'.cache)
        × IsAttached h b doc Ready m'.device
  read-on_drive =
      read-bytes_at caches documented (scsi_io h b) (λ s. contents s.host) total
        (IsAttached h b doc Ready) (scsi_io-IsDisk h b doc contents total Ready drive)

  -- On such a drive, a write within one block, and a flush after it, when the cache holds clean copies
  -- of the drive only: if the block is cached, the drive's block then has the bytes, and every other
  -- block is as it was, if the write ends within the disk and within the first 4 GiB and is not empty.
  pub write-on_drive :
      (m : Disk) (buf : List ℕ) (e : CacheEntry)
      → m.properties.block_size ≡ 512
      → m.properties.capacity ≤ total * 512
      → m.cursor + length buf ≤ m.properties.capacity
      → m.cursor + length buf < 2 ^ 32
      → 0 < length buf
      → m.cursor % 512 + length buf ≤ 512
      → first_match (is_block (m.cursor / 512)) (caches.iter m.cache) ≡ some e
      → All (IsGood (on_drive m)) (caches.iter m.cache)
      → IsAttached h b doc Ready m.device
      → (m1 : Disk) × (m2 : Disk) × (write caches (scsi_io h b) buf m ≡ some (length buf, m1))
        × (flush_cache caches (scsi_io h b) m1 ≡ some m2)
        × ((k : ℕ)
            → on_drive m2 k ≡ (
                if k == m.cursor / 512
                then spliced (m.cursor % 512) buf (on_drive m (m.cursor / 512))
                else on_drive m k))
        × IsAttached h b doc Ready m2.device
  write-on_drive =
      write-flush_cache caches documented (scsi_io h b) (λ s. contents s.host) total
        (IsAttached h b doc Ready) (scsi_io-IsDisk h b doc contents total Ready drive)

  -- The same when the block is not cached: the write reports that it wrote all bytes, and the flush
  -- succeeds, but the drive is as it was.
  pub write-on_drive-lost :
      (m : Disk) (buf : List ℕ)
      → m.properties.block_size ≡ 512
      → m.properties.capacity ≤ total * 512
      → m.cursor + length buf ≤ m.properties.capacity
      → m.cursor + length buf < 2 ^ 32
      → 0 < length buf
      → m.cursor % 512 + length buf ≤ 512
      → first_match (is_block (m.cursor / 512)) (caches.iter m.cache) ≡ none
      → All (IsGood (on_drive m)) (caches.iter m.cache)
      → IsAttached h b doc Ready m.device
      → (m1 : Disk) × (m2 : Disk) × (write caches (scsi_io h b) buf m ≡ some (length buf, m1))
        × (flush_cache caches (scsi_io h b) m1 ≡ some m2)
        × ((k : ℕ) → on_drive m2 k ≡ on_drive m k)
        × IsAttached h b doc Ready m2.device
  write-on_drive-lost =
      write-flush_cache-lost caches documented (scsi_io h b) (λ s. contents s.host) total
        (IsAttached h b doc Ready) (scsi_io-IsDisk h b doc contents total Ready drive)
