-- ===== src/Guest/MassStorage/Drive/Tests.antt =====
-- A cache that is a list, a drive of four blocks behind the transport, which is a bus that hands back
-- zeros for the bytes that go out, as the host does, and the theorems of the disk on them.
use masters_sibren_wieme.Prelude.{
  ℕ, ◌≡◌, refl, ◌+◌, ◌*◌, ◌^◌, false, Option, some, List, [], ◌∷◌, ◌++◌, ◌==◌, if◌then◌else◌,
  length, length-replicate, take, get_elem?, get_or, replicate, All, arith, Bool-cases, inl, inr,
  ap, ◌∙◌, sym, length-append, length-take, take-append_self,
}
use masters_sibren_wieme.Guest.BulkOnly.{DeviceHandle, inward, outward, exchange}
use masters_sibren_wieme.Guest.BulkOnly.Frames.{frame, status_frame, u32_of, u32_of-le_bytes}
use masters_sibren_wieme.Guest.BulkOnly.Samples.{bytes_crate, bytes_crate-IsDocumented, disk}
use masters_sibren_wieme.Guest.MassStorage.Blocks.{be_bytes-value}
use masters_sibren_wieme.Guest.MassStorage.Reading.Disk.{blocks_of, bytes_at}
use masters_sibren_wieme.Guest.MassStorage.Reading.Chunks.{IsGood}
use masters_sibren_wieme.Guest.MassStorage.Writing.Entry.{spliced}
use masters_sibren_wieme.Guest.MassStorage.Scsi.{Scsi, scsi_io}
use masters_sibren_wieme.Guest.MassStorage.Drive.{IsDrive, IsAttached, block_wrapper}
use masters_sibren_wieme.Guest.MassStorage.Drive.Bytes.{
  read-on_drive, write-on_drive, write-on_drive-lost,
}
use masters_sibren_wieme.Guest.MassStorage.{
  CacheEntry, LruCache, IsDocumented, MassStorageDevice, first_match, remove_match, put_front, read,
  write, flush_cache,
}

abbrev listed_cache : LruCache (List CacheEntry)
listed_cache = record {
  empty = [];
  iter = λ c. c;
  find = λ p f c. (first_match p c, put_front f (first_match p c) c (remove_match p c));
  insert = λ x c. (get_elem? c 127, x ∷ take 127 c);
  clear = λ c. [];
}

listed_cache-IsDocumented : IsDocumented listed_cache
listed_cache-IsDocumented = record {
  iter_empty = refl;
  iter_clear = λ c. refl;
  finds = λ p f c. refl;
  iter_find = λ p f c. refl;
  evicts = λ x c. refl;
  iter_insert = λ x c. refl;
}

-- The bytes of a block, filled up with zeros.
abbrev contents : (ℕ → List ℕ) → ℕ → List ℕ
contents d block = take 512 (d block ++ replicate 512 0)

contents-written :
    (d : ℕ → List ℕ) (block : ℕ) (bytes : List ℕ) (k : ℕ)
    → length bytes ≡ 512
    → contents (λ q. if q == block then bytes else d q) k
      ≡ (if k == block then bytes else contents d k)
contents-written d block bytes k long = elim (Bool-cases (k == block)) [
  | inl same ↦ rw same (
      ap (λ n. take n (bytes ++ replicate 512 0)) (sym long)
      ∙ take-append_self bytes (replicate 512 0))
  | inr other ↦ rw other refl
]

data Phase : Type 0 where
  idle : Phase
  sends takes reports : List ℕ → Phase

record Bus : Type 0 where
  phase : Phase
  payload : List ℕ
  memory : ℕ → List ℕ

abbrev blocks_on : Bus → ℕ → List ℕ
blocks_on s = contents s.memory

-- The fields of the frame.
abbrev tag_in : List ℕ → ℕ
tag_in p = u32_of (get_or p 4 0) (get_or p 5 0) (get_or p 6 0) (get_or p 7 0)

abbrev address_in : List ℕ → ℕ
address_in p =
    2 ^ 24 * get_or p 17 0 + 2 ^ 16 * get_or p 18 0 + 2 ^ 8 * get_or p 19 0 + get_or p 20 0

abbrev count_in : List ℕ → ℕ
count_in p = 2 ^ 8 * get_or p 22 0 + get_or p 23 0

abbrev put_block : ℕ → List ℕ → (ℕ → List ℕ) → ℕ → List ℕ
put_block address bytes memory k = if k == address then bytes else memory k

abbrev passed : ℕ → List ℕ
passed tag = status_frame bytes_crate bytes_crate-IsDocumented 0x53425355 tag 0 0

abbrev respond : Phase → Bus → Option (List ℕ) × Bus
respond idle s = (
  some (replicate (length s.payload) 0),
  record s { phase = if get_or s.payload 12 0 == 128 then sends s.payload else takes s.payload },
)
respond (sends p) s =
    (some (blocks_of (blocks_on s) (address_in p) (count_in p)), record s { phase = reports p })
respond (takes p) s = (
  some (replicate (length s.payload) 0),
  record s { phase = reports p; memory = put_block (address_in p) s.payload s.memory },
)
respond (reports p) s = (some (passed (tag_in p)), record s { phase = idle })

abbrev bus : DeviceHandle Bus
bus = record {
  open_device = λ s. some s;
  reset_device = λ s. s;
  get_configuration = λ s. (some 1, s);
  set_configuration = λ c s. s;
  claim_interface = λ i s. s;
  new_transfer = λ type setup size opts s. some (0, s);
  submit_transfer = λ x payload s. record s { payload = payload };
  await_transfer = λ x s. respond s.phase s;
}

abbrev IsIdle : Bus → Type 0
IsIdle s = s.phase ≡ idle

bus-IsDrive : IsDrive bus bytes_crate bytes_crate-IsDocumented blocks_on 4 IsIdle
unfolding exchange
bus-IsDrive = record {
  sized = λ s block. omega (
    arith,
    length-take 512 (s.memory block ++ replicate 512 0),
    length-append (s.memory block) (replicate 512 0),
    length-replicate {A = ℕ} 512 0,
  );
  answers = λ tag lun address n s ready small some' few low.
      let p = frame (block_wrapper tag lun inward 0x28 address n) in
      let e : address_in p ≡ address = be_bytes-value address (omega arith) in
      let e' : count_in p ≡ n = omega arith in
      let e'' : tag_in p ≡ tag = u32_of-le_bytes tag small in
      let s1 : Bus = record s { phase = sends p; payload = p } in
      let s2 : Bus = record s { phase = reports p; payload = [] } in
      let s3 : Bus = record s { phase = idle; payload = [] } in
      (
        s1,
        s2,
        s3,
        some (replicate 31 0),
        0,
        omega arith,
        rw ready refl,
        ap (λ (a : ℕ). some (some (blocks_of (blocks_on s) a (count_in p)), s2)) e
            ∙ ap (λ (k : ℕ). some (some (blocks_of (blocks_on s) address k), s2)) e',
        ap (λ (t : ℕ). some (some (passed t), s3)) e'',
        λ k. refl,
        refl,
      );
  takes = λ tag lun address bytes s ready small low long.
      let p = frame (block_wrapper tag lun outward 0x2A address 1) in
      let e : address_in p ≡ address = be_bytes-value address (omega arith) in
      let e'' : tag_in p ≡ tag = u32_of-le_bytes tag small in
      let s1 : Bus = record s { phase = takes p; payload = p } in
      let memory = put_block address bytes s.memory in
      let s2 : Bus = record { phase = reports p; payload = bytes; memory = memory } in
      let s3 : Bus = record { phase = idle; payload = []; memory = memory } in
      (
        s1,
        s2,
        s3,
        some (replicate 31 0),
        some (replicate (length bytes) 0),
        0,
        omega arith,
        rw ready refl,
        ap
            (λ (a : ℕ). some (
              some (replicate (length bytes) 0),
              record { phase = reports p; payload = bytes; memory = put_block a bytes s.memory },
            ))
            e,
        ap (λ (t : ℕ). some (some (passed t), s3)) e'',
        λ k. contents-written s.memory address bytes k long,
        refl,
      );
}

-- Block k is filled with k.
abbrev numbered : ℕ → List ℕ
numbered k = replicate 512 k

abbrev attached : Scsi Bus
attached = record {
  device = disk;
  host = record { phase = idle; payload = []; memory = numbered };
  reads = 0;
  blocks_read = 0;
  writes = 0;
  blocks_written = 0;
}

attached-IsAttached : IsAttached bus bytes_crate bytes_crate-IsDocumented IsIdle attached
attached-IsAttached = record {
  ready = refl;
  lun = omega arith;
  tag = omega arith;
  from = refl;
  to = refl;
}

abbrev OnBus : Type 0
OnBus = MassStorageDevice (List CacheEntry) (Scsi Bus)

abbrev fresh : ℕ → OnBus
fresh cursor = record {
  device = attached;
  properties = record { name = []; capacity = 1536; total_number_of_blocks = 3; block_size = 512 };
  cache = [];
  cursor = cursor;
}

abbrev on_bus : OnBus → ℕ → List ℕ
on_bus m = blocks_on m.device.host

abbrev Ready : Scsi Bus → Type 0
Ready = IsAttached bus bytes_crate bytes_crate-IsDocumented IsIdle

-- Four bytes over the border of blocks 0 and 1.
read-on_drive_example :
    (m' : OnBus) × (read listed_cache (scsi_io bus bytes_crate) (9 ∷ 9 ∷ 9 ∷ 9 ∷ []) (fresh 510)
      ≡ some (4, bytes_at (contents numbered) 510 4, m'))
    × (m'.cursor ≡ 514)
    × ((k : ℕ) → on_bus m' k ≡ contents numbered k)
    × All (IsGood (contents numbered)) m'.cache
    × Ready m'.device
read-on_drive_example =
    read-on_drive listed_cache listed_cache-IsDocumented bus bytes_crate bytes_crate-IsDocumented
      blocks_on 4 IsIdle bus-IsDrive (fresh 510) (9 ∷ 9 ∷ 9 ∷ 9 ∷ []) refl (omega arith)
      (omega arith) (omega arith) (omega arith) (omega arith) (λ k low high. refl) tt
      attached-IsAttached

abbrev cached_one : CacheEntry
cached_one = record { block = 1; bytes = contents numbered 1; dirty = false }

abbrev warm : OnBus
warm = record (fresh 513) { cache = cached_one ∷ [] }

write-on_drive_example :
    (m1 : OnBus) × (m2 : OnBus) × (write listed_cache (scsi_io bus bytes_crate) (7 ∷ 8 ∷ []) warm
      ≡ some (2, m1))
    × (flush_cache listed_cache (scsi_io bus bytes_crate) m1 ≡ some m2)
    × ((k : ℕ)
        → on_bus m2 k
          ≡ (if k == 1 then spliced 1 (7 ∷ 8 ∷ []) (contents numbered 1) else contents numbered k))
    × Ready m2.device
write-on_drive_example =
    write-on_drive listed_cache listed_cache-IsDocumented bus bytes_crate bytes_crate-IsDocumented
      blocks_on 4 IsIdle bus-IsDrive warm (7 ∷ 8 ∷ []) cached_one refl (omega arith) (omega arith)
      (omega arith) (omega arith) (omega arith) refl ((refl, refl), tt) attached-IsAttached

write-on_drive-lost_example :
    (m1 : OnBus) × (m2 : OnBus) × (write listed_cache
        (scsi_io bus bytes_crate)
        (7 ∷ 8 ∷ [])
        (fresh 513)
      ≡ some (2, m1))
    × (flush_cache listed_cache (scsi_io bus bytes_crate) m1 ≡ some m2)
    × ((k : ℕ) → on_bus m2 k ≡ contents numbered k)
    × Ready m2.device
write-on_drive-lost_example =
    write-on_drive-lost listed_cache listed_cache-IsDocumented bus bytes_crate
      bytes_crate-IsDocumented blocks_on 4 IsIdle bus-IsDrive (fresh 513) (7 ∷ 8 ∷ []) refl
      (omega arith) (omega arith) (omega arith) (omega arith) (omega arith) refl tt
      attached-IsAttached
