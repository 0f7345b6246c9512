-- ===== src/Guest/MassStorage/Data.antt =====
-- usb-wasi-guest/examples/mass-storage/src/mass_storage.rs, the data of the disk and of its cache, and
-- what its reads and writes stand on: blocks of a device, and the crate `uluru`.
use masters_sibren_wieme.Prelude.{
  ℕ, ◌≡◌, ◌+◌, ◌-◌, ◌%◌, ◌^◌, Bool, ◌&&◌, Option, none, some, List, [], ◌∷◌, ◌++◌, ◌==◌, leb,
  if◌then◌else◌, length, get_elem?, take, drop,
}

pub data MassStorageDeviceError : Type 0 where
  incompatible_device not_ready : MassStorageDeviceError

pub record MassStorageDeviceProperties : Type 0 where
  pub name : List ℕ
  pub capacity : ℕ  -- u64
  pub total_number_of_blocks : ℕ  -- u32
  pub block_size : ℕ  -- u32

pub record CacheEntry : Type 0 where
  pub block : ℕ  -- u32
  pub bytes : List ℕ  -- [u8; 512]
  pub dirty : Bool

-- `copy_from_slice` into 512 bytes, which panics for another number of them.
unfoldable pub checked_data : List ℕ → Option (List ℕ)
checked_data bytes = if length bytes == 512 then some bytes else none

-- The blocks that the SCSI commands read and write, with their state `D`. The first argument of both is
-- `properties.block_size`, then come the address and the number of blocks; `none` is a panic.
pub record BlockIo (D : Type 0) : Type 0 where
  pub read_blocks : ℕ → ℕ → ℕ → D → Option (List ℕ × D)
  pub write_blocks : ℕ → ℕ → ℕ → List ℕ → D → Option D

-- `uluru::LRUCache<CacheEntry, 128>`. `find` takes what the caller does through the reference that it
-- gets, and gives the entry as it was found.
pub record LruCache (C : Type 0) : Type 0 where
  pub empty : C
  pub iter : C → List CacheEntry
  pub find : (CacheEntry → Bool) → (CacheEntry → CacheEntry) → C → Option CacheEntry × C
  pub insert : CacheEntry → C → Option CacheEntry × C
  pub clear : C → C

abbrev pub first_match : (CacheEntry → Bool) → List CacheEntry → Option CacheEntry
first_match p [] = none
first_match p (x ∷ xs) = if p x then some x else first_match p xs

abbrev pub remove_match : (CacheEntry → Bool) → List CacheEntry → List CacheEntry
remove_match p [] = []
remove_match p (x ∷ xs) = if p x then xs else x ∷ remove_match p xs

abbrev pub put_front :
    (CacheEntry → CacheEntry)
    → Option CacheEntry
    → List CacheEntry
    → List CacheEntry
    → List CacheEntry
put_front f none all rest = all
put_front f (some x) all rest = f x ∷ rest

-- What the documentation of `uluru` says, in terms of `iter`, the most recently used entry first.
pub record IsDocumented {C : Type 0} (caches : LruCache C) : Type 0 where
  pub iter_empty : caches.iter caches.empty ≡ []
  pub iter_clear : (c : C) → caches.iter (caches.clear c) ≡ []
  pub finds :
      (p : CacheEntry → Bool) (f : CacheEntry → CacheEntry) (c : C)
      → (caches.find p f c).0 ≡ first_match p (caches.iter c)
  pub iter_find :
      (p : CacheEntry → Bool) (f : CacheEntry → CacheEntry) (c : C)
      → caches.iter (caches.find p f c).1
        ≡ put_front f
            (first_match p (caches.iter c))
            (caches.iter c)
            (remove_match p (caches.iter c))
  pub evicts : (x : CacheEntry) (c : C) → (caches.insert x c).0 ≡ get_elem? (caches.iter c) 127
  pub iter_insert :
      (x : CacheEntry) (c : C) → caches.iter (caches.insert x c).1 ≡ x ∷ take 127 (caches.iter c)

-- The struct, with the part that the SCSI commands use in `device`.
pub record MassStorageDevice (C D : Type 0) : Type 0 where
  pub device : D
  pub properties : MassStorageDeviceProperties
  pub cache : C
  pub cursor : ℕ  -- u64

-- `&xs[start..stop]`
unfoldable pub bytes_between : ℕ → ℕ → List ℕ → Option (List ℕ)
bytes_between start stop xs =
    if leb start stop && leb stop (length xs)
    then some (take (stop - start) (drop start xs))
    else none

-- `buf[start..stop].copy_from_slice(data)`
unfoldable pub copy_to : ℕ → ℕ → List ℕ → List ℕ → Option (List ℕ)
copy_to start stop bytes buf =
    if (leb start stop && leb stop (length buf)) && (length bytes == stop - start)
    then some (take start buf ++ (bytes ++ drop stop buf))
    else none

-- Arithmetic on `u32`, and on `usize`, which has 32 bits in wasm32.
abbrev pub wrap : ℕ → ℕ
wrap n = n % 2 ^ 32

abbrev pub wrap_sub : ℕ → ℕ → ℕ
wrap_sub a b = (a + 2 ^ 32 - b) % 2 ^ 32
