-- ===== src/Bench/Scsi.antt =====
-- benchmarks/usb-bench-rs/src/mass_storage.rs: SCSI commands over any transport, and what a disk behind
-- one does.
use masters_sibren_wieme.Prelude.{
  ℕ, ◌≡◌, ◌≤◌, ◌<◌, ◌+◌, ◌-◌, ◌*◌, ◌%◌, ◌^◌, min, Bool, true, false, ◌&&◌, Option, none, some, List,
  [], ◌∷◌, ◌++◌, ◌==◌, ltb, leb, if◌then◌else◌, length, get_or,
}
use masters_sibren_wieme.Guest.BulkOnly.Bytes.{be_bytes, be_bytes_u16}
use masters_sibren_wieme.Guest.MassStorage.Reading.Disk.{blocks_of}

-- The trait of the transports, with the state after a call also where it fails.
pub record BulkTransport (T : Type 0) : Type 0 where
  pub command_in : List ℕ → ℕ → T → Option (List ℕ) × T
  pub command_out : List ℕ → Option (List ℕ) → T → Bool × T

pub record Capacity : Type 0 where
  pub block_size : ℕ  -- u32
  pub num_blocks : ℕ  -- u32
  pub total_bytes : ℕ  -- u64

pub record ScsiDevice (T : Type 0) : Type 0 where
  pub transport : T
  pub capacity : Capacity

-- The command block of READ(10) and of WRITE(10).
abbrev pub cdb : ℕ → ℕ → ℕ → List ℕ
cdb opcode lba count = opcode ∷ 0 ∷ (be_bytes lba ++ (0 ∷ (be_bytes_u16 count ++ (0 ∷ []))))

-- `u32::from_be_bytes` of four bytes.
abbrev pub u32_be_at : ℕ → List ℕ → ℕ
u32_be_at i bytes =
    2 ^ 24 * get_or bytes i 0
    + 2 ^ 16 * get_or bytes (i + 1) 0
    + 2 ^ 8 * get_or bytes (i + 2) 0
    + get_or bytes (i + 3) 0

abbrev pub capacity_of : ℕ → ℕ → Capacity
capacity_of last_lba block_size =
    let num_blocks = min (last_lba + 1) (2 ^ 32 - 1) in
    record {
      block_size = block_size;
      num_blocks = num_blocks;
      total_bytes = num_blocks * block_size;
    }

-- The device of the answer to READ CAPACITY, or an error.
unfoldable pub with_capacity : {T : Type 0} → Option (List ℕ) × T → Option (ScsiDevice T)
with_capacity (none, t) = none
with_capacity (some bytes, t) =
    if ltb (length bytes) 8
    then none
    else if u32_be_at 4 bytes == 0
    then none
    else some
        (record { transport = t; capacity = capacity_of (u32_be_at 0 bytes) (u32_be_at 4 bytes) })

-- TEST UNIT READY, and READ CAPACITY (10).
abbrev pub test_command : List ℕ
test_command = 0 ∷ 0 ∷ 0 ∷ 0 ∷ 0 ∷ 0 ∷ []

abbrev pub capacity_command : List ℕ
capacity_command = 0x25 ∷ 0 ∷ 0 ∷ 0 ∷ 0 ∷ 0 ∷ 0 ∷ 0 ∷ 0 ∷ 0 ∷ []

module _ {T : Type 0} (t : BulkTransport T) where
  -- The result of TEST UNIT READY does not matter.
  unfoldable pub new : T → Option (ScsiDevice T)
  new transport =
      let tested = t.command_out test_command none transport in
      with_capacity (t.command_in capacity_command 8 tested.1)

  unfoldable pub read_blocks : ℕ → ℕ → ScsiDevice T → Option (List ℕ) × ScsiDevice T
  read_blocks lba count d =
      let transfer_len = count * d.capacity.block_size % 2 ^ 32 in
      let r = t.command_in (cdb 0x28 lba count) transfer_len d.transport in
      (r.0, record d { transport = r.1 })

  -- `expected` is a usize, of 64 bits in the native build.
  unfoldable pub write_blocks : ℕ → ℕ → List ℕ → ScsiDevice T → Bool × ScsiDevice T
  write_blocks lba count bytes d =
      let r = t.command_out (cdb 0x2A lba count) (some bytes) d.transport in
      if length bytes == count * d.capacity.block_size
      then (r.0, record d { transport = r.1 })
      else (false, d)

  abbrev pub kept_if : List ℕ → Bool × ScsiDevice T → Option (List ℕ) × ScsiDevice T
  kept_if bytes (true, d) = (some bytes, d)
  kept_if bytes (false, d) = (none, d)

  abbrev pub write_back : ℕ → ℕ → Option (List ℕ) × ScsiDevice T → Option (List ℕ) × ScsiDevice T
  write_back lba count (none, d) = (none, d)
  write_back lba count (some bytes, d) = kept_if bytes (write_blocks lba count bytes d)

  unfoldable pub readwrite_blocks : ℕ → ℕ → ScsiDevice T → Option (List ℕ) × ScsiDevice T
  readwrite_blocks lba count d = write_back lba count (read_blocks lba count d)

  -- A disk of `total` blocks of `size` bytes behind a transport, in a state that is ready for it: it
  -- tells its capacity, reading fewer than 2^16 blocks gives them, and writing as many of `g` puts them
  -- in their place. What it answers to TEST UNIT READY does not matter.
  pub record IsDisk (contents : T → ℕ → List ℕ) (size total : ℕ) (Ready : T → Type 0) : Type 0 where
    pub sized : (s : T) (k : ℕ) → length (contents s k) ≡ size
    pub tests :
        (s : T)
        → Ready s
        → ((k : ℕ) → contents (t.command_out test_command none s).1 k ≡ contents s k)
          × Ready (t.command_out test_command none s).1
    pub tells :
        (s : T)
        → Ready s
        → (s' : T) × (t.command_in capacity_command 8 s
            ≡ (some (be_bytes (total - 1) ++ be_bytes size), s'))
          × ((k : ℕ) → contents s' k ≡ contents s k)
          × Ready s'
    pub reads :
        (lba n : ℕ) (s : T)
        → Ready s
        → n < 2 ^ 16
        → lba + n ≤ total
        → (s' : T) × (t.command_in (cdb 0x28 lba n) (n * size) s
            ≡ (some (blocks_of (contents s) lba n), s'))
          × ((k : ℕ) → contents s' k ≡ contents s k)
          × Ready s'
    pub writes :
        (lba n : ℕ) (g : ℕ → List ℕ) (s : T)
        → Ready s
        → n < 2 ^ 16
        → lba + n ≤ total
        → ((k : ℕ) → length (g k) ≡ size)
        → (s' : T) × (t.command_out (cdb 0x2A lba n) (some (blocks_of g lba n)) s ≡ (true, s'))
          × ((k : ℕ) → contents s' k ≡ (if leb lba k && ltb k (lba + n) then g k else contents s k))
          × Ready s'
