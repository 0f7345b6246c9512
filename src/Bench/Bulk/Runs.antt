-- ===== src/Bench/Bulk/Runs.antt =====
-- Runs of the measurement that only read, or write back what they have read.
use masters_sibren_wieme.Prelude.{
  ℕ, zero, suc, ◌++◌, min, ◌≡◌, ◌≢◌, refl, ◌≤◌, ◌<◌, ◌+◌, ◌-◌, ◌*◌, ◌%◌, ◌^◌, ◌/◌, Bool, true,
  false, ◌&&◌, none, some, List, [], ◌∷◌, map, ◌==◌, ltb, leb, if◌then◌else◌, length, replicate,
  arith, sym, ap, ◌∙◌, Bool-cases, inl, inr, length-append, ==_iff,
}
use masters_sibren_wieme.Guest.MassStorage.Reading.Disk.{blocks_of}
use masters_sibren_wieme.Guest.BulkOnly.Bytes.{be_bytes}
use masters_sibren_wieme.Guest.MassStorage.Blocks.{be_bytes-value}
use masters_sibren_wieme.Bench.Csv.{Row, open_log, write}
use masters_sibren_wieme.Bench.Csv.Reader.{read_csv}
use masters_sibren_wieme.Bench.Csv.RoundTrip.{header_names, row_values, written, written-read_csv}
use masters_sibren_wieme.Bench.Scsi.{
  BulkTransport, ScsiDevice, IsDisk, with_capacity, capacity_of, u32_be_at, test_command, new,
  read_blocks, write_blocks, readwrite_blocks,
}
use masters_sibren_wieme.Bench.Bulk.{
  BulkMode, read_mode, write_mode, read_write_mode, Config, Sample, State, choose_lba, lcg_step,
  row_of, transfer, one_round, rounds, start, run_benchmark,
}

-- The address of an iteration leaves room for its blocks, on a device that has as many.
pub choose_lba-inside :
    (cfg : Config) (num_blocks state : ℕ)
    → cfg.blocks_per_iter ≤ num_blocks
    → (choose_lba cfg num_blocks state).0 + cfg.blocks_per_iter ≤ num_blocks
unfolding choose_lba
choose_lba-inside cfg num_blocks state h =
    let m = num_blocks - cfg.blocks_per_iter in
    elim (Bool-cases (cfg.random && ltb cfg.blocks_per_iter num_blocks)) [
      | inl drawn ↦
          let some' : cfg.blocks_per_iter < num_blocks = ground arith in
          let low : lcg_step state / 2 ^ 33 % 2 ^ 32 % m < m = grind arith in
          rw drawn (omega (arith, low, some'))
      | inr first ↦ rw first (omega arith)
    ]

length-blocks_of :
    (f : ℕ → List ℕ) (size : ℕ)
    → ((k : ℕ) → length (f k) ≡ size)
    → (lba n : ℕ) → length (blocks_of f lba n) ≡ n * size
length-blocks_of f size sized lba zero = omega arith
length-blocks_of f size sized lba (suc n) =
    length-append (f lba) (blocks_of f (lba + 1) n)
    ∙ grind (arith, sized lba, length-blocks_of f size sized (lba + 1) n)

if-same {ℓ} : {A : Type ℓ} (c : Bool) (x y : A) → y ≡ x → (if c then x else y) ≡ x
if-same true x y e = refl
if-same false x y e = e

abbrev pub summary : List ℕ × Row → ℕ × ℕ
summary entry = (entry.1.iteration, entry.1.bytes)

-- What the rows of some rounds begin with.
abbrev pub numbered : ℕ → ℕ → ℕ → List (ℕ × ℕ)
numbered zero iter bytes = []
numbered (suc n) iter bytes = (iter, bytes) ∷ numbered n (iter + 1) bytes

module _ {T : Type 0} (t : BulkTransport T) (contents : T → ℕ → List ℕ) (size total : ℕ)
    (Ready : T → Type 0) (disk : IsDisk t contents size total Ready) where
  -- A device on a disk, with a disk that holds what `s` held.
  pub record Keeps (num_blocks : ℕ) (s : T) (d : ScsiDevice T) : Type 0 where
    pub block_size : d.capacity.block_size ≡ size
    pub number : d.capacity.num_blocks ≡ num_blocks
    pub same : (k : ℕ) → contents d.transport k ≡ contents s k
    pub ready : Ready d.transport

  transfer-Keeps :
      (mode : BulkMode) (lba count num_blocks : ℕ) (write_buf : List ℕ) (s : T) (d : ScsiDevice T)
      → mode ≢ write_mode
      → Keeps num_blocks s d
      → count < 2 ^ 16
      → lba + count ≤ total
      → count * size < 2 ^ 32
      → (d' : ScsiDevice T) × (transfer t mode lba count write_buf d
          ≡ (some (blocks_of (contents d.transport) lba count), d'))
        × Keeps num_blocks s d'
  unfolding transfer read_blocks readwrite_blocks write_blocks
  transfer-Keeps read_mode lba count num_blocks write_buf s d ne h few inside small =
      let (s1, got, same, ready) = disk.reads lba count d.transport h.ready few inside in
      let len : count * d.capacity.block_size % 2 ^ 32 ≡ count * size =
        ap (λ (k : ℕ). count * k % 2 ^ 32) h.block_size ∙ omega arith in
      (
        record d { transport = s1 },
        rw (len, got) refl,
        record {
          block_size = h.block_size;
          number = h.number;
          same = λ k. same k ∙ h.same k;
          ready = ready;
        },
      )
  transfer-Keeps write_mode lba count num_blocks write_buf s d ne h few inside small =
      absurd (ne refl)
  transfer-Keeps read_write_mode lba count num_blocks write_buf s d ne h few inside small =
      let (s1, got, same1, ready1) = disk.reads lba count d.transport h.ready few inside in
      let g = contents d.transport in
      let (s2, put, same2, ready2) =
        disk.writes lba count g s1 ready1 few inside (disk.sized d.transport) in
      let len : count * d.capacity.block_size % 2 ^ 32 ≡ count * size =
        ap (λ (k : ℕ). count * k % 2 ^ 32) h.block_size ∙ omega arith in
      let fits : (length (blocks_of g lba count) == count * d.capacity.block_size) ≡ true =
        (==_iff (length (blocks_of g lba count)) (count * d.capacity.block_size)).1 (
          length-blocks_of g size (disk.sized d.transport) lba count
          ∙ ap (λ (k : ℕ). count * k) (sym h.block_size)) in
      (
        record d { transport = s2 },
        rw (len, got, fits, put) refl,
        record {
          block_size = h.block_size;
          number = h.number;
          same = λ k.
              same2 k
              ∙ if-same (leb lba k && ltb k (lba + count)) (g k) (contents s1 k) (same1 k)
              ∙ h.same k;
          ready = ready2;
        },
      )

  -- One round.
  one_round-Keeps :
      (cfg : Config) (sample : Sample) (iter num_blocks : ℕ) (s : T) (st : State T)
      → cfg.mode ≢ write_mode
      → Keeps num_blocks s st.scsi
      → num_blocks ≤ total
      → cfg.blocks_per_iter ≤ num_blocks
      → cfg.blocks_per_iter * size < 2 ^ 32
      → cfg.blocks_per_iter < 2 ^ 16
      → (st' : State T) × (row : Row) × (one_round t cfg sample iter st ≡ some st')
        × (st'.log ≡ write sample.timestamp row st.log)
        × (row.iteration ≡ iter)
        × (row.bytes ≡ cfg.blocks_per_iter * size)
        × Keeps num_blocks s st'.scsi
  unfolding one_round row_of
  one_round-Keeps cfg sample iter num_blocks s st ne h inside room small few =
      let chosen = choose_lba cfg st.scsi.capacity.num_blocks st.lcg_state in
      let (d', done, h') =
        transfer-Keeps cfg.mode chosen.0 cfg.blocks_per_iter num_blocks
          (replicate (cfg.blocks_per_iter * st.scsi.capacity.block_size) 0x5A) s st.scsi ne h few
          (omega (
            arith,
            choose_lba-inside cfg st.scsi.capacity.num_blocks st.lcg_state
                (omega (arith, h.number)),
            h.number,
          ))
          small in
      let bytes = blocks_of (contents st.scsi.transport) chosen.0 cfg.blocks_per_iter in
      (
        record {
          scsi = d';
          lcg_state = chosen.1;
          total_bytes = (st.total_bytes + length bytes) % 2 ^ 64;
          log = write sample.timestamp (row_of cfg iter chosen.0 (length bytes) sample) st.log;
        },
        row_of cfg iter chosen.0 (length bytes) sample,
        rw done refl,
        refl,
        refl,
        length-blocks_of (contents st.scsi.transport) size (disk.sized st.scsi.transport) chosen.0
            cfg.blocks_per_iter,
        h',
      )

  rounds-Keeps :
      (cfg : Config) (samples : ℕ → Sample) (n iter num_blocks : ℕ) (s : T) (st : State T)
      → cfg.mode ≢ write_mode
      → Keeps num_blocks s st.scsi
      → num_blocks ≤ total
      → cfg.blocks_per_iter ≤ num_blocks
      → cfg.blocks_per_iter * size < 2 ^ 32
      → cfg.blocks_per_iter < 2 ^ 16
      → (st' : State T) × (entries : List (List ℕ × Row)) × (rounds t cfg samples n iter st
          ≡ some st')
        × (st'.log ≡ written entries st.log)
        × (map summary entries ≡ numbered n iter (cfg.blocks_per_iter * size))
        × Keeps num_blocks s st'.scsi
  unfolding rounds
  rounds-Keeps cfg samples zero iter num_blocks s st ne h inside room small few =
      (st, [], refl, refl, refl, h)
  rounds-Keeps cfg samples (suc n) iter num_blocks s st ne h inside room small few =
      let (st1, row, once, log1, number, amount, h1) =
        one_round-Keeps cfg (samples iter) iter num_blocks s st ne h inside room small few in
      let (st2, entries, rest, log2, numbers, h2) =
        rounds-Keeps cfg samples n (iter + 1) num_blocks s st1 ne h1 inside room small few in
      (
        st2,
        ((samples iter).timestamp, row) ∷ entries,
        rw once rest,
        log2 ∙ ap (written entries) log1,
        rw (number, amount, numbers) refl,
        h2,
      )

  -- `new` on the disk.
  new-disk :
      (transport : T)
      → Ready transport
      → 0 < total
      → total < 2 ^ 32
      → 0 < size
      → size < 2 ^ 32
      → (d : ScsiDevice T) × (new t transport ≡ some d) × Keeps total transport d
  unfolding new with_capacity
  new-disk transport ready some' low filled small =
      let tested = disk.tests transport ready in
      let (s, told, same, ready') =
        disk.tells (t.command_out test_command none transport).1 tested.1 in
      let last : u32_be_at 0 (be_bytes (total - 1) ++ be_bytes size) ≡ total - 1 =
        be_bytes-value (total - 1) (omega arith) in
      let block : u32_be_at 4 (be_bytes (total - 1) ++ be_bytes size) ≡ size =
        be_bytes-value size small in
      let nonzero : (size == 0) ≡ false = ground arith in
      let number : min (total - 1 + 1) (2 ^ 32 - 1) ≡ total = omega arith in
      (
        record { transport = s; capacity = capacity_of (total - 1) size },
        rw (told, last, block, nonzero) refl,
        record {
          block_size = refl;
          number = number;
          same = λ k. same k ∙ tested.0 k;
          ready = ready';
        },
      )

  -- A measurement that reads, or reads and writes back, fewer than 2^16 blocks and 2^32 bytes in an
  -- iteration, on a ready disk that has them, with fewer than 2^32 blocks: it succeeds, leaves every
  -- block as it was before the device was created, and a log that it begins is read back as the header
  -- and one row for each iteration, with its number and the bytes of its blocks.
  pub run_benchmark-keeps :
      (cfg : Config) (samples : ℕ → Sample) (seed : ℕ) (transport : T)
      → cfg.mode ≢ write_mode
      → Ready transport
      → 0 < total
      → total < 2 ^ 32
      → 0 < size
      → size < 2 ^ 32
      → cfg.blocks_per_iter ≤ total
      → cfg.blocks_per_iter < 2 ^ 16
      → cfg.blocks_per_iter * size < 2 ^ 32
      → (st : State T) × (entries : List (List ℕ × Row)) × (run_benchmark t cfg samples seed
            (open_log none)
            transport
          ≡ some st)
        × ((k : ℕ) → contents st.scsi.transport k ≡ contents transport k)
        × (read_csv st.log ≡ some (header_names ∷ map row_values entries))
        × (map summary entries ≡ numbered cfg.iterations 0 (cfg.blocks_per_iter * size))
  unfolding run_benchmark
  run_benchmark-keeps cfg samples seed transport ne ready some' low filled fits room few small =
      let (d, made, kept) = new-disk transport ready some' low filled fits in
      let (st, entries, ran, log, numbers, h) =
        rounds-Keeps cfg samples cfg.iterations 0 total transport (start t seed (open_log none) d)
          ne kept (omega arith) room small few in
      (st, entries, rw made ran, h.same, ap read_csv log ∙ written-read_csv entries, numbers)
