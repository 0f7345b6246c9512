-- ===== src/Bench/Bulk.antt =====
-- benchmarks/usb-bench-rs/src/bin/w_bulk.rs: the measurement of block transfers.
pub mod Runs
mod Tests
use masters_sibren_wieme.Prelude.{
  ℕ, zero, suc, ◌+◌, ◌-◌, ◌*◌, ◌/◌, ◌%◌, ◌^◌, Bool, ◌&&◌, Option, none, some, List, ◌∷◌, [], ◌++◌,
  ◌==◌, ltb, if◌then◌else◌, length, replicate,
}
use masters_sibren_wieme.Guest.BulkOnly.{◌>>=◌}
use masters_sibren_wieme.Bench.Csv.{Row, new_row, Rusage, delta, to_string, write}
use masters_sibren_wieme.Bench.Scsi.{
  BulkTransport, ScsiDevice, new, read_blocks, write_blocks, readwrite_blocks, kept_if,
}

pub data BulkMode : Type 0 where
  read_mode write_mode read_write_mode : BulkMode

abbrev pub as_str : BulkMode → List ℕ
as_str read_mode = 114 ∷ 101 ∷ 97 ∷ 100 ∷ []
as_str write_mode = 119 ∷ 114 ∷ 105 ∷ 116 ∷ 101 ∷ []
as_str read_write_mode = 114 ∷ 119 ∷ []

-- What the loop reads of the configuration.
pub record Config : Type 0 where
  pub iterations : ℕ  -- u32
  pub blocks_per_iter : ℕ  -- u16
  pub condition : List ℕ
  pub mode : BulkMode
  pub random : Bool

-- What the system answers in one iteration: the time that the transfer took, the time since the start of
-- the loop, the resources before and after, the memory of the guest, and the timestamp of the row.
pub record Sample : Type 0 where
  pub duration_ns : ℕ
  pub elapsed_ns : ℕ
  pub ru_before : Rusage
  pub ru_after : Rusage
  pub guest_mem : Option ℕ
  pub timestamp : List ℕ

pub record State (T : Type 0) : Type 0 where
  pub scsi : ScsiDevice T
  pub lcg_state : ℕ  -- u64
  pub total_bytes : ℕ  -- u64
  pub log : List ℕ

unfoldable pub lcg_step : ℕ → ℕ
lcg_step state = (state * 6_364_136_223_846_793_005 + 1_442_695_040_888_963_407) % 2 ^ 64

-- The address of an iteration, and the state of the generator after it.
unfoldable pub choose_lba : Config → ℕ → ℕ → ℕ × ℕ
choose_lba cfg num_blocks state =
    if cfg.random && ltb cfg.blocks_per_iter num_blocks
    then (lcg_step state / 2 ^ 33 % 2 ^ 32 % (num_blocks - cfg.blocks_per_iter), lcg_step state)
    else (0, state)

-- "mode={} lba={}"
abbrev pub mode_note : BulkMode → ℕ → List ℕ
mode_note mode lba =
    109 ∷ 111 ∷ 100 ∷ 101 ∷ 61 ∷ (as_str mode ++ (32 ∷ 108 ∷ 98 ∷ 97 ∷ 61 ∷ to_string lba))

unfoldable pub row_of : Config → ℕ → ℕ → ℕ → Sample → Row
row_of cfg iter lba bytes sample =
    let used = delta sample.ru_after sample.ru_before in
    record (new_row cfg.condition (98 ∷ 117 ∷ 108 ∷ 107 ∷ [])) {
      iteration = iter;
      bytes = bytes;
      duration_ns = sample.duration_ns;
      user_cpu_us = used.user_us;
      sys_cpu_us = used.sys_us;
      rss_peak_kb = used.rss_peak_kb;
      guest_mem_bytes = sample.guest_mem;
      notes = some (mode_note cfg.mode lba);
      total_runtime_ns = if iter + 1 == cfg.iterations then some sample.elapsed_ns else none;
    }

module _ {T : Type 0} (t : BulkTransport T) where
  unfoldable pub transfer :
      BulkMode → ℕ → ℕ → List ℕ → ScsiDevice T → Option (List ℕ) × ScsiDevice T
  transfer read_mode lba count write_buf d = read_blocks t lba count d
  transfer write_mode lba count write_buf d =
      kept_if t write_buf (write_blocks t lba count write_buf d)
  transfer read_write_mode lba count write_buf d = readwrite_blocks t lba count d

  -- The end of an iteration; an error of the transfer ends the program.
  abbrev pub logged :
      Config → Sample → ℕ → ℕ × ℕ → State T → Option (List ℕ) × ScsiDevice T → Option (State T)
  logged cfg sample iter chosen st (none, d) = none
  logged cfg sample iter chosen st (some bytes, d) = some (record {
    scsi = d;
    lcg_state = chosen.1;
    total_bytes = (st.total_bytes + length bytes) % 2 ^ 64;
    log = write sample.timestamp (row_of cfg iter chosen.0 (length bytes) sample) st.log;
  })

  unfoldable pub one_round : Config → Sample → ℕ → State T → Option (State T)
  one_round cfg sample iter st =
      let chosen = choose_lba cfg st.scsi.capacity.num_blocks st.lcg_state in
      let write_buf = replicate (cfg.blocks_per_iter * st.scsi.capacity.block_size) 0x5A in
      logged cfg sample iter chosen st
        (transfer cfg.mode chosen.0 cfg.blocks_per_iter write_buf st.scsi)

  -- The loop from an iteration on, for some rounds.
  unfoldable pub rounds : Config → (ℕ → Sample) → ℕ → ℕ → State T → Option (State T)
  rounds cfg samples zero iter st = some st
  rounds cfg samples (suc n) iter st =
      one_round cfg (samples iter) iter st >>= rounds cfg samples n (iter + 1)

  abbrev pub start : ℕ → List ℕ → ScsiDevice T → State T
  start seed log d = record { scsi = d; lcg_state = seed; total_bytes = 0; log = log }

  unfoldable pub run_benchmark : Config → (ℕ → Sample) → ℕ → List ℕ → T → Option (State T)
  run_benchmark cfg samples seed log transport =
      new t transport >>= (λ d. rounds cfg samples cfg.iterations 0 (start seed log d))
