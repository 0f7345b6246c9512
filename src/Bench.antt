-- ===== src/Bench.antt =====
-- benchmarks: the programs that measure the host and its guests.
pub mod Csv
pub mod Scsi
pub mod Bulk
