-- ===== src/Guest/ReadAndHash.antt =====
-- usb-wasi-guest/examples/read_and_hash.rs: a program that hashes the files of a partition.
pub mod Data
pub mod Usb
pub mod Slice
pub mod Partition
pub mod Hashing
pub mod Listing
pub mod Samples
mod Tests
