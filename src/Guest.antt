-- ===== src/Guest.antt =====
-- usb-wasi-guest: programs in the sandbox that drive USB devices through the WIT interface.
pub mod BulkOnly
pub mod Webcam
pub mod MassStorage
pub mod Maze
pub mod ReadAndHash
pub mod Lsusb
