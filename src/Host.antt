-- ===== src/Host.antt =====
-- The host runtime, usb-wasi-host/src: error codes, the device policy, transfers.
pub mod Errors
pub mod Policy
pub mod Transfer
pub mod Backend
pub mod Runtime
