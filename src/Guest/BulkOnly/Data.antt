-- ===== src/Guest/BulkOnly/Data.antt =====
-- usb-wasi-guest/examples/mass-storage/src/bulk_only/wasm.rs, the data of the transport: its device, its
-- two frames, and the host that it calls.
use masters_sibren_wieme.Prelude.{ℕ, Option, List}
use masters_sibren_wieme.Host.Transfer.{TransferType, TransferSetup, TransferOptions}

-- What a guest calls on a device, with the state of the host; `none` is an error.
pub record DeviceHandle (S : Type 0) : Type 0 where
  pub open_device : S → Option S
  pub reset_device : S → S
  pub get_configuration : S → Option ℕ × S
  pub set_configuration : ℕ → S → S
  pub claim_interface : ℕ → S → S
  pub new_transfer : TransferType → TransferSetup → ℕ → TransferOptions → S → Option (ℕ × S)
  pub submit_transfer : ℕ → List ℕ → S → S
  pub await_transfer : ℕ → S → Option (List ℕ) × S

pub data BulkOnlyTransportError : Type 0 where
  invalid_lun incorrect_tag : BulkOnlyTransportError

pub data Result (A : Type 0) : Type 0 where
  ok : A → Result A
  err : BulkOnlyTransportError → Result A

-- Without its handle, which the operations take.
pub record BulkOnlyTransportDevice : Type 0 where
  pub bulk_in : ℕ  -- u8
  pub bulk_out : ℕ  -- u8
  pub current_tag : ℕ  -- u32
  pub selected_lun : ℕ  -- u8
  pub max_lun : ℕ  -- u8

pub record BulkOnlyTransportCommandBlock : Type 0 where
  pub command_block : List ℕ
  pub transfer_length : ℕ  -- u32

pub data Direction : Type 0 where
  inward outward : Direction

pub record CommandBlockWrapper : Type 0 where
  pub tag : ℕ
  pub transfer_length : ℕ
  pub direction : Direction
  pub lun : ℕ
  pub cbwcb : List ℕ

pub data CommandStatusWrapperStatus : Type 0 where
  command_passed command_failed phase_error reserved_obsolete reserved : CommandStatusWrapperStatus

pub record CommandStatusWrapper : Type 0 where
  pub tag : ℕ
  pub data_residue : ℕ
  pub status : CommandStatusWrapperStatus
