-- ===== src/Host/Transfer.antt =====
-- usb-wasi-host/src/main.rs: the data of a USB transfer. One `Transfer` is what the host keeps for
-- one `transfer` resource: the `UsbTransfer` of the resource table, the `libusb_transfer` that it
-- points to, the data buffer, the `TransferContext` of the callback and the cells that they share.
pub mod Create
pub mod Completion
pub mod Calls
pub mod Life
mod Tests
use masters_sibren_wieme.Prelude.{ℕ, Bool, true, false, Option, none, some, List}
use masters_sibren_wieme.Prelude.Int.{ℤ}
use masters_sibren_wieme.Host.Errors.{Result}

-- transfers.wit, and libusb's `transfer_type`, which the host sets from it.
pub data TransferType : Type 0 where
  control bulk interrupt isochronous : TransferType

-- Where the payload begins: a control buffer starts with the setup packet.
abbrev pub header_len : TransferType → ℕ
header_len control = 8
header_len _ = 0

pub record TransferSetup : Type 0 where
  pub bm_request_type : ℕ  -- u8
  pub b_request : ℕ  -- u8
  pub w_value : ℕ  -- u16
  pub w_index : ℕ  -- u16

pub record TransferOptions : Type 0 where
  pub endpoint : ℕ  -- u8
  pub timeout_ms : ℕ  -- u32
  pub stream_id : ℕ  -- u32
  pub iso_packets : ℕ  -- u32

-- libusb's `LIBUSB_TRANSFER_…` status; `unnamed` is any number that the host does not name.
pub data Status : Type 0 where
  completed timed_out cancelled stall no_device overflow error : Status
  unnamed : ℤ → Status

-- `libusb_iso_packet_descriptor`
pub record IsoDescriptor : Type 0 where
  pub length : ℕ  -- u32
  pub actual_length : ℕ  -- u32
  pub status : Status

pub data CallbackPointer : Type 0 where
  unset transfer_callback empty_callback : CallbackPointer

-- `libusb_transfer`, the fields that the host reads or writes; lengths are i32.
pub record LibusbTransfer : Type 0 where
  pub endpoint : ℕ
  pub transfer_type : TransferType
  pub timeout : ℕ
  pub stream_id : ℕ
  pub status : Status
  pub length : ℤ
  pub actual_length : ℤ
  pub callback : CallbackPointer
  pub num_iso_packets : ℤ
  pub iso_packet_desc : List IsoDescriptor  -- as many as were allocated

-- A value of a host call, or how the call goes wrong: a Rust panic, the use of memory that is
-- freed or out of bounds, or no return until libusb's callback has run.
pub data Outcome {ℓ} (A : Type ℓ) : Type ℓ where
  returns : A → Outcome A
  panics : Outcome A
  faults : Outcome A
  waits : Outcome A

infixl 5 ◌>>=◌
abbrev pub ◌>>=◌ {ℓ κ} : {A : Type ℓ} {B : Type κ} → Outcome A → (A → Outcome B) → Outcome B
returns a >>= f = f a
panics >>= f = panics
faults >>= f = faults
waits >>= f = waits

pub record Transfer : Type 0 where
  -- `UsbTransfer`
  pub has_buffer : Bool  -- `buffer.is_some()`
  pub buf_len : ℕ
  pub has_receiver : Bool  -- `receiver.is_some()`
  pub control_setup : TransferSetup
  -- the cells shared with the callback
  pub is_completed : Bool
  pub iso_packet_results : Option (List (ℕ × Status))
  pub sent : Option (Result (List ℕ))  -- what the oneshot channel holds
  -- what the raw pointers lead to
  pub libusb : Option LibusbTransfer  -- `none` once it is freed
  pub memory : Option (List ℕ)  -- the bytes of the buffer, `none` once it is dropped
  pub has_context : Bool  -- `user_data` leads to a live `TransferContext`
  pub in_flight : Bool  -- libusb has accepted the transfer, and its callback has not run
