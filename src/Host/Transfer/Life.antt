-- ===== src/Host/Transfer/Life.antt =====
-- The life of a transfer, as a machine of four states, and the record of the code that stands for
-- each state (usb-wasi-host/src/main.rs, the three cases of `HostTransfer::drop`).
pub mod Start
pub mod Submit
pub mod Finish
pub mod Run
pub mod Safety
pub mod Races
use masters_sibren_wieme.Prelude.{
  ℕ, ◌+◌, ◌≤◌, ◌≡◌, ◌^◌, ◌<◌, Bool, true, false, not, Option, none, some, List, length, IsU32,
}
use masters_sibren_wieme.Prelude.Int.{ℤ, pos}
use masters_sibren_wieme.Host.Errors.{Result}
use masters_sibren_wieme.Host.Transfer.{TransferSetup, Status, LibusbTransfer, header_len, Transfer}
use masters_sibren_wieme.Host.Transfer.Completion.{Delivery}

pub data Life : Type 0 where
  allocated : LibusbTransfer → List ℕ → Life
  submitted : LibusbTransfer → List ℕ → Life
  finished : Result (List ℕ) → Option (List (ℕ × Status)) → (awaited : Bool) → Life
  rejected : LibusbTransfer → Life

-- The buffer of a transfer: its length is what libusb is told, it has room for the setup packet
-- and `buf_len` bytes, and there are as many descriptors as packets.
pub record IsLaidOut (buf_len : ℕ) (l : LibusbTransfer) (m : List ℕ) : Type 0 where
  pub told : l.length ≡ pos (length m)
  pub room : length m ≡ header_len l.transfer_type + buf_len
  pub packets : l.num_iso_packets ≡ pos (length l.iso_packet_desc)

abbrev pub IsSound : ℕ → Life → Type 0
IsSound buf_len (allocated l m) = IsLaidOut buf_len l m
IsSound buf_len (submitted l m) = IsLaidOut buf_len l m
IsSound buf_len _ = Unit {0}

-- What libusb documents of a delivery: the buffer keeps its size, every packet has a report, and
-- the transferred bytes lie behind the setup packet and inside the buffer.
pub record Fits (d : Delivery) (l : LibusbTransfer) (m : List ℕ) : Type 0 where
  pub same_size : length d.received ≡ length m
  pub all_packets : length d.packets ≡ length l.iso_packet_desc
  pub inside : header_len l.transfer_type + d.actual_length ≤ length m

-- The record of the code in each state.
abbrev pub concrete : TransferSetup → ℕ → Life → Transfer
concrete setup buf_len (allocated l m) = record {
  has_buffer = true;
  buf_len = buf_len;
  has_receiver = false;
  control_setup = setup;
  is_completed = false;
  iso_packet_results = none;
  sent = none;
  libusb = some l;
  memory = some m;
  has_context = false;
  in_flight = false;
}
concrete setup buf_len (submitted l m) = record {
  has_buffer = false;
  buf_len = buf_len;
  has_receiver = true;
  control_setup = setup;
  is_completed = false;
  iso_packet_results = none;
  sent = none;
  libusb = some l;
  memory = some m;
  has_context = true;
  in_flight = true;
}
concrete setup buf_len (finished result packets awaited) = record {
  has_buffer = false;
  buf_len = buf_len;
  has_receiver = not awaited;
  control_setup = setup;
  is_completed = true;
  iso_packet_results = packets;
  sent = some result;
  libusb = none;
  memory = none;
  has_context = false;
  in_flight = false;
}
concrete setup buf_len (rejected l) = record {
  has_buffer = false;
  buf_len = buf_len;
  has_receiver = false;
  control_setup = setup;
  is_completed = false;
  iso_packet_results = none;
  sent = none;
  libusb = some l;
  memory = none;
  has_context = false;
  in_flight = false;
}
