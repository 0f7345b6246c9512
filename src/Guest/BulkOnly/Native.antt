-- ===== src/Guest/BulkOnly/Native.antt =====
-- usb-wasi-guest/examples/mass-storage/src/bulk_only/native.rs: the same transport over the crate
-- `rusb`, which is a parameter. The device without its handle, the two frames, `to_bytes`, `get_tag` and
-- `select_lun` are written as in wasm.rs, and are those of the parent.
pub mod Endpoints
pub mod Answers
mod Tests
use masters_sibren_wieme.Prelude.{
  ℕ, ◌≡◌, ◌≤◌, ◌-◌, Bool, true, false, not, ◌&&◌, Option, none, some, List, [], ◌∷◌, ◌++◌, ◌==◌,
  if◌then◌else◌, length, replicate, has_bit, low_bits,
}
use masters_sibren_wieme.Host.Transfer.{TransferType, bulk}
use masters_sibren_wieme.Host.Backend.Descriptors.{EndpointDescriptor}
use masters_sibren_wieme.Guest.BulkOnly.{
  ◌>>=◌, BulkOnlyTransportDevice, BulkOnlyTransportCommandBlock, CommandBlockWrapper,
  CommandStatusWrapper, CommandStatusWrapperStatus, Direction, Result, ok, err, incorrect_tag,
  inward, outward, to_bytes, get_tag, command_passed, command_failed, phase_error,
  reserved_obsolete, reserved,
}
use masters_sibren_wieme.Guest.BulkOnly.Bytes.{BytesCrate}

-- What `rusb` tells of an interface: its number, and the endpoints of each of its alternate settings.
pub record Interface : Type 0 where
  pub number : ℕ  -- u8
  pub descriptors : List (List EndpointDescriptor)

pub record ConfigDescriptor : Type 0 where
  pub number : ℕ  -- u8
  pub interfaces : List Interface

-- What the transport calls on a device of `rusb` and on its handle, with the state of the bus; `none`
-- is an error. A read gets the size of the buffer, and gives the bytes that it puts at its front.
pub record Rusb (S : Type 0) : Type 0 where
  pub direction : EndpointDescriptor → Direction
  pub transfer_type : EndpointDescriptor → TransferType
  pub config_descriptor : ℕ → S → Option ConfigDescriptor
  pub open_device : S → Option S
  pub set_auto_detach_kernel_driver : Bool → S → S
  pub reset : S → Option S
  pub active_configuration : S → Option (ℕ × S)
  pub set_active_configuration : ℕ → S → Option S
  pub claim_interface : ℕ → S → Option S
  pub read_control : ℕ → ℕ → ℕ → ℕ → ℕ → S → Option (List ℕ × S)
  pub read_bulk : ℕ → ℕ → S → Option (List ℕ × S)
  pub write_bulk : ℕ → List ℕ → S → Option S

-- `ep.transfer_type() == TransferType::Bulk`
abbrev pub is_bulk : TransferType → Bool
is_bulk bulk = true
is_bulk _ = false

-- `ep.direction() == Direction::In`
abbrev pub is_inward : Direction → Bool
is_inward inward = true
is_inward outward = false

-- What the documentation of `rusb` says of an endpoint's methods, and of a read.
pub record IsRusb {S : Type 0} (r : Rusb S) : Type 0 where
  pub directions :
      (ep : EndpointDescriptor) → is_inward (r.direction ep) ≡ has_bit 7 ep.endpoint_address
  pub types :
      (ep : EndpointDescriptor) → is_bulk (r.transfer_type ep) ≡ (low_bits ep.attributes 2 == 2)
  pub reads :
      (endpoint size : ℕ) (s s1 : S) (bytes : List ℕ)
      → r.read_bulk endpoint size s ≡ some (bytes, s1)
      → length bytes ≤ size

abbrev pub status_of : ℕ → CommandStatusWrapperStatus
status_of n =
    if n == 0
    then command_passed
    else if n == 1
    then command_failed
    else if n == 2
    then phase_error
    else if n == 3
    then reserved_obsolete
    else if n == 4
    then reserved_obsolete
    else reserved

-- What follows the signature.
unfoldable pub csw_fields : BytesCrate → List ℕ → Option CommandStatusWrapper
csw_fields b bytes = do
  (tag, bytes1) ← b.get_u32_le bytes
  (data_residue, bytes2) ← b.get_u32_le bytes1
  (status, bytes3) ← b.get_u8 bytes2
  some (record { tag = tag; data_residue = data_residue; status = status_of status })

unfoldable pub from_bytes : BytesCrate → List ℕ → Option CommandStatusWrapper
from_bytes b bytes =
    let read = b.get_u32_le bytes >>= (λ r. if r.0 == 0x53425355 then csw_fields b r.1 else none) in
    if length bytes == 13 then read else none

-- A buffer of zeros, after a read of some bytes into its front.
abbrev pub filled : ℕ → List ℕ → List ℕ
filled size bytes = bytes ++ replicate (size - length bytes) 0

abbrev pub cbw_of :
    BulkOnlyTransportDevice → BulkOnlyTransportCommandBlock → Direction → CommandBlockWrapper
cbw_of d block direction = record {
  tag = (get_tag d).0;
  transfer_length = block.transfer_length;
  direction = direction;
  lun = d.selected_lun;
  cbwcb = block.command_block;
}

abbrev pub with_tag : ℕ → CommandStatusWrapper → Result CommandStatusWrapper
with_tag tag csw = if csw.tag == tag then ok csw else err incorrect_tag

abbrev pub with_bytes :
    List ℕ → Result CommandStatusWrapper → Result (CommandStatusWrapper × List ℕ)
with_bytes bytes (ok csw) = ok (csw, bytes)
with_bytes bytes (err e) = err e

-- `descriptors().next()`, and `data[0]`.
abbrev pub next {ℓ} : {A : Type ℓ} → List A → Option A
next [] = none
next (x ∷ xs) = some x

-- `interfaces().find(…)`
unfoldable pub find_interface : ℕ → List Interface → Option Interface
find_interface interface [] = none
find_interface interface (i ∷ is) =
    if i.number == interface then some i else find_interface interface is

module _ {S : Type 0} (r : Rusb S) where
  -- `endpoints.find(…)`, with the endpoints that the iterator has left.
  unfoldable pub find_bulk :
      Bool → List EndpointDescriptor → Option (EndpointDescriptor × List EndpointDescriptor)
  find_bulk inwards [] = none
  find_bulk inwards (ep ∷ eps) =
      let is_sought =
        if inwards then is_inward (r.direction ep) else not (is_inward (r.direction ep)) in
      if is_sought && is_bulk (r.transfer_type ep) then some (ep, eps) else find_bulk inwards eps

  -- `(bulk_in, bulk_out)`: both searches go on over the one iterator.
  unfoldable pub find_endpoints : List EndpointDescriptor → Option (ℕ × ℕ)
  find_endpoints endpoints = do
    (ep_in, rest) ← find_bulk true endpoints
    (ep_out, rest1) ← find_bulk false rest
    some (ep_in.endpoint_address, ep_out.endpoint_address)

  unfoldable pub new_device : ℕ → ℕ → S → Option (BulkOnlyTransportDevice × S)
  new_device configuration interface s = do
    config_descriptor ← r.config_descriptor configuration s
    s1 ← r.open_device s
    s2 ← r.reset (r.set_auto_detach_kernel_driver true s1)
    (active, s3) ← r.active_configuration s2
    s4 ←
        if active == config_descriptor.number
        then some s3
        else r.set_active_configuration configuration s3
    s5 ← r.claim_interface interface s4
    found ← find_interface interface config_descriptor.interfaces
    endpoints ← next found.descriptors
    (bulk_in, bulk_out) ← find_endpoints endpoints
    (bytes, s6) ← r.read_control 0xA1 0xFE 0 interface 1 s5
    max_lun ← next (filled 1 bytes)
    some (
      record {
        bulk_in = bulk_in;
        bulk_out = bulk_out;
        current_tag = 0;
        selected_lun = 0;
        max_lun = max_lun;
      },
      s6,
    )

  -- The end of both commands.
  unfoldable pub receive_csw : BytesCrate → ℕ → ℕ → S → Option (Result CommandStatusWrapper × S)
  receive_csw b tag bulk_in s = do
    (bytes, s1) ← r.read_bulk bulk_in 13 s
    csw ← from_bytes b (filled 13 bytes)
    some (with_tag tag csw, s1)

  unfoldable pub command_in :
      BytesCrate
      → BulkOnlyTransportCommandBlock
      → BulkOnlyTransportDevice
      → S
      → Option (Result (CommandStatusWrapper × List ℕ) × BulkOnlyTransportDevice × S)
  command_in b block d s = do
    cbw_bytes ← to_bytes b (cbw_of d block inward)
    s1 ← r.write_bulk d.bulk_out cbw_bytes s
    (bytes, s2) ← r.read_bulk d.bulk_in block.transfer_length s1
    (csw, s3) ← receive_csw b (get_tag d).0 d.bulk_in s2
    some (with_bytes (filled block.transfer_length bytes) csw, (get_tag d).1, s3)

  unfoldable pub send_data : Option (List ℕ) → ℕ → S → Option S
  send_data none bulk_out s = some s
  send_data (some bytes) bulk_out s = r.write_bulk bulk_out bytes s

  unfoldable pub command_out :
      BytesCrate
      → BulkOnlyTransportCommandBlock
      → Option (List ℕ)
      → BulkOnlyTransportDevice
      → S
      → Option (Result CommandStatusWrapper × BulkOnlyTransportDevice × S)
  command_out b block bytes d s = do
    cbw_bytes ← to_bytes b (cbw_of d block outward)
    s1 ← r.write_bulk d.bulk_out cbw_bytes s
    s2 ← send_data bytes d.bulk_out s1
    (csw, s3) ← receive_csw b (get_tag d).0 d.bulk_in s2
    some (csw, (get_tag d).1, s3)
