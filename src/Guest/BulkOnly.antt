-- ===== src/Guest/BulkOnly.antt =====
-- usb-wasi-guest/examples/mass-storage/src/bulk_only/wasm.rs: the Bulk Only Transport of USB mass
-- storage, by the WIT interface. The crate `bytes` and the host are parameters.
pub mod Data
pub use Data.*
pub mod Bytes
pub mod Frames
pub mod Commands
pub mod Discovery
pub mod Samples
pub mod Native
mod Tests
use masters_sibren_wieme.Prelude.{
  ℕ, ◌+◌, ◌-◌, ◌%◌, ◌^◌, Bool, true, false, not, ◌&&◌, ◌||◌, Option, none, some, List, [], ◌∷◌,
  ◌==◌, ltb, leb, if◌then◌else◌, length, has_bit, low_bits,
}
use masters_sibren_wieme.Host.Transfer.{TransferType, control, bulk, TransferSetup, TransferOptions}
use masters_sibren_wieme.Host.Backend.Descriptors.{
  EndpointDescriptor, InterfaceDescriptor, ConfigurationDescriptor,
}
use masters_sibren_wieme.Guest.BulkOnly.Bytes.{BytesCrate}

infixl 5 ◌>>=◌
-- A panic is `none`.
abbrev pub ◌>>=◌ {ℓ κ} : {A : Type ℓ} {B : Type κ} → Option A → (A → Option B) → Option B
none >>= f = none
some a >>= f = f a

abbrev pub direction_byte : Direction → ℕ
direction_byte outward = 0
direction_byte inward = 0x80

-- The two assertions of `to_bytes`.
abbrev pub is_sendable : CommandBlockWrapper → Bool
is_sendable cbw = ltb cbw.lun 16 && not (length cbw.cbwcb == 0) && leb (length cbw.cbwcb) 16

unfoldable pub to_bytes : BytesCrate → CommandBlockWrapper → Option (List ℕ)
to_bytes b cbw =
    let b1 = b.put_u32_le 0x43425355 [] in
    let b2 = b.put_u32_le cbw.tag b1 in
    let b3 = b.put_u32_le cbw.transfer_length b2 in
    let b4 = b.put_u8 (direction_byte cbw.direction) b3 in
    let b5 = b.put_u8 cbw.lun b4 in
    let b6 = b.put_u8 (length cbw.cbwcb % 256) b5 in
    let b7 = b.put_slice cbw.cbwcb b6 in
    let b8 = b.put_bytes 0 (16 - length cbw.cbwcb) b7 in if is_sendable cbw then some b8 else none

abbrev pub status_of : ℕ → CommandStatusWrapperStatus
status_of n =
    if n == 0
    then command_passed
    else if n == 1
    then command_failed
    else if n == 2
    then phase_error
    else if n == 3
    then reserved_obsolete
    else reserved

-- What follows the signature.
unfoldable pub csw_fields : BytesCrate → List ℕ → Option CommandStatusWrapper
csw_fields b bytes = do
  (tag, bytes1) ← b.get_u32_le bytes
  (data_residue, bytes2) ← b.get_u32_le bytes1
  (status, bytes3) ← b.get_u8 bytes2
  some (record { tag = tag; data_residue = data_residue; status = status_of status })

unfoldable pub from_bytes : BytesCrate → List ℕ → Option CommandStatusWrapper
from_bytes b bytes =
    let read = b.get_u32_le bytes >>= (λ r. if r.0 == 0x53425355 then csw_fields b r.1 else none) in
    if length bytes == 13 then read else none

abbrev pub empty_setup : TransferSetup
empty_setup = record { bm_request_type = 0; b_request = 0; w_value = 0; w_index = 0 }

abbrev pub options : ℕ → ℕ → TransferOptions
options endpoint timeout_ms = record {
  endpoint = endpoint;
  timeout_ms = timeout_ms;
  stream_id = 0;
  iso_packets = 0;
}

unfoldable pub get_tag : BulkOnlyTransportDevice → ℕ × BulkOnlyTransportDevice
get_tag d = (d.current_tag, record d { current_tag = (d.current_tag + 1) % 2 ^ 32 })

unfoldable pub select_lun :
    ℕ → BulkOnlyTransportDevice → Result (Unit {0}) × BulkOnlyTransportDevice
select_lun lun d =
    if ltb lun d.max_lun then (err invalid_lun, d) else (ok tt, record d { selected_lun = lun })

-- `for ep in &interface.endpoints`, with `bulk_in` and `bulk_out`.
unfoldable pub find_endpoints : List EndpointDescriptor → ℕ → ℕ → ℕ × ℕ
find_endpoints [] bulk_in bulk_out = (bulk_in, bulk_out)
find_endpoints (ep ∷ eps) bulk_in bulk_out =
    if low_bits ep.attributes 2 == 2
    then if has_bit 7 ep.endpoint_address
      then find_endpoints eps ep.endpoint_address bulk_out
      else find_endpoints eps bulk_in ep.endpoint_address
    else find_endpoints eps bulk_in bulk_out

module _ {S : Type 0} (h : DeviceHandle S) where
  -- `new_transfer(…).expect(…)`, `submit_transfer(…).ok()` and `await_transfer(…)`.
  unfoldable pub exchange :
      TransferType → TransferSetup → ℕ → TransferOptions → List ℕ → S → Option (Option (List ℕ) × S)
  exchange type setup size opts payload s = do
    (xfer, s1) ← h.new_transfer type setup size opts s
    some (h.await_transfer xfer (h.submit_transfer xfer payload s1))

  -- `.map(|r| r.data).unwrap_or(…)`
  abbrev pub data_or : List ℕ → Option (List ℕ) → List ℕ
  data_or d none = d
  data_or d (some bytes) = bytes

  -- The end of both commands: the length of what the device sent as its status, and its tag.
  unfoldable pub judge_csw : BytesCrate → ℕ → List ℕ → Option (Result CommandStatusWrapper)
  judge_csw b tag bytes =
      let judged =
        from_bytes b bytes
        >>= (λ csw. some (if csw.tag == tag then ok csw else err incorrect_tag)) in
      if length bytes == 13 then judged else some (err incorrect_tag)

  unfoldable pub receive_csw :
      BytesCrate → ℕ → TransferOptions → S → Option (Result CommandStatusWrapper × S)
  receive_csw b tag opts_in s = do
    (csw, s1) ← exchange bulk empty_setup 13 opts_in [] s
    result ← judge_csw b tag (data_or [] csw)
    some (result, s1)

  unfoldable pub receive_data : ℕ → TransferOptions → S → Option (List ℕ × S)
  receive_data transfer_length opts_in s =
      let received =
        exchange bulk empty_setup transfer_length opts_in [] s
        >>= (λ r. some (data_or [] r.0, r.1)) in
      if ltb 0 transfer_length then received else some ([], s)

  abbrev pub with_data :
      List ℕ → Result CommandStatusWrapper → Result (CommandStatusWrapper × List ℕ)
  with_data bytes (ok csw) = ok (csw, bytes)
  with_data bytes (err e) = err e

  abbrev pub wrapper :
      BulkOnlyTransportDevice → BulkOnlyTransportCommandBlock → Direction → CommandBlockWrapper
  wrapper d block direction = record {
    tag = (get_tag d).0;
    transfer_length = block.transfer_length;
    direction = direction;
    lun = d.selected_lun;
    cbwcb = block.command_block;
  }

  unfoldable pub command_in :
      BytesCrate
      → BulkOnlyTransportCommandBlock
      → BulkOnlyTransportDevice
      → S
      → Option (Result (CommandStatusWrapper × List ℕ) × BulkOnlyTransportDevice × S)
  command_in b block d s = do
    cbw_bytes ← to_bytes b (wrapper d block inward)
    (_, s1) ← exchange bulk empty_setup (length cbw_bytes) (options d.bulk_out 5000) cbw_bytes s
    (bytes, s2) ← receive_data block.transfer_length (options d.bulk_in 10000) s1
    (csw, s3) ← receive_csw b (get_tag d).0 (options d.bulk_in 10000) s2
    some (with_data bytes csw, (get_tag d).1, s3)

  unfoldable pub send_data : Option (List ℕ) → TransferOptions → S → Option S
  send_data none opts_out s = some s
  send_data (some bytes) opts_out s =
      exchange bulk empty_setup (length bytes) opts_out bytes s >>= (λ r. some r.1)

  unfoldable pub command_out :
      BytesCrate
      → BulkOnlyTransportCommandBlock
      → Option (List ℕ)
      → BulkOnlyTransportDevice
      → S
      → Option (Result CommandStatusWrapper × BulkOnlyTransportDevice × S)
  command_out b block bytes d s = do
    cbw_bytes ← to_bytes b (wrapper d block outward)
    (_, s1) ← exchange bulk empty_setup (length cbw_bytes) (options d.bulk_out 5000) cbw_bytes s
    s2 ← send_data bytes (options d.bulk_out 5000) s1
    (csw, s3) ← receive_csw b (get_tag d).0 (options d.bulk_in 5000) s2
    some (csw, (get_tag d).1, s3)

  abbrev pub or_zero : Option ℕ → ℕ
  or_zero none = 0
  or_zero (some n) = n

  -- `lun_data[0]`
  abbrev pub first : List ℕ → Option ℕ
  first [] = none
  first (x ∷ xs) = some x

  unfoldable pub new_device :
      ConfigurationDescriptor → InterfaceDescriptor → S → Option (BulkOnlyTransportDevice × S)
  new_device configuration interface s = do
    s1 ← h.open_device s
    let active = h.get_configuration (h.reset_device s1)
    let s2 =
        if or_zero active.0 == configuration.configuration_value
        then active.1
        else h.set_configuration configuration.configuration_value active.1
    let found = find_endpoints interface.endpoints 0 0
    (lun_data, s3) ←
        exchange control
          (record {
            bm_request_type = 0xA1;
            b_request = 0xFE;
            w_value = 0;
            w_index = interface.interface_number;
          })
          1 (options 0 1000) [] (h.claim_interface interface.interface_number s2)
    max_lun ← first (data_or (0 ∷ []) lun_data)
    some (
      record {
        bulk_in = found.0;
        bulk_out = found.1;
        current_tag = 0;
        selected_lun = 0;
        max_lun = max_lun;
      },
      s3,
    )
