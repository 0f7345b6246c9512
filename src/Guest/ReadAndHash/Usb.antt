-- ===== src/Guest/ReadAndHash/Usb.antt =====
-- usb-wasi-guest/examples/read_and_hash.rs, UsbMassStorage: a disk that is read through the Bulk Only
-- Transport.
pub mod Frames
pub mod Reads
use masters_sibren_wieme.Prelude.{
  ℕ, ◌+◌, ◌-◌, ◌*◌, ◌/◌, ◌%◌, ◌^◌, min, Bool, true, false, not, Option, none, some, List, [], ◌++◌,
  ◌==◌, ltb, if◌then◌else◌, length, take, get_or, replicate,
}
use masters_sibren_wieme.Host.Errors.{LibusbError, Result, ok, err, overflow, other}
use masters_sibren_wieme.Host.Transfer.{TransferType, control, bulk, TransferSetup, TransferOptions}
use masters_sibren_wieme.Guest.BulkOnly.Bytes.{BytesCrate, be_bytes, be_bytes_u16}
use masters_sibren_wieme.Guest.BulkOnly.Frames.{u32_of}
use masters_sibren_wieme.Guest.MassStorage.Data.{bytes_between}
use masters_sibren_wieme.Guest.ReadAndHash.Data.{
  Outcome, returned, failed, panicked, ◌>>=◌, from_result, Handle, DeviceCapacity, UsbMassStorage,
  IoError, invalid_input, usb_error, SeekFrom, start_of, end_of, current, ReadSeek, saturating_add,
  as_u64, saturating_add_signed,
}

abbrev pub options : ℕ → TransferOptions
options endpoint = record { endpoint = endpoint; timeout_ms = 1000; stream_id = 0; iso_packets = 0 }

abbrev pub setup_of : ℕ → ℕ → TransferSetup
setup_of bm_request_type b_request = record {
  bm_request_type = bm_request_type;
  b_request = b_request;
  w_value = 0;
  w_index = 0;
}

-- The 31 bytes that stand before a command.
unfoldable pub cbw_bytes : BytesCrate → ℕ → ℕ → ℕ → List ℕ → List ℕ
cbw_bytes b tag data_length flags cbwcb =
    let b1 = b.put_u32_le 0x43425355 [] in
    let b2 = b.put_u32_le data_length (b.put_u32_le tag b1) in
    let b3 = b.put_u8 (length cbwcb % 256) (b.put_u8 0 (b.put_u8 flags b2)) in
    b.resize 31 0 (b.put_slice cbwcb b3)

-- `u32::from_le_bytes` of four bytes of the status.
abbrev pub u32_at : ℕ → List ℕ → ℕ
u32_at i bytes =
    u32_of (get_or bytes i 0) (get_or bytes (i + 1) 0) (get_or bytes (i + 2) 0)
      (get_or bytes (i + 3) 0)

unfoldable pub check_csw : ℕ → List ℕ → Result (Unit {0})
check_csw tag bytes =
    if ltb (length bytes) 13
    then err overflow
    else if not (u32_at 0 bytes == 0x53425355)
    then err other
    else if not (u32_at 4 bytes == tag)
    then err other
    else if not (get_or bytes 12 0 == 0)
    then err other
    else ok tt

-- What a read leaves in a zeroed buffer of n bytes.
abbrev pub filled : ℕ → List ℕ → List ℕ
filled n received =
    let copy_len = min (length received) n in take copy_len received ++ replicate (n - copy_len) 0

abbrev pub read_10_block : BytesCrate → ℕ → ℕ → List ℕ
read_10_block b block_address transfer_length =
    let b1 = b.put_slice (be_bytes block_address) (b.put_u8 0 (b.put_u8 0x28 [])) in
    b.put_u8 0 (b.put_slice (be_bytes_u16 transfer_length) (b.put_u8 0 b1))

abbrev pub capacity_block : BytesCrate → List ℕ
capacity_block b = b.put_bytes 0 9 (b.put_u8 0x25 [])

unfoldable pub increase_tag : {S : Type 0} → UsbMassStorage S → ℕ × UsbMassStorage S
increase_tag d = ((d.tag + 1) % 2 ^ 32, record d { tag = (d.tag + 1) % 2 ^ 32 })

-- A call on the handle, for the disk that holds it.
abbrev pub with_host :
    {S A : Type 0}
    → UsbMassStorage S
    → Outcome LibusbError S A
    → Outcome LibusbError (UsbMassStorage S) A
with_host d (returned a s) = returned a (record d { host = s })
with_host d (failed e s) = failed e (record d { host = s })
with_host d panicked = panicked

abbrev pub on_host :
    {S A : Type 0}
    → (S → Outcome LibusbError S A)
    → UsbMassStorage S
    → Outcome LibusbError (UsbMassStorage S) A
on_host call d = with_host d (call d.host)

-- `.map_err(|e| io::Error::new(io::ErrorKind::Other, …))`
abbrev pub map_err : {T A : Type 0} → Outcome LibusbError T A → Outcome IoError T A
map_err (returned a t) = returned a t
map_err (failed e t) = failed (usb_error e) t
map_err panicked = panicked

-- An index out of bounds, or a copy of another length, panics.
abbrev pub or_panic : {E T A : Type 0} → Option A → T → Outcome E T A
or_panic none t = panicked
or_panic (some a) t = returned a t

abbrev pub is_some : {A : Type 0} → Option A → Bool
is_some none = false
is_some (some a) = true

abbrev pub bytes_or_none : Option (List ℕ) → List ℕ
bytes_or_none none = []
bytes_or_none (some bytes) = bytes

-- `if !… { return Err(LibusbError::Other); }`
abbrev pub require : {T : Type 0} → Bool → T → Outcome LibusbError T (Unit {0})
require true t = returned tt t
require false t = failed other t

module _ {S : Type 0} (h : Handle S) where
  -- `new_transfer(…)?`, `submit_transfer(…)?` and `await_transfer(…)?`.
  unfoldable pub transfer :
      TransferType
      → TransferSetup
      → ℕ
      → TransferOptions
      → List ℕ
      → S
      → Outcome LibusbError S (List ℕ)
  transfer type setup size opts payload = do
    xfer ← h.new_transfer type setup size opts
    _ ← h.submit_transfer xfer payload
    h.await_transfer xfer

  unfoldable pub receive_csw :
      ℕ → UsbMassStorage S → Outcome LibusbError (UsbMassStorage S) (Unit {0})
  receive_csw tag d =
      (do
        bytes ← on_host (transfer bulk (setup_of 0xA1 0) 13 (options d.in_endpoint) [])
        from_result (check_csw tag bytes))
        d

  unfoldable pub reset : UsbMassStorage S → Outcome LibusbError (UsbMassStorage S) Bool
  reset = do _ ← on_host (transfer control (setup_of 0x21 0xFF) 0 (options 0) []); returned true

  module _ (b : BytesCrate) where
    unfoldable pub receive_over_usb :
        List ℕ → ℕ → UsbMassStorage S → Outcome LibusbError (UsbMassStorage S) (List ℕ)
    receive_over_usb cbwcb data_length d =
        let next = increase_tag d in
        let cbw = cbw_bytes b next.0 data_length 0x80 cbwcb in
        (do
          _ ← on_host (transfer bulk (setup_of 0x21 0) 31 (options d.out_endpoint) cbw)
          received ←
              on_host (transfer bulk (setup_of 0xA1 0) data_length (options d.in_endpoint) [])
          _ ← receive_csw next.0
          returned (filled data_length received))
          next.1

    abbrev pub send_data :
        Option (List ℕ) → UsbMassStorage S → Outcome LibusbError (UsbMassStorage S) (Unit {0})
    send_data none d = returned tt d
    send_data (some bytes) d =
        (do
          _ ←
              on_host
                (transfer bulk (setup_of 0x21 0) (length bytes) (options d.out_endpoint) bytes)
          returned tt)
          d

    unfoldable pub send_over_usb :
        List ℕ
        → Option (List ℕ)
        → UsbMassStorage S
        → Outcome LibusbError (UsbMassStorage S) (Unit {0})
    send_over_usb cbwcb payload d =
        let next = increase_tag d in
        let flags = if is_some payload then 0 else 0x80 in
        let cbw = cbw_bytes b next.0 (length (bytes_or_none payload)) flags cbwcb in
        (do
          _ ← on_host (transfer bulk (setup_of 0x21 0) 31 (options d.out_endpoint) cbw)
          _ ← send_data payload
          receive_csw next.0)
          next.1

    unfoldable pub test_unit_ready : UsbMassStorage S → Outcome LibusbError (UsbMassStorage S) Bool
    test_unit_ready = do _ ← send_over_usb (replicate 6 0) none; returned true

    unfoldable pub read_capacity :
        UsbMassStorage S → Outcome LibusbError (UsbMassStorage S) DeviceCapacity
    read_capacity = do
      bytes ← receive_over_usb (capacity_block b) 8
      (block_count, rest) ← or_panic (b.get_u32 bytes)
      (block_length, _) ← or_panic (b.get_u32 rest)
      returned (record { size = block_count * block_length; block_length = block_length })

    abbrev pub set_capacity :
        DeviceCapacity → UsbMassStorage S → Outcome LibusbError (UsbMassStorage S) (Unit {0})
    set_capacity capacity d = returned tt (record d { capacity = capacity })

    -- `new`, from the opened handle on.
    unfoldable pub new : S → Outcome LibusbError (UsbMassStorage S) (Unit {0})
    new s =
        (do
          _ ← on_host (h.set_configuration 0)
          _ ← on_host (h.claim_interface 0)
          was_reset ← reset
          _ ← require was_reset
          ready ← test_unit_ready
          _ ← require ready
          capacity ← read_capacity
          set_capacity capacity)
          (record {
            host = s;
            in_endpoint = 0x81;
            out_endpoint = 0x02;
            block_size = 512;
            seek_position = 0;
            capacity = record { size = 0; block_length = 0 };
            tag = 0;
          })

    unfoldable pub read_10 :
        ℕ → ℕ → UsbMassStorage S → Outcome LibusbError (UsbMassStorage S) (List ℕ)
    read_10 block_address transfer_length d =
        receive_over_usb (read_10_block b block_address transfer_length)
          (transfer_length * d.capacity.block_length % 2 ^ 32) d

    abbrev pub move_on : ℕ → List ℕ → UsbMassStorage S → Outcome IoError (UsbMassStorage S) (List ℕ)
    move_on num_bytes bytes d =
        returned bytes (record d { seek_position = (d.seek_position + num_bytes) % 2 ^ 64 })

    -- The part of `read` after its two guards, for `n` bytes.
    unfoldable pub read_blocks : ℕ → UsbMassStorage S → Outcome IoError (UsbMassStorage S) (List ℕ)
    read_blocks n d =
        let block_length = d.capacity.block_length in
        let block_address = d.seek_position / block_length % 2 ^ 32 in
        let end_address = (d.seek_position + n) % 2 ^ 64 in
        let last = (end_address + 2 ^ 64 - 1) % 2 ^ 64 / block_length in
        let transfer_length = (last + 2 ^ 64 - block_address + 1) % 2 ^ 16 in
        let start_index = d.seek_position % block_length in
        (do
          bytes ← λ d1. map_err (read_10 block_address transfer_length d1)
          part ← or_panic (bytes_between start_index ((start_index + n) % 2 ^ 32) bytes)
          move_on n part)
          d

    -- A disk whose blocks have no bytes makes the division panic.
    unfoldable pub read : ℕ → UsbMassStorage S → Outcome IoError (UsbMassStorage S) (List ℕ)
    read n d =
        let wanted = if d.capacity.block_length == 0 then panicked else read_blocks n d in
        if n == 0
        then returned [] d
        else if ltb d.capacity.size ((d.seek_position + n) % 2 ^ 64)
        then failed invalid_input d
        else wanted

  unfoldable pub target : SeekFrom → UsbMassStorage S → ℕ
  target (start_of position) d = position
  target (end_of position) d = saturating_add d.capacity.size (as_u64 position)
  target (current position) d = saturating_add_signed d.seek_position position

  unfoldable pub seek : SeekFrom → UsbMassStorage S → Outcome IoError (UsbMassStorage S) ℕ
  seek pos d = returned (target pos d) (record d { seek_position = target pos d })

  -- The traits `Read` and `Seek` of the disk.
  abbrev pub disk : BytesCrate → ReadSeek (UsbMassStorage S)
  disk b = record { read = read b; seek = seek }
