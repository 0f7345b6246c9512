-- ===== src/Guest/MassStorage/Scsi.antt =====
-- usb-wasi-guest/examples/mass-storage/src/mass_storage.rs, the SCSI commands over the Bulk Only
-- Transport, the answers that they read, and `MassStorageDevice::new`.
use masters_sibren_wieme.Prelude.{
  ℕ, ◌+◌, ◌*◌, ◌/◌, ◌%◌, ◌^◌, Bool, true, false, ◌&&◌, not, Option, none, some, List, [], ◌∷◌, ◌++◌,
  ◌==◌, if◌then◌else◌, has_bit, low_bits, replicate,
}
use masters_sibren_wieme.Guest.BulkOnly.{
  DeviceHandle, BulkOnlyTransportDevice, BulkOnlyTransportCommandBlock, CommandStatusWrapper,
  CommandStatusWrapperStatus, command_passed, Result, ok, err, ◌>>=◌, command_in, command_out,
}
use masters_sibren_wieme.Guest.BulkOnly.Bytes.{BytesCrate}
use masters_sibren_wieme.Guest.MassStorage.Data.{
  MassStorageDeviceProperties, MassStorageDeviceError, incompatible_device, not_ready,
  MassStorageDevice, LruCache, BlockIo, bytes_between, wrap,
}

-- The transport with the state of the host, and the statistics.
pub record Scsi (S : Type 0) : Type 0 where
  pub device : BulkOnlyTransportDevice
  pub host : S
  pub reads : ℕ
  pub blocks_read : ℕ
  pub writes : ℕ
  pub blocks_written : ℕ

-- Of the standard library's strings: `String::from_utf8(…).unwrap()` and `trim`.
pub record Strings : Type 0 where
  pub from_utf8 : List ℕ → Option (List ℕ)
  pub trim : List ℕ → List ℕ

pub record InquiryResponse : Type 0 where
  pub peripheral_qualifier : ℕ
  pub peripheral_device_type : ℕ
  pub removable_media : Bool
  pub version : ℕ
  pub response_data_format : ℕ
  pub vendor_id : List ℕ
  pub product_id : List ℕ
  pub product_revision : List ℕ

pub record ReadCapacityResponse : Type 0 where
  pub returned_logical_block_address : ℕ
  pub block_length_in_bytes : ℕ
  pub capacity_in_bytes : ℕ

-- What `request_sense` prints.
pub record Sense : Type 0 where
  pub valid : ℕ
  pub response_code : ℕ
  pub sense_key : ℕ
  pub information : ℕ
  pub additional_sense_length : ℕ
  pub command_specific_information : ℕ
  pub additional_sense_code : ℕ
  pub additional_sense_code_qualifier : ℕ

unfoldable pub inquiry_from_bytes : BytesCrate → Strings → List ℕ → Option InquiryResponse
inquiry_from_bytes b strings bytes = do
  (peripheral, data1) ← b.get_u8 bytes
  (media, data2) ← b.get_u8 data1
  (version, data3) ← b.get_u8 data2
  (format, data4) ← b.get_u8 data3
  data5 ← b.advance 4 data4
  vendor ← bytes_between 0 8 data5 >>= strings.from_utf8
  product ← bytes_between 8 24 data5 >>= strings.from_utf8
  revision ← bytes_between 24 28 data5 >>= strings.from_utf8
  some (record {
    peripheral_qualifier = peripheral / 2 ^ 5 % 2 ^ 3;
    peripheral_device_type = low_bits peripheral 5;
    removable_media = has_bit 7 media;
    version = version;
    response_data_format = low_bits format 4;
    vendor_id = strings.trim vendor;
    product_id = strings.trim product;
    product_revision = strings.trim revision;
  })

unfoldable pub capacity_from_bytes : BytesCrate → List ℕ → Option ReadCapacityResponse
capacity_from_bytes b bytes = do
  (address, data1) ← b.get_u32 bytes
  (block_length, data2) ← b.get_u32 data1
  some (record {
    returned_logical_block_address = address;
    block_length_in_bytes = block_length;
    capacity_in_bytes = address * block_length;
  })

unfoldable pub sense_from_bytes : BytesCrate → List ℕ → Option Sense
sense_from_bytes b bytes = do
  (valid_and_response_code, bytes1) ← b.get_u8 bytes
  bytes2 ← b.advance 1 bytes1
  (key, bytes3) ← b.get_u8 bytes2
  (information, bytes4) ← b.get_u32 bytes3
  (length', bytes5) ← b.get_u8 bytes4
  (specific, bytes6) ← b.get_u32 bytes5
  (code, bytes7) ← b.get_u8 bytes6
  (qualifier, bytes8) ← b.get_u8 bytes7
  some (record {
    valid = valid_and_response_code / 2 ^ 7 % 2 * 2 ^ 7;
    response_code = low_bits valid_and_response_code 7;
    sense_key = low_bits key 4;
    information = information;
    additional_sense_length = length';
    command_specific_information = specific;
    additional_sense_code = code;
    additional_sense_code_qualifier = qualifier;
  })

abbrev pub is_passed : CommandStatusWrapperStatus → Bool
is_passed command_passed = true
is_passed _ = false

-- `unwrap`, and `todo!` for a command that did not pass.
unfoldable pub passed_data : Result (CommandStatusWrapper × List ℕ) → Option (List ℕ)
passed_data (err e) = none
passed_data (ok (csw, bytes)) = if is_passed csw.status then some bytes else none

unfoldable pub passed_status : Result CommandStatusWrapper → Option Bool
passed_status (err e) = none
passed_status (ok csw) = some (is_passed csw.status)

-- The ten bytes of READ(10) and WRITE(10).
unfoldable pub block_command : BytesCrate → ℕ → ℕ → ℕ → List ℕ
block_command b opcode address blocks =
    let b1 = b.put_u8 0 (b.put_u8 opcode []) in
    let b2 = b.put_u8 0 (b.put_u32 address b1) in b.put_u8 0 (b.put_u16 blocks b2)

unfoldable pub sense_command : BytesCrate → List ℕ
sense_command b = b.put_u8 252 (b.put_u8 0 (b.put_u8 0 (b.put_u8 0 (b.put_u8 3 []))))

abbrev pub name_of : InquiryResponse → List ℕ
name_of inquiry = inquiry.vendor_id ++ (32 ∷ inquiry.product_id)

abbrev pub properties_of : InquiryResponse → ReadCapacityResponse → MassStorageDeviceProperties
properties_of inquiry capacity = record {
  name = name_of inquiry;
  capacity = capacity.block_length_in_bytes * capacity.returned_logical_block_address;
  block_size = capacity.block_length_in_bytes;
  total_number_of_blocks = capacity.returned_logical_block_address;
}

module _ {S : Type 0} (h : DeviceHandle S) (b : BytesCrate) where
  unfoldable pub receive : BulkOnlyTransportCommandBlock → Scsi S → Option (List ℕ × Scsi S)
  receive cbw s = do
    (result, device, host) ← command_in h b cbw s.device s.host
    bytes ← passed_data result
    some (bytes, record s { device = device; host = host })

  unfoldable pub send :
      BulkOnlyTransportCommandBlock → Option (List ℕ) → Scsi S → Option (Bool × Scsi S)
  send cbw bytes s = do
    (result, device, host) ← command_out h b cbw bytes s.device s.host
    passed ← passed_status result
    some (passed, record s { device = device; host = host })

  unfoldable pub test_unit_ready : Scsi S → Option (Bool × Scsi S)
  test_unit_ready s = send (record { command_block = replicate 6 0; transfer_length = 0 }) none s

  unfoldable pub inquiry : Strings → Scsi S → Option (InquiryResponse × Scsi S)
  inquiry strings s = do
    (bytes, s1) ←
        receive (record { command_block = 0x12 ∷ 0 ∷ 0 ∷ 0 ∷ 36 ∷ 0 ∷ []; transfer_length = 36 }) s
    response ← inquiry_from_bytes b strings bytes
    some (response, s1)

  unfoldable pub read_capacity : Scsi S → Option (ReadCapacityResponse × Scsi S)
  read_capacity s = do
    (bytes, s1) ← receive (record { command_block = 0x25 ∷ replicate 9 0; transfer_length = 8 }) s
    response ← capacity_from_bytes b bytes
    some (response, s1)

  abbrev pub block_transfer : ℕ → ℕ → ℕ → ℕ → BulkOnlyTransportCommandBlock
  block_transfer block_size opcode address blocks = record {
    command_block = block_command b opcode address blocks;
    transfer_length = wrap (blocks * block_size);
  }

  unfoldable pub read_blocks : ℕ → ℕ → ℕ → Scsi S → Option (List ℕ × Scsi S)
  read_blocks block_size address blocks s =
      receive (block_transfer block_size 0x28 address blocks)
        (record s { reads = wrap (s.reads + 1); blocks_read = wrap (s.blocks_read + blocks) })

  unfoldable pub request_sense : Scsi S → Option (Sense × Scsi S)
  request_sense s = do
    (bytes, s1) ← receive (record { command_block = sense_command b; transfer_length = 252 }) s
    sense ← sense_from_bytes b bytes
    some (sense, s1)

  -- A write that does not pass only prints the sense data.
  unfoldable pub after_write : Bool → Scsi S → Option (Scsi S)
  after_write true s = some s
  after_write false s = request_sense s >>= (λ r. some r.1)

  unfoldable pub write_blocks : ℕ → ℕ → ℕ → List ℕ → Scsi S → Option (Scsi S)
  write_blocks block_size address blocks bytes s =
      send (block_transfer block_size 0x2A address blocks) (some bytes) (record s {
        writes = wrap (s.writes + 1);
        blocks_written = wrap (s.blocks_written + blocks);
      })
      >>= (λ r. after_write r.0 r.1)

  abbrev pub scsi_io : BlockIo (Scsi S)
  scsi_io = record { read_blocks = read_blocks; write_blocks = write_blocks }

  pub data Created (C : Type 0) : Type 0 where
    created : MassStorageDevice C (Scsi S) → Created C
    refused : MassStorageDeviceError → Scsi S → Created C

  unfoldable pub new_ready :
      {C : Type 0} → LruCache C → Strings → Bool → Scsi S → Option (Created C)
  new_ready caches strings false s = some (refused not_ready s)
  new_ready caches strings true s = do
    (inquired, s1) ← inquiry strings s
    (capacity, s2) ← read_capacity s1
    some (
        if not (inquired.peripheral_qualifier == 0) && not (inquired.peripheral_device_type == 0)
        then refused incompatible_device s2
        else created (record {
          device = s2;
          properties = properties_of inquired capacity;
          cache = caches.empty;
          cursor = 0;
        }))

  unfoldable pub new :
      {C : Type 0} → LruCache C → Strings → BulkOnlyTransportDevice → S → Option (Created C)
  new caches strings device host = do
    (ready, s) ← test_unit_ready (record {
      device = device;
      host = host;
      reads = 0;
      blocks_read = 0;
      writes = 0;
      blocks_written = 0;
    })
    new_ready caches strings ready s
