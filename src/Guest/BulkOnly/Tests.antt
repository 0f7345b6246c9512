-- ===== src/Guest/BulkOnly/Tests.antt =====
-- A device that answers its awaits from a list, and the theorems of the transport on it.
use masters_sibren_wieme.Prelude.{
  ℕ, ◌≡◌, ◌↔◌, ◌≤◌, ◌<◌, ◌==◌, true, false, Option, none, some, List, [], ◌∷◌, refl, length,
  replicate, arith, if◌then◌else◌,
}
use masters_sibren_wieme.Host.Transfer.{bulk}
use masters_sibren_wieme.Host.Backend.Descriptors.{EndpointDescriptor}
use masters_sibren_wieme.Guest.BulkOnly.{
  BulkOnlyTransportCommandBlock, CommandBlockWrapper, ok, err, invalid_lun, inward, outward,
  incorrect_tag, is_sendable, to_bytes, status_of, get_tag, select_lun, exchange, receive_data,
  command_in, send_data, command_out, wrapper, options, empty_setup,
}
use masters_sibren_wieme.Guest.BulkOnly.Samples.{
  bytes_crate, bytes_crate-IsDocumented, scripted, disk,
}
use masters_sibren_wieme.Guest.BulkOnly.Frames.{
  parse_frame, status_frame, to_bytes-parse_frame, frame,
}
use masters_sibren_wieme.Guest.BulkOnly.Commands.{select_lun-panics, command_in-answered}

program : Unit {0}
unfolding exchange receive_data send_data
program = tt

-- READ CAPACITY (10)
abbrev capacity : BulkOnlyTransportCommandBlock
capacity = record { command_block = 0x25 ∷ replicate 9 0; transfer_length = 8 }

abbrev capacity_wrapper : CommandBlockWrapper
capacity_wrapper = record {
  tag = 7;
  transfer_length = 8;
  direction = inward;
  lun = 0;
  cbwcb = capacity.command_block;
}

to_bytes-parse_frame_example :
    (is_sendable capacity_wrapper ≡ false → to_bytes bytes_crate capacity_wrapper ≡ none)
    × (is_sendable capacity_wrapper ≡ true
        → (bytes : List ℕ) × (to_bytes bytes_crate capacity_wrapper ≡ some bytes)
          × (length bytes ≡ 31)
          × (parse_frame bytes ≡ some capacity_wrapper))
to_bytes-parse_frame_example =
    to_bytes-parse_frame bytes_crate bytes_crate-IsDocumented capacity_wrapper (omega arith)
      (omega arith)

select_lun-panics_example :
    (((select_lun 16 disk).0 ≡ err invalid_lun) ↔ (16 < disk.max_lun))
    × (disk.max_lun ≤ 16
        → 16 ≤ 16
        → (block : BulkOnlyTransportCommandBlock) (payload : Option (List ℕ)) (s : List (List ℕ))
        → (command_in scripted bytes_crate block (select_lun 16 disk).1 s ≡ none)
          × (command_out scripted bytes_crate block payload (select_lun 16 disk).1 s ≡ none))
select_lun-panics_example = select_lun-panics scripted bytes_crate 16 disk

abbrev status : List ℕ
status = status_frame bytes_crate bytes_crate-IsDocumented 0x53425355 7 0 0

abbrev sectors : List ℕ
sectors = 0 ∷ 0 ∷ 3 ∷ 0xE7 ∷ 0 ∷ 0 ∷ 2 ∷ 0 ∷ []

sendable : is_sendable (wrapper scripted disk capacity inward) ≡ true
unfolding get_tag
sendable = refl

sendable_out :
    is_sendable (wrapper scripted disk (record capacity { transfer_length = 0 }) outward) ≡ true
unfolding get_tag
sendable_out = refl

sent_frame :
    exchange scripted bulk empty_setup 31
      (options 2 5000)
      (frame capacity_wrapper)
      ([] ∷ sectors ∷ status ∷ [])
    ≡ some (some [], sectors ∷ status ∷ [])
unfolding program
sent_frame = refl

received_sectors :
    receive_data scripted 8 (options 0x81 10000) (sectors ∷ status ∷ [])
    ≡ some (sectors, status ∷ [])
unfolding program
received_sectors = refl

received_status :
    (timeout : ℕ)
    → exchange scripted bulk empty_setup 13 (options 0x81 timeout) [] (status ∷ [])
      ≡ some (some status, [])
unfolding program
received_status timeout = refl

command_in-answered_example :
    command_in scripted bytes_crate capacity disk ([] ∷ sectors ∷ status ∷ [])
    ≡ some (
      (if 7 == 7
          then ok (record { tag = 7; data_residue = 0; status = status_of 0 }, sectors)
          else err incorrect_tag),
      record disk { current_tag = 8 },
      [],
    )
unfolding get_tag
command_in-answered_example =
    command_in-answered scripted bytes_crate bytes_crate-IsDocumented 0 0 7 (omega arith)
      (omega arith) disk capacity ([] ∷ sectors ∷ status ∷ []) (sectors ∷ status ∷ []) (status ∷ [])
      [] (some []) sectors sendable sent_frame received_sectors (received_status 10000)

-- SYNCHRONIZE CACHE, without data.
sent_flush :
    exchange scripted bulk empty_setup 31
      (options 2 5000)
      (frame (record capacity_wrapper { direction = outward; transfer_length = 0 }))
      ([] ∷ status ∷ [])
    ≡ some (some [], status ∷ [])
unfolding program
sent_flush = refl

no_data : send_data scripted none (options 2 5000) (status ∷ []) ≡ some (status ∷ [])
unfolding program
no_data = refl

abbrev endpoint_at : ℕ → ℕ → EndpointDescriptor
endpoint_at address attributes = record {
  length = 7;
  descriptor_type = 5;
  endpoint_address = address;
  attributes = attributes;
  max_packet_size = 512;
  interval = 0;
  refresh = 0;
  synch_address = 0;
}

abbrev disk_endpoints : List EndpointDescriptor
disk_endpoints = endpoint_at 0x81 2 ∷ endpoint_at 0x83 3 ∷ endpoint_at 2 2 ∷ []
