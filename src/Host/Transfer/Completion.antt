-- ===== src/Host/Transfer/Completion.antt =====
-- usb-wasi-host/src/main.rs, `transfer_callback`, which libusb's event thread calls once for each
-- submitted transfer.
pub mod Reports
use masters_sibren_wieme.Prelude.{
  ℕ, zero, suc, ◌+◌, ◌≤◌, Bool, true, false, ◌&&◌, Option, none, some, List, [], ◌∷◌, length, take,
  drop, replicate, has_bit, leb, ltb, if◌then◌else◌, arith, ◌≡◌,
}
use masters_sibren_wieme.Prelude.Int.{ℤ, pos, negsuc}
use masters_sibren_wieme.Host.Errors.{
  LibusbError, Result, ok, err, io, timeout, interrupted, pipe, no_device, overflow, other,
}
use masters_sibren_wieme.Host.Transfer.{
  TransferType, control, isochronous, Status, IsoDescriptor, LibusbTransfer, Outcome, returns,
  faults, panics, ◌>>=◌, Transfer,
}

-- `from_raw_parts(buffer + offset, n)`: `n` bytes that must lie in the buffer.
unfoldable pub slice : List ℕ → ℕ → ℕ → Outcome (List ℕ)
slice memory offset n =
    if leb (offset + n) (length memory) then returns (take n (drop offset memory)) else faults

-- The same for an i32 length: `as usize` makes a negative one larger than any buffer.
unfoldable pub slice_i32 : List ℕ → ℕ → ℤ → Outcome (List ℕ)
slice_i32 memory offset (pos n) = slice memory offset n
slice_i32 memory offset (negsuc n) = faults

unfoldable pub first_byte : List ℕ → Outcome ℕ
first_byte [] = faults
first_byte (b ∷ bs) = returns b

-- `(actual_length, status)` of the first `n` packets.
unfoldable pub packet_results : ℕ → List IsoDescriptor → Outcome (List (ℕ × Status))
packet_results zero ds = returns []
packet_results (suc n) [] = faults
packet_results (suc n) (d ∷ ds) =
    packet_results n ds >>= λ rest. returns ((d.actual_length, d.status) ∷ rest)

-- The error of a transfer that did not complete.
unfoldable pub error_of : Status → LibusbError
error_of Status.timed_out = timeout
error_of Status.cancelled = interrupted
error_of Status.stall = pipe
error_of Status.no_device = no_device
error_of Status.overflow = overflow
error_of Status.error = io
error_of _ = other

unfoldable pub control_data : LibusbTransfer → List ℕ → Outcome (List ℕ)
control_data l memory = first_byte memory >>= λ bm_request_type.
    if has_bit 7 bm_request_type
    then (elim l.actual_length [
      | pos n ↦ if ltb 0 n then slice memory 8 n else returns []
      | negsuc n ↦ faults
    ])
    else returns []

-- `repeat(0).take(actual_len).collect()` for OUT: a negative length asks for 2^63 bytes and more,
-- and panics.
unfoldable pub bulk_data : LibusbTransfer → List ℕ → Outcome (List ℕ)
bulk_data l memory =
    if has_bit 7 l.endpoint
    then slice_i32 memory 0 l.actual_length
    else (elim l.actual_length [ pos n ↦ returns (replicate n 0) | negsuc n ↦ panics ])

-- The data and the packet results that the callback reports for a completed transfer.
unfoldable pub completed_data :
    LibusbTransfer
    → List ℕ
    → Option (List (ℕ × Status))
    → Outcome (List ℕ × Option (List (ℕ × Status)))
completed_data l memory kept = elim l.num_iso_packets [
  | pos (suc n) ↦ packet_results (suc n) l.iso_packet_desc >>= λ packets.
      slice_i32 memory 0 l.length >>= λ data_vec. returns (data_vec, some packets)
  | _ ↦ elim l.transfer_type [
    | control ↦ control_data l memory >>= λ data_vec. returns (data_vec, kept)
    | _ ↦ bulk_data l memory >>= λ data_vec. returns (data_vec, kept)
  ]
]

-- What is sent on the channel, and the packet results left in the shared cell.
unfoldable pub report :
    LibusbTransfer
    → List ℕ
    → Option (List (ℕ × Status))
    → Outcome (Result (List ℕ) × Option (List (ℕ × Status)))
report l memory kept = elim l.status [
  | Status.completed ↦ completed_data l memory kept >>= λ found. returns (ok found.0, found.1)
  | status ↦ returns (err (error_of status), kept)
]

-- The callback: it takes the context out of `user_data`, reports, sets `completed`, sends, frees
-- the libusb transfer, and drops the context with the buffer in it.
unfoldable pub transfer_callback : Transfer → Outcome Transfer
transfer_callback t = elim t.libusb [
  | none ↦ faults
  | some l ↦
      if t.has_context
      then (elim t.memory [
        | none ↦ faults
        | some memory ↦ report l memory t.iso_packet_results >>= λ reported. returns (record t {
          is_completed = true;
          sent = some reported.0;
          iso_packet_results = reported.1;
          libusb = none;
          memory = none;
          has_context = false;
          in_flight = false;
        })
      ])
      else faults
]

-- What libusb writes into a submitted transfer before it calls back: the status, the byte counts
-- and the whole buffer, as the device left it.
pub record Delivery : Type 0 where
  pub status : Status
  pub actual_length : ℕ
  pub packets : List (ℕ × Status)
  pub received : List ℕ

unfoldable pub fill_descriptors : List (ℕ × Status) → List IsoDescriptor → List IsoDescriptor
fill_descriptors [] ds = ds
fill_descriptors (p ∷ ps) [] = []
fill_descriptors ((n, s) ∷ ps) (d ∷ ds) =
    record d { actual_length = n; status = s } ∷ fill_descriptors ps ds

unfoldable pub deliver : Delivery → Transfer → Transfer
deliver d t = record t {
  libusb = elim t.libusb [
    | none ↦ none
    | some l ↦ some (record l {
      status = d.status;
      actual_length = pos d.actual_length;
      iso_packet_desc = fill_descriptors d.packets l.iso_packet_desc;
    })
  ];
  memory = elim t.memory [ none ↦ none | some _ ↦ some d.received ];
}
