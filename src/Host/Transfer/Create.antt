-- ===== src/Host/Transfer/Create.antt =====
-- usb-wasi-host/src/main.rs, `HostDeviceHandle::new_transfer`.
pub mod Layout
use masters_sibren_wieme.Prelude.{
  ℕ, zero, suc, ◌+◌, ◌-◌, ◌*◌, ◌/◌, ◌%◌, ◌^◌, Bool, true, false, Option, none, some, List, [], ◌∷◌,
  ◌++◌, drop, replicate, low_bits, shr, ltb, ◌==◌, if◌then◌else◌,
}
use masters_sibren_wieme.Prelude.Int.{ℤ, pos, negsuc, to_i32}
use masters_sibren_wieme.Host.Errors.{Result, ok, err, no_mem, other}
use masters_sibren_wieme.Host.Transfer.{
  TransferType, control, bulk, interrupt, isochronous, TransferSetup, TransferOptions, Status,
  IsoDescriptor, LibusbTransfer, CallbackPointer, Outcome, returns, panics, ◌>>=◌, Transfer,
}

-- The eight bytes of the setup packet, little endian, as `new_transfer` writes them.
unfoldable pub setup_packet : TransferSetup → ℕ → List ℕ
setup_packet setup buf_size =
    setup.bm_request_type
    ∷ setup.b_request
    ∷ low_bits setup.w_value 8
    ∷ shr setup.w_value 8
    ∷ low_bits setup.w_index 8
    ∷ shr setup.w_index 8
    ∷ low_bits buf_size 8
    ∷ low_bits (shr buf_size 8) 8
    ∷ []

-- `total_len`, a u32: the sum wraps, as it does in a release build.
unfoldable pub total_len_of : TransferType → ℕ → ℕ
total_len_of control buf_size = (8 + buf_size) % 2 ^ 32
total_len_of _ buf_size = buf_size

-- The zeroed buffer, with the setup packet at its front for a control transfer. An index out of
-- range panics.
unfoldable pub fill_buffer : TransferType → TransferSetup → ℕ → Outcome (List ℕ)
fill_buffer control setup buf_size =
    if ltb (total_len_of control buf_size) 8
    then panics
    else returns (setup_packet setup buf_size ++ replicate (total_len_of control buf_size - 8) 0)
fill_buffer bulk setup buf_size = returns (replicate buf_size 0)
fill_buffer interrupt setup buf_size = returns (replicate buf_size 0)
fill_buffer isochronous setup buf_size = returns (replicate buf_size 0)

-- The loop over the packets: `left` rounds from `i` on.
unfoldable pub iso_lengths_from : ℕ → ℕ → ℕ → ℕ → ℕ → List ℕ
iso_lengths_from zero i packet_count base_len rem = []
iso_lengths_from (suc left) i packet_count base_len rem =
    (if i == packet_count - 1 then base_len + rem else base_len)
    ∷ iso_lengths_from left (i + 1) packet_count base_len rem

unfoldable pub iso_lengths : ℕ → ℕ → List ℕ
iso_lengths packet_count buf_size =
    iso_lengths_from packet_count 0 packet_count (buf_size / packet_count) (buf_size % packet_count)

-- The descriptors, zeroed by libusb but for the length.
unfoldable pub iso_descriptors : List ℕ → List IsoDescriptor
iso_descriptors [] = []
iso_descriptors (n ∷ ns) =
    record { length = n; actual_length = 0; status = Status.completed } ∷ iso_descriptors ns

-- How many packets are allocated, what their count is set to, and their lengths.
unfoldable pub iso_packets_of : TransferType → TransferOptions → ℤ
iso_packets_of isochronous opts = to_i32 opts.iso_packets
iso_packets_of _ opts = pos 0

unfoldable pub iso_part : ℤ → ℕ → ℤ × List IsoDescriptor
iso_part (pos zero) buf_size = (pos 0, [])
iso_part (pos (suc n)) buf_size = (pos (suc n), iso_descriptors (iso_lengths (suc n) buf_size))
iso_part (negsuc n) buf_size = (pos 0, [])

-- The libusb transfer as `new_transfer` fills it in; a fresh one has stream 0.
unfoldable pub prepared : TransferType → ℕ → TransferOptions → LibusbTransfer
prepared xfer_type buf_size opts = record {
  endpoint = opts.endpoint;
  transfer_type = xfer_type;
  timeout = opts.timeout_ms;
  stream_id = opts.stream_id;
  status = Status.completed;
  length = to_i32 (total_len_of xfer_type buf_size);
  actual_length = pos 0;
  callback = CallbackPointer.unset;
  num_iso_packets = (iso_part (iso_packets_of xfer_type opts) buf_size).0;
  iso_packet_desc = (iso_part (iso_packets_of xfer_type opts) buf_size).1;
}

-- `new_transfer`. `allocates` says whether `libusb_alloc_transfer` gives a transfer for that number
-- of packets, `pushed` whether the resource table takes the entry.
unfoldable pub new_transfer :
    (ℤ → Bool)
    → Bool
    → TransferType
    → TransferSetup
    → ℕ
    → TransferOptions
    → Outcome (Result Transfer)
new_transfer allocates pushed xfer_type setup buf_size opts =
    if allocates (iso_packets_of xfer_type opts)
    then (fill_buffer xfer_type setup buf_size >>= λ buffer.
        if pushed
        then returns (
            ok (record {
              has_buffer = true;
              buf_len = buf_size;
              has_receiver = false;
              control_setup = setup;
              is_completed = false;
              iso_packet_results = none;
              sent = none;
              libusb = some (prepared xfer_type buf_size opts);
              memory = some buffer;
              has_context = false;
              in_flight = false;
            }))
        else returns (err other))
    else returns (err no_mem)
