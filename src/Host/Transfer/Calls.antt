-- ===== src/Host/Transfer/Calls.antt =====
-- usb-wasi-host/src/main.rs: the host calls on a transfer, `submit_transfer`, `await_transfer`,
-- `cancel_transfer` and the `drop` of the resource. A call gives the transfer after it and its
-- result. The number that libusb answers to a submission or a cancellation is an argument.
use masters_sibren_wieme.Prelude.{
  ℕ, ◌+◌, ◌%◌, ◌^◌, Bool, true, false, Option, none, some, List, [], ◌++◌, length, take, drop, map,
  has_bit, leb, ◌==◌, if◌then◌else◌,
}
use masters_sibren_wieme.Prelude.Int.{ℤ, is_negative}
use masters_sibren_wieme.Host.Errors.{Result, ok, err, busy, invalid_param, not_found, from_raw}
use masters_sibren_wieme.Host.Transfer.{
  control, TransferSetup, Status, LibusbTransfer, CallbackPointer, Outcome, returns, panics, faults,
  waits, ◌>>=◌, Transfer,
}

-- `copy_nonoverlapping` into the buffer from `offset` on: the bytes must fit, and the buffer live.
unfoldable pub copy_into : Option (List ℕ) → ℕ → List ℕ → Outcome (Option (List ℕ))
copy_into none offset bytes = faults
copy_into (some memory) offset bytes =
    if leb (offset + length bytes) (length memory)
    then returns (some (take offset memory ++ (bytes ++ drop (offset + length bytes) memory)))
    else faults

-- The direction of the transfer, where the payload of an OUT transfer goes.
unfoldable pub payload_offset : LibusbTransfer → TransferSetup → Option ℕ
payload_offset l setup = elim l.transfer_type [
  | control ↦ if has_bit 7 setup.bm_request_type then none else some 8
  | _ ↦ if has_bit 7 l.endpoint then none else some 0
]

-- The payload of an OUT transfer has exactly `buf_len` bytes, and is copied into the buffer.
unfoldable pub copy_payload :
    LibusbTransfer → List ℕ → Transfer → Outcome (Result (Option (List ℕ)))
copy_payload l bytes t = elim (payload_offset l t.control_setup) [
  | none ↦ returns (ok t.memory)
  | some offset ↦
      if length bytes % 2 ^ 32 == t.buf_len
      then (copy_into t.memory offset bytes >>= λ memory. returns (ok memory))
      else returns (err invalid_param)
]

-- The context takes the buffer, and libusb is asked. If it refuses, the context is dropped again,
-- and the buffer with it.
unfoldable pub hand_over :
    ℤ → LibusbTransfer → Option (List ℕ) → Transfer → Outcome (Transfer × Result (Unit {0}))
hand_over rc l memory t =
    if t.has_buffer
    then (if is_negative rc
        then returns (
          record t {
            has_buffer = false;
            libusb = some (record l { callback = CallbackPointer.empty_callback });
            memory = none;
            has_context = false;
          },
          err (from_raw rc),
        )
        else returns (
          record t {
            has_buffer = false;
            has_receiver = true;
            libusb = some (record l { callback = CallbackPointer.transfer_callback });
            memory = memory;
            has_context = true;
            in_flight = true;
          },
          ok tt,
        ))
    else panics

-- `submit_transfer`. Its first act, the trace line, reads the libusb transfer.
unfoldable pub submit_transfer : ℤ → List ℕ → Transfer → Outcome (Transfer × Result (Unit {0}))
submit_transfer rc bytes t = elim t.libusb [
  | none ↦ faults
  | some l ↦
      if t.is_completed
      then returns (t, err busy)
      else (copy_payload l bytes t >>= λ copied. (elim copied [
        | err e ↦ returns (t, err e)
        | ok memory ↦ hand_over rc l memory t
      ]))
]

-- The status of one packet, as the WIT interface names it.
pub data IsoPacketStatus : Type 0 where
  success error timed_out cancelled stall no_device overflow : IsoPacketStatus

pub record IsoPacket : Type 0 where
  pub actual_length : ℕ
  pub status : IsoPacketStatus

unfoldable pub packet_status : Status → IsoPacketStatus
packet_status Status.completed = success
packet_status Status.timed_out = timed_out
packet_status Status.cancelled = cancelled
packet_status Status.stall = stall
packet_status Status.no_device = no_device
packet_status Status.overflow = overflow
packet_status _ = error

unfoldable pub iso_packets : Option (List (ℕ × Status)) → List IsoPacket
iso_packets none = []
iso_packets (some raw) = map (λ p. record { actual_length = p.0; status = packet_status p.1 }) raw

pub record TransferResult : Type 0 where
  pub bytes : List ℕ  -- `data`
  pub packets : List IsoPacket

-- `await_transfer` at a moment where it runs: it goes on once a value is on the channel.
unfoldable pub await_transfer : Transfer → Outcome (Transfer × Result TransferResult)
await_transfer t =
    if t.has_receiver
    then (elim t.sent [
      | none ↦ waits
      | some (err e) ↦ returns (record t { has_receiver = false }, err e)
      | some (ok bytes) ↦ returns (
        record t { has_receiver = false; iso_packet_results = none },
        ok (record { bytes = bytes; packets = iso_packets t.iso_packet_results }),
      )
    ])
    else returns (t, err not_found)

-- `libusb_cancel_transfer`, which must not be given a freed transfer.
unfoldable pub libusb_cancel : ℤ → Transfer → Outcome (Result (Unit {0}))
libusb_cancel rc t = elim t.libusb [
  | none ↦ faults
  | some _ ↦ returns (if is_negative rc then err (from_raw rc) else ok tt)
]

-- `cancel_transfer` with the value of `completed` that its first act has loaded.
unfoldable pub cancel_loaded : Bool → ℤ → Transfer → Outcome (Transfer × Result (Unit {0}))
cancel_loaded loaded rc t =
    if loaded then returns (t, ok tt) else (libusb_cancel rc t >>= λ answer. returns (t, answer))

unfoldable pub cancel_transfer : ℤ → Transfer → Outcome (Transfer × Result (Unit {0}))
unfolding cancel_loaded
cancel_transfer rc t = cancel_loaded t.is_completed rc t

-- `libusb_free_transfer`: not twice, and not while the transfer is in flight.
unfoldable pub libusb_free : Transfer → Outcome Transfer
libusb_free t = elim t.libusb [
  | none ↦ faults
  | some _ ↦ if t.in_flight then faults else returns (record t { libusb = none })
]

-- What goes with the `UsbTransfer` value: the receiver, and the buffer if it still has it.
unfoldable pub release : Transfer → Transfer
release t = record t {
  has_buffer = false;
  has_receiver = false;
  memory = if t.has_buffer then none else t.memory;
}

-- `HostTransfer::drop` with the value of `completed` that it has loaded.
unfoldable pub drop_loaded : Bool → ℤ → Transfer → Outcome Transfer
drop_loaded loaded rc t =
    if loaded
    then returns (release t)
    else (if t.has_receiver
        then (libusb_cancel rc t >>= λ _. returns (release t))
        else (libusb_free t >>= λ freed. returns (release freed)))

unfoldable pub drop_transfer : ℤ → Transfer → Outcome Transfer
unfolding drop_loaded
drop_transfer rc t = drop_loaded t.is_completed rc t
