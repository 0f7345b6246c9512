-- ===== src/Host/Transfer/Life/Start.antt =====
-- What `new_transfer` gives (usb-wasi-host/src/main.rs): the first state of a transfer's life.
use masters_sibren_wieme.Prelude.{
  ℕ, ◌+◌, ◌%◌, ◌^◌, ◌≤◌, ◌≡◌, refl, Bool, true, List, ◌++◌, replicate, IsU32, arith, lt→ltb,
}
use masters_sibren_wieme.Prelude.Int.{ℤ, pos}
use masters_sibren_wieme.Host.Transfer.{
  TransferType, control, TransferSetup, TransferOptions, panics,
}
use masters_sibren_wieme.Host.Transfer.Create.{
  setup_packet, total_len_of, fill_buffer, iso_packets_of, new_transfer,
}

-- The first content of the buffer.
unfoldable pub first_memory : TransferType → TransferSetup → ℕ → List ℕ
first_memory control setup buf_size = setup_packet setup buf_size ++ replicate buf_size 0
first_memory _ setup buf_size = replicate buf_size 0

-- A guest brings the host down by asking for a control transfer of nearly 2^32 bytes: the sum with
-- the setup packet wraps, and the packet does not fit the buffer.
new_transfer-wraps :
    (allocates : ℤ → Bool) (pushed : Bool) (setup : TransferSetup) (buf_size : ℕ)
    (opts : TransferOptions)
    → IsU32 buf_size
    → 2 ^ 32 ≤ 8 + buf_size
    → allocates (pos 0) ≡ true
    → new_transfer allocates pushed control setup buf_size opts ≡ panics
unfolding new_transfer iso_packets_of fill_buffer total_len_of
new_transfer-wraps allocates pushed setup buf_size opts h big given =
    rw (given, lt→ltb ((8 + buf_size) % 2 ^ 32) 8 (omega arith)) refl
