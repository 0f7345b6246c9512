-- ===== src/Host/Transfer/Completion/Reports.antt =====
-- What `transfer_callback` reports on each kind of transfer, where the delivery fits the buffer.
use masters_sibren_wieme.Prelude.{
  ℕ, zero, suc, ◌+◌, ◌≤◌, ◌≡◌, refl, ap, Option, some, List, [], ◌∷◌, length, take, drop,
  take-length_self, get_or, replicate, has_bit, ltb, if◌then◌else◌, Bool-cases, inl, inr, arith,
}
use masters_sibren_wieme.Prelude.Int.{pos}
use masters_sibren_wieme.Host.Errors.{Result, ok, err}
use masters_sibren_wieme.Host.Transfer.{
  TransferType, control, bulk, interrupt, isochronous, Status, IsoDescriptor, LibusbTransfer,
  header_len, returns,
}
use masters_sibren_wieme.Host.Transfer.Completion.{
  slice, slice_i32, first_byte, error_of, control_data, bulk_data, completed_data, packet_results,
  report, fill_descriptors,
}

slice-returns :
    (m : List ℕ) (offset n : ℕ)
    → offset + n ≤ length m
    → slice m offset n ≡ returns (take n (drop offset m))
unfolding slice
slice-returns m offset n h = ground arith

-- The actual lengths and states of the packets.
pub results_of : List IsoDescriptor → List (ℕ × Status)
results_of [] = []
results_of (d ∷ ds) = (d.actual_length, d.status) ∷ results_of ds

packet_results-returns :
    (ds : List IsoDescriptor) → packet_results (length ds) ds ≡ returns (results_of ds)
unfolding packet_results results_of
packet_results-returns [] = refl
packet_results-returns (d ∷ ds) = rw (packet_results-returns ds)

-- What libusb filled in is what is read back, if it filled in every packet.
pub results_of-fill_descriptors :
    (ps : List (ℕ × Status)) (ds : List IsoDescriptor)
    → length ps ≡ length ds
    → results_of (fill_descriptors ps ds) ≡ ps
unfolding results_of fill_descriptors
results_of-fill_descriptors [] [] h = refl
results_of-fill_descriptors [] (d ∷ ds) h = absurd (omega arith)
results_of-fill_descriptors (p ∷ ps) [] h = absurd (omega arith)
results_of-fill_descriptors ((n, s) ∷ ps) (d ∷ ds) h =
    ap (◌∷◌ (n, s)) (results_of-fill_descriptors ps ds (omega arith))

pub length-fill_descriptors :
    (ps : List (ℕ × Status)) (ds : List IsoDescriptor) → length (fill_descriptors ps ds) ≡ length ds
unfolding fill_descriptors
length-fill_descriptors [] ds = refl
length-fill_descriptors (p ∷ ps) [] = refl
length-fill_descriptors ((n, s) ∷ ps) (d ∷ ds) = ap suc (length-fill_descriptors ps ds)

-- A control transfer to the host carries the `n` bytes behind the setup packet, any other none.
unfoldable pub control_payload : List ℕ → ℕ → List ℕ
control_payload m n = if has_bit 7 (get_or m 0 0) then take n (drop 8 m) else []

-- A bulk or interrupt transfer to the host carries the first `n` bytes, one to the device as many
-- zeros as it has sent.
unfoldable pub bulk_payload : LibusbTransfer → List ℕ → ℕ → List ℕ
bulk_payload l m n = if has_bit 7 l.endpoint then take n m else replicate n 0

module _ (l : LibusbTransfer) (n : ℕ) (actual : l.actual_length ≡ pos n) where
  control_data-returns :
      (m : List ℕ) → 8 + n ≤ length m → control_data l m ≡ returns (control_payload m n)
  unfolding control_data first_byte control_payload
  control_data-returns [] h = absurd (omega arith)
  control_data-returns (b ∷ bs) h = elim (Bool-cases (has_bit 7 b)) [
    | inl to_host ↦
        rw (to_host, actual)
          (elim (Bool-cases (ltb 0 n)) [
            | inl some_bytes ↦ rw some_bytes (slice-returns (b ∷ bs) 8 n h)
            | inr nothing ↦ let e : n ≡ 0 = ground arith in rw (nothing, e)
          ])
    | inr to_device ↦ rw to_device
  ]

  bulk_data-returns : (m : List ℕ) → n ≤ length m → bulk_data l m ≡ returns (bulk_payload l m n)
  unfolding bulk_data slice_i32 bulk_payload
  bulk_data-returns m h = elim (Bool-cases (has_bit 7 l.endpoint)) [
    | inl to_host ↦ rw (to_host, actual) (slice-returns m 0 n (omega arith))
    | inr to_device ↦ rw (to_device, actual)
  ]

-- The data of a completed transfer and the packet results in the shared cell.
unfoldable pub reported_of :
    LibusbTransfer → List ℕ → ℕ → Option (List (ℕ × Status)) → List ℕ × Option (List (ℕ × Status))
reported_of l m n kept = elim l.num_iso_packets [
  | pos (suc k) ↦ (m, some (results_of l.iso_packet_desc))
  | _ ↦ elim l.transfer_type [
    | control ↦ (control_payload m n, kept)
    | _ ↦ (bulk_payload l m n, kept)
  ]
]

module _ (l : LibusbTransfer) (m : List ℕ) (n : ℕ) (kept : Option (List (ℕ × Status))) where
  data_by_type :
      (ty : TransferType)
      → l.transfer_type ≡ ty
      → l.actual_length ≡ pos n
      → header_len l.transfer_type + n ≤ length m
      → l.num_iso_packets ≡ pos 0
      → completed_data l m kept ≡ returns (reported_of l m n kept)
  unfolding completed_data reported_of
  data_by_type control e actual inside none' =
      ground (arith, control_data-returns l n actual m (ground arith))
  data_by_type bulk e actual inside none' =
      ground (arith, bulk_data-returns l n actual m (ground arith))
  data_by_type interrupt e actual inside none' =
      ground (arith, bulk_data-returns l n actual m (ground arith))
  data_by_type isochronous e actual inside none' =
      ground (arith, bulk_data-returns l n actual m (ground arith))

  data_of_packets :
      (k : ℕ)
      → l.num_iso_packets ≡ pos (suc k)
      → length l.iso_packet_desc ≡ suc k
      → l.length ≡ pos (length m)
      → completed_data l m kept ≡ returns (reported_of l m n kept)
  unfolding completed_data reported_of slice_i32
  data_of_packets k some' same told =
      let read : packet_results (suc k) l.iso_packet_desc ≡ returns (results_of l.iso_packet_desc) =
        rw same at (packet_results-returns l.iso_packet_desc) in
      rw some' (
        rw (read, told) (rw (slice-returns m 0 (length m) (omega arith)) (rw (take-length_self m))))

  -- A completed transfer whose counts fit its buffer is reported without a fault: the packets and
  -- the whole buffer if it has packets, else the bytes of a control or of a bulk transfer.
  pub completed_data-returns :
      l.length ≡ pos (length m)
      → l.num_iso_packets ≡ pos (length l.iso_packet_desc)
      → l.actual_length ≡ pos n
      → header_len l.transfer_type + n ≤ length m
      → completed_data l m kept ≡ returns (reported_of l m n kept)
  completed_data-returns told packets actual inside = by_count (length l.iso_packet_desc) refl
    where
      by_count :
          (k : ℕ)
          → length l.iso_packet_desc ≡ k
          → completed_data l m kept ≡ returns (reported_of l m n kept)
      by_count zero e = data_by_type l.transfer_type refl actual inside (rw e at packets)
      by_count (suc k) e = data_of_packets k (rw e at packets) e told

-- The message on the channel and the packet results, for any status.
unfoldable pub report_of :
    LibusbTransfer
    → List ℕ
    → ℕ
    → Option (List (ℕ × Status))
    → Result (List ℕ) × Option (List (ℕ × Status))
unfolding reported_of
report_of l m n kept = elim l.status [
  | Status.completed ↦ (ok (reported_of l m n kept).0, (reported_of l m n kept).1)
  | status ↦ (err (error_of status), kept)
]

pub report-returns :
    (l : LibusbTransfer) (m : List ℕ) (n : ℕ) (kept : Option (List (ℕ × Status)))
    → completed_data l m kept ≡ returns (reported_of l m n kept)
    → report l m kept ≡ returns (report_of l m n kept)
unfolding report report_of
report-returns l m n kept e = by_status l.status refl
  where
    by_status : (s : Status) → l.status ≡ s → report l m kept ≡ returns (report_of l m n kept)
    by_status Status.completed h = ground arith
    by_status Status.timed_out h = rw h
    by_status Status.cancelled h = rw h
    by_status Status.stall h = rw h
    by_status Status.no_device h = rw h
    by_status Status.overflow h = rw h
    by_status Status.error h = rw h
    by_status (Status.unnamed x) h = rw h
