-- ===== src/Host/Transfer/Life/Finish.antt =====
-- The callback, `await_transfer`, `cancel_transfer` and `drop` in each state of a transfer
-- (usb-wasi-host/src/main.rs).
use masters_sibren_wieme.Prelude.{
  ℕ, ◌≡◌, refl, ap, ◌∙◌, Bool, true, false, Option, none, List, if◌then◌else◌, arith,
}
use masters_sibren_wieme.Prelude.Int.{ℤ, pos, is_negative}
use masters_sibren_wieme.Host.Errors.{Result, ok, err, not_found, from_raw}
use masters_sibren_wieme.Host.Transfer.{
  TransferSetup, Status, LibusbTransfer, Outcome, returns, waits, ◌>>=◌, Transfer,
}
use masters_sibren_wieme.Host.Transfer.Completion.{
  Delivery, deliver, fill_descriptors, transfer_callback, report,
}
use masters_sibren_wieme.Host.Transfer.Completion.Reports.{
  report_of, report-returns, completed_data-returns, length-fill_descriptors,
}
use masters_sibren_wieme.Host.Transfer.Calls.{
  TransferResult, iso_packets, await_transfer, libusb_cancel, cancel_transfer, libusb_free, release,
  drop_transfer,
}
use masters_sibren_wieme.Host.Transfer.Life.{
  Life, allocated, submitted, finished, rejected, IsLaidOut, Fits, concrete,
}

-- The libusb transfer as it is when the callback runs.
abbrev pub delivered : Delivery → LibusbTransfer → LibusbTransfer
delivered d l = record l {
  status = d.status;
  actual_length = pos d.actual_length;
  iso_packet_desc = fill_descriptors d.packets l.iso_packet_desc;
}

-- What the callback reports.
abbrev pub outcome_of : Delivery → LibusbTransfer → Result (List ℕ) × Option (List (ℕ × Status))
outcome_of d l = report_of (delivered d l) d.received d.actual_length none

module _ (setup : TransferSetup) (buf_len : ℕ) where
  report-delivered :
      (d : Delivery) (l : LibusbTransfer) (m : List ℕ)
      → IsLaidOut buf_len l m
      → Fits d l m
      → report (delivered d l) d.received none ≡ returns (outcome_of d l)
  report-delivered d l m laid fits =
      report-returns (delivered d l) d.received d.actual_length none (
        completed_data-returns (delivered d l) d.received d.actual_length none
          (laid.told ∙ ap pos (omega (arith, fits.same_size)))
          (laid.packets
            ∙ ap pos (omega (arith, length-fill_descriptors d.packets l.iso_packet_desc)))
          refl (omega (arith, fits.same_size, fits.inside)))

  -- The callback of a submitted transfer never faults on a delivery that fits: it finishes the
  -- transfer, frees it with its buffer, and leaves one message on the channel.
  pub transfer_callback-submitted :
      (d : Delivery) (l : LibusbTransfer) (m : List ℕ)
      → IsLaidOut buf_len l m
      → Fits d l m
      → transfer_callback (deliver d (concrete setup buf_len (submitted l m)))
        ≡ returns (concrete setup buf_len (finished (outcome_of d l).0 (outcome_of d l).1 false))
  unfolding transfer_callback deliver
  transfer_callback-submitted d l m laid fits = rw (report-delivered d l m laid fits) refl

  -- What `await_transfer` gives in each state.
  unfoldable pub after_await : Life → Outcome (Life × Result TransferResult)
  after_await (submitted l m) = waits
  after_await (finished (ok bytes) packets false) =
      returns (
        finished (ok bytes) none true,
        ok (record { bytes = bytes; packets = iso_packets packets }),
      )
  after_await (finished (err e) packets false) = returns (finished (err e) packets true, err e)
  after_await life = returns (life, err not_found)

  abbrev pub concrete_result {ℓ} :
      {A : Type ℓ} → Outcome (Life × Result A) → Outcome (Transfer × Result A)
  concrete_result o = o >>= λ r. returns (concrete setup buf_len r.0, r.1)

  -- `await_transfer` waits exactly while the transfer is in flight, gives the message of a finished
  -- transfer once, and answers `not_found` in every other state.
  pub await_transfer-after_await :
      (life : Life)
      → await_transfer (concrete setup buf_len life) ≡ concrete_result (after_await life)
  unfolding await_transfer after_await
  await_transfer-after_await (allocated l m) = refl
  await_transfer-after_await (submitted l m) = refl
  await_transfer-after_await (finished (ok bytes) packets true) = refl
  await_transfer-after_await (finished (ok bytes) packets false) = refl
  await_transfer-after_await (finished (err e) packets true) = refl
  await_transfer-after_await (finished (err e) packets false) = refl
  await_transfer-after_await (rejected l) = refl

  -- `cancel_transfer` never faults and changes nothing: it asks libusb unless the transfer is
  -- finished.
  unfoldable pub cancel_answer : ℤ → Life → Result (Unit {0})
  cancel_answer rc (finished r packets awaited) = ok tt
  cancel_answer rc _ = if is_negative rc then err (from_raw rc) else ok tt

  pub cancel_transfer-answer :
      (rc : ℤ) (life : Life)
      → cancel_transfer rc (concrete setup buf_len life)
        ≡ returns (concrete setup buf_len life, cancel_answer rc life)
  unfolding cancel_transfer libusb_cancel cancel_answer
  cancel_transfer-answer rc (allocated l m) = refl
  cancel_transfer-answer rc (submitted l m) = refl
  cancel_transfer-answer rc (finished r packets awaited) = refl
  cancel_transfer-answer rc (rejected l) = refl

  abbrev pub is_in_flight : Life → Bool
  is_in_flight (submitted l m) = true
  is_in_flight _ = false

  -- Dropping a transfer that is not in flight never faults, and when `drop` returns the libusb
  -- transfer and the buffer are both freed: nothing twice, and nothing left over.
  pub drop_transfer-frees :
      (rc : ℤ) (life : Life)
      → is_in_flight life ≡ false
      → (t : Transfer) × (drop_transfer rc (concrete setup buf_len life) ≡ returns t)
        × (t.libusb ≡ none)
        × (t.memory ≡ none)
  unfolding drop_transfer libusb_free release
  drop_transfer-frees rc (allocated l m) h = (_, refl, refl, refl)
  drop_transfer-frees rc (submitted l m) h = cc
  drop_transfer-frees rc (finished r packets awaited) h = (_, refl, refl, refl)
  drop_transfer-frees rc (rejected l) h = (_, refl, refl, refl)

  -- Dropping a transfer in flight leaves it to its callback: whatever libusb answers to the
  -- cancellation, the callback that follows does not fault and frees the libusb transfer and the
  -- buffer, as the state `finished` says.
  drop_transfer-in_flight :
      (rc : ℤ) (d : Delivery) (l : LibusbTransfer) (m : List ℕ)
      → IsLaidOut buf_len l m
      → Fits d l m
      → (drop_transfer rc (concrete setup buf_len (submitted l m)) >>= λ t.
          transfer_callback (deliver d t))
        ≡ returns (concrete setup buf_len (finished (outcome_of d l).0 (outcome_of d l).1 true))
  unfolding drop_transfer libusb_cancel release transfer_callback deliver
  drop_transfer-in_flight rc d l m laid fits = rw (report-delivered d l m laid fits) refl
