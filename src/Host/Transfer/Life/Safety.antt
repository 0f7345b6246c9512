-- ===== src/Host/Transfer/Life/Safety.antt =====
-- Memory safety of the host calls (usb-wasi-host/src/main.rs): which calls are safe in every state
-- that a guest can reach, and which use memory that is gone.
use masters_sibren_wieme.Prelude.{
  ℕ, ◌≡◌, ◌≢◌, refl, Bool-cases, inl, inr, sym, ◌∙◌, subst, true, none, some, List, length, IsU32,
  ◌==◌, arith,
}
use masters_sibren_wieme.Prelude.Int.{ℤ, is_negative}
use masters_sibren_wieme.Host.Transfer.{
  TransferSetup, LibusbTransfer, CallbackPointer, returns, faults, ◌>>=◌, Transfer,
}
use masters_sibren_wieme.Host.Transfer.Completion.{Delivery, deliver, transfer_callback}
use masters_sibren_wieme.Host.Transfer.Calls.{
  payload_offset, copy_payload, copy_into, submit_transfer, libusb_cancel, cancel_transfer,
  libusb_free, drop_transfer,
}
use masters_sibren_wieme.Host.Transfer.Life.{
  Life, allocated, submitted, finished, rejected, IsLaidOut, IsSound, concrete,
}
use masters_sibren_wieme.Host.Transfer.Life.Submit.{
  is_outward, payload_offset-place_of, after_submit, after_asking, submit-allocated,
}
use masters_sibren_wieme.Host.Transfer.Life.Finish.{
  transfer_callback-submitted, cancel_transfer-answer,
}
use masters_sibren_wieme.Host.Transfer.Life.Run.{FitsTransfer, Reach, Reach-IsAlive}

module _ (setup : TransferSetup) (buf_len : ℕ) (l : LibusbTransfer) (m : List ℕ) where
  drop_transfer-ne-faults :
      (rc : ℤ) (life : Life) → drop_transfer rc (concrete setup buf_len life) ≢ faults
  unfolding drop_transfer libusb_cancel libusb_free
  drop_transfer-ne-faults rc (allocated l m) e = cc
  drop_transfer-ne-faults rc (submitted l m) e = cc
  drop_transfer-ne-faults rc (finished r p a) e = cc
  drop_transfer-ne-faults rc (rejected l) e = cc

  -- From a transfer that `new_transfer` has made, whatever calls and callbacks come in whatever
  -- order: `cancel_transfer` and `drop` never use freed memory, and free nothing twice.
  pub Reach-calls_safe :
      (rc : ℤ) {u : Transfer}
      → IsLaidOut buf_len l m
      → Reach (concrete setup buf_len (allocated l m)) u
      → (cancel_transfer rc u ≢ faults) × (drop_transfer rc u ≢ faults)
  Reach-calls_safe rc laid r =
      let (life, sound, at) = Reach-IsAlive setup buf_len r (allocated l m, laid, refl) in
      rw at (
        (λ e. cc (e, cancel_transfer-answer setup buf_len rc life)),
        drop_transfer-ne-faults rc life,
      )

  -- In the same states, the callback of a transfer in flight never faults on a delivery that fits:
  -- it marks the transfer completed and frees it with its buffer.
  pub Reach-callback_safe :
      (d : Delivery) {u : Transfer}
      → IsLaidOut buf_len l m
      → Reach (concrete setup buf_len (allocated l m)) u
      → u.in_flight ≡ true
      → FitsTransfer d u
      → (v : Transfer) × (transfer_callback (deliver d u) ≡ returns v)
        × (v.is_completed ≡ true)
        × (v.libusb ≡ none)
        × (v.memory ≡ none)
  Reach-callback_safe d {u} laid r flies fits =
      let (life, sound, at) = Reach-IsAlive setup buf_len r (allocated l m, laid, refl) in
      rw at (by_life life sound (rw at at flies) (subst (FitsTransfer d) at fits))
    where
      by_life :
          (life : Life)
          → IsSound buf_len life
          → (concrete setup buf_len life).in_flight ≡ true
          → FitsTransfer d (concrete setup buf_len life)
          → (v : Transfer) × (transfer_callback (deliver d (concrete setup buf_len life))
              ≡ returns v)
            × (v.is_completed ≡ true)
            × (v.libusb ≡ none)
            × (v.memory ≡ none)
      by_life (submitted k n) s h f =
          (_, transfer_callback-submitted setup buf_len d k n s (f k n refl refl), refl, refl, refl)
      by_life (allocated k n) s h f = cc
      by_life (finished q p a) s h f = cc
      by_life (rejected k) s h f = cc

-- The guard against a second submission comes too late: whatever transfer has been through its
-- callback, submitting it again reads the freed libusb transfer instead of answering `busy`.
pub submit_transfer-after_callback :
    (t u : Transfer) (rc : ℤ) (bytes : List ℕ)
    → transfer_callback t ≡ returns u
    → submit_transfer rc bytes u ≡ faults
unfolding transfer_callback submit_transfer
submit_transfer-after_callback t u rc bytes e = ground arith

-- A transfer to the device whose submission libusb has refused has lost its buffer, and submitting
-- it again, with a payload of the right length, writes to the freed buffer.
pub submit_transfer-after_refusal :
    (setup : TransferSetup) (buf_len : ℕ) (l : LibusbTransfer) (m : List ℕ) (rc again : ℤ)
    (bytes : List ℕ) {offset : ℕ}
    → IsLaidOut buf_len l m
    → IsU32 (length bytes)
    → length bytes ≡ buf_len
    → payload_offset l setup ≡ some offset
    → is_negative rc ≡ true
    → (submit_transfer rc bytes (concrete setup buf_len (allocated l m)) >>= λ r.
        submit_transfer again bytes r.0)
      ≡ faults
unfolding after_submit after_asking payload_offset
submit_transfer-after_refusal setup buf_len l m rc again bytes {offset} laid small fit out refused =
    rw (submit-allocated setup buf_len l m laid rc bytes small).0 (
      rw (outside, after_submit)
        (rw (ne_fit, refused)
          (rejected-faults (record l { callback = CallbackPointer.empty_callback }) out)))
  where
    ne_fit : (length bytes == buf_len) ≡ true
    ne_fit = ground arith

    outside : is_outward l setup ≡ true
    outside = elim (Bool-cases (is_outward l setup)) [
      | inl yes' ↦ yes'
      | inr no' ↦ absurd (some-ne-none (sym out ∙ payload_offset-place_of l setup ∙ rw no' refl))
    ]
      where
        some-ne-none : ◌≢◌ (some offset) none
        some-ne-none q = absurd (cc)

    rejected-faults :
        (k : LibusbTransfer)
        → payload_offset k setup ≡ some offset
        → submit_transfer again bytes (concrete setup buf_len (rejected k)) ≡ faults
    rejected-faults k e = unfold submit_transfer copy_payload copy_into in ground arith
