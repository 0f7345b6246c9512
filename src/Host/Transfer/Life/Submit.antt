-- ===== src/Host/Transfer/Life/Submit.antt =====
-- `submit_transfer` in each state of a transfer (usb-wasi-host/src/main.rs).
use masters_sibren_wieme.Prelude.{
  ℕ, ◌+◌, ◌%◌, ◌^◌, ◌≡◌, ◌≢◌, ◌⊎◌, inl, inr, refl, true, false, none, some, List, ◌++◌, length,
  take, drop, length-append, length-take, length-drop, IsU32, ◌==◌, leb, if◌then◌else◌, Bool-cases,
  arith, Bool, not, ◌||◌, has_bit,
}
use masters_sibren_wieme.Prelude.Int.{ℤ, is_negative}
use masters_sibren_wieme.Host.Errors.{Result, ok, err, invalid_param, from_raw}
use masters_sibren_wieme.Host.Transfer.{
  TransferType, control, bulk, interrupt, isochronous, TransferSetup, LibusbTransfer,
  CallbackPointer, header_len, returns,
}
use masters_sibren_wieme.Host.Transfer.Calls.{
  copy_into, payload_offset, copy_payload, hand_over, submit_transfer,
}
use masters_sibren_wieme.Host.Transfer.Life.{
  Life, allocated, submitted, rejected, IsLaidOut, IsSound, concrete,
}

-- Whether a transfer goes to the device, by bit 7 of its request type, or of its endpoint.
unfoldable pub is_outward : LibusbTransfer → TransferSetup → Bool
is_outward l setup = by_type l.transfer_type
  where
    by_type : TransferType → Bool
    by_type control = not (has_bit 7 setup.bm_request_type)
    by_type _ = not (has_bit 7 l.endpoint)

-- Where a payload belongs: behind the eight bytes of a setup packet, or at the front.
abbrev pub place_of : TransferType → ℕ
place_of control = 8
place_of _ = 0

place_of-header_len : (ty : TransferType) → place_of ty ≡ header_len ty
place_of-header_len control = refl
place_of-header_len bulk = refl
place_of-header_len interrupt = refl
place_of-header_len isochronous = refl

-- The bytes that go out: the buffer itself for IN, the payload at its place for OUT.
unfoldable pub outgoing : LibusbTransfer → TransferSetup → List ℕ → List ℕ → List ℕ
outgoing l setup bytes m =
    let place = place_of l.transfer_type in
    if is_outward l setup then take place m ++ (bytes ++ drop (place + length bytes) m) else m

-- The state and the answer after libusb has been asked.
unfoldable pub after_asking :
    TransferSetup → ℤ → List ℕ → LibusbTransfer → List ℕ → Life × Result (Unit {0})
after_asking setup rc bytes l m =
    if is_negative rc
    then (rejected (record l { callback = CallbackPointer.empty_callback }), err (from_raw rc))
    else (
      submitted (record l { callback = CallbackPointer.transfer_callback })
          (outgoing l setup bytes m),
      ok tt,
    )

-- The state and the answer after a submission of an allocated transfer: a payload of the wrong
-- length leaves it as it is.
unfoldable pub after_submit :
    ℕ → TransferSetup → ℤ → List ℕ → LibusbTransfer → List ℕ → Life × Result (Unit {0})
after_submit buf_len setup rc bytes l m =
    if not (is_outward l setup) || (length bytes == buf_len)
    then after_asking setup rc bytes l m
    else (allocated l m, err invalid_param)

pub payload_offset-place_of :
    (l : LibusbTransfer) (setup : TransferSetup)
    → payload_offset l setup
      ≡ (if is_outward l setup then some (place_of l.transfer_type) else none)
unfolding payload_offset is_outward
payload_offset-place_of l setup = by_type l.transfer_type refl
  where
    by_type :
        (ty : TransferType)
        → l.transfer_type ≡ ty
        → payload_offset l setup
          ≡ (if is_outward l setup then some (place_of l.transfer_type) else none)
    by_type control h = ground arith
    by_type bulk h = ground arith
    by_type interrupt h = ground arith
    by_type isochronous h = ground arith

module _ (setup : TransferSetup) (buf_len : ℕ) where
  length-outgoing :
      (l : LibusbTransfer) (bytes m : List ℕ)
      → length m ≡ header_len l.transfer_type + buf_len
      → (is_outward l setup ≡ false) ⊎ (length bytes ≡ buf_len)
      → length (outgoing l setup bytes m) ≡ length m
  unfolding outgoing
  length-outgoing l bytes m room fit = elim (Bool-cases (is_outward l setup)) [
    | inr inside ↦ rw inside refl
    | inl outside ↦
        let place = place_of l.transfer_type in
        let same : length bytes ≡ buf_len = ground arith in
        rw outside (
          omega (
            arith,
            room,
            same,
            place_of-header_len l.transfer_type,
            length-append (take place m) (bytes ++ drop (place + length bytes) m),
            length-append bytes (drop (place + length bytes) m),
            length-take place m,
            length-drop (place + length bytes) m,
          ))
  ]

  module _ (l : LibusbTransfer) (m : List ℕ) (laid : IsLaidOut buf_len l m) where
    copy_payload-allocated :
        (bytes : List ℕ)
        → IsU32 (length bytes)
        → (is_outward l setup ≡ false) ⊎ (length bytes ≡ buf_len)
        → copy_payload l bytes (concrete setup buf_len (allocated l m))
          ≡ returns (ok (some (outgoing l setup bytes m)))
    unfolding copy_payload copy_into outgoing
    copy_payload-allocated bytes small fit = elim (Bool-cases (is_outward l setup)) [
      | inr inside ↦ rw (payload_offset-place_of l setup, inside, copy_payload, outgoing)
      | inl outside ↦
          let same : length bytes ≡ buf_len = ground arith in
          let agree : (length bytes % 2 ^ 32 == buf_len) ≡ true = ground arith in
          let room : leb (place_of l.transfer_type + length bytes) (length m) ≡ true =
            ground (arith, laid.room, place_of-header_len l.transfer_type) in
          rw (payload_offset-place_of l setup, outside, agree, room, copy_payload, outgoing)
    ]

    copy_payload-refused :
        (bytes : List ℕ)
        → IsU32 (length bytes)
        → is_outward l setup ≡ true
        → length bytes ≢ buf_len
        → copy_payload l bytes (concrete setup buf_len (allocated l m))
          ≡ returns (err invalid_param)
    unfolding copy_payload
    copy_payload-refused bytes small e wrong =
        let differ : (length bytes % 2 ^ 32 == buf_len) ≡ false = ground arith in
        rw (payload_offset-place_of l setup, e, differ, copy_payload)

    hand_over-allocated :
        (rc : ℤ) (bytes : List ℕ)
        → hand_over rc l (some (outgoing l setup bytes m)) (concrete setup buf_len (allocated l m))
          ≡ returns (
            concrete setup buf_len (after_asking setup rc bytes l m).0,
            (after_asking setup rc bytes l m).1,
          )
    unfolding hand_over after_asking
    hand_over-allocated rc bytes = elim (Bool-cases (is_negative rc)) [
      | inl refused ↦ rw (refused, hand_over, after_asking)
      | inr taken ↦ rw (taken, hand_over, after_asking)
    ]

    after_asking-IsSound :
        (rc : ℤ) (bytes : List ℕ)
        → (is_outward l setup ≡ false) ⊎ (length bytes ≡ buf_len)
        → IsSound buf_len (after_asking setup rc bytes l m).0
    unfolding after_asking
    after_asking-IsSound rc bytes fit = elim (Bool-cases (is_negative rc)) [
      | inl refused ↦ rw refused tt
      | inr taken ↦ rw taken (record {
        told = rw (length-outgoing l bytes m laid.room fit) laid.told;
        room = rw (length-outgoing l bytes m laid.room fit) laid.room;
        packets = laid.packets;
      })
    ]

    -- Submitting a transfer that was allocated and not yet submitted neither panics nor touches
    -- memory that it must not: it goes where `after_submit` says, and what it leads to is sound.
    pub submit-allocated :
        (rc : ℤ) (bytes : List ℕ)
        → IsU32 (length bytes)
        → (submit_transfer rc bytes (concrete setup buf_len (allocated l m))
            ≡ returns (
              concrete setup buf_len (after_submit buf_len setup rc bytes l m).0,
              (after_submit buf_len setup rc bytes l m).1,
            ))
          × IsSound buf_len (after_submit buf_len setup rc bytes l m).0
    unfolding submit_transfer after_submit
    submit-allocated rc bytes small = elim (Bool-cases (is_outward l setup)) [
      | inr inside ↦ rw inside (
        rw (copy_payload-allocated bytes small (inl inside)) (hand_over-allocated rc bytes),
        after_asking-IsSound rc bytes (inl inside),
      )
      | inl outside ↦ elim (Bool-cases (length bytes == buf_len)) [
        | inl fit ↦
            let same : length bytes ≡ buf_len = ground arith in
            rw (outside, fit)
              (
                rw (copy_payload-allocated bytes small (inr same)) (hand_over-allocated rc bytes),
                after_asking-IsSound rc bytes (inr same),
              )
        | inr wrong ↦
            let other : length bytes ≢ buf_len = ground arith in
            rw (outside, wrong) (rw (copy_payload-refused bytes small outside other) refl, laid)
      ]
    ]
