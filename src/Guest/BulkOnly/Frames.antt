-- ===== src/Guest/BulkOnly/Frames.antt =====
-- The two frames of the transport as the device sees them: `to_bytes` against a parser for a
-- command frame, `from_bytes` against a printer for a status frame.
use masters_sibren_wieme.Prelude.{
  ℕ, ◌≡◌, ◌≤◌, ◌+◌, ◌-◌, ◌*◌, ◌/◌, ◌%◌, ◌^◌, true, false, Option, none, some, List, [], ◌∷◌, ◌++◌,
  ◌==◌, refl, if◌then◌else◌, length, has_bit, IsU32, take, replicate, arith, length-append,
  length-replicate, take-append_self,
}
use masters_sibren_wieme.Guest.BulkOnly.{
  CommandBlockWrapper, Direction, inward, outward, direction_byte, is_sendable, to_bytes, status_of,
  csw_fields, from_bytes,
}
use masters_sibren_wieme.Guest.BulkOnly.Bytes.{BytesCrate, IsDocumented, le_bytes}

abbrev pub u32_of : ℕ → ℕ → ℕ → ℕ → ℕ
u32_of x y z w = x + 2 ^ 8 * y + 2 ^ 16 * z + 2 ^ 24 * w

abbrev pub u32_of_le : ℕ → ℕ
u32_of_le x = u32_of (x % 2 ^ 8) (x / 2 ^ 8 % 2 ^ 8) (x / 2 ^ 16 % 2 ^ 8) (x / 2 ^ 24 % 2 ^ 8)

pub u32_of-le_bytes : (x : ℕ) → IsU32 x → u32_of_le x ≡ x
u32_of-le_bytes x h = omega arith

-- The bytes of a command frame, by the specification of the transport.
abbrev pub frame : CommandBlockWrapper → List ℕ
frame cbw =
    le_bytes 0x43425355
    ++ (le_bytes cbw.tag
        ++ (le_bytes cbw.transfer_length
            ++ (direction_byte cbw.direction
                ∷ cbw.lun
                ∷ length cbw.cbwcb
                ∷ (cbw.cbwcb ++ replicate (16 - length cbw.cbwcb) 0))))

-- A device reads the fields of a command frame at their offsets.
abbrev pub parse_frame : List ℕ → Option CommandBlockWrapper
parse_frame (s0 ∷ s1 ∷ s2 ∷ s3 ∷ t0 ∷ t1 ∷ t2 ∷ t3 ∷ l0 ∷ l1 ∷ l2 ∷ l3 ∷ flags ∷ lun ∷ n ∷ cb) =
    if u32_of s0 s1 s2 s3 == 0x43425355
    then some (record {
      tag = u32_of t0 t1 t2 t3;
      transfer_length = u32_of l0 l1 l2 l3;
      direction = if has_bit 7 flags then inward else outward;
      lun = lun;
      cbwcb = take n cb;
    })
    else none
parse_frame _ = none

direction-has_bit : (d : Direction) → (if has_bit 7 (direction_byte d) then inward else outward) ≡ d
direction-has_bit inward = refl
direction-has_bit outward = refl

parse_frame-frame :
    (cbw : CommandBlockWrapper)
    → IsU32 cbw.tag
    → IsU32 cbw.transfer_length
    → parse_frame (frame cbw) ≡ some cbw
parse_frame-frame cbw h k = rw (
  u32_of-le_bytes cbw.tag h,
  u32_of-le_bytes cbw.transfer_length k,
  direction-has_bit cbw.direction,
  take-append_self cbw.cbwcb (replicate (16 - length cbw.cbwcb) 0),
)

pub is_sendable-length :
    (cbw : CommandBlockWrapper) → is_sendable cbw ≡ true → length cbw.cbwcb ≤ 16
is_sendable-length cbw h = ground arith

pub length-frame : (cbw : CommandBlockWrapper) → length cbw.cbwcb ≤ 16 → length (frame cbw) ≡ 31
length-frame cbw h = omega (
  arith,
  length-append cbw.cbwcb (replicate (16 - length cbw.cbwcb) 0),
  length-replicate {A = ℕ} (16 - length cbw.cbwcb) 0,
)

module _ (b : BytesCrate) (doc : IsDocumented b) where
  pub to_bytes-frame :
      (cbw : CommandBlockWrapper) → is_sendable cbw ≡ true → to_bytes b cbw ≡ some (frame cbw)
  unfolding to_bytes
  to_bytes-frame cbw h = rw (
    h,
    doc.puts_u32 0x43425355 [],
    doc.puts_u32 cbw.tag _,
    doc.puts_u32 cbw.transfer_length _,
    doc.puts_u8 (direction_byte cbw.direction) _,
    doc.puts_u8 cbw.lun _,
    doc.puts_u8 (length cbw.cbwcb % 256) _,
    doc.puts_slice cbw.cbwcb _,
    doc.puts_bytes 0 (16 - length cbw.cbwcb) _,
    small,
  )
    where
      small : length cbw.cbwcb % 256 ≡ length cbw.cbwcb
      small = omega (arith, is_sendable-length cbw h)

  -- A frame that `to_bytes` makes has 31 bytes, and a device that reads the fields at their offsets
  -- gets the wrapper back; a LUN of 16 or more, no command, or more than 16 bytes of it panic.
  pub to_bytes-parse_frame :
      (cbw : CommandBlockWrapper)
      → IsU32 cbw.tag
      → IsU32 cbw.transfer_length
      → (is_sendable cbw ≡ false → to_bytes b cbw ≡ none)
        × (is_sendable cbw ≡ true
            → (bytes : List ℕ) × (to_bytes b cbw ≡ some bytes)
              × (length bytes ≡ 31)
              × (parse_frame bytes ≡ some cbw))
  unfolding to_bytes
  to_bytes-parse_frame cbw h k = (
    λ bad. rw bad,
    λ good. (
      frame cbw,
      to_bytes-frame cbw good,
      length-frame cbw (is_sendable-length cbw good),
      parse_frame-frame cbw h k,
    ),
  )

  -- The bytes of a status frame.
  abbrev pub status_frame : ℕ → ℕ → ℕ → ℕ → List ℕ
  status_frame signature tag residue status =
      le_bytes signature ++ (le_bytes tag ++ (le_bytes residue ++ (status ∷ [])))

  -- A status frame is read back field by field when its signature is right and panics when it is
  -- not, and so do bytes of any other number than 13.
  pub from_bytes-status_frame :
      (signature tag residue status : ℕ)
      → IsU32 signature
      → IsU32 tag
      → IsU32 residue
      → (from_bytes b (status_frame signature tag residue status) ≡ (
          if signature == 0x53425355
          then some (record { tag = tag; data_residue = residue; status = status_of status })
          else none))
        × ((bytes : List ℕ) → (length bytes == 13) ≡ false → from_bytes b bytes ≡ none)
  unfolding from_bytes csw_fields
  from_bytes-status_frame signature tag residue status h k l = (
    rw (
      doc.gets_u32 _ _ _ _ _,
      u32_of-le_bytes signature h,
      doc.gets_u32 _ _ _ _ _,
      u32_of-le_bytes tag k,
      doc.gets_u32 _ _ _ _ _,
      u32_of-le_bytes residue l,
      doc.gets_u8 status [],
    ),
    λ bytes long. rw long,
  )
