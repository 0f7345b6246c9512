-- ===== src/Guest/BulkOnly/Native/Answers.antt =====
-- What a command over `rusb` makes of what the device sends, also where that is too short: each read
-- goes into a buffer of zeros, and the number of bytes that came is not looked at.
use masters_sibren_wieme.Prelude.{
  ℕ, ◌≡◌, ◌≤◌, ◌+◌, ◌-◌, ◌%◌, ◌^◌, true, some, List, [], ◌==◌, if◌then◌else◌, length, IsU32,
  replicate, arith, length-append, length-replicate, refl, Bool, false,
}
use masters_sibren_wieme.Guest.BulkOnly.{
  BulkOnlyTransportDevice, BulkOnlyTransportCommandBlock, CommandStatusWrapper, ok, err,
  incorrect_tag, inward, is_sendable, get_tag,
}
use masters_sibren_wieme.Guest.BulkOnly.Bytes.{BytesCrate, IsDocumented}
use masters_sibren_wieme.Guest.BulkOnly.Frames.{
  frame, status_frame, to_bytes-frame, u32_of-le_bytes,
}
use masters_sibren_wieme.Guest.BulkOnly.Native.{
  Rusb, IsRusb, status_of, csw_fields, from_bytes, filled, cbw_of, with_bytes, receive_csw,
  command_in,
}

length-filled :
    (size : ℕ) (bytes : List ℕ) → length bytes ≤ size → length (filled size bytes) ≡ size
length-filled size bytes h = omega (
  arith,
  length-append bytes (replicate (size - length bytes) 0),
  length-replicate {A = ℕ} (size - length bytes) 0,
)

with_bytes-if :
    (bytes : List ℕ) (c : Bool) (csw : CommandStatusWrapper)
    → with_bytes bytes (if c then ok csw else err incorrect_tag)
      ≡ (if c then ok (csw, bytes) else err incorrect_tag)
with_bytes-if bytes true csw = refl
with_bytes-if bytes false csw = refl

module _ (b : BytesCrate) (doc : IsDocumented b) (reported residue status : ℕ) (k : IsU32 reported)
    (l : IsU32 residue) where
  abbrev pub native_csw : CommandStatusWrapper
  native_csw = record { tag = reported; data_residue = residue; status = status_of status }

  from_bytes-native_csw :
      from_bytes b (status_frame b doc 0x53425355 reported residue status) ≡ some native_csw
  unfolding from_bytes csw_fields
  from_bytes-native_csw = rw (
    doc.gets_u32 _ _ _ _ _,
    doc.gets_u32 _ _ _ _ _,
    u32_of-le_bytes reported k,
    doc.gets_u32 _ _ _ _ _,
    u32_of-le_bytes residue l,
    doc.gets_u8 status [],
  )

  -- If the device takes the frame of a command, and what it sends as its status is a status frame
  -- without some of the zeros at its end, or with all of them, command_in judges it as that frame, and
  -- returns as many bytes as the command asked for: those that came, and zeros for those that did not.
  pub command_in-filled :
      {S : Type 0} (r : Rusb S) (rusb : IsRusb r) (d : BulkOnlyTransportDevice)
      (block : BulkOnlyTransportCommandBlock) (s s1 s2 s3 : S) (bytes answer : List ℕ)
      → is_sendable (cbw_of d block inward) ≡ true
      → r.write_bulk d.bulk_out (frame (cbw_of d block inward)) s ≡ some s1
      → r.read_bulk d.bulk_in block.transfer_length s1 ≡ some (bytes, s2)
      → r.read_bulk d.bulk_in 13 s2 ≡ some (answer, s3)
      → filled 13 answer ≡ status_frame b doc 0x53425355 reported residue status
      → (command_in r b block d s
          ≡ some (
            (if reported == d.current_tag
                then ok (native_csw, filled block.transfer_length bytes)
                else err incorrect_tag),
            record d { current_tag = (d.current_tag + 1) % 2 ^ 32 },
            s3,
          ))
        × (length (filled block.transfer_length bytes) ≡ block.transfer_length)
  unfolding command_in receive_csw get_tag
  command_in-filled r rusb d block s s1 s2 s3 bytes answer good sending receiving ending short = (
    rw (
      to_bytes-frame b doc (cbw_of d block inward) good,
      sending,
      receiving,
      ending,
      short,
      from_bytes-native_csw,
      with_bytes-if (filled block.transfer_length bytes) (reported == d.current_tag) native_csw,
    ),
    length-filled block.transfer_length bytes
        (rusb.reads d.bulk_in block.transfer_length s1 s2 bytes receiving),
  )
