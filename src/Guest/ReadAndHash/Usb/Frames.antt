-- ===== src/Guest/ReadAndHash/Usb/Frames.antt =====
-- The frames of this program against those of the example mass-storage.
use masters_sibren_wieme.Prelude.{
  ℕ, ◌≡◌, ◌≤◌, ◌<◌, some, ap, sym, ◌∙◌, ◌-◌, ◌%◌, List, [], ◌∷◌, ◌++◌, ◌==◌, if◌then◌else◌, length,
  IsU32, arith, Bool-cases, inl, inr,
}
use masters_sibren_wieme.Host.Errors.{ok, err, other}
use masters_sibren_wieme.Guest.BulkOnly.{CommandBlockWrapper, Direction, direction_byte}
use masters_sibren_wieme.Guest.BulkOnly.Bytes.{
  BytesCrate, IsDocumented, le_bytes, be_bytes, be_bytes_u16,
}
use masters_sibren_wieme.Guest.BulkOnly.Frames.{frame, u32_of-le_bytes}
use masters_sibren_wieme.Guest.BulkOnly.{to_bytes}
use masters_sibren_wieme.Guest.BulkOnly.Frames.{to_bytes-frame}
use masters_sibren_wieme.Guest.MassStorage.Blocks.{block_command-bytes}
use masters_sibren_wieme.Guest.MassStorage.Scsi.{block_command}
use masters_sibren_wieme.Guest.ReadAndHash.Usb.{cbw_bytes, check_csw, read_10_block}

abbrev pub wrapper_of : ℕ → ℕ → Direction → List ℕ → CommandBlockWrapper
wrapper_of tag data_length direction cbwcb = record {
  tag = tag;
  transfer_length = data_length;
  direction = direction;
  lun = 0;
  cbwcb = cbwcb;
}

-- A device's status for a command that passed.
abbrev pub passed : ℕ → ℕ → List ℕ
passed tag residue = le_bytes 0x53425355 ++ (le_bytes tag ++ (le_bytes residue ++ (0 ∷ [])))

-- The command block of READ(10).
abbrev pub read_10_bytes : ℕ → ℕ → List ℕ
read_10_bytes address blocks =
    0x28 ∷ 0 ∷ (be_bytes address ++ (0 ∷ (be_bytes_u16 blocks ++ (0 ∷ []))))

-- The frame without its padding.
abbrev filled_part : ℕ → ℕ → ℕ → List ℕ → List ℕ
filled_part tag data_length flags cbwcb =
    le_bytes 0x43425355
    ++ (le_bytes tag ++ (le_bytes data_length ++ (flags ∷ 0 ∷ (length cbwcb % 256) ∷ cbwcb)))

module _ (b : BytesCrate) (doc : IsDocumented b) where
  pub cbw_bytes-frame :
      (tag data_length : ℕ) (direction : Direction) (cbwcb : List ℕ)
      → length cbwcb ≤ 16
      → cbw_bytes b tag data_length (direction_byte direction) cbwcb
        ≡ frame (wrapper_of tag data_length direction cbwcb)
  unfolding cbw_bytes
  cbw_bytes-frame tag data_length direction cbwcb short = rw (
    cbw_bytes,
    doc.puts_u32 0x43425355 [],
    doc.puts_u32 tag _,
    doc.puts_u32 data_length _,
    doc.puts_u8 (direction_byte direction) _,
    doc.puts_u8 0 _,
    doc.puts_u8 (length cbwcb % 256) _,
    doc.puts_slice cbwcb _,
    doc.resizes 31 0 (filled_part tag data_length (direction_byte direction) cbwcb) (omega arith),
    small,
    rest,
  )
    where
      small : length cbwcb % 256 ≡ length cbwcb
      small = omega arith

      rest :
          31 - length (filled_part tag data_length (direction_byte direction) cbwcb)
          ≡ 16 - length cbwcb
      rest = omega arith

  pub read_10_block-bytes :
      (address blocks : ℕ) → read_10_block b address blocks ≡ read_10_bytes address blocks
  read_10_block-bytes address blocks = rw (
    read_10_block,
    doc.puts_u8 0x28 [],
    doc.puts_u8 0 (0x28 ∷ []),
    doc.puts_slice (be_bytes address) _,
    doc.puts_u8 0 _,
    doc.puts_slice (be_bytes_u16 blocks) _,
    doc.puts_u8 0 _,
  )

  -- Both programs put the same 31 bytes before a command of 1 to 16 bytes for LUN 0, and the same command
  -- block into a READ(10).
  pub cbw_bytes-to_bytes :
      (tag data_length : ℕ) (direction : Direction) (cbwcb : List ℕ)
      → 0 < length cbwcb
      → length cbwcb ≤ 16
      → (to_bytes b (wrapper_of tag data_length direction cbwcb)
          ≡ some (cbw_bytes b tag data_length (direction_byte direction) cbwcb))
        × ((address blocks : ℕ)
            → read_10_block b address blocks ≡ block_command b 0x28 address blocks)
  cbw_bytes-to_bytes tag data_length direction cbwcb filled short = (
    to_bytes-frame b doc (wrapper_of tag data_length direction cbwcb) (ground arith)
        ∙ ap some (sym (cbw_bytes-frame tag data_length direction cbwcb short)),
    λ address blocks.
        read_10_block-bytes address blocks ∙ sym (block_command-bytes b doc 0x28 address blocks),
  )

-- The status of a command that passed is taken if it has the command's tag.
pub check_csw-passed :
    (tag reported residue : ℕ)
    → IsU32 reported
    → check_csw tag (passed reported residue) ≡ (if reported == tag then ok tt else err other)
unfolding check_csw
check_csw-passed tag reported residue h =
    rw (u32_of-le_bytes reported h)
      (elim (Bool-cases (reported == tag)) [ inl same ↦ rw same | inr differs ↦ rw differs ])
