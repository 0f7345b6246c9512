-- ===== src/Guest/MassStorage/Blocks.antt =====
-- The command blocks of READ(10) and WRITE(10), and what reading blocks makes of a device's answer.
use masters_sibren_wieme.Prelude.{
  ℕ, ◌≡◌, refl, ◌<◌, ◌+◌, ◌*◌, ◌/◌, ◌%◌, ◌^◌, Bool, true, false, Option, none, some, List, [], ◌∷◌,
  ◌++◌, ◌==◌, if◌then◌else◌, length, IsU32, arith, Bool-cases, inl, inr, ◌∙◌,
}
use masters_sibren_wieme.Host.Transfer.{bulk}
use masters_sibren_wieme.Guest.BulkOnly.{
  DeviceHandle, CommandStatusWrapper, inward, empty_setup, options, exchange, receive_data, wrapper,
  is_sendable, ok, err, incorrect_tag, status_of, ◌>>=◌,
}
use masters_sibren_wieme.Guest.BulkOnly.Bytes.{BytesCrate, IsDocumented, be_bytes, be_bytes_u16}
use masters_sibren_wieme.Guest.BulkOnly.Frames.{frame, status_frame}
use masters_sibren_wieme.Guest.BulkOnly.Commands.{command_in-answered}
use masters_sibren_wieme.Guest.MassStorage.Data.{wrap}
use masters_sibren_wieme.Guest.MassStorage.Scsi.{
  Scsi, block_command, block_transfer, is_passed, passed_data, receive, read_blocks,
  capacity_from_bytes,
}

-- How a device reads a command block of ten bytes: its operation, address and number of blocks.
abbrev pub parse_command : List ℕ → Option (ℕ × ℕ × ℕ)
parse_command (op ∷ _ ∷ a ∷ b ∷ c ∷ d ∷ _ ∷ m ∷ n ∷ _ ∷ []) =
    some (op, 2 ^ 24 * a + 2 ^ 16 * b + 2 ^ 8 * c + d, 2 ^ 8 * m + n)
parse_command _ = none

pub be_bytes-value :
    (x : ℕ)
    → IsU32 x
    → 2 ^ 24 * (x / 2 ^ 24 % 2 ^ 8)
        + 2 ^ 16 * (x / 2 ^ 16 % 2 ^ 8)
        + 2 ^ 8 * (x / 2 ^ 8 % 2 ^ 8)
        + x % 2 ^ 8
      ≡ x
be_bytes-value x h = omega arith

module _ (b : BytesCrate) (doc : IsDocumented b) where
  pub block_command-bytes :
      (op address blocks : ℕ)
      → block_command b op address blocks
        ≡ op ∷ 0 ∷ (be_bytes address ++ (0 ∷ (be_bytes_u16 blocks ++ (0 ∷ []))))
  unfolding block_command
  block_command-bytes op address blocks =
      rw
        (
          block_command,
          doc.puts_u8 op [],
          doc.puts_u8 0 (op ∷ []),
          doc.puts_u32_be address,
          doc.puts_u8 0,
          doc.puts_u16_be blocks,
          doc.puts_u8 0,
        )
        refl

  -- The command block of a read or a write has ten bytes, and a device reads from it the operation, the
  -- address and the number of blocks that were asked for, if the address is a u32 and the number a u16.
  pub block_command-parse_command :
      (op address blocks : ℕ)
      → IsU32 address
      → blocks < 2 ^ 16
      → (length (block_command b op address blocks) ≡ 10)
        × (parse_command (block_command b op address blocks) ≡ some (op, address, blocks))
  block_command-parse_command op address blocks small few =
      let whole : 2 ^ 24 * (address / 2 ^ 24 % 2 ^ 8)
            + 2 ^ 16 * (address / 2 ^ 16 % 2 ^ 8)
            + 2 ^ 8 * (address / 2 ^ 8 % 2 ^ 8)
            + address % 2 ^ 8
          ≡ address =
        be_bytes-value address small in
      let count : 2 ^ 8 * (blocks / 2 ^ 8 % 2 ^ 8) + blocks % 2 ^ 8 ≡ blocks = omega arith in
      (
        rw (block_command-bytes op address blocks) refl,
        rw (block_command-bytes op address blocks, whole, count) refl,
      )

  -- The answer to READ CAPACITY: the capacity is the length of a block times the last address.
  pub capacity_from_bytes-be_bytes :
      (address block_length : ℕ)
      → IsU32 address
      → IsU32 block_length
      → capacity_from_bytes b (be_bytes address ++ be_bytes block_length)
        ≡ some (record {
          returned_logical_block_address = address;
          block_length_in_bytes = block_length;
          capacity_in_bytes = address * block_length;
        })
  unfolding capacity_from_bytes
  capacity_from_bytes-be_bytes address block_length small small' =
      rw
        (
          doc.gets_u32_be,
          doc.gets_u32_be,
          be_bytes-value address small,
          be_bytes-value block_length small',
        )
        refl

is_passed-status_of : (status : ℕ) → is_passed (status_of status) ≡ (status == 0)
is_passed-status_of status = ground arith

passed_data-judged :
    (c : Bool) (csw : CommandStatusWrapper) (bytes : List ℕ)
    → passed_data (if c then ok (csw, bytes) else err incorrect_tag)
      ≡ (if c then (if is_passed csw.status then some bytes else none) else none)
unfolding passed_data
passed_data-judged true csw bytes = refl
passed_data-judged false csw bytes = refl

module _ {S : Type 0} (h : DeviceHandle S) (b : BytesCrate) (doc : IsDocumented b) where
  abbrev with_state : Scsi S → List ℕ → Option (List ℕ × Scsi S)
  with_state s bytes = some (bytes, s)

  answer_if :
      (c : Bool) (csw : CommandStatusWrapper) (bytes : List ℕ) (s : Scsi S)
      → ((if c then (if is_passed csw.status then some bytes else none) else none) >>= with_state s)
        ≡ (if c then (if is_passed csw.status then some (bytes, s) else none) else none)
  answer_if true csw bytes s = elim (Bool-cases (is_passed csw.status)) [
    | inl yes' ↦ rw yes' refl
    | inr no' ↦ rw no' refl
  ]
  answer_if false csw bytes s = refl

  -- If the three transfers of a READ(10) are created, and the device answers the block command with
  -- some bytes and a status frame, reading blocks gives those bytes when the frame has the tag of the
  -- command and says that it passed, and panics otherwise. The tag moves on, and the read is counted.
  pub read_blocks-answered :
      (block_size address blocks residue status reported : ℕ) (k : IsU32 reported)
      (l : IsU32 residue) (s : Scsi S) (s1 s2 s3 : S) (sent : Option (List ℕ)) (bytes : List ℕ)
      → is_sendable (wrapper h s.device (block_transfer h b block_size 0x28 address blocks) inward)
        ≡ true
      → exchange h bulk empty_setup 31
          (options s.device.bulk_out 5000)
          (frame (wrapper h s.device (block_transfer h b block_size 0x28 address blocks) inward))
          s.host
        ≡ some (sent, s1)
      → receive_data h (wrap (blocks * block_size)) (options s.device.bulk_in 10000) s1
        ≡ some (bytes, s2)
      → exchange h bulk empty_setup 13 (options s.device.bulk_in 10000) [] s2
        ≡ some (some (status_frame b doc 0x53425355 reported residue status), s3)
      → read_blocks h b block_size address blocks s ≡ (
          if reported == s.device.current_tag
          then (if status == 0
              then some (
                bytes,
                record {
                  device = record s.device { current_tag = (s.device.current_tag + 1) % 2 ^ 32 };
                  host = s3;
                  reads = (s.reads + 1) % 2 ^ 32;
                  blocks_read = (s.blocks_read + blocks) % 2 ^ 32;
                  writes = s.writes;
                  blocks_written = s.blocks_written;
                },
              )
              else none)
          else none)
  unfolding read_blocks receive
  read_blocks-answered block_size address blocks residue status reported k l s s1 s2 s3 sent bytes
        good sending receiving ending =
      rw
        (
          command_in-answered h b doc residue status reported k l s.device
              (block_transfer h b block_size 0x28 address blocks) s.host s1 s2 s3 sent bytes good
              sending receiving ending,
          passed_data-judged (reported == s.device.current_tag)
              (record { tag = reported; data_residue = residue; status = status_of status }) bytes,
        )
        (answer_if (reported == s.device.current_tag)
            (record { tag = reported; data_residue = residue; status = status_of status }) bytes _
          ∙ rw (is_passed-status_of status) refl)
