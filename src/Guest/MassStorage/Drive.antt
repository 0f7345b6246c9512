-- ===== src/Guest/MassStorage/Drive.antt =====
-- The SCSI commands of mass_storage.rs on a drive that answers READ(10) and WRITE(10) over the Bulk Only
-- Transport: they are a disk for MassStorageDevice.
pub mod Bytes
mod Tests
use masters_sibren_wieme.Prelude.{
  ℕ, ◌≡◌, refl, ◌≤◌, ◌<◌, ◌+◌, ◌*◌, ◌%◌, ◌^◌, true, false, ◌==◌, ==_refl, Option, none, some, List,
  [], ◌∷◌, ◌++◌, if◌then◌else◌, length, ltb, lt→ltb, IsU32, arith, ap, ◌∙◌, sym,
}
use masters_sibren_wieme.Host.Transfer.{bulk}
use masters_sibren_wieme.Guest.BulkOnly.{
  DeviceHandle, BulkOnlyTransportDevice, CommandBlockWrapper, Direction, inward, outward, wrapper,
  is_sendable, get_tag, exchange, receive_data, send_data, options, empty_setup, ◌>>=◌,
}
use masters_sibren_wieme.Guest.BulkOnly.Bytes.{BytesCrate, IsDocumented, be_bytes, be_bytes_u16}
use masters_sibren_wieme.Guest.BulkOnly.Frames.{frame, status_frame}
use masters_sibren_wieme.Guest.BulkOnly.Commands.{command_out-answered}
use masters_sibren_wieme.Guest.MassStorage.Data.{wrap}
use masters_sibren_wieme.Guest.MassStorage.Scsi.{
  Scsi, block_transfer, read_blocks, write_blocks, send, passed_status, after_write, scsi_io,
}
use masters_sibren_wieme.Guest.MassStorage.Blocks.{block_command-bytes, read_blocks-answered}
use masters_sibren_wieme.Guest.MassStorage.Reading.Disk.{IsDisk, blocks_of}

-- The wrapper of a READ(10) or a WRITE(10) of n blocks of 512 bytes.
abbrev pub block_wrapper : ℕ → ℕ → Direction → ℕ → ℕ → ℕ → CommandBlockWrapper
block_wrapper tag lun direction op address n = record {
  tag = tag;
  transfer_length = n * 512;
  direction = direction;
  lun = lun;
  cbwcb = op ∷ 0 ∷ (be_bytes address ++ (0 ∷ (be_bytes_u16 n ++ (0 ∷ []))));
}

module _ {S : Type 0} (h : DeviceHandle S) (b : BytesCrate) (doc : IsDocumented b) where
  -- A drive of `total` blocks of 512 bytes behind the endpoints 0x81 and 2, when it is ready: it answers
  -- the frame of a READ(10) of at most 128 blocks by these, and takes a block after that of a WRITE(10);
  -- then comes a status that says that the command passed. What the host hands back for the bytes that
  -- it has sent does not matter.
  pub record IsDrive (contents : S → ℕ → List ℕ) (total : ℕ) (Ready : S → Type 0) : Type 0 where
    pub sized : (s : S) (block : ℕ) → length (contents s block) ≡ 512
    pub answers :
        (tag lun address n : ℕ) (s : S)
        → Ready s
        → IsU32 tag
        → 0 < n
        → n ≤ 128
        → address + n ≤ total
        → (s1 : S) × (s2 : S) × (s3 : S) × (sent : Option (List ℕ)) × (residue : ℕ) × IsU32 residue
          × (exchange h bulk empty_setup 31
                (options 2 5000)
                (frame (block_wrapper tag lun inward 0x28 address n))
                s
              ≡ some (sent, s1))
          × (exchange h bulk empty_setup (n * 512) (options 0x81 10000) [] s1
              ≡ some (some (blocks_of (contents s) address n), s2))
          × (exchange h bulk empty_setup 13 (options 0x81 10000) [] s2
              ≡ some (some (status_frame b doc 0x53425355 tag residue 0), s3))
          × ((k : ℕ) → contents s3 k ≡ contents s k)
          × Ready s3
    pub takes :
        (tag lun address : ℕ) (bytes : List ℕ) (s : S)
        → Ready s
        → IsU32 tag
        → address < total
        → length bytes ≡ 512
        → (s1 : S) × (s2 : S) × (s3 : S) × (sent sent' : Option (List ℕ)) × (residue : ℕ) × IsU32
            residue
          × (exchange h bulk empty_setup 31
                (options 2 5000)
                (frame (block_wrapper tag lun outward 0x2A address 1))
                s
              ≡ some (sent, s1))
          × (exchange h bulk empty_setup 512 (options 2 5000) bytes s1 ≡ some (sent', s2))
          × (exchange h bulk empty_setup 13 (options 0x81 5000) [] s2
              ≡ some (some (status_frame b doc 0x53425355 tag residue 0), s3))
          × ((k : ℕ) → contents s3 k ≡ (if k == address then bytes else contents s k))
          × Ready s3

  -- The transport as `new` leaves it and the commands keep it, with a ready drive and a LUN that exists.
  pub record IsAttached (Ready : S → Type 0) (s : Scsi S) : Type 0 where
    pub ready : Ready s.host
    pub lun : s.device.selected_lun < 16
    pub tag : IsU32 s.device.current_tag
    pub from : s.device.bulk_in ≡ 0x81
    pub to : s.device.bulk_out ≡ 2

  wrapper-block_wrapper :
      (d : BulkOnlyTransportDevice) (direction : Direction) (op address n : ℕ)
      → n ≤ 128
      → wrapper h d (block_transfer h b 512 op address n) direction
        ≡ block_wrapper d.current_tag d.selected_lun direction op address n
  unfolding get_tag
  wrapper-block_wrapper d direction op address n few =
      let small : wrap (n * 512) ≡ n * 512 = omega arith in
      rw (block_command-bytes b doc op address n, small) refl

  block_transfer-is_sendable :
      (d : BulkOnlyTransportDevice) (direction : Direction) (op address n : ℕ)
      → n ≤ 128
      → d.selected_lun < 16
      → is_sendable (wrapper h d (block_transfer h b 512 op address n) direction) ≡ true
  block_transfer-is_sendable d direction op address n few low =
      ap is_sendable (wrapper-block_wrapper d direction op address n few)
      ∙ rw (lt→ltb d.selected_lun 16 low) refl

  -- The frame that goes out.
  exchange-block_wrapper :
      (d : BulkOnlyTransportDevice) (direction : Direction) (op address n : ℕ) (s : S)
      → n ≤ 128
      → d.bulk_out ≡ 2
      → exchange h bulk empty_setup 31
          (options d.bulk_out 5000)
          (frame (wrapper h d (block_transfer h b 512 op address n) direction))
          s
        ≡ exchange h bulk empty_setup 31
            (options 2 5000)
            (frame (block_wrapper d.current_tag d.selected_lun direction op address n))
            s
  exchange-block_wrapper d direction op address n s few to =
      ap
        (λ (e : ℕ).
          exchange h bulk empty_setup 31 (options e 5000)
            (frame (wrapper h d (block_transfer h b 512 op address n) direction)) s)
        to
      ∙ ap
          (λ (w : CommandBlockWrapper). exchange h bulk empty_setup 31 (options 2 5000) (frame w) s)
          (wrapper-block_wrapper d direction op address n few)

  receive_data-exchange :
      (n : ℕ) (bytes : List ℕ) (s s' : S)
      → 0 < n
      → n ≤ 128
      → exchange h bulk empty_setup (n * 512) (options 0x81 10000) [] s ≡ some (some bytes, s')
      → receive_data h (wrap (n * 512)) (options 0x81 10000) s ≡ some (bytes, s')
  unfolding receive_data
  receive_data-exchange n bytes s s' some' few got =
      let small : wrap (n * 512) ≡ n * 512 = omega arith in
      let more : ltb 0 (n * 512) ≡ true = lt→ltb 0 (n * 512) (omega arith) in
      rw (small, more, got) refl

  module _ (contents : S → ℕ → List ℕ) (total : ℕ) (Ready : S → Type 0)
      (drive : IsDrive contents total Ready) where
    read_blocks-drive :
        (address n : ℕ) (s : Scsi S)
        → IsAttached Ready s
        → 0 < n
        → n ≤ 128
        → address + n ≤ total
        → (s' : Scsi S) × (read_blocks h b 512 address n s
            ≡ some (blocks_of (contents s.host) address n, s'))
          × ((k : ℕ) → contents s'.host k ≡ contents s.host k)
          × IsAttached Ready s'
    read_blocks-drive address n s good some' few inside =
        let d = s.device in
        let (s1, s2, s3, sent, residue, small, sending, receiving, ending, same, ready) =
          drive.answers d.current_tag d.selected_lun address n s.host good.ready good.tag some' few
            inside in
        (
          record {
            device = record d { current_tag = (d.current_tag + 1) % 2 ^ 32 };
            host = s3;
            reads = (s.reads + 1) % 2 ^ 32;
            blocks_read = (s.blocks_read + n) % 2 ^ 32;
            writes = s.writes;
            blocks_written = s.blocks_written;
          },
          read_blocks-answered h b doc 512 address n residue 0 d.current_tag good.tag small s s1 s2
                s3 sent (blocks_of (contents s.host) address n)
                (block_transfer-is_sendable d inward 0x28 address n few good.lun)
                (exchange-block_wrapper d inward 0x28 address n s.host few good.to ∙ sending)
                (rw good.from (
                  receive_data-exchange n (blocks_of (contents s.host) address n) s1 s2 some' few
                    receiving))
                (rw good.from ending)
              ∙ rw (==_refl d.current_tag) refl,
          same,
          record {
            ready = ready;
            lun = good.lun;
            tag = omega arith;
            from = good.from;
            to = good.to;
          },
        )

    write_blocks-drive :
        (address : ℕ) (bytes : List ℕ) (s : Scsi S)
        → IsAttached Ready s
        → address < total
        → length bytes ≡ 512
        → (s' : Scsi S) × (write_blocks h b 512 address 1 bytes s ≡ some s')
          × ((k : ℕ) → contents s'.host k ≡ (if k == address then bytes else contents s.host k))
          × IsAttached Ready s'
    unfolding write_blocks send passed_status after_write send_data
    write_blocks-drive address bytes s good inside long =
        let d = s.device in
        let (s1, s2, s3, sent, sent', residue, small, sending, sending', ending, put, ready) =
          drive.takes d.current_tag d.selected_lun address bytes s.host good.ready good.tag inside
            long in
        (
          record {
            device = record d { current_tag = (d.current_tag + 1) % 2 ^ 32 };
            host = s3;
            reads = s.reads;
            blocks_read = s.blocks_read;
            writes = (s.writes + 1) % 2 ^ 32;
            blocks_written = (s.blocks_written + 1) % 2 ^ 32;
          },
          rw
              (
                command_out-answered h b doc residue 0 d.current_tag good.tag small d
                    (block_transfer h b 512 0x2A address 1) (some bytes) s.host s1 s2 s3 sent
                    (block_transfer-is_sendable d outward 0x2A address 1 (omega arith) good.lun)
                    (exchange-block_wrapper d outward 0x2A address 1 s.host (omega arith) good.to
                      ∙ sending)
                    (rw (good.to, long, sending') refl) (rw good.from ending),
                ==_refl d.current_tag,
              )
              refl,
          put,
          record {
            ready = ready;
            lun = good.lun;
            tag = omega arith;
            from = good.from;
            to = good.to;
          },
        )

    pub scsi_io-IsDisk : IsDisk (scsi_io h b) (λ s. contents s.host) total (IsAttached Ready)
    scsi_io-IsDisk = record {
      sized = λ s block. drive.sized s.host block;
      reads = read_blocks-drive;
      writes = write_blocks-drive;
    }
