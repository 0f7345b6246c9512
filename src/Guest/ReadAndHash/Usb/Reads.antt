-- ===== src/Guest/ReadAndHash/Usb/Reads.antt =====
-- Reads of the disk against the bytes of a drive.
use masters_sibren_wieme.Prelude.{
  ℕ, zero, suc, ◌≡◌, refl, ◌≤◌, ◌<◌, ◌+◌, ◌-◌, ◌*◌, ◌/◌, ◌%◌, ◌^◌, min, true, false, ◌&&◌, leb,
  some, List, [], ◌++◌, ◌==◌, ==_refl, ltb, length, replicate, IsU32, arith, ap, ◌∙◌, append-nil,
  take-length_self, ne→==_false,
}
use masters_sibren_wieme.Host.Transfer.{bulk}
use masters_sibren_wieme.Guest.BulkOnly.{inward}
use masters_sibren_wieme.Guest.BulkOnly.Bytes.{BytesCrate, IsDocumented}
use masters_sibren_wieme.Guest.BulkOnly.Frames.{frame}
use masters_sibren_wieme.Guest.MassStorage.Data.{bytes_between}
use masters_sibren_wieme.Guest.MassStorage.Reading.Disk.{
  blocks_of, bytes_at, length-blocks_of, bytes_at-blocks_of,
}
use masters_sibren_wieme.Guest.ReadAndHash.Data.{returned, Handle, UsbMassStorage}
use masters_sibren_wieme.Guest.ReadAndHash.Usb.{
  options, setup_of, filled, increase_tag, transfer, receive_csw, receive_over_usb, read_10,
  read_blocks, read,
}
use masters_sibren_wieme.Guest.ReadAndHash.Usb.Frames.{
  wrapper_of, passed, read_10_bytes, cbw_bytes-frame, read_10_block-bytes, check_csw-passed,
}

-- A drive of `total` blocks of 512 bytes: after the frame of a READ(10) it sends the blocks, and then a
-- status with the tag of the frame. What the host hands back for the frame does not matter.
pub record IsDrive {S : Type 0} (h : Handle S) (f : ℕ → List ℕ) (total : ℕ) (Ready : S → Type 0)
    : Type 0 where
  pub sized : (block : ℕ) → length (f block) ≡ 512
  pub answers :
      (tag address n : ℕ) (s : S)
      → Ready s
      → IsU32 tag
      → 0 < n
      → n < 2 ^ 16
      → address + n ≤ total
      → (s1 : S) × (s2 : S) × (s3 : S) × (sent : List ℕ) × (residue : ℕ) × (transfer h bulk
            (setup_of 0x21 0)
            31
            (options 2)
            (frame (wrapper_of tag (n * 512) inward (read_10_bytes address n)))
            s
          ≡ returned sent s1)
        × (transfer h bulk (setup_of 0xA1 0) (n * 512) (options 0x81) [] s1
            ≡ returned (blocks_of f address n) s2)
        × (transfer h bulk (setup_of 0xA1 0) 13 (options 0x81) [] s2
            ≡ returned (passed tag residue) s3)
        × Ready s3

filled-whole : (xs : List ℕ) (n : ℕ) → length xs ≡ n → filled n xs ≡ xs
filled-whole xs n e =
    let upto : min (length xs) n ≡ length xs = omega arith in
    let none_left : n - length xs ≡ 0 = omega arith in
    rw (upto, none_left, take-length_self xs) (append-nil xs)

module _ {S : Type 0} (h : Handle S) (b : BytesCrate) (doc : IsDocumented b) where
  -- A command that the drive answers.
  receive_over_usb-answered :
      (d : UsbMassStorage S) (cbwcb sent received : List ℕ) (n residue : ℕ) (s1 s2 s3 : S)
      → length cbwcb ≤ 16
      → transfer h bulk
          (setup_of 0x21 0)
          31
          (options d.out_endpoint)
          (frame (wrapper_of (increase_tag d).0 n inward cbwcb))
          d.host
        ≡ returned sent s1
      → transfer h bulk (setup_of 0xA1 0) n (options d.in_endpoint) [] s1 ≡ returned received s2
      → transfer h bulk (setup_of 0xA1 0) 13 (options d.in_endpoint) [] s2
        ≡ returned (passed (increase_tag d).0 residue) s3
      → receive_over_usb h b cbwcb n d
        ≡ returned (filled n received) (record (increase_tag d).1 { host = s3 })
  unfolding receive_over_usb receive_csw increase_tag
  receive_over_usb-answered d cbwcb sent received n residue s1 s2 s3 short sending receiving
        ending =
      rw
        (
          cbw_bytes-frame b doc ((d.tag + 1) % 2 ^ 32) n inward cbwcb short,
          sending,
          receiving,
          ending,
          check_csw-passed ((d.tag + 1) % 2 ^ 32) ((d.tag + 1) % 2 ^ 32) residue (omega arith),
          ==_refl ((d.tag + 1) % 2 ^ 32),
        )
        refl

  -- If the data stage of a READ(10) is shorter than what was asked for, and the status says that the
  -- command passed, then zeros stand for the bytes that are missing, with no error.
  read_10-short :
      (d : UsbMassStorage S) (address n residue : ℕ) (sent received : List ℕ) (s1 s2 s3 : S)
      → n < 2 ^ 16
      → d.capacity.block_length ≡ 512
      → length received ≤ n * 512
      → transfer h bulk
          (setup_of 0x21 0)
          31
          (options d.out_endpoint)
          (frame (wrapper_of (increase_tag d).0 (n * 512) inward (read_10_bytes address n)))
          d.host
        ≡ returned sent s1
      → transfer h bulk (setup_of 0xA1 0) (n * 512) (options d.in_endpoint) [] s1
        ≡ returned received s2
      → transfer h bulk (setup_of 0xA1 0) 13 (options d.in_endpoint) [] s2
        ≡ returned (passed (increase_tag d).0 residue) s3
      → read_10 h b address n d
        ≡ returned
            (received ++ replicate (n * 512 - length received) 0)
            (record (increase_tag d).1 { host = s3 })
  unfolding read_10
  read_10-short d address n residue sent received s1 s2 s3 few sized short sending receiving
        ending =
      let wanted : n * d.capacity.block_length % 2 ^ 32 ≡ n * 512 =
        ap (λ k. n * k % 2 ^ 32) sized ∙ omega arith in
      let upto : min (length received) (n * 512) ≡ length received = omega arith in
      rw (read_10_block-bytes b doc address n, wanted)
        (receive_over_usb-answered d (read_10_bytes address n) sent received (n * 512) residue s1 s2
            s3 (omega arith) sending receiving ending
          ∙ rw (upto, take-length_self received) refl)

  module _ (f : ℕ → List ℕ) (total : ℕ) (Ready : S → Type 0) (drive : IsDrive h f total Ready) where
    -- The disk at a position, between two calls.
    pub record IsAt (position : ℕ) (d : UsbMassStorage S) : Type 0 where
      pub ready : Ready d.host
      pub inward_endpoint : d.in_endpoint ≡ 0x81
      pub outward_endpoint : d.out_endpoint ≡ 2
      pub blocks : d.capacity.block_length ≡ 512
      pub inside : d.capacity.size ≤ total * 512
      pub here : d.seek_position ≡ position

    read_10-blocks :
        (position address n : ℕ) (d : UsbMassStorage S)
        → IsAt position d
        → 0 < n
        → n < 2 ^ 16
        → address + n ≤ total
        → (d' : UsbMassStorage S) × (read_10 h b address n d ≡ returned (blocks_of f address n) d')
          × IsAt position d'
          × (d'.capacity.size ≡ d.capacity.size)
    unfolding increase_tag
    read_10-blocks position address n d good some' few low =
        let (s1, s2, s3, sent, residue, sending, receiving, ending, ready) =
          drive.answers (increase_tag d).0 address n d.host good.ready (omega arith) some' few
            low in
        let whole = length-blocks_of f drive.sized address n in
        let nothing_left : n * 512 - length (blocks_of f address n) ≡ 0 = omega arith in
        (
          record (increase_tag d).1 { host = s3 },
          read_10-short d address n residue sent (blocks_of f address n) s1 s2 s3 few good.blocks
                (omega arith) (rw good.outward_endpoint sending) (rw good.inward_endpoint receiving)
                (rw good.inward_endpoint ending)
              ∙ rw (nothing_left, append-nil (blocks_of f address n)) refl,
          record {
            ready = ready;
            inward_endpoint = good.inward_endpoint;
            outward_endpoint = good.outward_endpoint;
            blocks = good.blocks;
            inside = good.inside;
            here = good.here;
          },
          refl,
        )

    -- The blocks that n bytes from a position on touch.
    abbrev touched : ℕ → ℕ → ℕ
    touched position n = (position + n - 1) / 512 - position / 512 + 1

    bytes_between-blocks :
        (position n : ℕ)
        → 0 < n
        → n ≤ 33_000_000
        → bytes_between
            (position % 512)
            ((position % 512 + n) % 2 ^ 32)
            (blocks_of f (position / 512) (touched position n))
          ≡ some (bytes_at f position n)
    unfolding bytes_between
    bytes_between-blocks position n some' few =
        let m = touched position n in
        let whole = length-blocks_of f drive.sized (position / 512) m in
        let stop : (position % 512 + n) % 2 ^ 32 ≡ position % 512 + n = omega arith in
        let inside : (leb (position % 512) (position % 512 + n)
              && leb (position % 512 + n) (length (blocks_of f (position / 512) m)))
            ≡ true =
          ground arith in
        let amount : position % 512 + n - position % 512 ≡ n = omega arith in
        let from : position / 512 * 512 + position % 512 ≡ position = omega arith in
        rw (stop, inside, amount)
          (ap some (
            bytes_at-blocks_of f drive.sized n (position / 512) m (position % 512) (omega arith)
            ∙ rw from refl))

    -- A read that ends within the disk and touches fewer than 2^16 blocks gives the drive's bytes from
    -- the position on, and moves the position behind them.
    pub read-bytes_at :
        (position n : ℕ) (d : UsbMassStorage S)
        → IsAt position d
        → position + n ≤ d.capacity.size
        → total ≤ 2 ^ 32
        → n ≤ 33_000_000
        → (d' : UsbMassStorage S) × (read h b n d ≡ returned (bytes_at f position n) d')
          × IsAt (position + n) d'
          × (d'.capacity.size ≡ d.capacity.size)
    unfolding read read_blocks
    read-bytes_at position zero d good inside small few = (
      d,
      refl,
      record {
        ready = good.ready;
        inward_endpoint = good.inward_endpoint;
        outward_endpoint = good.outward_endpoint;
        blocks = good.blocks;
        inside = good.inside;
        here = omega (arith, good.here);
      },
      refl,
    )
    read-bytes_at position (suc k) d good inside small few =
        let n = suc k in
        let block_length = d.capacity.block_length in
        let (d1, blocks, good1, same) =
          read_10-blocks position (position / 512) (touched position n) d good (omega arith)
            (omega arith) (omega (arith, good.inside)) in
        let filled_buffer : (n == 0) ≡ false = ne→==_false n 0 (λ e. omega (arith, e)) in
        let end : (d.seek_position + n) % 2 ^ 64 ≡ position + n =
          omega (arith, good.here, good.inside) in
        let fits : ltb d.capacity.size (position + n) ≡ false = ground arith in
        let divides : (block_length == 0) ≡ false =
          ne→==_false block_length 0 (λ e. omega (arith, e, good.blocks)) in
        let address : d.seek_position / block_length % 2 ^ 32 ≡ position / 512 =
          ap (λ (k : ℕ). d.seek_position / k % 2 ^ 32) good.blocks
          ∙ omega (arith, good.here, good.inside) in
        let last : (position + n + 2 ^ 64 - 1) % 2 ^ 64 / block_length ≡ (position + n - 1) / 512 =
          ap (λ (k : ℕ). (position + n + 2 ^ 64 - 1) % 2 ^ 64 / k) good.blocks
          ∙ omega (arith, good.here, good.inside) in
        let count : ((position + n - 1) / 512 + 2 ^ 64 - position / 512 + 1) % 2 ^ 16
            ≡ touched position n =
          omega (arith, good.here, good.inside) in
        let offset : d.seek_position % block_length ≡ position % 512 =
          ap (λ (k : ℕ). d.seek_position % k) good.blocks ∙ ap (λ (q : ℕ). q % 512) good.here in
        let behind : (d1.seek_position + n) % 2 ^ 64 ≡ position + n =
          omega (arith, good1.here, good.inside) in
        (
          record d1 { seek_position = (d1.seek_position + n) % 2 ^ 64 },
          rw
              (
                filled_buffer,
                end,
                fits,
                divides,
                address,
                last,
                count,
                blocks,
                offset,
                bytes_between-blocks position n (omega arith) few,
              )
              refl,
          record {
            ready = good1.ready;
            inward_endpoint = good1.inward_endpoint;
            outward_endpoint = good1.outward_endpoint;
            blocks = good1.blocks;
            inside = good1.inside;
            here = behind;
          },
          same,
        )
