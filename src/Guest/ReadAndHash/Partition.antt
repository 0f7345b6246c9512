-- ===== src/Guest/ReadAndHash/Partition.antt =====
-- usb-wasi-guest/examples/read_and_hash.rs, main: the slice of a partition on the disk.
use masters_sibren_wieme.Prelude.{
  ℕ, ◌≡◌, refl, ◌≤◌, ◌<◌, ◌+◌, ◌-◌, ◌*◌, ◌%◌, ◌^◌, min, false, Option, some, List, leb, arith, ap,
  ◌∙◌, All,
}
use masters_sibren_wieme.Guest.BulkOnly.Bytes.{BytesCrate, IsDocumented}
use masters_sibren_wieme.Guest.MassStorage.Reading.Disk.{bytes_at}
use masters_sibren_wieme.Guest.ReadAndHash.Data.{returned, Handle, UsbMassStorage}
use masters_sibren_wieme.Guest.ReadAndHash.Usb.{disk, seek, target}
use masters_sibren_wieme.Guest.ReadAndHash.Usb.Reads.{IsDrive, IsAt, read-bytes_at}
use masters_sibren_wieme.Guest.ReadAndHash.Slice.{IoSlice, new, reads}
use masters_sibren_wieme.Guest.ReadAndHash.Slice.Window.{IsReadable, reads-window, sum}

-- The slice of the partition from a block on, of some blocks.
unfoldable pub partition_slice :
    {S : Type 0} → ℕ → ℕ → UsbMassStorage S → Option (IoSlice (UsbMassStorage S))
partition_slice starting_lba sectors usb =
    let block_length = usb.capacity.block_length in
    new usb (starting_lba * block_length) ((starting_lba + sectors) * block_length % 2 ^ 64)

module _ {S : Type 0} (h : Handle S) (b : BytesCrate) (doc : IsDocumented b) (f : ℕ → List ℕ)
    (total : ℕ) (Ready : S → Type 0) (drive : IsDrive h f total Ready)
    (small : total ≤ 2 ^ 32) where
  -- The disk at a position, with its number of bytes.
  abbrev pub IsDiskAt : ℕ → ℕ → UsbMassStorage S → Type 0
  IsDiskAt size p d = IsAt h b doc f total Ready drive p d × (d.capacity.size ≡ size)

  disk-IsReadable : (size : ℕ) → IsReadable (disk h b) f size 33_000_000 (IsDiskAt size)
  unfolding seek target
  disk-IsReadable size = record {
    seeks = λ p q d good inside. (
      record d { seek_position = q },
      refl,
      (
        record {
          ready = good.0.ready;
          inward_endpoint = good.0.inward_endpoint;
          outward_endpoint = good.0.outward_endpoint;
          blocks = good.0.blocks;
          inside = good.0.inside;
          here = refl;
        },
        good.1,
      ),
    );
    reads = λ p n d good inside few.
        let (d', got, good', same) =
          read-bytes_at h b doc f total Ready drive p n d good.0 (omega (arith, good.1)) small
            few in
        (d', got, (good', omega (arith, same, good.1)));
  }

  -- The slice of a partition of at least one block that ends within the capacity, on a drive of at most
  -- 2^32 blocks behind the endpoints 0x81 and 2 that holds the capacity, gives, in buffers of at most 33,000,000 bytes, whatever their
  -- sizes, the bytes of the partition in order, and no byte behind its end.
  pub partition_slice-reads :
      (starting_lba sectors position : ℕ) (ns : List ℕ) (usb : UsbMassStorage S)
      → IsAt h b doc f total Ready drive position usb
      → 0 < sectors
      → (starting_lba + sectors) * 512 ≤ usb.capacity.size
      → All (λ n. n ≤ 33_000_000) ns
      → (slice : IoSlice (UsbMassStorage S)) × (slice' : IoSlice (UsbMassStorage S))
        × (partition_slice starting_lba sectors usb ≡ some slice)
        × (reads (disk h b) ns slice
            ≡ returned (bytes_at f (starting_lba * 512) (min (sum ns) (sectors * 512))) slice')
  unfolding partition_slice new
  partition_slice-reads starting_lba sectors position ns usb good some' inside few =
      let start = starting_lba * 512 in
      let end = (starting_lba + sectors) * 512 in
      let slice : IoSlice (UsbMassStorage S) = record {
        inner = usb;
        start = start;
        end = end;
        position = start;
      } in
      let stop : end % 2 ^ 64 ≡ end = omega (arith, good.inside) in
      let proper : leb end start ≡ false = ground arith in
      let (slice', got, _) =
        reads-window (disk h b) f usb.capacity.size 33_000_000 (IsDiskAt usb.capacity.size)
          (disk-IsReadable usb.capacity.size) (omega (arith, good.inside)) (omega arith) start end
          start ns slice
          (record {
            starts = refl;
            ends = refl;
            here = refl;
            inner_position = position;
            inner_at = (good, refl);
          })
          (omega arith) inside few in
      let length_of : end - start ≡ sectors * 512 = omega arith in
      (
        slice,
        slice',
        rw (good.blocks, stop, proper) refl,
        got ∙ ap (λ (k : ℕ). returned (bytes_at f start (min (sum ns) k)) slice') length_of,
      )
