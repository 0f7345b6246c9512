-- ===== src/Guest/ReadAndHash/Tests.antt =====
-- A partition of three blocks on a drive of eight, a file of five bytes, and a directory.
use mathlib.Core.List.{Perm}
use masters_sibren_wieme.Prelude.{
  ℕ, ◌≡◌, refl, ◌≤◌, ◌<◌, ◌*◌, ◌%◌, ◌^◌, min, some, List, [], ◌∷◌, ◌++◌, length, take, drop, map,
  arith, sym, length-take, take-append-drop, append-nil, append_assoc,
}
use masters_sibren_wieme.Prelude.Int.{negsuc}
use masters_sibren_wieme.Guest.BulkOnly.{inward, direction_byte, to_bytes}
use masters_sibren_wieme.Guest.BulkOnly.Samples.{bytes_crate, bytes_crate-IsDocumented}
use masters_sibren_wieme.Guest.MassStorage.Reading.Disk.{bytes_at}
use masters_sibren_wieme.Guest.MassStorage.Scsi.{block_command}
use masters_sibren_wieme.Guest.ReadAndHash.Data.{
  Outcome, returned, failed, invalid_input, start_of, end_of, ReadSeek, UsbMassStorage, Handle,
}
use masters_sibren_wieme.Guest.ReadAndHash.Usb.{disk, cbw_bytes, read_10_block}
use masters_sibren_wieme.Guest.ReadAndHash.Usb.Frames.{
  wrapper_of, cbw_bytes-to_bytes, read_10_bytes,
}
use masters_sibren_wieme.Guest.ReadAndHash.Usb.Reads.{IsAt}
use masters_sibren_wieme.Guest.ReadAndHash.Slice.{IoSlice, new, read, reads, seek, target}
use masters_sibren_wieme.Guest.ReadAndHash.Slice.Window.{sum}
use masters_sibren_wieme.Guest.ReadAndHash.Slice.Seeking.{
  read_of, seek_of, calls, Within, calls-Within, seek-end_of,
}
use masters_sibren_wieme.Guest.ReadAndHash.Partition.{partition_slice, partition_slice-reads}
use masters_sibren_wieme.Guest.ReadAndHash.Hashing.{
  Hasher, FileHandle, IsFile, IsStreaming, read_file, read_file-hashed,
}
use masters_sibren_wieme.Guest.ReadAndHash.Listing.{
  Item, file, directory, entry_of, list_directory, IsOrdered, list_directory-sorted,
}
use masters_sibren_wieme.Host.Errors.{LibusbError}
use masters_sibren_wieme.Guest.ReadAndHash.Samples.{
  Bus, idle, drive, block_bytes, IsIdle, drive-IsDrive,
}

abbrev usb : UsbMassStorage Bus
usb = record {
  host = record { phase = idle; payload = [] };
  in_endpoint = 0x81;
  out_endpoint = 2;
  block_size = 512;
  seek_position = 77;
  capacity = record { size = 4096; block_length = 512 };
  tag = 3;
}

usb-IsAt : IsAt drive bytes_crate bytes_crate-IsDocumented block_bytes 8 IsIdle drive-IsDrive 77 usb
usb-IsAt = record {
  ready = refl;
  inward_endpoint = refl;
  outward_endpoint = refl;
  blocks = refl;
  inside = omega arith;
  here = refl;
}

partition_slice-reads_example :
    (slice : IoSlice (UsbMassStorage Bus)) × (slice' : IoSlice (UsbMassStorage Bus))
    × (partition_slice 2 3 usb ≡ some slice)
    × (reads (disk drive bytes_crate) (100 ∷ 2000 ∷ 5 ∷ []) slice
        ≡ returned
            (bytes_at block_bytes (2 * 512) (min (sum (100 ∷ 2000 ∷ 5 ∷ [])) (3 * 512)))
            slice')
partition_slice-reads_example =
    partition_slice-reads drive bytes_crate bytes_crate-IsDocumented block_bytes 8 IsIdle
      drive-IsDrive (omega arith) 2 3 77 (100 ∷ 2000 ∷ 5 ∷ []) usb usb-IsAt (omega arith)
      (omega arith) (omega arith)

-- The bytes that are left of a list, of which a read takes as many as fit.
abbrev listed : ReadSeek (List ℕ)
listed = record { read = λ n xs. returned (take n xs) (drop n xs); seek = λ to xs. returned 0 xs }

abbrev window : IoSlice (List ℕ)
window = record { inner = 1 ∷ 2 ∷ 3 ∷ []; start = 4; end = 9; position = 4 }

seek-end_of_example : seek listed (end_of (negsuc 1)) window ≡ failed invalid_input window
seek-end_of_example = seek-end_of listed (negsuc 1) window (λ e. cc) (omega arith) (omega arith)

cbw_bytes-to_bytes_example :
    (to_bytes bytes_crate (wrapper_of 7 512 inward (read_10_bytes 5 1))
      ≡ some (cbw_bytes bytes_crate 7 512 (direction_byte inward) (read_10_bytes 5 1)))
    × ((address blocks : ℕ)
        → read_10_block bytes_crate address blocks ≡ block_command bytes_crate 0x28 address blocks)
cbw_bytes-to_bytes_example =
    cbw_bytes-to_bytes bytes_crate bytes_crate-IsDocumented 7 512 inward (read_10_bytes 5 1)
      (omega arith) (omega arith)

abbrev after_calls : IoSlice (List ℕ)
after_calls = record { inner = 3 ∷ []; start = 4; end = 9; position = 8 }

window_new : new (1 ∷ 2 ∷ 3 ∷ []) 4 9 ≡ some window
unfolding new
window_new = refl

window_calls :
    calls listed (seek_of (start_of 2) ∷ read_of 2 ∷ seek_of (end_of (negsuc 0)) ∷ []) window
    ≡ some after_calls
unfolding read seek target
window_calls = refl

listed-IsBounded : (n : ℕ) (xs : List ℕ) → length (take n xs) ≤ n
listed-IsBounded n xs = omega (arith, length-take n xs)

calls-Within_example : Within 4 9 after_calls
calls-Within_example =
    calls-Within listed 4 9 (omega arith) listed-IsBounded (1 ∷ 2 ∷ 3 ∷ [])
      (seek_of (start_of 2) ∷ read_of 2 ∷ seek_of (end_of (negsuc 0)) ∷ []) window after_calls
      window_new window_calls

-- A host that answers its awaits from a list.
abbrev next : List (List ℕ) → Outcome LibusbError (List (List ℕ)) (List ℕ)
next [] = returned [] []
next (answer ∷ answers) = returned answer answers

abbrev scripted : Handle (List (List ℕ))
scripted = record {
  set_configuration = λ c s. returned tt s;
  claim_interface = λ i s. returned tt s;
  new_transfer = λ type setup size opts s. returned 0 s;
  submit_transfer = λ x payload s. returned tt s;
  await_transfer = λ x s. next s;
}

-- A file that is read in pieces of two bytes at most.
abbrev in_pieces : FileHandle (List ℕ)
in_pieces = record { read = λ n f. some (take (min n 2) f, drop (min n 2) f) }

-- A hasher that keeps all its bytes.
abbrev keeper : Hasher (List ℕ)
keeper = record { new = []; update = λ xs h. h ++ xs; finalize = λ h. h }

in_pieces-IsFile : IsFile in_pieces keeper (λ f. f)
in_pieces-IsFile = record {
  reads = λ n f.
      let size_of = length-take (min n 2) f in
      (
        take (min n 2) f,
        drop (min n 2) f,
        refl,
        sym (take-append-drop (min n 2) f),
        omega (arith, size_of),
        λ h k. omega (arith, size_of),
      );
}

keeper-IsStreaming : IsStreaming in_pieces keeper
keeper-IsStreaming = record {
  update-nil = λ h. append-nil h;
  update-append = λ xs ys h. sym (append_assoc h xs ys);
}

abbrev five : List ℕ
five = 10 ∷ 20 ∷ 30 ∷ 40 ∷ 50 ∷ []

read_file-hashed_example :
    (read_file in_pieces keeper 6 (65 ∷ []) 5 (some (some five)) ≡ some (65 ∷ [], five))
    × (5 < 2 ^ 32 → take (5 % 2 ^ 32) five ≡ five)
    × (2 ^ 32 ≤ 5 → length (take (5 % 2 ^ 32) five) < 5)
read_file-hashed_example =
    read_file-hashed in_pieces keeper (λ f. f) in_pieces-IsFile keeper-IsStreaming 6 (65 ∷ []) 5
      five (omega arith) refl (omega arith)

abbrev mixed : List Item
mixed = file (98 ∷ []) 7 ∷ directory (99 ∷ []) ∷ file (97 ∷ []) 3 ∷ []

list_directory-sorted_example :
    Perm (list_directory mixed) (map entry_of mixed) × IsOrdered (list_directory mixed)
list_directory-sorted_example = list_directory-sorted mixed
