-- ===== src/Lib.antt =====
-- WASI-USB: a host runtime that gives WebAssembly guests access to USB devices through the WIT
-- interface of wit/, and the guests that drive devices with it. A guest opens a device, makes
-- transfers, submits them and awaits them; the host passes them on to libusb, whose callback
-- completes them on another thread.
--
-- The files and the code they are about:
--
-- Host.Errors: usb-wasi-host/src/main.rs, LibusbError::from_raw and UsbSpeed::from_raw.
-- Host.Policy: usb-wasi-host/src/main.rs, USBDeviceIdentifier::from_str and
--   AllowedUSBDevices::is_allowed, and the choice between the two lists in main.
-- Host.Transfer: usb-wasi-host/src/main.rs. A Transfer is all that the host keeps for one transfer
--   resource: the UsbTransfer, the libusb_transfer, the buffer, the TransferContext and the cells they
--   share. Create is new_transfer, Completion is transfer_callback, Calls is submit_transfer,
--   await_transfer, cancel_transfer and drop. Life states them as a machine of few states, and runs
--   of them; Life.Races splits drop and cancel where another thread may step in.
-- Host.Backend: usb-wasi-host/src/usb_backend.rs. LibusbBackend with the queue of hotplug events;
--   Devices is about list_devices, Hotplug about hotplug_cb, enable_hotplug and poll_events, Handles
--   models the calls on an open device, and Descriptors generate_config_descriptor.
-- Host.Runtime: usb-wasi-host/src/main.rs, MyState with wasmtime's resource table, and the calls of a
--   guest on devices, open handles (OnHandles), the host and hotplug. Runs are sequences of them, with
--   the callbacks of libusb between them; Confined, Kept and Confinement are about what the policy
--   demands of each state, and Lifecycle about open and the two drops.
-- Guest.BulkOnly: usb-wasi-guest/examples/mass-storage/src/bulk_only/wasm.rs. The Bulk Only Transport
--   of USB mass storage: Frames is about its two frames, Commands about command_in, command_out,
--   get_tag and select_lun, and Discovery about the endpoints that new picks. Native is the variant in
--   native.rs beside it, over the crate rusb: Native.Endpoints compares what the two pick, and
--   Native.Answers is about answers that are too short.
-- Guest.MassStorage: usb-wasi-guest/examples/mass-storage/src/mass_storage.rs. Scsi models the SCSI
--   commands on Guest.BulkOnly, and Blocks is about READ(10) and WRITE(10); MassStorageDevice itself,
--   with seek, read, write and flush_cache, stands on any two calls that read and write blocks
--   (BlockIo) and on the crate uluru (LruCache). Reading is about reads against a disk of blocks
--   (Reading.Disk), Writing about writes within a block and the flush after them; Drive shows that the
--   SCSI commands are such a disk on a drive that answers them, and says what both mean there.
-- Guest.ReadAndHash: usb-wasi-guest/examples/read_and_hash.rs. Usb is the disk, UsbMassStorage, with its
--   frames (Usb.Frames) and reads against a drive (Usb.Reads); Slice is IoSlice, on anything with Read and
--   Seek, which Slice.Window states as laws that Partition fills with the disk; Hashing is the loop over a
--   file, and Listing the sorted listing of a directory.
-- Guest.Lsusb: usb-wasi-guest/examples/lsusb.rs, what it reads from the bytes of descriptors: Fields is about
--   a device descriptor, Blocks about the listing of a configuration.
-- Guest.Maze: usb-wasi-guest/examples/ps5-maze/src/lib.rs. The game; Controller has
--   the reports of a controller, Board the maze, and Walls and Play are about the rounds of the game.
-- Guest.Webcam: usb-wasi-guest/examples/webcam/src/webcam.rs. Endpoints is about the choice of the
--   endpoint, Negotiation models the handshake of open_uvc_stream (Negotiation.Camera: with a camera), Reassembly is about
--   capture_uvc_frame, and Jpeg models the functions on finished frames.
-- Bench.Csv: benchmarks/usb-bench-rs/src/csv.rs, the rows and dates of the measurements' log. Reader is
--   an independent reader of comma separated values, RoundTrip and Dates are about the log and dates.
-- Bench.Scsi: benchmarks/usb-bench-rs/src/mass_storage.rs, SCSI over any transport.
-- Bench.Bulk: benchmarks/usb-bench-rs/src/bin/w_bulk.rs, its measurements of block transfers, which end in
--   rows of Bench.Csv.
-- Prelude: Boolean tests, lists, machine words and signed integers for all of them.
--
-- How the code is read. Numbers are natural numbers, and the width of a machine word is written out
-- where the code can pass it; signed numbers are the type ℤ of Prelude.Int. Arithmetic wraps as in a
-- release build. A panic, the use of freed memory and an await that has not returned are values of
-- the type Outcome in the host; in the guests a panic is none, or a constructor of its own. libusb,
-- the crate bytes and, for the guests, the host are records of functions, and a property that needs
-- their behaviour has it as a hypothesis. A host call on a transfer is one step, except in Life.Races.
-- Buffers are taken to be shorter than 2^31 where a property says so, since libusb counts their bytes
-- in an i32; and a delivery is taken to fit into the buffer that libusb was given.
--
-- Fuel: the attempts of capture_uvc_frame are the 2000 of the code; cache_chunks is given the length of
-- its data, and digits the number itself plus one, which are more than their rounds.
-- hash_loop and the loop of lsusb take their fuel as an argument, and the property of each says how much
-- is enough.
--
-- Not modelled: the command line, log lines and call tracing, the body of libusb's event thread, the
-- printing of the disk's statistics, the programs on top of the
-- disk, the display of the game and its Xbox variant, the other drivers of the benchmarks, and generated code.
pub mod Prelude
pub mod Bench
pub mod Guest
pub mod Host
