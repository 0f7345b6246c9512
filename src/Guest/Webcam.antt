-- ===== src/Guest/Webcam.antt =====
-- usb-wasi-guest/examples/webcam/src/webcam.rs: the choice of the camera and of its endpoint, and the
-- capture of frames from isochronous packets.
pub mod Jpeg
pub mod Reassembly
pub mod Endpoints
pub mod Negotiation
mod Tests
use masters_sibren_wieme.Prelude.{
  ℕ, zero, suc, ◌+◌, ◌-◌, ◌*◌, ◌%◌, Bool, true, false, not, ◌&&◌, ◌||◌, Option, none, some, List,
  [], ◌∷◌, ◌++◌, ◌==◌, ltb, leb, if◌then◌else◌, length, get_elem?, get_or, take, drop, has_bit,
  low_bits, shr, min,
}
use masters_sibren_wieme.Host.Transfer.{TransferType, isochronous, TransferSetup, TransferOptions}
use masters_sibren_wieme.Host.Backend.{DeviceDescriptor}
use masters_sibren_wieme.Host.Backend.Descriptors.{EndpointDescriptor, InterfaceDescriptor}
use masters_sibren_wieme.Guest.Webcam.Jpeg.{RawFrame, is_complete_jpeg, guess_resolution}

-- What may be a camera by its class.
abbrev pub is_uvc : DeviceDescriptor → Bool
is_uvc desc = desc.device_class == 0x0E || desc.device_class == 0xEF || desc.device_class == 0x00

abbrev pub is_brio : DeviceDescriptor → Bool
is_brio desc = desc.vendor_id == 0x046d && desc.product_id == 0x094c

unfoldable pub filter_uvc : List DeviceDescriptor → List DeviceDescriptor
filter_uvc [] = []
filter_uvc (desc ∷ rest) = if is_uvc desc then desc ∷ filter_uvc rest else filter_uvc rest

unfoldable pub find_brio : List DeviceDescriptor → Option DeviceDescriptor
find_brio [] = none
find_brio (desc ∷ rest) = if is_brio desc then some desc else find_brio rest

abbrev pub or_else : Option DeviceDescriptor → Option DeviceDescriptor → Option DeviceDescriptor
or_else none other = other
or_else (some desc) other = some desc

-- The camera that is opened: the first Brio, else the one at the index.
unfoldable pub select_camera : List DeviceDescriptor → ℕ → Option DeviceDescriptor
select_camera all_devices index =
    or_else (find_brio (filter_uvc all_devices)) (get_elem? (filter_uvc all_devices) index)

-- `best`: interface, alternate setting, endpoint and bytes for each packet.
pub record Candidate : Type 0 where
  pub interface_number : ℕ
  pub alternate_setting : ℕ
  pub endpoint_address : ℕ
  pub effective : ℕ

abbrev pub effective_size : EndpointDescriptor → ℕ
effective_size ep = low_bits ep.max_packet_size 11 * (1 + low_bits (shr ep.max_packet_size 11) 2)

abbrev pub is_iso_in : EndpointDescriptor → Bool
is_iso_in ep = has_bit 7 ep.endpoint_address && low_bits ep.attributes 2 == 1

abbrev pub candidate : InterfaceDescriptor → EndpointDescriptor → Candidate
candidate iface ep = record {
  interface_number = iface.interface_number;
  alternate_setting = iface.alternate_setting;
  endpoint_address = ep.endpoint_address;
  effective = effective_size ep;
}

-- `best.map_or(true, |(_, _, _, s)| effective > s)`
abbrev pub is_better : Option Candidate → ℕ → Bool
is_better none effective = true
is_better (some c) effective = ltb c.effective effective

unfoldable pub best_endpoint :
    InterfaceDescriptor → List EndpointDescriptor → Option Candidate → Option Candidate
best_endpoint iface [] best = best
best_endpoint iface (ep ∷ eps) best =
    if is_iso_in ep && is_better best (effective_size ep)
    then best_endpoint iface eps (some (candidate iface ep))
    else best_endpoint iface eps best

abbrev pub is_streaming : InterfaceDescriptor → Bool
is_streaming iface = iface.interface_class == 0x0E && iface.interface_subclass == 0x02

unfoldable pub best_candidate : List InterfaceDescriptor → Option Candidate → Option Candidate
best_candidate [] best = best
best_candidate (iface ∷ ifaces) best =
    if is_streaming iface
    then best_candidate ifaces (best_endpoint iface iface.endpoints best)
    else best_candidate ifaces best

pub record ReassemblyState : Type 0 where
  pub frame_buffer : List ℕ
  pub last_fid : ℕ
  pub frame_started : Bool

abbrev pub is_empty : List ℕ → Bool
is_empty [] = true
is_empty (_ ∷ _) = false

-- The branch without a toggle of the FID: what is appended, and the frame when it ends here.
unfoldable pub continue_frame :
    List ℕ → ℕ → Bool → ReassemblyState → Option (List ℕ) × ReassemblyState
continue_frame payload fid is_eof st =
    let started = st.frame_started || not (is_empty payload) in
    let buffer = if started then st.frame_buffer ++ payload else st.frame_buffer in
    if started && is_eof && not (is_empty buffer)
    then (some buffer, record { frame_buffer = []; last_fid = fid; frame_started = false })
    else (none, record { frame_buffer = buffer; last_fid = fid; frame_started = started })

-- What one payload does, with the frame that it completes.
unfoldable pub feed : List ℕ → ℕ → Bool → ReassemblyState → Option (List ℕ) × ReassemblyState
feed payload fid is_eof st =
    if not (is_empty st.frame_buffer) && not (fid == st.last_fid)
    then (
      some st.frame_buffer,
      record { frame_buffer = payload; last_fid = fid; frame_started = true },
    )
    else continue_frame payload fid is_eof st

-- `&pkt_data[hdr_len..]`, which panics when the header is longer than the packet.
unfoldable pub payload_of : ℕ → List ℕ → Option (List ℕ)
payload_of hdr_len pkt_data =
    if leb hdr_len (length pkt_data) then some (drop hdr_len pkt_data) else none

abbrev pub feed_slice :
    Option (List ℕ) → ℕ → Bool → ReassemblyState → Option (Option (List ℕ) × ReassemblyState)
feed_slice none fid is_eof st = none
feed_slice (some payload) fid is_eof st = some (feed payload fid is_eof st)

-- The header of a packet, and its payload; `none` is a panic.
unfoldable pub feed_packet : List ℕ → ReassemblyState → Option (Option (List ℕ) × ReassemblyState)
feed_packet (hdr_len ∷ hdr_flags ∷ rest) st =
    if ltb hdr_len 2 || ltb (length (hdr_len ∷ hdr_flags ∷ rest)) hdr_len
    then some (none, st)
    else feed_slice (payload_of hdr_len (hdr_len ∷ hdr_flags ∷ rest)) (low_bits hdr_flags 1)
        (has_bit 1 hdr_flags) st
feed_packet _ st = some (none, st)

-- `&result.data[offset..end]`, which panics when the end stands before the offset.
unfoldable pub packet_data : ℕ → List ℕ → ℕ → ℕ → Option (List ℕ)
packet_data stride bytes offset actual_len =
    let end = min (offset + min actual_len stride) (length bytes) in
    if leb offset end then some (take (end - offset) (drop offset bytes)) else none

-- What the packets of one transfer lead to.
pub data Scan : Type 0 where
  panicked : Scan
  captured : RawFrame → ReassemblyState → Scan
  scanned : ReassemblyState → Scan

abbrev pub raw_frame : ℕ → List ℕ → RawFrame
raw_frame frame_size complete =
    let size = guess_resolution (length complete) frame_size in
    record { bytes = complete; width = size.0; height = size.1 }

-- A completed frame is returned if it is a JPEG, and else dropped.
abbrev pub judge_frame : ℕ → Option (List ℕ) × ReassemblyState → (ReassemblyState → Scan) → Scan
judge_frame frame_size (none, st) continue = continue st
judge_frame frame_size (some complete, st) continue =
    if is_complete_jpeg complete then captured (raw_frame frame_size complete) st else continue st

abbrev pub judge_fed :
    ℕ → Option (Option (List ℕ) × ReassemblyState) → (ReassemblyState → Scan) → Scan
judge_fed frame_size none continue = panicked
judge_fed frame_size (some r) continue = judge_frame frame_size r continue

abbrev pub scan_slice : ℕ → Option (List ℕ) → ReassemblyState → (ReassemblyState → Scan) → Scan
scan_slice frame_size none st continue = panicked
scan_slice frame_size (some pkt_data) st continue =
    judge_fed frame_size (feed_packet pkt_data st) continue

-- `for packet in result.packets`, over the packets' actual lengths.
unfoldable pub scan_packets : ℕ → ℕ → List ℕ → List ℕ → ℕ → ReassemblyState → Scan
scan_packets stride frame_size bytes [] offset st = scanned st
scan_packets stride frame_size bytes (actual_len ∷ packets) offset st =
    let rest = scan_packets stride frame_size bytes packets (offset + stride) in
    if actual_len == 0
    then rest st
    else scan_slice frame_size (packet_data stride bytes offset actual_len) st rest

-- `WebcamFrameStream` without its handle and its reassembly state.
pub record Stream : Type 0 where
  pub ep_addr : ℕ
  pub packet_stride : ℕ
  pub num_packets : ℕ
  pub actual_frame_size : ℕ

-- The host as the stream calls it: `new_transfer`, `submit_transfer` and `await_transfer`, in this
-- order, give an error or the bytes and the actual lengths of the packets.
pub record IsoHost (S : Type 0) : Type 0 where
  pub transfer :
      TransferType → TransferSetup → ℕ → TransferOptions → List ℕ → S → Option (List ℕ × List ℕ) × S

pub data Capture : Type 0 where
  frame : RawFrame → Capture
  error timed_out panic : Capture

module _ {S : Type 0} (host : IsoHost S) (stream : Stream) where
  abbrev pub next_transfer : S → Option (List ℕ × List ℕ) × S
  next_transfer s =
      host.transfer isochronous
        (record { bm_request_type = 0; b_request = 0; w_value = 0; w_index = 0 })
        (stream.num_packets * stream.packet_stride)
        (record {
          endpoint = stream.ep_addr;
          timeout_ms = 2000;
          stream_id = 0;
          iso_packets = stream.num_packets;
        })
        [] s

  abbrev pub after_scan :
      (ReassemblyState → S → Capture × ReassemblyState × S)
      → ReassemblyState
      → Scan
      → S
      → Capture × ReassemblyState × S
  after_scan again st panicked s = (panic, st, s)
  after_scan again st (captured f st') s = (frame f, st', s)
  after_scan again st (scanned st') s = again st' s

  abbrev pub after_transfer :
      (ReassemblyState → S → Capture × ReassemblyState × S)
      → ReassemblyState
      → Option (List ℕ × List ℕ) × S
      → Capture × ReassemblyState × S
  after_transfer again st (none, s) = (error, st, s)
  after_transfer again st (some result, s) =
      after_scan again st
        (scan_packets stream.packet_stride stream.actual_frame_size result.0 result.1 0 st) s

  -- The loop of `capture_uvc_frame`, by the number of attempts that are left.
  unfoldable pub attempts : ℕ → ReassemblyState → S → Capture × ReassemblyState × S
  attempts zero st s = (timed_out, st, s)
  attempts (suc n) st s = after_transfer (attempts n) st (next_transfer s)

  unfoldable pub capture_uvc_frame : ReassemblyState → S → Capture × ReassemblyState × S
  capture_uvc_frame st s = attempts 2000 st s
