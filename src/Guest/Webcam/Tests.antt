-- ===== src/Guest/Webcam/Tests.antt =====
-- A small frame in two packets, a camera with two endpoints, and the theorems on them.
use masters_sibren_wieme.Prelude.{
  ℕ, ◌≡◌, ◌≢◌, ◌+◌, true, false, none, some, List, [], ◌∷◌, ◌++◌, refl, arith, length, take, drop,
}
use masters_sibren_wieme.Host.Backend.{DeviceDescriptor}
use masters_sibren_wieme.Host.Backend.Descriptors.{EndpointDescriptor, InterfaceDescriptor}
use masters_sibren_wieme.Guest.Webcam.{
  Candidate, Stream, IsoHost, frame, filter_uvc, find_brio, select_camera, best_endpoint,
  best_candidate, is_empty, continue_frame, feed, feed_packet, payload_of, packet_data,
  scan_packets, attempts,
}
use masters_sibren_wieme.Guest.Webcam.Jpeg.{
  is_complete_jpeg, guess_from, guess_resolution, position, is_some, inject_standard_dht,
}
use masters_sibren_wieme.Guest.Webcam.Jpeg.Markers.{tables, inject_standard_dht-tables}
use masters_sibren_wieme.Guest.Webcam.Reassembly.{
  concat, feed_many, state, between, is_panic, feed_many-frame, scan_packets-is_panic,
}
use masters_sibren_wieme.Host.Transfer.{control}
use masters_sibren_wieme.Guest.Webcam.Negotiation.{
  open_stream, recorder, until_commit, created, submitted, alternate, setup_of, ctrl,
}

program : Unit {0}
unfolding filter_uvc find_brio select_camera best_endpoint best_candidate continue_frame feed
    feed_packet payload_of packet_data scan_packets is_complete_jpeg guess_from guess_resolution
    position inject_standard_dht
program = tt

abbrev descriptor_of : ℕ → ℕ → ℕ → DeviceDescriptor
descriptor_of class vendor product = record {
  length = 18;
  descriptor_type = 1;
  usb_version_bcd = 0x200;
  device_class = class;
  device_subclass = 0;
  device_protocol = 0;
  max_packet_size0 = 64;
  vendor_id = vendor;
  product_id = product;
  device_version_bcd = 1;
  manufacturer_index = 0;
  product_index = 0;
  serial_number_index = 0;
  num_configurations = 1;
}

brio_preferred :
    select_camera
      (descriptor_of 9 1 1 ∷ descriptor_of 0 2 2 ∷ descriptor_of 0xEF 0x046d 0x094c ∷ [])
      0
    ≡ some (descriptor_of 0xEF 0x046d 0x094c)
unfolding program
brio_preferred = refl

abbrev endpoint_of_size : ℕ → EndpointDescriptor
endpoint_of_size size = record {
  length = 7;
  descriptor_type = 5;
  endpoint_address = 0x81;
  attributes = 5;
  max_packet_size = size;
  interval = 1;
  refresh = 0;
  synch_address = 0;
}

abbrev setting : ℕ → ℕ → InterfaceDescriptor
setting n size = record {
  length = 9;
  descriptor_type = 4;
  interface_number = 1;
  alternate_setting = n;
  interface_class = 0x0E;
  interface_subclass = 2;
  interface_protocol = 0;
  interface_index = 0;
  endpoints = endpoint_of_size size ∷ [];
}

-- 0x1400 is three times 1024 bytes in a packet.
abbrev settings : List InterfaceDescriptor
settings = setting 1 0x0400 ∷ setting 2 0x1400 ∷ setting 3 0x0200 ∷ []

feed_many-frame_example :
    (is_empty (concat ((0xFF ∷ 0xD8 ∷ []) ∷ (1 ∷ []) ∷ []) ++ (0xFF ∷ 0xD9 ∷ [])) ≡ false
      → feed
          (0xFF ∷ 0xD9 ∷ [])
          1
          true
          (feed_many 1 ((0xFF ∷ 0xD8 ∷ []) ∷ (1 ∷ []) ∷ []) (between 0))
        ≡ (some (0xFF ∷ 0xD8 ∷ 1 ∷ 0xFF ∷ 0xD9 ∷ []), between 1))
    × (is_empty (concat ((0xFF ∷ 0xD8 ∷ []) ∷ (1 ∷ []) ∷ [])) ≡ false
        → feed
            (0xFF ∷ 0xD9 ∷ [])
            0
            false
            (feed_many 1 ((0xFF ∷ 0xD8 ∷ []) ∷ (1 ∷ []) ∷ []) (between 0))
          ≡ (some (0xFF ∷ 0xD8 ∷ 1 ∷ []), state (0xFF ∷ 0xD9 ∷ []) 0 true))
feed_many-frame_example =
    feed_many-frame (0xFF ∷ 0xD8 ∷ []) ((1 ∷ []) ∷ []) (0xFF ∷ 0xD9 ∷ []) 0 1 0 false zero-ne-one
  where
    zero-ne-one : ◌≢◌ {A = ℕ} 0 1
    zero-ne-one p = absurd (omega (arith, p))

-- Two packets of a stride of 6: the start of a frame, and its end with the end-of-frame bit.
abbrev two_packets : List ℕ
two_packets = 2 ∷ 1 ∷ 0xFF ∷ 0xD8 ∷ 0 ∷ 0 ∷ 2 ∷ 3 ∷ 0xFF ∷ 0xD9 ∷ 0 ∷ 0 ∷ []

scan_packets-is_panic_example :
    is_panic (scan_packets 6 0 two_packets (4 ∷ 4 ∷ []) 0 (between 0)) ≡ false
scan_packets-is_panic_example =
    scan_packets-is_panic 6 0 two_packets (4 ∷ 4 ∷ []) 0 (between 0) (omega arith)

abbrev camera : IsoHost (List ℕ)
camera = record { transfer = λ type setup size opts payload s. (some (s, 4 ∷ 4 ∷ []), s) }

abbrev small_stream : Stream
small_stream = record { ep_addr = 0x81; packet_stride = 6; num_packets = 2; actual_frame_size = 0 }

captured_frame :
    (attempts camera small_stream 1 (between 0) two_packets).0
    ≡ frame (record { bytes = 0xFF ∷ 0xD8 ∷ 0xFF ∷ 0xD9 ∷ []; width = 640; height = 480 })
unfolding program attempts
captured_frame = refl

abbrev scan_only : List ℕ
scan_only = 0xFF ∷ 0xD8 ∷ 0xFF ∷ 0xDA ∷ 7 ∷ 0xFF ∷ 0xD9 ∷ []

inject_standard_dht-tables_example :
    (is_some (position 0xFF 0xC4 scan_only) ≡ true → inject_standard_dht scan_only ≡ scan_only)
    × (position 0xFF 0xDA scan_only ≡ none → inject_standard_dht scan_only ≡ scan_only)
    × ((sos : ℕ)
        → is_some (position 0xFF 0xC4 scan_only) ≡ false
        → position 0xFF 0xDA scan_only ≡ some sos
        → (inject_standard_dht scan_only ≡ take sos scan_only ++ (tables ++ drop sos scan_only))
          × (length (inject_standard_dht scan_only) ≡ length scan_only + 432))
    × (inject_standard_dht (inject_standard_dht scan_only) ≡ inject_standard_dht scan_only)
inject_standard_dht-tables_example = inject_standard_dht-tables scan_only

abbrev big_setting : Candidate
big_setting = record {
  interface_number = 1;
  alternate_setting = 2;
  endpoint_address = 0x81;
  effective = 3072;
}

abbrev probe_bytes : List ℕ
probe_bytes = 0 ∷ 0 ∷ 1 ∷ 3 ∷ []

abbrev agreed_bytes : List ℕ
agreed_bytes = 0 ∷ 0 ∷ 2 ∷ 1 ∷ []

-- The handshake, with and without an answer to the commit.
handshake :
    (open_stream recorder big_setting
        (some probe_bytes ∷ some [] ∷ some agreed_bytes ∷ some [] ∷ none ∷ [], [])
      ≡ (
        some (record {
          ep_addr = 0x81;
          packet_stride = 3072;
          num_packets = 32;
          actual_frame_size = 0;
        }),
        (
          [],
          until_commit big_setting probe_bytes agreed_bytes
              ++ (created control (setup_of 0x21 0x01 0x0B00 0x0200) 1
                  ∷ submitted (1 ∷ [])
                  ∷ alternate 1 2
                  ∷ []),
        ),
      ))
    × (open_stream recorder big_setting
          (some probe_bytes ∷ some [] ∷ some agreed_bytes ∷ none ∷ none ∷ [], [])
        ≡ (none, (none ∷ [], until_commit big_setting probe_bytes agreed_bytes)))
unfolding open_stream ctrl
handshake = (refl, refl)
