-- ===== src/Guest/Webcam/Jpeg.antt =====
-- usb-wasi-guest/examples/webcam/src/webcam.rs, the functions on finished frames: the test for a
-- complete JPEG, the guess of its resolution, and the injection of the standard Huffman tables.
pub mod Markers
use masters_sibren_wieme.Prelude.{
  ℕ, ◌+◌, ◌-◌, ◌*◌, Bool, true, false, ◌&&◌, Option, none, some, suc, List, [], ◌∷◌, ◌++◌, ◌==◌,
  leb, if◌then◌else◌, length, get_or, take, drop,
}

pub record RawFrame : Type 0 where
  pub bytes : List ℕ
  pub width : ℕ
  pub height : ℕ

unfoldable pub is_complete_jpeg : List ℕ → Bool
is_complete_jpeg bytes =
    leb 4 (length bytes)
    && get_or bytes 0 0 == 0xFF
    && get_or bytes 1 0 == 0xD8
    && get_or bytes (length bytes - 2) 0 == 0xFF
    && get_or bytes (length bytes - 1) 0 == 0xD9

abbrev pub known : List (ℕ × ℕ)
known =
    (1920, 1080)
    ∷ (1280, 720)
    ∷ (640, 480)
    ∷ (352, 288)
    ∷ (320, 240)
    ∷ (320, 180)
    ∷ (320, 120)
    ∷ (176, 144)
    ∷ (160, 144)
    ∷ (160, 120)
    ∷ (160, 90)
    ∷ []

-- `usize::abs_diff`; one of the two differences is 0.
abbrev pub abs_diff : ℕ → ℕ → ℕ
abs_diff a b = (a - b) + (b - a)

unfoldable pub guess_from : List (ℕ × ℕ) → ℕ → ℕ × ℕ
guess_from [] frame_size = (640, 480)
guess_from ((w, h) ∷ rest) frame_size =
    if leb (abs_diff frame_size (w * h * 2) * 20) (w * h * 2)
    then (w, h)
    else guess_from rest frame_size

unfoldable pub guess_resolution : ℕ → ℕ → ℕ × ℕ
guess_resolution frame_size negotiated = guess_from known frame_size

abbrev pub shift : Option ℕ → Option ℕ
shift none = none
shift (some i) = some (suc i)

-- `data.windows(2).position(|w| w == [a, b])`
unfoldable pub position : ℕ → ℕ → List ℕ → Option ℕ
position a b [] = none
position a b (x ∷ []) = none
position a b (x ∷ y ∷ rest) =
    let later = position a b (y ∷ rest) in if x == a && y == b then some 0 else shift later

abbrev pub dht_dc_luma : List ℕ
dht_dc_luma =
    0xFF ∷ 0xC4 ∷ 0x00 ∷ 0x1F ∷ 0x00 ∷ 0x00 ∷ 0x01 ∷ 0x05 ∷ 0x01 ∷ 0x01 ∷ 0x01 ∷ 0x01 ∷ 0x01 ∷ 0x01
    ∷ 0x00 ∷ 0x00 ∷ 0x00 ∷ 0x00 ∷ 0x00 ∷ 0x00 ∷ 0x00 ∷ 0x00 ∷ 0x01 ∷ 0x02 ∷ 0x03 ∷ 0x04 ∷ 0x05
    ∷ 0x06 ∷ 0x07 ∷ 0x08 ∷ 0x09 ∷ 0x0A ∷ 0x0B ∷ []

abbrev pub dht_dc_chroma : List ℕ
dht_dc_chroma =
    0xFF ∷ 0xC4 ∷ 0x00 ∷ 0x1F ∷ 0x01 ∷ 0x00 ∷ 0x03 ∷ 0x01 ∷ 0x01 ∷ 0x01 ∷ 0x01 ∷ 0x01 ∷ 0x01 ∷ 0x01
    ∷ 0x01 ∷ 0x01 ∷ 0x00 ∷ 0x00 ∷ 0x00 ∷ 0x00 ∷ 0x00 ∷ 0x00 ∷ 0x01 ∷ 0x02 ∷ 0x03 ∷ 0x04 ∷ 0x05
    ∷ 0x06 ∷ 0x07 ∷ 0x08 ∷ 0x09 ∷ 0x0A ∷ 0x0B ∷ []

abbrev pub dht_ac_luma : List ℕ
dht_ac_luma =
    0xFF ∷ 0xC4 ∷ 0x00 ∷ 0xB5 ∷ 0x10 ∷ 0x00 ∷ 0x02 ∷ 0x01 ∷ 0x03 ∷ 0x03 ∷ 0x02 ∷ 0x04 ∷ 0x03 ∷ 0x05
    ∷ 0x05 ∷ 0x04 ∷ 0x04 ∷ 0x00 ∷ 0x00 ∷ 0x01 ∷ 0x7D ∷ 0x01 ∷ 0x02 ∷ 0x03 ∷ 0x00 ∷ 0x04 ∷ 0x11
    ∷ 0x05 ∷ 0x12 ∷ 0x21 ∷ 0x31 ∷ 0x41 ∷ 0x06 ∷ 0x13 ∷ 0x51 ∷ 0x61 ∷ 0x07 ∷ 0x22 ∷ 0x71 ∷ 0x14
    ∷ 0x32 ∷ 0x81 ∷ 0x91 ∷ 0xA1 ∷ 0x08 ∷ 0x23 ∷ 0x42 ∷ 0xB1 ∷ 0xC1 ∷ 0x15 ∷ 0x52 ∷ 0xD1 ∷ 0xF0
    ∷ 0x24 ∷ 0x33 ∷ 0x62 ∷ 0x72 ∷ 0x82 ∷ 0x09 ∷ 0x0A ∷ 0x16 ∷ 0x17 ∷ 0x18 ∷ 0x19 ∷ 0x1A ∷ 0x25
    ∷ 0x26 ∷ 0x27 ∷ 0x28 ∷ 0x29 ∷ 0x2A ∷ 0x34 ∷ 0x35 ∷ 0x36 ∷ 0x37 ∷ 0x38 ∷ 0x39 ∷ 0x3A ∷ 0x43
    ∷ 0x44 ∷ 0x45 ∷ 0x46 ∷ 0x47 ∷ 0x48 ∷ 0x49 ∷ 0x4A ∷ 0x53 ∷ 0x54 ∷ 0x55 ∷ 0x56 ∷ 0x57 ∷ 0x58
    ∷ 0x59 ∷ 0x5A ∷ 0x63 ∷ 0x64 ∷ 0x65 ∷ 0x66 ∷ 0x67 ∷ 0x68 ∷ 0x69 ∷ 0x6A ∷ 0x73 ∷ 0x74 ∷ 0x75
    ∷ 0x76 ∷ 0x77 ∷ 0x78 ∷ 0x79 ∷ 0x7A ∷ 0x83 ∷ 0x84 ∷ 0x85 ∷ 0x86 ∷ 0x87 ∷ 0x88 ∷ 0x89 ∷ 0x8A
    ∷ 0x92 ∷ 0x93 ∷ 0x94 ∷ 0x95 ∷ 0x96 ∷ 0x97 ∷ 0x98 ∷ 0x99 ∷ 0x9A ∷ 0xA2 ∷ 0xA3 ∷ 0xA4 ∷ 0xA5
    ∷ 0xA6 ∷ 0xA7 ∷ 0xA8 ∷ 0xA9 ∷ 0xAA ∷ 0xB2 ∷ 0xB3 ∷ 0xB4 ∷ 0xB5 ∷ 0xB6 ∷ 0xB7 ∷ 0xB8 ∷ 0xB9
    ∷ 0xBA ∷ 0xC2 ∷ 0xC3 ∷ 0xC4 ∷ 0xC5 ∷ 0xC6 ∷ 0xC7 ∷ 0xC8 ∷ 0xC9 ∷ 0xCA ∷ 0xD2 ∷ 0xD3 ∷ 0xD4
    ∷ 0xD5 ∷ 0xD6 ∷ 0xD7 ∷ 0xD8 ∷ 0xD9 ∷ 0xDA ∷ 0xE1 ∷ 0xE2 ∷ 0xE3 ∷ 0xE4 ∷ 0xE5 ∷ 0xE6 ∷ 0xE7
    ∷ 0xE8 ∷ 0xE9 ∷ 0xEA ∷ 0xF1 ∷ 0xF2 ∷ 0xF3 ∷ 0xF4 ∷ 0xF5 ∷ 0xF6 ∷ 0xF7 ∷ 0xF8 ∷ 0xF9 ∷ 0xFA ∷ []

abbrev pub dht_ac_chroma : List ℕ
dht_ac_chroma =
    0xFF ∷ 0xC4 ∷ 0x00 ∷ 0xB5 ∷ 0x11 ∷ 0x00 ∷ 0x02 ∷ 0x01 ∷ 0x02 ∷ 0x04 ∷ 0x04 ∷ 0x03 ∷ 0x04 ∷ 0x07
    ∷ 0x05 ∷ 0x04 ∷ 0x04 ∷ 0x00 ∷ 0x01 ∷ 0x02 ∷ 0x77 ∷ 0x00 ∷ 0x01 ∷ 0x02 ∷ 0x03 ∷ 0x11 ∷ 0x04
    ∷ 0x05 ∷ 0x21 ∷ 0x31 ∷ 0x06 ∷ 0x12 ∷ 0x41 ∷ 0x51 ∷ 0x07 ∷ 0x61 ∷ 0x71 ∷ 0x13 ∷ 0x22 ∷ 0x32
    ∷ 0x81 ∷ 0x08 ∷ 0x14 ∷ 0x42 ∷ 0x91 ∷ 0xA1 ∷ 0xB1 ∷ 0xC1 ∷ 0x09 ∷ 0x23 ∷ 0x33 ∷ 0x52 ∷ 0xF0
    ∷ 0x15 ∷ 0x62 ∷ 0x72 ∷ 0xD1 ∷ 0x0A ∷ 0x16 ∷ 0x24 ∷ 0x34 ∷ 0xE1 ∷ 0x25 ∷ 0xF1 ∷ 0x17 ∷ 0x18
    ∷ 0x19 ∷ 0x1A ∷ 0x26 ∷ 0x27 ∷ 0x28 ∷ 0x29 ∷ 0x2A ∷ 0x35 ∷ 0x36 ∷ 0x37 ∷ 0x38 ∷ 0x39 ∷ 0x3A
    ∷ 0x43 ∷ 0x44 ∷ 0x45 ∷ 0x46 ∷ 0x47 ∷ 0x48 ∷ 0x49 ∷ 0x4A ∷ 0x53 ∷ 0x54 ∷ 0x55 ∷ 0x56 ∷ 0x57
    ∷ 0x58 ∷ 0x59 ∷ 0x5A ∷ 0x63 ∷ 0x64 ∷ 0x65 ∷ 0x66 ∷ 0x67 ∷ 0x68 ∷ 0x69 ∷ 0x6A ∷ 0x73 ∷ 0x74
    ∷ 0x75 ∷ 0x76 ∷ 0x77 ∷ 0x78 ∷ 0x79 ∷ 0x7A ∷ 0x82 ∷ 0x83 ∷ 0x84 ∷ 0x85 ∷ 0x86 ∷ 0x87 ∷ 0x88
    ∷ 0x89 ∷ 0x8A ∷ 0x92 ∷ 0x93 ∷ 0x94 ∷ 0x95 ∷ 0x96 ∷ 0x97 ∷ 0x98 ∷ 0x99 ∷ 0x9A ∷ 0xA2 ∷ 0xA3
    ∷ 0xA4 ∷ 0xA5 ∷ 0xA6 ∷ 0xA7 ∷ 0xA8 ∷ 0xA9 ∷ 0xAA ∷ 0xB2 ∷ 0xB3 ∷ 0xB4 ∷ 0xB5 ∷ 0xB6 ∷ 0xB7
    ∷ 0xB8 ∷ 0xB9 ∷ 0xBA ∷ 0xC2 ∷ 0xC3 ∷ 0xC4 ∷ 0xC5 ∷ 0xC6 ∷ 0xC7 ∷ 0xC8 ∷ 0xC9 ∷ 0xCA ∷ 0xD2
    ∷ 0xD3 ∷ 0xD4 ∷ 0xD5 ∷ 0xD6 ∷ 0xD7 ∷ 0xD8 ∷ 0xD9 ∷ 0xDA ∷ 0xE2 ∷ 0xE3 ∷ 0xE4 ∷ 0xE5 ∷ 0xE6
    ∷ 0xE7 ∷ 0xE8 ∷ 0xE9 ∷ 0xEA ∷ 0xF2 ∷ 0xF3 ∷ 0xF4 ∷ 0xF5 ∷ 0xF6 ∷ 0xF7 ∷ 0xF8 ∷ 0xF9 ∷ 0xFA ∷ []

abbrev pub is_some : Option ℕ → Bool
is_some none = false
is_some (some _) = true

abbrev pub inject_at : List ℕ → Option ℕ → List ℕ
inject_at bytes none = bytes
inject_at bytes (some sos) =
    take sos bytes
    ++ (dht_dc_luma ++ (dht_dc_chroma ++ (dht_ac_luma ++ (dht_ac_chroma ++ drop sos bytes))))

unfoldable pub inject_standard_dht : List ℕ → List ℕ
inject_standard_dht bytes =
    if is_some (position 0xFF 0xC4 bytes) then bytes else inject_at bytes (position 0xFF 0xDA bytes)
