-- ===== src/Guest/Lsusb/Fields.antt =====
-- The fields of a device descriptor, against its layout.
use masters_sibren_wieme.Prelude.{ℕ, ◌≡◌, ◌+◌, ◌*◌, ◌/◌, ◌%◌, some, List, [], ◌∷◌, arith}
use masters_sibren_wieme.Guest.Lsusb.{DeviceFields, fields_of}

-- The 18 bytes of a device descriptor, by chapter 9 of the USB specification.
abbrev pub device_bytes : DeviceFields → List ℕ
device_bytes f =
    18
    ∷ 1
    ∷ f.usb_version % 256
    ∷ f.usb_version / 256
    ∷ f.dev_class
    ∷ f.dev_subclass
    ∷ f.dev_protocol
    ∷ f.max_packet0
    ∷ f.vid % 256
    ∷ f.vid / 256
    ∷ f.pid % 256
    ∷ f.pid / 256
    ∷ f.dev_release % 256
    ∷ f.dev_release / 256
    ∷ f.mfg_idx
    ∷ f.prod_idx
    ∷ f.serial_idx
    ∷ f.num_cfg
    ∷ []

u16_of-div : (x : ℕ) → x % 256 + 256 * (x / 256) ≡ x
u16_of-div x = omega arith

-- Every field is read back at its offset.
fields_of-device_bytes : (f : DeviceFields) → fields_of (device_bytes f) ≡ some f
unfolding fields_of
fields_of-device_bytes f =
    rw (u16_of-div f.usb_version, u16_of-div f.vid, u16_of-div f.pid, u16_of-div f.dev_release)
