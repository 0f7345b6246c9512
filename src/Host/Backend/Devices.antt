-- ===== src/Host/Backend/Devices.antt =====
-- What `list_devices` returns, against the list of libusb filtered by the policy.
use masters_sibren_wieme.Prelude.{
  ℕ, ◌≡◌, refl, Bool-cases, Bool, ◌&&◌, ◌==◌, Option, none, some, List, [], ◌∷◌, ◌++◌, map, not,
  inl, inr, append_assoc, append-nil, arith, if◌then◌else◌,
}
use masters_sibren_wieme.Prelude.Int.{is_negative, negsuc}
use masters_sibren_wieme.Host.Errors.{Result, ok, err, not_found, from_raw}
use masters_sibren_wieme.Host.Policy.{AllowedUsbDevices, is_allowed}
use masters_sibren_wieme.Host.Backend.{
  Libusb, LibusbBackend, ref_device, free_device_list, DeviceEntry, listed, failed, call,
  is_skipped, list_loop, list_answered, list_with, list_devices, to_descriptor, to_location,
  device_id, DeviceList,
}

-- A device that has a descriptor that can be read, and that the policy allows.
abbrev pub is_visible : Libusb → AllowedUsbDevices → ℕ → Bool
is_visible lib policy dev =
    not (dev == 0)
    && not (is_negative (lib.get_device_descriptor dev))
    && is_allowed policy (device_id (lib.device_descriptor dev))

abbrev pub visible : Libusb → AllowedUsbDevices → List ℕ → List ℕ
visible lib policy [] = []
visible lib policy (dev ∷ rest) =
    if is_visible lib policy dev then dev ∷ visible lib policy rest else visible lib policy rest

abbrev pub entry_of : Libusb → ℕ → DeviceEntry
entry_of lib dev = (dev, to_descriptor (lib.device_descriptor dev), to_location lib dev)

is_skipped-is_visible :
    (lib : Libusb) (policy : AllowedUsbDevices) (dev : ℕ)
    → is_skipped lib policy dev ≡ not (is_visible lib policy dev)
unfolding is_skipped
is_skipped-is_visible lib policy dev = ground arith

list_loop-visible :
    (lib : Libusb) (policy : AllowedUsbDevices) (devs : List ℕ) (acc : List DeviceEntry)
    (s : LibusbBackend)
    → list_loop lib policy devs acc s ≡ (
      acc ++ map (entry_of lib) (visible lib policy devs),
      record s { calls = s.calls ++ map ref_device (visible lib policy devs) },
    )
unfolding list_loop
list_loop-visible lib policy [] acc s = rw (append-nil acc, append-nil s.calls)
list_loop-visible lib policy (dev ∷ rest) acc s = elim (Bool-cases (is_visible lib policy dev)) [
  | inl yes' ↦ rw (
    list_loop,
    is_skipped-is_visible lib policy dev,
    yes',
    list_loop-visible lib policy rest (acc ++ (entry_of lib dev ∷ [])) (call (ref_device dev) s),
    append_assoc acc (entry_of lib dev ∷ []) (map (entry_of lib) (visible lib policy rest)),
    append_assoc s.calls (ref_device dev ∷ []) (map ref_device (visible lib policy rest)),
  )
  | inr no' ↦ rw (
    list_loop,
    is_skipped-is_visible lib policy dev,
    no',
    list_loop-visible lib policy rest acc s,
  )
]

-- What listing amounts to, by what libusb answers.
abbrev pub listing_after :
    Libusb
    → AllowedUsbDevices
    → LibusbBackend
    → DeviceList
    → Result (List DeviceEntry) × LibusbBackend
listing_after lib policy s (failed n) = (err (from_raw (negsuc n)), s)
listing_after lib policy s (listed devs) = (
  ok (map (entry_of lib) (visible lib policy devs)),
  record s {
    calls = (s.calls ++ map ref_device (visible lib policy devs)) ++ (free_device_list ∷ []);
  },
)

abbrev pub listing :
    Libusb
    → AllowedUsbDevices
    → LibusbBackend
    → Option ℕ
    → Result (List DeviceEntry) × LibusbBackend
listing lib policy s none = (err not_found, s)
listing lib policy s (some context) = listing_after lib policy s (lib.get_device_list context)

list_answered-listing_after :
    (lib : Libusb) (policy : AllowedUsbDevices) (s : LibusbBackend) (answer : DeviceList)
    → list_answered lib policy s answer ≡ listing_after lib policy s answer
unfolding list_answered
list_answered-listing_after lib policy s (failed n) = refl
list_answered-listing_after lib policy s (listed devs) = rw (list_loop-visible lib policy devs [] s)

list_with-listing :
    (lib : Libusb) (policy : AllowedUsbDevices) (s : LibusbBackend) (context : Option ℕ)
    → list_with lib policy s context ≡ listing lib policy s context
unfolding list_with
list_with-listing lib policy s none = refl
list_with-listing lib policy s (some context) =
    list_answered-listing_after lib policy s (lib.get_device_list context)

-- Listing fails without a context, and when libusb does, and then changes nothing. Otherwise it
-- returns, in libusb's order, exactly the devices of libusb's list that are not null, whose
-- descriptor can be read and that the policy allows, takes one reference to each of them and to no
-- other, and frees the list after that.
pub list_devices-visible :
    (lib : Libusb) (policy : AllowedUsbDevices) (s : LibusbBackend)
    → list_devices lib policy s ≡ listing lib policy s s.context
unfolding list_devices
list_devices-visible lib policy s = list_with-listing lib policy s s.context
