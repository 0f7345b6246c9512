-- ===== src/Host/Backend.antt =====
-- usb-wasi-host/src/usb_backend.rs: `LibusbBackend`, the part of the host that calls libusb. The
-- answers of libusb are the record `Libusb`; the calls that only have an effect are kept, in their
-- order, in the field `calls` of the state.
pub mod Data
pub use Data.*
pub mod Devices
pub mod Hotplug
pub mod Handles
pub mod Descriptors
mod Tests
use masters_sibren_wieme.Prelude.{
  ℕ, ◌%◌, Bool, true, false, Option, none, some, List, [], ◌∷◌, ◌++◌, if◌then◌else◌, not, ◌==◌,
}
use masters_sibren_wieme.Prelude.Int.{ℤ, pos, negsuc, is_negative}
use masters_sibren_wieme.Host.Errors.{
  Result, ok, err, LibusbError, not_found, not_supported, from_raw, UsbSpeed, speed_from_raw,
}
use masters_sibren_wieme.Host.Policy.{UsbDeviceIdentifier, AllowedUsbDevices, is_allowed}

abbrev pub new : LibusbBackend
new = record {
  context = none;
  event_loop_flag = none;
  event_thread = false;
  hotplug_enabled = false;
  hotplug_handle = none;
  queue = [];
  calls = [];
}

abbrev pub call : Call → LibusbBackend → LibusbBackend
call c s = record s { calls = s.calls ++ (c ∷ []) }

unfoldable pub init_with : Libusb → LibusbBackend → Option ℕ → Result (Unit {0}) × LibusbBackend
init_with lib s (some _) = (ok tt, s)
init_with lib s none = if is_negative lib.init then (err (from_raw lib.init), s) else (
  ok tt,
  record (call (spawn_event_thread lib.init_context) s) {
    context = some lib.init_context;
    event_loop_flag = some true;
    event_thread = true;
  },
)

-- `init`; the argument of its helper is the field that it tests first.
unfoldable pub init_backend : Libusb → LibusbBackend → Result (Unit {0}) × LibusbBackend
init_backend lib s = init_with lib s s.context

unfoldable pub device_id : RawDeviceDescriptor → UsbDeviceIdentifier
device_id d = record { vendor_id = d.id_vendor; product_id = d.id_product }

unfoldable pub to_descriptor : RawDeviceDescriptor → DeviceDescriptor
to_descriptor d = record {
  length = d.b_length;
  descriptor_type = d.b_descriptor_type;
  usb_version_bcd = d.bcd_usb;
  device_class = d.b_device_class;
  device_subclass = d.b_device_sub_class;
  device_protocol = d.b_device_protocol;
  max_packet_size0 = d.b_max_packet_size0;
  vendor_id = d.id_vendor;
  product_id = d.id_product;
  device_version_bcd = d.bcd_device;
  manufacturer_index = d.i_manufacturer;
  product_index = d.i_product;
  serial_number_index = d.i_serial_number;
  num_configurations = d.b_num_configurations;
}

unfoldable pub to_location : Libusb → ℕ → DeviceLocation
to_location lib dev = record {
  bus_number = lib.get_bus_number dev;
  device_address = lib.get_device_address dev;
  port_number = lib.get_port_number dev;
  speed = speed_from_raw (lib.get_device_speed dev % 256);
}

abbrev pub DeviceEntry : Type 0
DeviceEntry = ℕ × DeviceDescriptor × DeviceLocation

-- The three `continue`s of the loop.
unfoldable pub is_skipped : Libusb → AllowedUsbDevices → ℕ → Bool
is_skipped lib allowed_devices dev =
    if dev == 0
    then true
    else if is_negative (lib.get_device_descriptor dev)
    then true
    else not (is_allowed allowed_devices (device_id (lib.device_descriptor dev)))

-- The loop over the list of libusb, with the vector `devices`.
unfoldable pub list_loop :
    Libusb
    → AllowedUsbDevices
    → List ℕ
    → List DeviceEntry
    → LibusbBackend
    → List DeviceEntry × LibusbBackend
list_loop lib allowed_devices [] devices s = (devices, s)
list_loop lib allowed_devices (dev ∷ rest) devices s = elim (is_skipped lib allowed_devices dev) [
  | true ↦ list_loop lib allowed_devices rest devices s
  | false ↦
      list_loop lib allowed_devices rest
        (devices ++ ((dev, to_descriptor (lib.device_descriptor dev), to_location lib dev) ∷ []))
        (call (ref_device dev) s)
]

unfoldable pub list_answered :
    Libusb
    → AllowedUsbDevices
    → LibusbBackend
    → DeviceList
    → Result (List DeviceEntry) × LibusbBackend
list_answered lib allowed_devices s (failed n) = (err (from_raw (negsuc n)), s)
list_answered lib allowed_devices s (listed devs) =
    let after = list_loop lib allowed_devices devs [] s in
    (ok after.0, call free_device_list after.1)

unfoldable pub list_with :
    Libusb
    → AllowedUsbDevices
    → LibusbBackend
    → Option ℕ
    → Result (List DeviceEntry) × LibusbBackend
list_with lib allowed_devices s none = (err not_found, s)
list_with lib allowed_devices s (some context) =
    list_answered lib allowed_devices s (lib.get_device_list context)

unfoldable pub list_devices :
    Libusb → AllowedUsbDevices → LibusbBackend → Result (List DeviceEntry) × LibusbBackend
list_devices lib allowed_devices s = list_with lib allowed_devices s s.context

-- The match on the event: `LIBUSB_HOTPLUG_EVENT_DEVICE_ARRIVED` is 1, `…_LEFT` is 2.
unfoldable pub event_of : ℕ → Option Event
event_of ev = if ev == 1 then some arrived else if ev == 2 then some left else none

abbrev pub is_zero : ℤ → Bool
is_zero (pos n) = n == 0
is_zero (negsuc n) = false

unfoldable pub entry_for : Libusb → ℕ → Option Event → Option (Event × Info × ℕ)
entry_for lib dev none = none
entry_for lib dev (some event) = some (
  event,
  record {
    bus = lib.get_bus_number dev;
    address = lib.get_device_address dev;
    vendor = (lib.device_descriptor dev).id_vendor;
    product = (lib.device_descriptor dev).id_product;
  },
  dev,
)

-- What the callback decides to queue, if anything.
unfoldable pub accepted : Libusb → AllowedUsbDevices → ℕ → ℕ → Option (Event × Info × ℕ)
accepted lib allowed_devices dev ev =
    if not (is_zero (lib.get_device_descriptor dev))
    then none
    else if not (is_allowed allowed_devices (device_id (lib.device_descriptor dev)))
    then none
    else entry_for lib dev (event_of ev)

unfoldable pub push_entry : ℕ → LibusbBackend → Option (Event × Info × ℕ) → LibusbBackend
push_entry dev s none = s
push_entry dev s (some entry) = record (call (ref_device dev) s) { queue = s.queue ++ (entry ∷ []) }

-- libusb calls it with the policy that was registered with it.
unfoldable pub hotplug_cb : Libusb → AllowedUsbDevices → ℕ → ℕ → LibusbBackend → LibusbBackend
hotplug_cb lib allowed_devices dev ev s = push_entry dev s (accepted lib allowed_devices dev ev)

unfoldable pub register_with :
    Libusb → AllowedUsbDevices → LibusbBackend → Option ℕ → Result (Unit {0}) × LibusbBackend
register_with lib allowed_devices s none = (err not_found, s)
register_with lib allowed_devices s (some context) =
    if is_negative lib.hotplug_register_callback
    then (err (from_raw lib.hotplug_register_callback), s)
    else (
      ok tt,
      record (call (register_callback allowed_devices) s) {
        hotplug_handle = some lib.hotplug_callback_handle;
        hotplug_enabled = true;
      },
    )

unfoldable pub enable_hotplug :
    Libusb → AllowedUsbDevices → LibusbBackend → Result (Unit {0}) × LibusbBackend
enable_hotplug lib allowed_devices s =
    if s.hotplug_enabled
    then (ok tt, s)
    else if lib.has_capability_hotplug == 0
    then (err not_supported, s)
    else register_with lib allowed_devices s s.context

-- `while let Some(ev) = q.pop_front() { out.push(ev); }`
unfoldable pub drain : List (Event × Info × ℕ) → List (Event × Info × ℕ) → List (Event × Info × ℕ)
drain [] out = out
drain (ev ∷ q) out = drain q (out ++ (ev ∷ []))

unfoldable pub poll_events : LibusbBackend → List (Event × Info × ℕ) × LibusbBackend
poll_events s = (drain s.queue [], record s { queue = [] })
