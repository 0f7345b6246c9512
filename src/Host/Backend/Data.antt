-- ===== src/Host/Backend/Data.antt =====
-- usb-wasi-host/src/usb_backend.rs, the data of the backend: libusb's and descriptors.wit's records, what
-- libusb answers, and the state of the backend.
use masters_sibren_wieme.Prelude.{ℕ, Bool, Option, List}
use masters_sibren_wieme.Prelude.Int.{ℤ}
use masters_sibren_wieme.Host.Errors.{UsbSpeed}
use masters_sibren_wieme.Host.Policy.{AllowedUsbDevices}

-- `libusb_device_descriptor`
pub record RawDeviceDescriptor : Type 0 where
  pub b_length : ℕ
  pub b_descriptor_type : ℕ
  pub bcd_usb : ℕ
  pub b_device_class : ℕ
  pub b_device_sub_class : ℕ
  pub b_device_protocol : ℕ
  pub b_max_packet_size0 : ℕ
  pub id_vendor : ℕ
  pub id_product : ℕ
  pub bcd_device : ℕ
  pub i_manufacturer : ℕ
  pub i_product : ℕ
  pub i_serial_number : ℕ
  pub b_num_configurations : ℕ

-- descriptors.wit
pub record DeviceDescriptor : Type 0 where
  pub length : ℕ
  pub descriptor_type : ℕ
  pub usb_version_bcd : ℕ
  pub device_class : ℕ
  pub device_subclass : ℕ
  pub device_protocol : ℕ
  pub max_packet_size0 : ℕ
  pub vendor_id : ℕ
  pub product_id : ℕ
  pub device_version_bcd : ℕ
  pub manufacturer_index : ℕ
  pub product_index : ℕ
  pub serial_number_index : ℕ
  pub num_configurations : ℕ

-- device.wit
pub record DeviceLocation : Type 0 where
  pub bus_number : ℕ
  pub device_address : ℕ
  pub port_number : ℕ
  pub speed : UsbSpeed

-- `libusb_get_device_list`: the error -(n + 1), or the pointers of the list, as many as its count.
pub data DeviceList : Type 0 where
  failed : ℕ → DeviceList
  listed : List ℕ → DeviceList

-- What libusb answers. A device is its pointer, 0 for null.
pub record Libusb : Type 0 where
  pub init : ℤ
  pub init_context : ℕ
  pub get_device_list : ℕ → DeviceList
  pub get_device_descriptor : ℕ → ℤ
  pub device_descriptor : ℕ → RawDeviceDescriptor  -- what the call writes when it is not negative
  pub get_bus_number : ℕ → ℕ
  pub get_device_address : ℕ → ℕ
  pub get_port_number : ℕ → ℕ
  pub get_device_speed : ℕ → ℕ
  pub has_capability_hotplug : ℕ
  pub hotplug_register_callback : ℤ
  pub hotplug_callback_handle : ℕ

-- hotplug.wit
pub data Event : Type 0 where
  arrived left : Event

pub record Info : Type 0 where
  pub bus : ℕ
  pub address : ℕ
  pub vendor : ℕ
  pub product : ℕ

pub data Call : Type 0 where
  spawn_event_thread : ℕ → Call
  ref_device : ℕ → Call
  free_device_list : Call
  register_callback : AllowedUsbDevices → Call

-- `LibusbBackend`, with the queue `HOTPLUG_QUEUE`. The event thread is `some` of its flag.
pub record LibusbBackend : Type 0 where
  pub context : Option ℕ
  pub event_loop_flag : Option Bool
  pub event_thread : Bool
  pub hotplug_enabled : Bool
  pub hotplug_handle : Option ℕ
  pub queue : List (Event × Info × ℕ)
  pub calls : List Call
