-- ===== src/Host/Backend/Tests.antt =====
-- A concrete libusb with one camera, and the theorems of the backend on it.
use masters_sibren_wieme.Prelude.{
  ℕ, ◌≡◌, ◌≢◌, ap, refl, if◌then◌else◌, ◌==◌, false, some, [], ◌∷◌, arith,
}
use masters_sibren_wieme.Prelude.Int.{pos, negsuc, is_negative}
use masters_sibren_wieme.Host.Errors.{ok, access, other}
use masters_sibren_wieme.Host.Policy.{AllowedUsbDevices, allowed, same_device, contains, is_allowed}
use masters_sibren_wieme.Host.Transfer.{returns}
use masters_sibren_wieme.Host.Backend.{
  Libusb, LibusbBackend, RawDeviceDescriptor, listed, arrived, new, init_with, init_backend,
  device_id, to_descriptor, to_location, is_skipped, list_loop, list_answered, list_with,
  list_devices, event_of, entry_for, accepted, push_entry, hotplug_cb, register_with,
  enable_hotplug, drain, poll_events,
}
use masters_sibren_wieme.Host.Backend.Devices.{listing, entry_of, list_devices-visible}
use masters_sibren_wieme.Host.Backend.Hotplug.{
  Run, Consistent, Entry, started, initialised, enabled, called_back, polled, Run-Consistent,
}
use masters_sibren_wieme.Host.Backend.Handles.{HandleCalls, value, set_configuration, checked}
use masters_sibren_wieme.Host.Backend.Descriptors.{
  RawAltSetting, RawConfig, generate_config_descriptor,
}
use masters_sibren_wieme.Host.Backend.Descriptors.Flatten.{
  configuration_of, generate_config_descriptor-configuration_of,
}

program : Unit {0}
unfolding init_with init_backend device_id to_descriptor to_location is_skipped list_loop
    list_answered list_with list_devices event_of entry_for accepted push_entry hotplug_cb
    register_with enable_hotplug drain poll_events checked set_configuration is_allowed contains
    same_device
program = tt

abbrev descriptor_of : ℕ → ℕ → RawDeviceDescriptor
descriptor_of vendor product = record {
  b_length = 18;
  b_descriptor_type = 1;
  bcd_usb = 0x200;
  b_device_class = 0xEF;
  b_device_sub_class = 2;
  b_device_protocol = 1;
  b_max_packet_size0 = 64;
  id_vendor = vendor;
  id_product = product;
  bcd_device = 1;
  i_manufacturer = 1;
  i_product = 2;
  i_serial_number = 3;
  b_num_configurations = 1;
}

-- Device 7 is the Logitech Brio, device 9 cannot be read, all others are a hub.
abbrev camera : Libusb
camera = record {
  init = pos 0;
  init_context = 1;
  get_device_list = λ context. listed (5 ∷ 7 ∷ 0 ∷ 9 ∷ []);
  get_device_descriptor = λ dev. if dev == 9 then negsuc 0 else pos 0;
  device_descriptor =
      λ dev. if dev == 7 then descriptor_of 0x046d 0x094c else descriptor_of 0x1d6b 2;
  get_bus_number = λ dev. 1;
  get_device_address = λ dev. dev;
  get_port_number = λ dev. 2;
  get_device_speed = λ dev. 3;
  has_capability_hotplug = 1;
  hotplug_register_callback = pos 0;
  hotplug_callback_handle = 1;
}

abbrev brio_only : AllowedUsbDevices
brio_only = allowed (record { vendor_id = 0x046d; product_id = 0x094c } ∷ [])

abbrev ready : LibusbBackend
ready = record new { context = some 1 }

brio_listed : (list_devices camera brio_only ready).0 ≡ ok (entry_of camera 7 ∷ [])
unfolding program
brio_listed = refl

list_devices-visible_example :
    list_devices camera brio_only ready ≡ listing camera brio_only ready (some 1)
list_devices-visible_example = list_devices-visible camera brio_only ready

abbrev watching : LibusbBackend
watching = (enable_hotplug camera brio_only (init_backend camera new).1).1

watching-Run : Run brio_only watching [] []
watching-Run =
    enabled camera (init_backend camera new).1 [] [] (initialised camera new [] [] started)

-- The camera arrives, a hub arrives, and the events are polled.
abbrev arrived_states : LibusbBackend
arrived_states = hotplug_cb camera brio_only 5 1 (hotplug_cb camera brio_only 7 1 watching)

abbrev brio_arrived : Entry
brio_arrived = (arrived, record { bus = 1; address = 7; vendor = 0x046d; product = 0x094c }, 7)

arrived-Run : Run brio_only (poll_events arrived_states).1 (brio_arrived ∷ []) (brio_arrived ∷ [])
unfolding program
arrived-Run = polled arrived_states (brio_arrived ∷ []) [] (
    called_back camera 5 1 (hotplug_cb camera brio_only 7 1 watching) (brio_arrived ∷ []) [] refl
      (called_back camera 7 1 watching [] [] refl watching-Run))

Run-Consistent_example :
    Consistent brio_only (poll_events arrived_states).1 (brio_arrived ∷ []) (brio_arrived ∷ [])
Run-Consistent_example =
    Run-Consistent brio_only (poll_events arrived_states).1 (brio_arrived ∷ []) (brio_arrived ∷ [])
      arrived-Run

-- A device whose interfaces another driver has claimed, and that is in configuration 1.
abbrev claimed : HandleCalls
claimed = record {
  open_device = λ d. pos 0;
  opened_handle = λ d. d;
  get_configuration = λ h. pos 0;
  configuration = λ h. pos 1;
  set_configuration = λ h n. if n == 1 then pos 0 else negsuc 4;
  claim_interface = λ h i. negsuc 5;
  release_interface = λ h i. pos 0;
  set_interface_alt_setting = λ h i a. pos 0;
  clear_halt = λ h e. pos 0;
  reset_device = λ h. pos 0;
  kernel_driver_active = λ h i. pos 1;
  detach_kernel_driver = λ h i. negsuc 2;
  attach_kernel_driver = λ h i. pos 0;
}

access-ne-other : access ≢ other
access-ne-other p = absurd (cc)

set_one : set_configuration claimed 1 (value 1) ≡ ok tt
unfolding program
set_one = refl

reports :
    (n : ℕ)
    → is_negative (claimed.set_configuration 1 n) ≡ false
    → (is_negative (claimed.get_configuration 1) ≡ false) × (claimed.configuration 1 ≡ pos n)
reports n h = (refl, ap pos (ground arith))

abbrev streaming : RawAltSetting
streaming = record {
  b_length = 9;
  b_descriptor_type = 4;
  b_interface_number = 1;
  b_alternate_setting = 1;
  b_num_endpoints = 1;
  b_interface_class = 0x0E;
  b_interface_sub_class = 2;
  b_interface_protocol = 0;
  i_interface = 0;
  endpoint =
      record {
        b_length = 7;
        b_descriptor_type = 5;
        b_endpoint_address = 0x81;
        bm_attributes = 5;
        w_max_packet_size = 0x1400;
        b_interval = 1;
        b_refresh = 0;
        b_synch_address = 0;
      }
      ∷ [];
}

abbrev camera_configuration : RawConfig
camera_configuration = record {
  b_length = 9;
  b_descriptor_type = 2;
  w_total_length = 25;
  b_num_interfaces = 1;
  b_configuration_value = 1;
  i_configuration = 0;
  bm_attributes = 0x80;
  b_max_power = 250;
  interface =
      record {
        altsetting =
            record streaming { b_alternate_setting = 0; b_num_endpoints = 0; endpoint = [] }
            ∷ streaming
            ∷ [];
        num_altsetting = pos 2;
      }
      ∷ [];
}

generate_config_descriptor-configuration_of_example :
    generate_config_descriptor camera_configuration
    ≡ returns (configuration_of camera_configuration)
generate_config_descriptor-configuration_of_example =
    generate_config_descriptor-configuration_of camera_configuration
      (refl, ((refl, (refl, (refl, tt))), tt))
