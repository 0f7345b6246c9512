-- ===== src/Host/Runtime/Tests.antt =====
-- A resource table of eight entries, a libusb with one camera, and the theorems of the host on them.
use masters_sibren_wieme.Prelude.{
  ℕ, suc, subst, ap, ◌≡◌, refl, Bool, true, false, Option, none, some, ◌==◌, ltb, if◌then◌else◌,
  arith, [], ◌∷◌,
}
use masters_sibren_wieme.Prelude.Int.{pos}
use masters_sibren_wieme.Host.Errors.{Result, ok}
use masters_sibren_wieme.Host.Policy.{AllowedUsbDevices, allowed, same_device, contains, is_allowed}
use masters_sibren_wieme.Host.Transfer.{returns, panics}
use masters_sibren_wieme.Host.Backend
use masters_sibren_wieme.Host.Backend.{
  Libusb, RawDeviceDescriptor, listed, init_with, init_backend, device_id, to_descriptor,
  to_location, is_skipped, list_loop, list_answered, list_with, event_of, entry_for, accepted,
  hotplug_cb, register_with, drain,
}
use masters_sibren_wieme.Host.Backend.Handles.{HandleCalls, open_device}
use masters_sibren_wieme.Host.Runtime.OnHandles.{drop_handle}
use masters_sibren_wieme.Host.Runtime.Runs.{
  Run, started, listed_devices, opened_device, AllConfined,
}
use masters_sibren_wieme.Host.Runtime.Confinement.{Run-AllConfined}
use masters_sibren_wieme.Host.Runtime.Lifecycle.{
  Opened, open_usb_device-Opened, drop_handle-get_handle,
}
use masters_sibren_wieme.Host.Runtime.{
  MyState, opened, closed, new_state, init, enable_hotplug, list_devices, push_all, push_devices,
  push_entry, push_events, poll_events, get_device, get_handle, open_usb_device, keep_handle,
  drop_device,
}
use masters_sibren_wieme.Host.Runtime.Table.{ResourceTable, IsDocumented, Entry, handle}

abbrev Slots : Type 0
Slots = ℕ × (ℕ → Option Entry)

abbrev look : ℕ → Slots → Option Entry
look r t = if ltb r t.0 then t.1 r else none

abbrev delete_found : ℕ → Slots → Option Entry → Option Slots
delete_found r t none = none
delete_found r t (some entry) = some (t.0, λ q. if q == r then none else t.1 q)

abbrev pushed_slots : Entry → Slots → ℕ × Slots
pushed_slots entry t = (t.0, (suc t.0, λ q. if q == t.0 then some entry else t.1 q))

abbrev push_free : Bool → Entry → Slots → Option (ℕ × Slots)
push_free true entry t = some (pushed_slots entry t)
push_free false entry t = none

abbrev push_slot : Entry → Slots → Option (ℕ × Slots)
push_slot entry t = push_free (ltb t.0 8) entry t

abbrev slots : ResourceTable Slots
slots = record {
  empty = (0, λ q. none);
  get = look;
  push = push_slot;
  delete = λ r t. delete_found r t (look r t);
}

some-injective : {A : Type 0} → (x y : A) → some x ≡ some y → x ≡ y
some-injective {A} x y h = ap value_of h
  where
    value_of : Option A → A
    value_of none = x
    value_of (some z) = z

push_free-pushed_slots :
    (free : Bool) (entry : Entry) (t : Slots) (p : ℕ × Slots)
    → push_free free entry t ≡ some p
    → pushed_slots entry t ≡ p
push_free-pushed_slots true entry t p h = some-injective (pushed_slots entry t) p h
push_free-pushed_slots false entry t p h = absurd (cc)

slots-get_push :
    (entry : Entry) (t t' : Slots) (r q : ℕ)
    → push_slot entry t ≡ some (r, t')
    → look q t' ≡ (if q == r then some entry else look q t)
slots-get_push entry t t' r q h =
    subst (λ (p : ℕ × Slots). look q p.1 ≡ (if q == p.0 then some entry else look q t))
      (push_free-pushed_slots (ltb t.0 8) entry t (r, t') h) (ground arith)

slots-push_fresh :
    (entry : Entry) (t t' : Slots) (r : ℕ) → push_slot entry t ≡ some (r, t') → look r t ≡ none
slots-push_fresh entry t t' r h =
    subst (λ (p : ℕ × Slots). look p.0 t ≡ none)
      (push_free-pushed_slots (ltb t.0 8) entry t (r, t') h) (ground arith)

slots-get_delete :
    (t t' : Slots) (r q : ℕ) (o : Option Entry)
    → delete_found r t o ≡ some t'
    → look q t' ≡ (if q == r then none else look q t)
slots-get_delete t t' r q none h = absurd (cc)
slots-get_delete t t' r q (some entry) h =
    subst (λ u. look q u ≡ (if q == r then none else look q t))
      (some-injective (t.0, λ k. if k == r then none else t.1 k) t' h) (ground arith)

slots-IsDocumented : IsDocumented slots
slots-IsDocumented = record {
  get_empty = λ r. ground arith;
  get_push = slots-get_push;
  push_fresh = slots-push_fresh;
  get_delete = λ t t' r q h. slots-get_delete t t' r q (look r t) h;
  delete_present = λ t r entry h. ((t.0, λ q. if q == r then none else t.1 q), rw h refl);
  delete_absent = λ t r h. rw h refl;
}

abbrev descriptor_of : ℕ → ℕ → RawDeviceDescriptor
descriptor_of vendor product = record {
  b_length = 18;
  b_descriptor_type = 1;
  bcd_usb = 0x200;
  b_device_class = 0xEF;
  b_device_sub_class = 2;
  b_device_protocol = 1;
  b_max_packet_size0 = 64;
  id_vendor = vendor;
  id_product = product;
  bcd_device = 1;
  i_manufacturer = 1;
  i_product = 2;
  i_serial_number = 3;
  b_num_configurations = 1;
}

-- Device 7 is the camera, all others are a hub.
abbrev identity : ℕ → RawDeviceDescriptor
identity dev = if dev == 7 then descriptor_of 0x046d 0x094c else descriptor_of 0x1d6b 2

abbrev camera : Libusb
camera = record {
  init = pos 0;
  init_context = 1;
  get_device_list = λ context. listed (5 ∷ 7 ∷ []);
  get_device_descriptor = λ dev. pos 0;
  device_descriptor = identity;
  get_bus_number = λ dev. 1;
  get_device_address = λ dev. dev;
  get_port_number = λ dev. 2;
  get_device_speed = λ dev. 3;
  has_capability_hotplug = 1;
  hotplug_register_callback = pos 0;
  hotplug_callback_handle = 1;
}

abbrev camera_only : AllowedUsbDevices
camera_only = allowed (record { vendor_id = 0x046d; product_id = 0x094c } ∷ [])

abbrev calls : HandleCalls
calls = record {
  open_device = λ d. pos 0;
  opened_handle = λ d. 70;
  get_configuration = λ h. pos 0;
  configuration = λ h. pos 1;
  set_configuration = λ h n. pos 0;
  claim_interface = λ h i. pos 0;
  release_interface = λ h i. pos 0;
  set_interface_alt_setting = λ h i a. pos 0;
  clear_halt = λ h e. pos 0;
  reset_device = λ h. pos 0;
  kernel_driver_active = λ h i. pos 1;
  detach_kernel_driver = λ h i. pos 0;
  attach_kernel_driver = λ h i. pos 0;
}

program : Unit {0}
unfolding new_state init enable_hotplug list_devices push_all push_devices push_entry push_events
    poll_events get_device get_handle open_usb_device keep_handle drop_handle drop_device init_with
    init_backend device_id to_descriptor to_location is_skipped list_loop list_answered list_with
    open_device event_of entry_for accepted hotplug_cb register_with drain is_allowed contains
    same_device Backend.list_devices Backend.enable_hotplug Backend.poll_events Backend.push_entry
program = tt

-- The camera is listed as resource 0, and opened as resource 1.
abbrev holding : MyState Slots
holding = (list_devices slots camera (new_state slots camera camera_only)).1

abbrev opened_state : MyState Slots
opened_state = record holding {
  table = (pushed_slots (handle 70) holding.table).1;
  host_calls = opened 7 ∷ [];
}

opens : open_usb_device slots calls 0 holding ≡ returns (ok 1, opened_state)
unfolding program
opens = refl

open_usb_device-Opened_example :
    (answer : Result ℕ × MyState Slots) × (open_usb_device slots calls 0 holding ≡ returns answer)
    × Opened slots calls 7 holding answer
unfolding program
open_usb_device-Opened_example =
    open_usb_device-Opened slots slots-IsDocumented calls 0 7 holding refl

drop_handle-get_handle_example :
    (t : MyState Slots) × (drop_handle slots 1 opened_state ≡ returns t)
    × (t.host_calls ≡ opened 7 ∷ closed 70 ∷ [])
    × (get_handle slots 1 t ≡ panics)
    × ((q : ℕ) → look q t.table ≡ (if q == 1 then none else look q opened_state.table))
    × (t.backend ≡ holding.backend)
unfolding program
drop_handle-get_handle_example =
    drop_handle-get_handle slots slots-IsDocumented 1 70 opened_state refl

opened_state-Run : Run slots identity camera_only opened_state
opened_state-Run =
    opened_device calls 0 holding opened_state (ok 1) opens
      (listed_devices camera (new_state slots camera camera_only) refl (started camera))

Run-AllConfined_example : AllConfined slots identity camera_only opened_state
Run-AllConfined_example =
    Run-AllConfined slots slots-IsDocumented identity camera_only opened_state opened_state-Run
