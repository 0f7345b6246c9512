-- ===== src/Host/Runtime.antt =====
-- usb-wasi-host/src/main.rs: `MyState` and the calls of a guest on devices and on the host, which look
-- up a resource in wasmtime's table and pass on to the backend.
pub mod Table
pub mod OnHandles
pub mod Confined
pub mod Runs
pub mod Kept
pub mod Confinement
pub mod Lifecycle
mod Tests
use masters_sibren_wieme.Prelude.{ℕ, Option, none, some, List, [], ◌∷◌, ◌++◌}
use masters_sibren_wieme.Host.Errors.{Result, ok, err, other}
use masters_sibren_wieme.Host.Policy.{AllowedUsbDevices}
use masters_sibren_wieme.Host.Transfer.{Outcome, returns, panics, ◌>>=◌}
use masters_sibren_wieme.Host.Backend
use masters_sibren_wieme.Host.Backend.{
  Libusb, LibusbBackend, DeviceDescriptor, DeviceLocation, DeviceEntry, Event, Info, new,
  init_backend,
}
use masters_sibren_wieme.Host.Backend.Handles.{HandleCalls, open_device}
use masters_sibren_wieme.Host.Backend.Descriptors
use masters_sibren_wieme.Host.Backend.Descriptors.{ConfigCalls, ConfigurationDescriptor}
use masters_sibren_wieme.Host.Runtime.Table.{
  ResourceTable, Entry, device, handle, as_device, as_handle,
}

-- The calls of libusb on devices and handles that the host itself makes, in their order.
pub data HostCall : Type 0 where
  opened closed unreferenced : ℕ → HostCall

-- `ctx`, which only wasmtime uses, is left out.
pub record MyState (T : Type 0) : Type 0 where
  pub table : T
  pub allowed_usb_devices : AllowedUsbDevices
  pub backend : LibusbBackend
  pub host_calls : List HostCall

abbrev pub Listed : Type 0
Listed = ℕ × DeviceDescriptor × DeviceLocation

abbrev pub Polled : Type 0
Polled = Event × Info × ℕ

abbrev pub note : {T : Type 0} → HostCall → MyState T → MyState T
note c s = record s { host_calls = s.host_calls ++ (c ∷ []) }

-- `.expect(…)` on what the table gives.
abbrev pub expect : {A : Type 0} → Option A → Outcome A
expect none = panics
expect (some x) = returns x

-- `.or(Err(LibusbError::Other))`
abbrev pub or_other : {T : Type 0} → MyState T → Option (ℕ × T) → Result ℕ × MyState T
or_other s none = (err other, s)
or_other s (some (r, t)) = (ok r, record s { table = t })

-- The rest of a loop that stops with `?` at the first resource that the table refuses.
abbrev pub push_listed :
    {T : Type 0}
    → (ℕ → MyState T → Result (List Listed) × MyState T)
    → Result ℕ × MyState T
    → Result (List Listed) × MyState T
push_listed rest (err e, s) = (err e, s)
push_listed rest (ok r, s) = rest r s

-- The same with `unwrap`.
abbrev pub push_polled :
    {T : Type 0}
    → (ℕ → MyState T → Outcome (List Polled × MyState T))
    → Result ℕ × MyState T
    → Outcome (List Polled × MyState T)
push_polled rest (err e, s) = panics
push_polled rest (ok r, s) = rest r s

abbrev pub unreference : {T : Type 0} → Option ℕ → MyState T → MyState T
unreference none s = s
unreference (some dev) s = note (unreferenced dev) s

unfoldable pub init : {T : Type 0} → Libusb → MyState T → Result (Unit {0}) × MyState T
init lib s = let answer = init_backend lib s.backend in (answer.0, record s { backend = answer.1 })

unfoldable pub enable_hotplug : {T : Type 0} → Libusb → MyState T → Result (Unit {0}) × MyState T
enable_hotplug lib s =
    let answer = Backend.enable_hotplug lib s.allowed_usb_devices s.backend in
    (answer.0, record s { backend = answer.1 })

module _ {T : Type 0} (tables : ResourceTable T) where
  -- A backend that fails to start is logged, and kept.
  unfoldable pub new_state : Libusb → AllowedUsbDevices → MyState T
  new_state lib allowed_usb_devices = record {
    table = tables.empty;
    allowed_usb_devices = allowed_usb_devices;
    backend = (init_backend lib new).1;
    host_calls = [];
  }

  unfoldable pub get_device : ℕ → MyState T → Outcome ℕ
  get_device r s = expect (as_device (tables.get r s.table))

  unfoldable pub get_handle : ℕ → MyState T → Outcome ℕ
  get_handle r s = expect (as_handle (tables.get r s.table))

  unfoldable pub push_entry : Entry → MyState T → Result ℕ × MyState T
  push_entry entry s = or_other s (tables.push entry s.table)

  -- The end of `open`, by what the backend answers.
  unfoldable pub keep_handle : Result ℕ → MyState T → Result ℕ × MyState T
  keep_handle (ok h) s = push_entry (handle h) s
  keep_handle (err e) s = (err e, s)

  unfoldable pub open_usb_device : HandleCalls → ℕ → MyState T → Outcome (Result ℕ × MyState T)
  open_usb_device lib r s = do
    dev ← get_device r s
    returns (keep_handle (open_device lib dev).0 (note (opened dev) s))

  unfoldable pub get_active_configuration_descriptor :
      ConfigCalls → ℕ → MyState T → Outcome (Result ConfigurationDescriptor × ℕ)
  get_active_configuration_descriptor lib r s = do
    dev ← get_device r s
    Descriptors.get_active_configuration_descriptor lib dev

  unfoldable pub get_configuration_descriptor :
      ConfigCalls → ℕ → ℕ → MyState T → Outcome (Result ConfigurationDescriptor × ℕ)
  get_configuration_descriptor lib r config_index s = do
    dev ← get_device r s
    Descriptors.get_configuration_descriptor lib dev config_index

  unfoldable pub get_configuration_descriptor_by_value :
      ConfigCalls → ℕ → ℕ → MyState T → Outcome (Result ConfigurationDescriptor × ℕ)
  get_configuration_descriptor_by_value lib r config_value s = do
    dev ← get_device r s
    Descriptors.get_configuration_descriptor_by_value lib dev config_value

  -- `HostUsbDevice::drop`; the resource is not deleted from the table.
  unfoldable pub drop_device : ℕ → MyState T → MyState T
  drop_device r s = unreference (as_device (tables.get r s.table)) s

  -- The loop of `list_devices`, with the vector `result`.
  unfoldable pub push_devices :
      List DeviceEntry → List Listed → MyState T → Result (List Listed) × MyState T
  push_devices [] result s = (ok result, s)
  push_devices ((dev, desc, loc) ∷ devices) result s =
      push_listed (λ r s'. push_devices devices (result ++ ((r, desc, loc) ∷ [])) s')
        (push_entry (device dev) s)

  unfoldable pub push_all : Result (List DeviceEntry) → MyState T → Result (List Listed) × MyState T
  push_all (err e) s = (err e, s)
  push_all (ok devices) s = push_devices devices [] s

  unfoldable pub list_devices : Libusb → MyState T → Result (List Listed) × MyState T
  list_devices lib s =
      let answer = Backend.list_devices lib s.allowed_usb_devices s.backend in
      push_all answer.0 (record s { backend = answer.1 })

  -- The loop of `poll_events`, with the vector `out`.
  unfoldable pub push_events :
      List Polled → List Polled → MyState T → Outcome (List Polled × MyState T)
  push_events [] out s = returns (out, s)
  push_events ((event, info, dev) ∷ events) out s =
      push_polled (λ r s'. push_events events (out ++ ((event, info, r) ∷ [])) s')
        (push_entry (device dev) s)

  unfoldable pub poll_events : MyState T → Outcome (List Polled × MyState T)
  poll_events s =
      let answer = Backend.poll_events s.backend in
      push_events answer.0 [] (record s { backend = answer.1 })
