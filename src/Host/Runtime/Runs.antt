-- ===== src/Host/Runtime/Runs.antt =====
-- Whole runs of the host: any calls of the guest on devices, handles and the host, in any order, with
-- callbacks of libusb between them; and what the policy demands of the states.
use masters_sibren_wieme.Prelude.{ℕ, ◌≡◌, Option, none, some, get_elem?, List, All}
use masters_sibren_wieme.Host.Errors.{Result}
use masters_sibren_wieme.Host.Policy.{AllowedUsbDevices}
use masters_sibren_wieme.Host.Transfer.{returns}
use masters_sibren_wieme.Host.Backend.{Libusb, RawDeviceDescriptor, hotplug_cb}
use masters_sibren_wieme.Host.Backend.Hotplug.Log.{registered}
use masters_sibren_wieme.Host.Backend.Handles.{HandleCalls}
use masters_sibren_wieme.Host.Runtime.Table.{ResourceTable, Entry, device, handle, foreign}
use masters_sibren_wieme.Host.Runtime.Confined.{IsAllowedDevice, Confined}
use masters_sibren_wieme.Host.Runtime.OnHandles.{drop_handle}
use masters_sibren_wieme.Host.Runtime.{
  MyState, HostCall, opened, closed, unreferenced, Polled, new_state, open_usb_device, drop_device,
  init, list_devices, enable_hotplug, poll_events,
}

-- The states that the host reaches. Each device keeps its descriptor, `identity`; libusb calls back with
-- a policy that was registered with it, and wasmtime keeps resources of other kinds in the same table.
pub data Run {T : Type 0} (tables : ResourceTable T) (identity : ℕ → RawDeviceDescriptor)
    (policy : AllowedUsbDevices) : MyState T → Type 0 where
  started : (lib : Libusb) → Run tables identity policy (new_state tables lib policy)
  initialised :
      (lib : Libusb) (s : MyState T)
      → Run tables identity policy s
      → Run tables identity policy (init lib s).1
  listed_devices :
      (lib : Libusb) (s : MyState T)
      → lib.device_descriptor ≡ identity
      → Run tables identity policy s
      → Run tables identity policy (list_devices tables lib s).1
  enabled :
      (lib : Libusb) (s : MyState T)
      → Run tables identity policy s
      → Run tables identity policy (enable_hotplug lib s).1
  called_back :
      (lib : Libusb) (i : ℕ) (registered_policy : AllowedUsbDevices) (dev ev : ℕ) (s : MyState T)
      → lib.device_descriptor ≡ identity
      → get_elem? (registered s.backend.calls) i ≡ some registered_policy
      → Run tables identity policy s
      → Run tables identity policy
          (record s { backend = hotplug_cb lib registered_policy dev ev s.backend })
  polled :
      (s t : MyState T) (out : List Polled)
      → poll_events tables s ≡ returns (out, t)
      → Run tables identity policy s
      → Run tables identity policy t
  opened_device :
      (lib : HandleCalls) (r : ℕ) (s t : MyState T) (answer : Result ℕ)
      → open_usb_device tables lib r s ≡ returns (answer, t)
      → Run tables identity policy s
      → Run tables identity policy t
  dropped_device :
      (r : ℕ) (s : MyState T)
      → Run tables identity policy s
      → Run tables identity policy (drop_device tables r s)
  dropped_handle :
      (r : ℕ) (s t : MyState T)
      → drop_handle tables r s ≡ returns t
      → Run tables identity policy s
      → Run tables identity policy t
  pushed_foreign :
      (x r : ℕ) (s : MyState T) (t : T)
      → tables.push (foreign x) s.table ≡ some (r, t)
      → Run tables identity policy s
      → Run tables identity policy (record s { table = t })
  deleted :
      (r : ℕ) (s : MyState T) (t : T)
      → tables.delete r s.table ≡ some t
      → Run tables identity policy s
      → Run tables identity policy (record s { table = t })

module _ (identity : ℕ → RawDeviceDescriptor) (policy : AllowedUsbDevices) where
  -- `libusb_open` is called on allowed devices only.
  abbrev pub IsAllowedCall : HostCall → Type 0
  IsAllowedCall (opened dev) = IsAllowedDevice identity policy dev
  IsAllowedCall (closed h) = Unit
  IsAllowedCall (unreferenced dev) = Unit

  abbrev pub IsAllowedEntry : Option Entry → Type 0
  IsAllowedEntry none = Unit
  IsAllowedEntry (some (device dev)) = IsAllowedDevice identity policy dev
  IsAllowedEntry (some (handle h)) = Unit
  IsAllowedEntry (some (foreign x)) = Unit

-- Every device that the table, the queue or a call of `libusb_open` names is allowed.
pub record AllConfined {T : Type 0} (tables : ResourceTable T) (identity : ℕ → RawDeviceDescriptor)
    (policy : AllowedUsbDevices) (s : MyState T) : Type 0 where
  pub policy_kept : s.allowed_usb_devices ≡ policy
  pub backend_confined : Confined identity policy s.backend
  pub table_allowed : (r : ℕ) → IsAllowedEntry identity policy (tables.get r s.table)
  pub opened_allowed : All (IsAllowedCall identity policy) s.host_calls
