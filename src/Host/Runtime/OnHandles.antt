-- ===== src/Host/Runtime/OnHandles.antt =====
-- usb-wasi-host/src/main.rs, `HostDeviceHandle for MyState`: the calls of a guest on an open device.
-- `new_transfer` is in Host/Transfer, with the handle that it looks up as an argument.
use masters_sibren_wieme.Prelude.{ℕ, Bool, Option, none, some, List, length}
use masters_sibren_wieme.Prelude.Int.{ℤ, to_i32}
use masters_sibren_wieme.Host.Errors.{Result}
use masters_sibren_wieme.Host.Transfer.{Outcome, returns, ◌>>=◌}
use masters_sibren_wieme.Host.Backend.Handles
use masters_sibren_wieme.Host.Backend.Handles.{HandleCalls, ConfigValue, checked}
use masters_sibren_wieme.Host.Runtime.{MyState, get_handle, note, closed, expect}
use masters_sibren_wieme.Host.Runtime.Table.{ResourceTable, as_handle}

-- What libusb answers to the calls on bulk streams: the handle, the number of streams, the endpoints
-- and their count.
pub record StreamCalls : Type 0 where
  pub alloc_streams : ℕ → ℕ → List ℕ → ℤ → ℤ
  pub free_streams : ℕ → List ℕ → ℤ → ℤ

abbrev pub close_handle : {T : Type 0} → Option ℕ → MyState T → MyState T
close_handle none s = s
close_handle (some h) s = note (closed h) s

-- `table.delete` of a handle: an error, too, where the resource is another one.
abbrev pub typed : {T : Type 0} → Option ℕ → Option T → Option T
typed none deleted = none
typed (some h) deleted = deleted

module _ {T : Type 0} (tables : ResourceTable T) where
  unfoldable pub get_configuration : HandleCalls → ℕ → MyState T → Outcome (Result ℕ)
  get_configuration lib r s = do
    h ← get_handle tables r s
    returns (Handles.get_configuration lib h)

  unfoldable pub set_configuration :
      HandleCalls → ℕ → ConfigValue → MyState T → Outcome (Result (Unit {0}))
  set_configuration lib r config s = do
    h ← get_handle tables r s
    returns (Handles.set_configuration lib h config)

  unfoldable pub claim_interface : HandleCalls → ℕ → ℕ → MyState T → Outcome (Result (Unit {0}))
  claim_interface lib r ifac s = do
    h ← get_handle tables r s
    returns (Handles.claim_interface lib h ifac)

  unfoldable pub release_interface : HandleCalls → ℕ → ℕ → MyState T → Outcome (Result (Unit {0}))
  release_interface lib r ifac s = do
    h ← get_handle tables r s
    returns (Handles.release_interface lib h ifac)

  unfoldable pub set_interface_altsetting :
      HandleCalls → ℕ → ℕ → ℕ → MyState T → Outcome (Result (Unit {0}))
  set_interface_altsetting lib r ifac alt_setting s = do
    h ← get_handle tables r s
    returns (Handles.set_interface_alt_setting lib h ifac alt_setting)

  unfoldable pub clear_halt : HandleCalls → ℕ → ℕ → MyState T → Outcome (Result (Unit {0}))
  clear_halt lib r endpoint s = do
    h ← get_handle tables r s
    returns (Handles.clear_halt lib h endpoint)

  unfoldable pub reset_device : HandleCalls → ℕ → MyState T → Outcome (Result (Unit {0}))
  reset_device lib r s = do h ← get_handle tables r s; returns (Handles.reset_device lib h)

  unfoldable pub alloc_streams :
      StreamCalls → ℕ → ℕ → List ℕ → MyState T → Outcome (Result (Unit {0}))
  alloc_streams lib r num_streams endpoints s = do
    h ← get_handle tables r s
    returns (checked (lib.alloc_streams h num_streams endpoints (to_i32 (length endpoints))))

  unfoldable pub free_streams : StreamCalls → ℕ → List ℕ → MyState T → Outcome (Result (Unit {0}))
  free_streams lib r endpoints s = do
    h ← get_handle tables r s
    returns (checked (lib.free_streams h endpoints (to_i32 (length endpoints))))

  unfoldable pub kernel_driver_active : HandleCalls → ℕ → ℕ → MyState T → Outcome (Result Bool)
  kernel_driver_active lib r ifac s = do
    h ← get_handle tables r s
    returns (Handles.kernel_driver_active lib h ifac)

  unfoldable pub detach_kernel_driver :
      HandleCalls → ℕ → ℕ → MyState T → Outcome (Result (Unit {0}))
  detach_kernel_driver lib r ifac s = do
    h ← get_handle tables r s
    returns (Handles.detach_kernel_driver lib h ifac)

  unfoldable pub attach_kernel_driver :
      HandleCalls → ℕ → ℕ → MyState T → Outcome (Result (Unit {0}))
  attach_kernel_driver lib r ifac s = do
    h ← get_handle tables r s
    returns (Handles.attach_kernel_driver lib h ifac)

  -- `HostDeviceHandle::drop`: `libusb_close` comes first, then `table.delete(rep).expect(…)`.
  unfoldable pub drop_handle : ℕ → MyState T → Outcome (MyState T)
  drop_handle r s = do
    t ← expect (typed (as_handle (tables.get r s.table)) (tables.delete r s.table))
    returns (record (close_handle (as_handle (tables.get r s.table)) s) { table = t })
