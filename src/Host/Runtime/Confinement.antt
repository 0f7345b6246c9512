-- ===== src/Host/Runtime/Confinement.antt =====
-- The calls of the guest on the host keep the policy.
use masters_sibren_wieme.Prelude.{
  ℕ, zero, suc, ◌≡◌, refl, Option, none, some, get_elem?, List, [], ◌∷◌, subst, sym, All,
}
use masters_sibren_wieme.Host.Errors.{Result, ok, err}
use masters_sibren_wieme.Host.Policy.{AllowedUsbDevices}
use masters_sibren_wieme.Host.Transfer.{Outcome, returns, ◌>>=◌}
use masters_sibren_wieme.Host.Backend
use masters_sibren_wieme.Host.Runtime.Kept.{
  backend-AllConfined, note-AllConfined, pushed-AllConfined, deleted-AllConfined,
  push_entry-AllConfined, list_devices-AllConfined, poll_events-AllConfined, ReturnsConfined,
}
use masters_sibren_wieme.Host.Runtime.Runs.{
  Run, started, initialised, listed_devices, enabled, called_back, polled, opened_device,
  dropped_device, dropped_handle, pushed_foreign, deleted, IsAllowedEntry, AllConfined,
}
use masters_sibren_wieme.Host.Backend.{
  Libusb, LibusbBackend, RawDeviceDescriptor, DeviceEntry, hotplug_cb, new,
}
use masters_sibren_wieme.Host.Backend.Hotplug.Log.{registered}
use masters_sibren_wieme.Host.Backend.Handles.{HandleCalls, open_device}
use masters_sibren_wieme.Host.Runtime.Table.{
  ResourceTable, IsDocumented, Entry, device, handle, foreign, as_device, as_handle,
}
use masters_sibren_wieme.Host.Runtime.Confined.{
  Confined, new-Confined, init_backend-Confined, enable_hotplug-Confined, hotplug_cb-Confined,
}
use masters_sibren_wieme.Host.Runtime.OnHandles.{drop_handle, close_handle, typed}
use masters_sibren_wieme.Host.Runtime.{
  MyState, opened, closed, unreferenced, note, expect, new_state, get_device, keep_handle,
  open_usb_device, unreference, drop_device, init, enable_hotplug,
}

module _ {T : Type 0} (tables : ResourceTable T) (documented : IsDocumented tables)
    (identity : ℕ → RawDeviceDescriptor) (policy : AllowedUsbDevices) where
  -- A registered policy is the host's.
  policies-get_elem? :
      (ps : List AllowedUsbDevices) (i : ℕ) (p : AllowedUsbDevices)
      → All (λ q. q ≡ policy) ps
      → get_elem? ps i ≡ some p
      → p ≡ policy
  policies-get_elem? [] i p good at = absurd (cc)
  policies-get_elem? (q ∷ ps) zero p good at = cc
  policies-get_elem? (q ∷ ps) (suc i) p good at = policies-get_elem? ps i p good.1 at

  open_with-AllConfined :
      (lib : HandleCalls) (o : Option Entry) (s : MyState T)
      → IsAllowedEntry identity policy o
      → AllConfined tables identity policy s
      → ReturnsConfined tables documented identity policy (
          expect (as_device o)
          >>= (λ dev. returns (keep_handle tables (open_device lib dev).0 (note (opened dev) s))))
  unfolding keep_handle
  open_with-AllConfined lib none s good h = tt
  open_with-AllConfined lib (some (handle x)) s good h = tt
  open_with-AllConfined lib (some (foreign x)) s good h = tt
  open_with-AllConfined lib (some (device dev)) s good h =
      go (open_device lib dev).0
        (note-AllConfined tables documented identity policy (opened dev) s good h)
    where
      go :
          (answer : Result ℕ)
          → AllConfined tables identity policy (note (opened dev) s)
          → AllConfined tables identity policy (keep_handle tables answer (note (opened dev) s)).1
      go (err e) k = k
      go (ok x) k =
          push_entry-AllConfined tables documented identity policy (handle x) (note (opened dev) s)
            tt k

  -- The state after a drop, if it returns.
  abbrev DropConfined : Outcome (MyState T) → Type 0
  DropConfined (returns t) = AllConfined tables identity policy t
  DropConfined _ = Unit

  close_handle-AllConfined :
      (o : Option ℕ) (s : MyState T) (t : T)
      → AllConfined tables identity policy (record s { table = t })
      → AllConfined tables identity policy (record (close_handle o s) { table = t })
  close_handle-AllConfined none s t h = h
  close_handle-AllConfined (some x) s t h =
      note-AllConfined tables documented identity policy (closed x) (record s { table = t }) tt h

  drop_with-AllConfined :
      (r : ℕ) (s : MyState T) (kept : Option ℕ) (o : Option T)
      → tables.delete r s.table ≡ o
      → AllConfined tables identity policy s
      → DropConfined (
          expect (typed kept o) >>= (λ t.
            returns (record (close_handle (as_handle (tables.get r s.table)) s) { table = t })))
  drop_with-AllConfined r s none o gone h = tt
  drop_with-AllConfined r s (some x) none gone h = tt
  drop_with-AllConfined r s (some x) (some t) gone h =
      close_handle-AllConfined (as_handle (tables.get r s.table)) s t
        (deleted-AllConfined tables documented identity policy r s t gone h)

  drop_handle-AllConfined :
      (r : ℕ) (s : MyState T)
      → AllConfined tables identity policy s
      → DropConfined (drop_handle tables r s)
  unfolding drop_handle
  drop_handle-AllConfined r s h =
      drop_with-AllConfined r s (as_handle (tables.get r s.table)) (tables.delete r s.table) refl h

  unreference-AllConfined :
      (o : Option ℕ) (s : MyState T)
      → AllConfined tables identity policy s
      → AllConfined tables identity policy (unreference o s)
  unreference-AllConfined none s h = h
  unreference-AllConfined (some dev) s h =
      note-AllConfined tables documented identity policy (unreferenced dev) s tt h

  -- In every state that the host reaches, the policy is the one it was started with, and every device
  -- that stands in the resource table, that waits in the hotplug queue, or that the host has ever
  -- asked libusb to open, is allowed by it.
  pub Run-AllConfined :
      (s : MyState T) → Run tables identity policy s → AllConfined tables identity policy s
  unfolding new_state init enable_hotplug drop_device open_usb_device get_device
  Run-AllConfined _ (started lib) = record {
    policy_kept = refl;
    backend_confined = init_backend-Confined identity policy lib new (new-Confined identity policy);
    table_allowed = λ r. rw (documented.get_empty r) tt;
    opened_allowed = tt;
  }
  Run-AllConfined _ (initialised lib s run) =
      let h = Run-AllConfined s run in
      backend-AllConfined tables documented identity policy s _
        (init_backend-Confined identity policy lib s.backend h.backend_confined) h
  Run-AllConfined _ (listed_devices lib s same run) =
      list_devices-AllConfined tables documented identity policy lib s same (Run-AllConfined s run)
  Run-AllConfined _ (enabled lib s run) =
      let h = Run-AllConfined s run in
      backend-AllConfined tables documented identity policy s _
        (subst (λ p. Confined identity policy (Backend.enable_hotplug lib p s.backend).1)
          (sym h.policy_kept)
          (enable_hotplug-Confined identity policy lib s.backend h.backend_confined))
        h
  Run-AllConfined _ (called_back lib i p dev ev s same at run) =
      let h = Run-AllConfined s run in
      backend-AllConfined tables documented identity policy s _
        (subst (λ q. Confined identity policy (hotplug_cb lib q dev ev s.backend))
          (sym (policies-get_elem? (registered s.backend.calls) i p h.backend_confined.policies at))
          (hotplug_cb-Confined identity policy lib dev ev s.backend same h.backend_confined))
        h
  Run-AllConfined _ (polled s t out gave run) =
      subst (ReturnsConfined tables documented identity policy) gave
        (poll_events-AllConfined tables documented identity policy s (Run-AllConfined s run))
  Run-AllConfined _ (opened_device lib r s t answer gave run) =
      let h = Run-AllConfined s run in
      subst (ReturnsConfined tables documented identity policy) gave
        (open_with-AllConfined lib (tables.get r s.table) s (h.table_allowed r) h)
  Run-AllConfined _ (dropped_device r s run) =
      unreference-AllConfined (as_device (tables.get r s.table)) s (Run-AllConfined s run)
  Run-AllConfined _ (dropped_handle r s t gone run) =
      subst DropConfined gone (drop_handle-AllConfined r s (Run-AllConfined s run))
  Run-AllConfined _ (pushed_foreign x r s t pushed run) =
      pushed-AllConfined tables documented identity policy (foreign x) s r t pushed tt
        (Run-AllConfined s run)
  Run-AllConfined _ (deleted r s t gone run) =
      deleted-AllConfined tables documented identity policy r s t gone (Run-AllConfined s run)
