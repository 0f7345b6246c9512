-- ===== src/Host/Runtime/Kept.antt =====
-- Pushing to the table, deleting from it, and the two loops that push devices keep the policy.
use masters_sibren_wieme.Prelude.{
  ℕ, ◌≡◌, refl, Bool-cases, Option, none, some, List, [], ◌∷◌, ◌++◌, inl, inr, subst, sym, All,
  ◌==◌,
}
use masters_sibren_wieme.Host.Errors.{Result, ok, err}
use masters_sibren_wieme.Host.Policy.{AllowedUsbDevices}
use masters_sibren_wieme.Host.Transfer.{Outcome, returns}
use masters_sibren_wieme.Host.Backend
use masters_sibren_wieme.Host.Runtime.Runs.{IsAllowedCall, IsAllowedEntry, AllConfined}
use masters_sibren_wieme.Host.Backend.{
  Libusb, LibusbBackend, RawDeviceDescriptor, DeviceEntry, hotplug_cb, new,
}
use masters_sibren_wieme.Host.Runtime.Table.{ResourceTable, IsDocumented, Entry, device}
use masters_sibren_wieme.Host.Runtime.Confined.{
  IsAllowedDevice, Confined, All-append, poll_events-Confined, AllAllowed, list_devices-Confined,
}
use masters_sibren_wieme.Host.Runtime.{
  MyState, HostCall, Listed, Polled, note, or_other, push_listed, push_polled, push_entry,
  push_devices, push_all, list_devices, push_events, poll_events,
}

module _ {T : Type 0} (tables : ResourceTable T) (documented : IsDocumented tables)
    (identity : ℕ → RawDeviceDescriptor) (policy : AllowedUsbDevices) where
  pub backend-AllConfined :
      (s : MyState T) (b : LibusbBackend)
      → Confined identity policy b
      → AllConfined tables identity policy s
      → AllConfined tables identity policy (record s { backend = b })
  backend-AllConfined s b good h = record {
    policy_kept = h.policy_kept;
    backend_confined = good;
    table_allowed = h.table_allowed;
    opened_allowed = h.opened_allowed;
  }

  pub note-AllConfined :
      (c : HostCall) (s : MyState T)
      → IsAllowedCall identity policy c
      → AllConfined tables identity policy s
      → AllConfined tables identity policy (note c s)
  note-AllConfined c s good h = record {
    policy_kept = h.policy_kept;
    backend_confined = h.backend_confined;
    table_allowed = h.table_allowed;
    opened_allowed = All-append _ s.host_calls (c ∷ []) h.opened_allowed (good, tt);
  }

  table-AllConfined :
      (s : MyState T) (t : T)
      → ((r : ℕ) → IsAllowedEntry identity policy (tables.get r t))
      → AllConfined tables identity policy s
      → AllConfined tables identity policy (record s { table = t })
  table-AllConfined s t good h = record {
    policy_kept = h.policy_kept;
    backend_confined = h.backend_confined;
    table_allowed = good;
    opened_allowed = h.opened_allowed;
  }

  pub pushed-AllConfined :
      (entry : Entry) (s : MyState T) (r : ℕ) (t : T)
      → tables.push entry s.table ≡ some (r, t)
      → IsAllowedEntry identity policy (some entry)
      → AllConfined tables identity policy s
      → AllConfined tables identity policy (record s { table = t })
  pushed-AllConfined entry s r t pushed good h =
      table-AllConfined s t
        (λ q. elim (Bool-cases (q == r)) [
          | inl same ↦ rw (documented.get_push entry s.table t r q pushed, same) good
          | inr other ↦
              rw (documented.get_push entry s.table t r q pushed, other) (h.table_allowed q)
        ])
        h

  pub deleted-AllConfined :
      (r : ℕ) (s : MyState T) (t : T)
      → tables.delete r s.table ≡ some t
      → AllConfined tables identity policy s
      → AllConfined tables identity policy (record s { table = t })
  deleted-AllConfined r s t gone h =
      table-AllConfined s t
        (λ q. elim (Bool-cases (q == r)) [
          | inl same ↦ rw (documented.get_delete s.table t r q gone, same) tt
          | inr other ↦ rw (documented.get_delete s.table t r q gone, other) (h.table_allowed q)
        ])
        h

  or_other-AllConfined :
      (entry : Entry) (s : MyState T) (o : Option (ℕ × T))
      → tables.push entry s.table ≡ o
      → IsAllowedEntry identity policy (some entry)
      → AllConfined tables identity policy s
      → AllConfined tables identity policy (or_other s o).1
  or_other-AllConfined entry s none pushed good h = h
  or_other-AllConfined entry s (some (r, t)) pushed good h =
      pushed-AllConfined entry s r t pushed good h

  pub push_entry-AllConfined :
      (entry : Entry) (s : MyState T)
      → IsAllowedEntry identity policy (some entry)
      → AllConfined tables identity policy s
      → AllConfined tables identity policy (push_entry tables entry s).1
  unfolding push_entry
  push_entry-AllConfined entry s good h =
      or_other-AllConfined entry s (tables.push entry s.table) refl good h

  push_listed-AllConfined :
      (rest : ℕ → MyState T → Result (List Listed) × MyState T) (p : Result ℕ × MyState T)
      → ((r : ℕ) (s : MyState T)
          → AllConfined tables identity policy s
          → AllConfined tables identity policy (rest r s).1)
      → AllConfined tables identity policy p.1
      → AllConfined tables identity policy (push_listed rest p).1
  push_listed-AllConfined rest (err e, s) good h = h
  push_listed-AllConfined rest (ok r, s) good h = good r s h

  push_devices-AllConfined :
      (devices : List DeviceEntry) (result : List Listed) (s : MyState T)
      → All (λ (entry : DeviceEntry). IsAllowedDevice identity policy entry.0) devices
      → AllConfined tables identity policy s
      → AllConfined tables identity policy (push_devices tables devices result s).1
  unfolding push_devices
  push_devices-AllConfined [] result s good h = h
  push_devices-AllConfined ((dev, desc, loc) ∷ devices) result s good h =
      push_listed-AllConfined _ (push_entry tables (device dev) s)
        (λ r s' k. push_devices-AllConfined devices (result ++ ((r, desc, loc) ∷ [])) s' good.1 k)
        (push_entry-AllConfined (device dev) s good.0 h)

  push_all-AllConfined :
      (answer : Result (List DeviceEntry)) (s : MyState T)
      → AllAllowed identity policy answer
      → AllConfined tables identity policy s
      → AllConfined tables identity policy (push_all tables answer s).1
  unfolding push_all
  push_all-AllConfined (err e) s good h = h
  push_all-AllConfined (ok devices) s good h = push_devices-AllConfined devices [] s good h

  -- The state that a call returns, if it does.
  abbrev pub ReturnsConfined : {A : Type 0} → Outcome (A × MyState T) → Type 0
  ReturnsConfined (returns p) = AllConfined tables identity policy p.1
  ReturnsConfined _ = Unit

  push_polled-AllConfined :
      (rest : ℕ → MyState T → Outcome (List Polled × MyState T)) (p : Result ℕ × MyState T)
      → ((r : ℕ) (s : MyState T)
          → AllConfined tables identity policy s
          → ReturnsConfined (rest r s))
      → AllConfined tables identity policy p.1
      → ReturnsConfined (push_polled rest p)
  push_polled-AllConfined rest (err e, s) good h = tt
  push_polled-AllConfined rest (ok r, s) good h = good r s h

  push_events-AllConfined :
      (events out : List Polled) (s : MyState T)
      → All (λ (entry : Polled). IsAllowedDevice identity policy entry.2) events
      → AllConfined tables identity policy s
      → ReturnsConfined (push_events tables events out s)
  unfolding push_events
  push_events-AllConfined [] out s good h = h
  push_events-AllConfined ((event, info, dev) ∷ events) out s good h =
      push_polled-AllConfined _ (push_entry tables (device dev) s)
        (λ r s' k. push_events-AllConfined events (out ++ ((event, info, r) ∷ [])) s' good.1 k)
        (push_entry-AllConfined (device dev) s good.0 h)

  pub list_devices-AllConfined :
      (lib : Libusb) (s : MyState T)
      → lib.device_descriptor ≡ identity
      → AllConfined tables identity policy s
      → AllConfined tables identity policy (list_devices tables lib s).1
  unfolding list_devices
  list_devices-AllConfined lib s same h =
      let kept =
        subst
          (λ p.
            AllAllowed identity policy (Backend.list_devices lib p s.backend).0
            × Confined identity policy (Backend.list_devices lib p s.backend).1)
          (sym h.policy_kept)
          (list_devices-Confined identity policy lib s.backend same h.backend_confined) in
      push_all-AllConfined (Backend.list_devices lib s.allowed_usb_devices s.backend).0 _ kept.0
        (backend-AllConfined s _ kept.1 h)

  pub poll_events-AllConfined :
      (s : MyState T)
      → AllConfined tables identity policy s
      → ReturnsConfined (poll_events tables s)
  unfolding poll_events
  poll_events-AllConfined s h =
      let kept = poll_events-Confined identity policy s.backend h.backend_confined in
      push_events-AllConfined (Backend.poll_events s.backend).0 [] _ kept.1
        (backend-AllConfined s _ kept.0 h)
