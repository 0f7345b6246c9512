-- ===== src/Host/Runtime/Lifecycle.antt =====
-- How long a resource lives: what `open`, `list_devices` and the two `drop`s do to the table.
use masters_sibren_wieme.Prelude.{
  ℕ, ◌≡◌, refl, Option, none, some, [], ◌∷◌, ◌++◌, inl, inr, ap, ◌==◌, ==_refl, ◌⊎◌, if◌then◌else◌,
}
use masters_sibren_wieme.Host.Errors.{Result, ok, err, other}
use masters_sibren_wieme.Host.Transfer.{Outcome, returns, panics}
use masters_sibren_wieme.Host.Backend.Handles.{HandleCalls, open_device}
use masters_sibren_wieme.Host.Runtime.Table.{
  ResourceTable, IsDocumented, Entry, device, handle, foreign, as_device, as_handle,
}
use masters_sibren_wieme.Host.Runtime.OnHandles.{drop_handle}
use masters_sibren_wieme.Host.Runtime.{
  MyState, opened, closed, unreferenced, note, expect, or_other, get_device, get_handle, push_entry,
  keep_handle, open_usb_device, drop_device,
}

expect-returns : (o : Option ℕ) (x : ℕ) → expect o ≡ returns x → o ≡ some x
expect-returns none x h = absurd (cc)
expect-returns (some y) x h = ap some (returns-injective h)
  where
    value_of : Outcome ℕ → ℕ
    value_of (returns z) = z
    value_of _ = x

    returns-injective : {y z : ℕ} → ◌≡◌ {A = Outcome ℕ} (returns y) (returns z) → y ≡ z
    returns-injective p = ap value_of p

as_handle-entry : (o : Option Entry) (x : ℕ) → as_handle o ≡ some x → o ≡ some (handle x)
as_handle-entry none x h = absurd (cc)
as_handle-entry (some (device y)) x h = absurd (cc)
as_handle-entry (some (foreign y)) x h = absurd (cc)
as_handle-entry (some (handle y)) x h = cc

module _ {T : Type 0} (tables : ResourceTable T) where
  -- What `open` comes to, by its answer.
  abbrev pub Opened : HandleCalls → ℕ → MyState T → Result ℕ × MyState T → Type 0
  Opened lib dev s (err e, t) =
      (t ≡ note (opened dev) s)
      × (((open_device lib dev).0 ≡ err e)
          ⊎ ((h : ℕ) × ((open_device lib dev).0 ≡ ok h)
              × (tables.push (handle h) s.table ≡ none)
              × (e ≡ other)))
  Opened lib dev s (ok r, t) =
      (h : ℕ) × ((open_device lib dev).0 ≡ ok h)
      × (t.host_calls ≡ s.host_calls ++ (opened dev ∷ []))
      × (tables.get r s.table ≡ none)
      × (get_handle tables r t ≡ returns h)
      × ((q : ℕ)
          → tables.get q t.table ≡ (if q == r then some (handle h) else tables.get q s.table))
      × (t.backend ≡ s.backend)

  -- Dropping a device that the guest holds gives up one reference to it, and nothing else: the
  -- resource stays in the table.
  pub drop_device-get_device :
      (r dev : ℕ) (s : MyState T)
      → get_device tables r s ≡ returns dev
      → (drop_device tables r s ≡ note (unreferenced dev) s)
        × (get_device tables r (drop_device tables r s) ≡ returns dev)
  unfolding drop_device get_device
  drop_device-get_device r dev s held =
      let at = expect-returns (as_device (tables.get r s.table)) dev held in
      (rw at refl, rw (at, at) refl)

module _ {T : Type 0} (tables : ResourceTable T) (documented : IsDocumented tables) where
  -- A guest that drops a handle that it holds makes libusb close that handle, once; the resource is
  -- then gone, so that every call on it panics, and every other resource is what it was.
  pub drop_handle-get_handle :
      (r h : ℕ) (s : MyState T)
      → get_handle tables r s ≡ returns h
      → (t : MyState T) × (drop_handle tables r s ≡ returns t)
        × (t.host_calls ≡ s.host_calls ++ (closed h ∷ []))
        × (get_handle tables r t ≡ panics)
        × ((q : ℕ) → tables.get q t.table ≡ (if q == r then none else tables.get q s.table))
        × (t.backend ≡ s.backend)
  unfolding drop_handle get_handle
  drop_handle-get_handle r h s held =
      let at = expect-returns (as_handle (tables.get r s.table)) h held in
      let here = as_handle-entry (tables.get r s.table) h at in
      let gone = documented.delete_present s.table r (handle h) here in
      let read = documented.get_delete s.table gone.0 r in
      (
        record (note (closed h) s) { table = gone.0 },
        rw (at, gone.1) refl,
        refl,
        rw (read r gone.1, ==_refl r) refl,
        (λ q. read q gone.1),
        refl,
      )

  -- Dropping a resource that the table does not have as a handle panics.
  drop_handle-absent :
      (r : ℕ) (s : MyState T)
      → as_handle (tables.get r s.table) ≡ none
      → drop_handle tables r s ≡ panics
  unfolding drop_handle
  drop_handle-absent r s absent = rw absent refl

  pushed-Opened :
      (lib : HandleCalls) (dev h : ℕ) (s : MyState T) (o : Option (ℕ × T))
      → (open_device lib dev).0 ≡ ok h
      → tables.push (handle h) s.table ≡ o
      → Opened tables lib dev s (or_other (note (opened dev) s) o)
  unfolding get_handle
  pushed-Opened lib dev h s none answered pushed = (refl, inr (h, answered, pushed, refl))
  pushed-Opened lib dev h s (some (r, t)) answered pushed =
      let fresh = documented.push_fresh (handle h) s.table t r pushed in
      let read = documented.get_push (handle h) s.table t r in
      (h, answered, refl, fresh, rw (read r pushed, ==_refl r) refl, (λ q. read q pushed), refl)

  keep_handle-Opened :
      (lib : HandleCalls) (dev : ℕ) (s : MyState T) (answer : Result ℕ)
      → (open_device lib dev).0 ≡ answer
      → Opened tables lib dev s (keep_handle tables answer (note (opened dev) s))
  unfolding keep_handle push_entry
  keep_handle-Opened lib dev s (err e) answered = (refl, inl answered)
  keep_handle-Opened lib dev s (ok h) answered =
      pushed-Opened lib dev h s (tables.push (handle h) s.table) answered refl

  -- Opening a device that the guest holds asks libusb to open that device, once. If libusb answers an
  -- error, the guest gets it, and if the table is full, it gets `other`; nothing else has then
  -- changed. Otherwise it gets a new resource, which stands for the handle that libusb wrote, and
  -- every resource that the table had is what it was.
  pub open_usb_device-Opened :
      (lib : HandleCalls) (r dev : ℕ) (s : MyState T)
      → get_device tables r s ≡ returns dev
      → (answer : Result ℕ × MyState T) × (open_usb_device tables lib r s ≡ returns answer)
        × Opened tables lib dev s answer
  unfolding open_usb_device
  open_usb_device-Opened lib r dev s held = (
    keep_handle tables (open_device lib dev).0 (note (opened dev) s),
    rw held refl,
    keep_handle-Opened lib dev s (open_device lib dev).0 refl,
  )
