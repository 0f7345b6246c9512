-- ===== src/Host/Runtime/Confined.antt =====
-- What the policy of the host demands of the backend's state, and that the backend's operations keep it
-- when they are given that policy.
use masters_sibren_wieme.Prelude.{
  ℕ, ◌≡◌, refl, Bool-cases, true, ◌==◌, Option, none, some, List, [], ◌∷◌, ◌++◌, map, inl, inr,
  append_assoc, arith, subst, ◌∙◌, sym, All, ap,
}
use masters_sibren_wieme.Prelude.Int.{is_negative}
use masters_sibren_wieme.Host.Errors.{Result, ok, err}
use masters_sibren_wieme.Host.Policy.{AllowedUsbDevices, is_allowed}
use masters_sibren_wieme.Host.Backend.Devices.{
  is_visible, visible, entry_of, listing, listing_after, list_devices-visible,
}
use masters_sibren_wieme.Host.Backend.Hotplug.{Entry, entries, drain-append}
use masters_sibren_wieme.Host.Backend.Hotplug.Log.{registered, registered-append}
use masters_sibren_wieme.Host.Backend.{
  Libusb, LibusbBackend, RawDeviceDescriptor, Call, Event, DeviceEntry, DeviceList, listed, failed,
  spawn_event_thread, ref_device, free_device_list, register_callback, new, hotplug_cb,
  enable_hotplug, poll_events, init_backend, init_with, register_with, push_entry, accepted,
  entry_for, event_of, is_zero, device_id, list_devices,
}

-- `identity` is the descriptor of each device.
abbrev pub IsAllowedDevice : (ℕ → RawDeviceDescriptor) → AllowedUsbDevices → ℕ → Type 0
IsAllowedDevice identity policy dev = is_allowed policy (device_id (identity dev)) ≡ true

pub record Confined (identity : ℕ → RawDeviceDescriptor) (policy : AllowedUsbDevices)
    (s : LibusbBackend) : Type 0 where
  pub policies : All (λ p. p ≡ policy) (registered s.calls)
  pub queued : All (λ (entry : Entry). IsAllowedDevice identity policy entry.2) s.queue

pub All-append :
    {A : Type 0} → (P : A → Type 0) → (xs ys : List A) → All P xs → All P ys → All P (xs ++ ys)
All-append P [] ys h k = k
All-append P (x ∷ xs) ys h k = (h.0, All-append P xs ys h.1 k)

module _ (identity : ℕ → RawDeviceDescriptor) (policy : AllowedUsbDevices) where
  pub new-Confined : Confined identity policy new
  new-Confined = record { policies = tt; queued = tt }

  -- More calls, none of which registers another policy.
  calls-Confined :
      (s t : LibusbBackend) (more : List Call)
      → t.calls ≡ s.calls ++ more
      → t.queue ≡ s.queue
      → All (λ p. p ≡ policy) (registered more)
      → Confined identity policy s
      → Confined identity policy t
  calls-Confined s t more same same_queue good h = record {
    policies =
        subst (All (λ p. p ≡ policy)) (sym (ap registered same ∙ registered-append s.calls more))
          (All-append _ (registered s.calls) (registered more) h.policies good);
    queued =
        subst (All (λ (entry : Entry). IsAllowedDevice identity policy entry.2)) (sym same_queue)
          h.queued;
  }

  init_with-Confined :
      (lib : Libusb) (s : LibusbBackend) (context : Option ℕ)
      → Confined identity policy s
      → Confined identity policy (init_with lib s context).1
  unfolding init_with
  init_with-Confined lib s (some _) h = h
  init_with-Confined lib s none h = elim (Bool-cases (is_negative lib.init)) [
    | inl bad ↦ simp bad h
    | inr good ↦
        simp good (calls-Confined s _ (spawn_event_thread lib.init_context ∷ []) refl refl tt h)
  ]

  pub init_backend-Confined :
      (lib : Libusb) (s : LibusbBackend)
      → Confined identity policy s
      → Confined identity policy (init_backend lib s).1
  unfolding init_backend
  init_backend-Confined lib s h = init_with-Confined lib s s.context h

  register_with-Confined :
      (lib : Libusb) (s : LibusbBackend) (context : Option ℕ)
      → Confined identity policy s
      → Confined identity policy (register_with lib policy s context).1
  unfolding register_with
  register_with-Confined lib s none h = h
  register_with-Confined lib s (some context) h =
      elim (Bool-cases (is_negative lib.hotplug_register_callback)) [
        | inl bad ↦ simp bad h
        | inr good ↦
            simp good (calls-Confined s _ (register_callback policy ∷ []) refl refl (refl, tt) h)
      ]

  pub enable_hotplug-Confined :
      (lib : Libusb) (s : LibusbBackend)
      → Confined identity policy s
      → Confined identity policy (enable_hotplug lib policy s).1
  unfolding enable_hotplug
  enable_hotplug-Confined lib s h = elim (Bool-cases s.hotplug_enabled) [
    | inl on ↦ simp on h
    | inr off ↦ elim (Bool-cases (lib.has_capability_hotplug == 0)) [
      | inl unable ↦ simp (off, unable) h
      | inr able ↦ simp (off, able) (register_with-Confined lib s s.context h)
    ]
  ]

  pub poll_events-Confined :
      (s : LibusbBackend)
      → Confined identity policy s
      → Confined identity policy (poll_events s).1
        × All (λ (entry : Entry). IsAllowedDevice identity policy entry.2) (poll_events s).0
  unfolding poll_events
  poll_events-Confined s h =
      (record { policies = h.policies; queued = tt }, rw (drain-append s.queue []) h.queued)

  entry_for-IsAllowedDevice :
      (lib : Libusb) (dev : ℕ) (o : Option Event)
      → IsAllowedDevice identity policy dev
      → All
          (λ (entry : Entry). IsAllowedDevice identity policy entry.2)
          (entries (entry_for lib dev o))
  unfolding entry_for
  entry_for-IsAllowedDevice lib dev none good = tt
  entry_for-IsAllowedDevice lib dev (some event) good = (good, tt)

  accepted-IsAllowedDevice :
      (lib : Libusb) (dev ev : ℕ)
      → lib.device_descriptor ≡ identity
      → All
          (λ (entry : Entry). IsAllowedDevice identity policy entry.2)
          (entries (accepted lib policy dev ev))
  unfolding accepted
  accepted-IsAllowedDevice lib dev ev same =
      elim (Bool-cases (is_zero (lib.get_device_descriptor dev))) [
        | inr bad ↦ simp bad tt
        | inl good ↦ elim (Bool-cases (is_allowed policy (device_id (lib.device_descriptor dev)))) [
          | inr no' ↦ simp (good, no') tt
          | inl yes' ↦
              simp (good, yes')
                (entry_for-IsAllowedDevice lib dev (event_of ev)
                  (subst (λ f. IsAllowedDevice f policy dev) same yes'))
        ]
      ]

  push_entry-Confined :
      (dev : ℕ) (s : LibusbBackend) (o : Option Entry)
      → All (λ (entry : Entry). IsAllowedDevice identity policy entry.2) (entries o)
      → Confined identity policy s
      → Confined identity policy (push_entry dev s o)
  unfolding push_entry
  push_entry-Confined dev s none good h = h
  push_entry-Confined dev s (some entry) good h =
      let kept =
        calls-Confined s (record s { calls = s.calls ++ (ref_device dev ∷ []) })
          (ref_device dev ∷ []) refl refl tt h in
      record { policies = kept.policies; queued = All-append _ s.queue (entry ∷ []) h.queued good }

  pub hotplug_cb-Confined :
      (lib : Libusb) (dev ev : ℕ) (s : LibusbBackend)
      → lib.device_descriptor ≡ identity
      → Confined identity policy s
      → Confined identity policy (hotplug_cb lib policy dev ev s)
  unfolding hotplug_cb
  hotplug_cb-Confined lib dev ev s same h =
      push_entry-Confined dev s (accepted lib policy dev ev)
        (accepted-IsAllowedDevice lib dev ev same) h

  -- The devices of an answer to `list_devices`.
  abbrev pub AllAllowed : Result (List DeviceEntry) → Type 0
  AllAllowed (err e) = Unit
  AllAllowed (ok devices) =
      All (λ (entry : DeviceEntry). IsAllowedDevice identity policy entry.0) devices

  is_visible-is_allowed :
      (lib : Libusb) (dev : ℕ)
      → is_visible lib policy dev ≡ true
      → IsAllowedDevice lib.device_descriptor policy dev
  is_visible-is_allowed lib dev h = ground arith

  visible-IsAllowedDevice :
      (lib : Libusb) (devs : List ℕ)
      → lib.device_descriptor ≡ identity
      → All
          (λ (entry : DeviceEntry). IsAllowedDevice identity policy entry.0)
          (map (entry_of lib) (visible lib policy devs))
  visible-IsAllowedDevice lib [] same = tt
  visible-IsAllowedDevice lib (dev ∷ rest) same = elim (Bool-cases (is_visible lib policy dev)) [
    | inl yes' ↦ rw yes' (
      subst (λ f. IsAllowedDevice f policy dev) same (is_visible-is_allowed lib dev yes'),
      visible-IsAllowedDevice lib rest same,
    )
    | inr no' ↦ rw no' (visible-IsAllowedDevice lib rest same)
  ]

  registered-listing :
      (devs : List ℕ) → registered (map ref_device devs ++ (free_device_list ∷ [])) ≡ []
  registered-listing [] = refl
  registered-listing (dev ∷ devs) = registered-listing devs

  listing_after-Confined :
      (lib : Libusb) (s : LibusbBackend) (answer : DeviceList)
      → lib.device_descriptor ≡ identity
      → Confined identity policy s
      → AllAllowed (listing_after lib policy s answer).0
        × Confined identity policy (listing_after lib policy s answer).1
  listing_after-Confined lib s (failed n) same h = (tt, h)
  listing_after-Confined lib s (listed devs) same h = (
    visible-IsAllowedDevice lib devs same,
    calls-Confined s _ (map ref_device (visible lib policy devs) ++ (free_device_list ∷ []))
        (append_assoc s.calls (map ref_device (visible lib policy devs)) (free_device_list ∷ []))
        refl (subst (All (λ p. p ≡ policy)) (sym (registered-listing (visible lib policy devs))) tt)
        h,
  )

  listing-Confined :
      (lib : Libusb) (s : LibusbBackend) (context : Option ℕ)
      → lib.device_descriptor ≡ identity
      → Confined identity policy s
      → AllAllowed (listing lib policy s context).0
        × Confined identity policy (listing lib policy s context).1
  listing-Confined lib s none same h = (tt, h)
  listing-Confined lib s (some context) same h =
      listing_after-Confined lib s (lib.get_device_list context) same h

  pub list_devices-Confined :
      (lib : Libusb) (s : LibusbBackend)
      → lib.device_descriptor ≡ identity
      → Confined identity policy s
      → AllAllowed (list_devices lib policy s).0
        × Confined identity policy (list_devices lib policy s).1
  list_devices-Confined lib s same h =
      rw (list_devices-visible lib policy s) (listing-Confined lib s s.context same h)
