-- ===== src/Host/Backend/Hotplug.antt =====
-- Hotplug over whole runs of the host: the calls of the backend and of libusb's event thread in any
-- order, each callback with a policy that was registered.
pub mod Log
use masters_sibren_wieme.Prelude.{
  ℕ, ◌≡◌, refl, Bool-cases, true, false, ◌==◌, Option, none, some, List, [], ◌∷◌, ◌++◌, map, inl,
  inr, append_assoc, append-nil, subst, ◌∙◌, sym, arith, All, if◌then◌else◌,
}
use masters_sibren_wieme.Prelude.Int.{is_negative}
use masters_sibren_wieme.Host.Policy.{AllowedUsbDevices, is_allowed}
use masters_sibren_wieme.Host.Backend.Hotplug.Log.{
  registered, registered-append, referenced, referenced-append,
}
use masters_sibren_wieme.Host.Backend.{
  Libusb, LibusbBackend, Event, Info, Call, spawn_event_thread, ref_device, free_device_list,
  register_callback, new, hotplug_cb, enable_hotplug, poll_events, drain, init_backend, init_with,
  register_with, push_entry, entry_for, accepted, event_of, device_id,
}

pub drain-append : (q out : List (Event × Info × ℕ)) → drain q out ≡ out ++ q
unfolding drain
drain-append [] out = rw (append-nil out)
drain-append (ev ∷ q) out = rw (drain-append q (out ++ (ev ∷ [])), append_assoc out (ev ∷ []) q)

abbrev pub Entry : Type 0
Entry = Event × Info × ℕ

abbrev pub entries : Option Entry → List Entry
entries none = []
entries (some entry) = entry ∷ []

-- The states of a run, with the entries that the callback accepted and with what polling has
-- returned. `policy` is what the host gives to every `enable_hotplug`; libusb calls back only after
-- a registration.
pub data Run (policy : AllowedUsbDevices) : LibusbBackend → List Entry → List Entry → Type 0 where
  started : Run policy new [] []
  initialised :
      (lib : Libusb) (s : LibusbBackend) (seen out : List Entry)
      → Run policy s seen out
      → Run policy (init_backend lib s).1 seen out
  enabled :
      (lib : Libusb) (s : LibusbBackend) (seen out : List Entry)
      → Run policy s seen out
      → Run policy (enable_hotplug lib policy s).1 seen out
  called_back :
      (lib : Libusb) (dev ev : ℕ) (s : LibusbBackend) (seen out : List Entry)
      → s.hotplug_enabled ≡ true
      → Run policy s seen out
      → Run policy
          (hotplug_cb lib policy dev ev s)
          (seen ++ entries (accepted lib policy dev ev))
          out
  polled :
      (s : LibusbBackend) (seen out : List Entry)
      → Run policy s seen out
      → Run policy (poll_events s).1 seen (out ++ (poll_events s).0)

abbrev pub entry_device : Entry → ℕ
entry_device entry = entry.2

abbrev pub IsAllowedEntry : AllowedUsbDevices → Entry → Type 0
IsAllowedEntry policy entry =
    is_allowed policy (record { vendor_id = entry.1.vendor; product_id = entry.1.product }) ≡ true

-- What holds of every state of a run, with the events polled so far.
pub record Consistent (policy : AllowedUsbDevices) (s : LibusbBackend) (seen out : List Entry)
    : Type 0 where
  registered_once : registered s.calls ≡ (if s.hotplug_enabled then policy ∷ [] else [])
  events_allowed : All (IsAllowedEntry policy) seen
  one_reference : referenced s.calls ≡ map entry_device seen
  nothing_lost : out ++ s.queue ≡ seen

All-snoc :
    (policy : AllowedUsbDevices) (xs : List Entry) (x : Entry)
    → All (IsAllowedEntry policy) xs
    → IsAllowedEntry policy x
    → All (IsAllowedEntry policy) (xs ++ (x ∷ []))
All-snoc policy [] x h p = (p, tt)
All-snoc policy (y ∷ xs) x h p = (h.0, All-snoc policy xs x h.1 p)

map-snoc :
    (xs : List Entry) (x : Entry)
    → map entry_device (xs ++ (x ∷ [])) ≡ map entry_device xs ++ (x.2 ∷ [])
map-snoc [] x = refl
map-snoc (y ∷ xs) x = rw (map-snoc xs x)

-- Neither the registrations, nor the references, nor the queue, nor the flag have changed.
Consistent-unchanged :
    (policy : AllowedUsbDevices) (s t : LibusbBackend) (seen out : List Entry)
    → registered t.calls ≡ registered s.calls
    → referenced t.calls ≡ referenced s.calls
    → t.hotplug_enabled ≡ s.hotplug_enabled
    → t.queue ≡ s.queue
    → Consistent policy s seen out
    → Consistent policy t seen out
Consistent-unchanged policy s t seen out same_registered same_referenced same_flag same_queue h =
    record {
      registered_once = rw (same_registered, same_flag) h.registered_once;
      events_allowed = h.events_allowed;
      one_reference = rw same_referenced h.one_reference;
      nothing_lost = rw same_queue h.nothing_lost;
    }

init_with-Consistent :
    (policy : AllowedUsbDevices) (s : LibusbBackend) (seen out : List Entry) (lib : Libusb)
    (context : Option ℕ)
    → Consistent policy s seen out
    → Consistent policy (init_with lib s context).1 seen out
unfolding init_with
init_with-Consistent policy s seen out lib (some _) h = h
init_with-Consistent policy s seen out lib none h = elim (Bool-cases (is_negative lib.init)) [
  | inl bad ↦ simp bad h
  | inr good ↦ simp good (
      Consistent-unchanged policy s _ seen out
        (registered-append s.calls (spawn_event_thread lib.init_context ∷ [])
          ∙ append-nil (registered s.calls))
        (referenced-append s.calls (spawn_event_thread lib.init_context ∷ [])
          ∙ append-nil (referenced s.calls))
        refl refl h)
]

register_with-Consistent :
    (policy : AllowedUsbDevices) (s : LibusbBackend) (seen out : List Entry) (lib : Libusb)
    (context : Option ℕ)
    → s.hotplug_enabled ≡ false
    → Consistent policy s seen out
    → Consistent policy (register_with lib policy s context).1 seen out
unfolding register_with
register_with-Consistent policy s seen out lib none off h = h
register_with-Consistent policy s seen out lib (some context) off h =
    elim (Bool-cases (is_negative lib.hotplug_register_callback)) [
      | inl bad ↦ simp bad h
      | inr good ↦ simp good (record {
        registered_once =
            registered-append s.calls (register_callback policy ∷ []) ∙ rw (h.registered_once, off);
        events_allowed = h.events_allowed;
        one_reference =
            referenced-append s.calls (register_callback policy ∷ [])
            ∙ append-nil (referenced s.calls)
            ∙ h.one_reference;
        nothing_lost = h.nothing_lost;
      })
    ]

enable_hotplug-Consistent :
    (policy : AllowedUsbDevices) (s : LibusbBackend) (seen out : List Entry) (lib : Libusb)
    → Consistent policy s seen out
    → Consistent policy (enable_hotplug lib policy s).1 seen out
unfolding enable_hotplug
enable_hotplug-Consistent policy s seen out lib h = elim (Bool-cases s.hotplug_enabled) [
  | inl on ↦ simp on h
  | inr off ↦ elim (Bool-cases (lib.has_capability_hotplug == 0)) [
    | inl unable ↦ simp (off, unable) h
    | inr able ↦ simp (off, able) (register_with-Consistent policy s seen out lib s.context off h)
  ]
]

entry_for-device :
    (lib : Libusb) (policy : AllowedUsbDevices) (dev : ℕ) (o : Option Event) (entry : Entry)
    → is_allowed policy (device_id (lib.device_descriptor dev)) ≡ true
    → entry_for lib dev o ≡ some entry
    → IsAllowedEntry policy entry × (entry.2 ≡ dev)
unfolding entry_for device_id
entry_for-device lib policy dev none entry good h = absurd (cc)
entry_for-device lib policy dev (some event) entry good h =
    (subst (λ (e : Option Entry). All (λ x. IsAllowedEntry policy x × (x.2 ≡ dev)) (entries e)) h
      ((good, refl), tt)).0

pub accepted-IsAllowedEntry :
    (lib : Libusb) (policy : AllowedUsbDevices) (dev ev : ℕ) (entry : Entry)
    → accepted lib policy dev ev ≡ some entry
    → IsAllowedEntry policy entry × (entry.2 ≡ dev)
unfolding accepted
accepted-IsAllowedEntry lib policy dev ev entry h =
    entry_for-device lib policy dev (event_of ev) entry (ground arith) (ground arith)

push_entry-Consistent :
    (policy : AllowedUsbDevices) (s : LibusbBackend) (seen out : List Entry) (dev : ℕ)
    (o : Option Entry)
    → ((entry : Entry) → o ≡ some entry → IsAllowedEntry policy entry × (entry.2 ≡ dev))
    → Consistent policy s seen out
    → Consistent policy (push_entry dev s o) (seen ++ entries o) out
unfolding push_entry
push_entry-Consistent policy s seen out dev none good h = rw (append-nil seen) h
push_entry-Consistent policy s seen out dev (some entry) good h = record {
  registered_once =
      registered-append s.calls (ref_device dev ∷ [])
      ∙ append-nil (registered s.calls)
      ∙ h.registered_once;
  events_allowed = All-snoc policy seen entry h.events_allowed (good entry refl).0;
  one_reference =
      referenced-append s.calls (ref_device dev ∷ [])
      ∙ rw (h.one_reference, map-snoc seen entry, (good entry refl).1);
  nothing_lost = sym (append_assoc out s.queue (entry ∷ [])) ∙ rw h.nothing_lost;
}

poll_events-Consistent :
    (policy : AllowedUsbDevices) (s : LibusbBackend) (seen out : List Entry)
    → Consistent policy s seen out
    → Consistent policy (poll_events s).1 seen (out ++ (poll_events s).0)
unfolding poll_events
poll_events-Consistent policy s seen out h = record {
  registered_once = h.registered_once;
  events_allowed = h.events_allowed;
  one_reference = h.one_reference;
  nothing_lost = rw (drain-append s.queue [], append-nil (out ++ s.queue)) h.nothing_lost;
}

-- In every state of a run the callback is registered at most once, with the host's policy, and it
-- is registered exactly when the flag says so; what polling has returned, followed by the queue, is
-- every accepted event, once and in the order of the callbacks; all of them are of devices that the
-- policy allows; and the backend has taken one reference for each.
pub Run-Consistent :
    (policy : AllowedUsbDevices) (s : LibusbBackend) (seen out : List Entry)
    → Run policy s seen out
    → Consistent policy s seen out
unfolding init_backend hotplug_cb
Run-Consistent policy _ _ _ started = record {
  registered_once = refl;
  events_allowed = tt;
  one_reference = refl;
  nothing_lost = refl;
}
Run-Consistent policy _ _ _ (initialised lib s seen out r) =
    init_with-Consistent policy s seen out lib s.context (Run-Consistent policy s seen out r)
Run-Consistent policy _ _ _ (enabled lib s seen out r) =
    enable_hotplug-Consistent policy s seen out lib (Run-Consistent policy s seen out r)
Run-Consistent policy _ _ _ (called_back lib dev ev s seen out on r) =
    push_entry-Consistent policy s seen out dev (accepted lib policy dev ev)
      (accepted-IsAllowedEntry lib policy dev ev) (Run-Consistent policy s seen out r)
Run-Consistent policy _ _ _ (polled s seen out r) =
    poll_events-Consistent policy s seen out (Run-Consistent policy s seen out r)
