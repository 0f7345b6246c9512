-- ===== src/Host/Backend/Hotplug/Log.antt =====
-- What the log of the backend's calls says: the registrations and the references that were taken.
use masters_sibren_wieme.Prelude.{ℕ, ◌≡◌, refl, List, [], ◌∷◌, ◌++◌}
use masters_sibren_wieme.Host.Policy.{AllowedUsbDevices}
use masters_sibren_wieme.Host.Backend.{
  Call, spawn_event_thread, ref_device, free_device_list, register_callback,
}

-- The policies that were registered, and the devices that were referenced, in order.
abbrev pub registered : List Call → List AllowedUsbDevices
registered [] = []
registered (register_callback policy ∷ calls) = policy ∷ registered calls
registered (spawn_event_thread _ ∷ calls) = registered calls
registered (ref_device _ ∷ calls) = registered calls
registered (free_device_list ∷ calls) = registered calls

pub registered-append : (cs ds : List Call) → registered (cs ++ ds) ≡ registered cs ++ registered ds
registered-append [] ds = refl
registered-append (spawn_event_thread _ ∷ cs) ds = registered-append cs ds
registered-append (ref_device _ ∷ cs) ds = registered-append cs ds
registered-append (free_device_list ∷ cs) ds = registered-append cs ds
registered-append (register_callback p ∷ cs) ds = rw (registered-append cs ds)

abbrev pub referenced : List Call → List ℕ
referenced [] = []
referenced (ref_device dev ∷ calls) = dev ∷ referenced calls
referenced (spawn_event_thread _ ∷ calls) = referenced calls
referenced (register_callback _ ∷ calls) = referenced calls
referenced (free_device_list ∷ calls) = referenced calls

pub referenced-append : (cs ds : List Call) → referenced (cs ++ ds) ≡ referenced cs ++ referenced ds
referenced-append [] ds = refl
referenced-append (ref_device d ∷ cs) ds = rw (referenced-append cs ds)
referenced-append (spawn_event_thread _ ∷ cs) ds = referenced-append cs ds
referenced-append (free_device_list ∷ cs) ds = referenced-append cs ds
referenced-append (register_callback _ ∷ cs) ds = referenced-append cs ds
