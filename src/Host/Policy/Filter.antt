-- ===== src/Host/Policy/Filter.antt =====
-- Which devices a policy lets through, in terms of membership in the list of the command line.
use mathlib.Core.HLevel.{⊥_prop}
use mathlib.Core.List.{Mem, not-mem-nil, mem-cons, mem-cons_self, mem-cons_of_mem}
use mathlib.Core.Logic.Or
use masters_sibren_wieme.Prelude.{
  ◌≡◌, ◌↔◌, sym, List, [], ◌∷◌, true, false, Bool-cases, inl, inr, arith,
}
use masters_sibren_wieme.Host.Policy.{
  UsbDeviceIdentifier, same_device, contains, is_allowed, policy_of_cli,
}

same_device_iff : (a b : UsbDeviceIdentifier) → (same_device a b ≡ true) ↔ (a ≡ b)
unfolding same_device
same_device_iff a b = (λ h. ground arith, λ h. ground arith)

mem_of_contains :
    (ds : List UsbDeviceIdentifier) (d : UsbDeviceIdentifier) → contains ds d ≡ true → Mem d ds
unfolding contains
mem_of_contains [] d h = cc
mem_of_contains (e ∷ ds) d h = elim (Bool-cases (same_device e d)) [
  | inl here ↦ rw ((same_device_iff e d).0 here) mem-cons_self
  | inr there ↦ mem-cons_of_mem e (mem_of_contains ds d (ground arith))
]

contains_of_not :
    (ds : List UsbDeviceIdentifier) (d : UsbDeviceIdentifier) → contains ds d ≡ false → ¬ Mem d ds
unfolding contains
contains_of_not [] d h = not-mem-nil
contains_of_not (e ∷ ds) d h = λ m.
    Or.elim ⊥_prop (mem-cons.0 m) (λ here. ground (arith, (same_device_iff e d).1 (sym here)))
      (contains_of_not ds d (ground arith))

-- With `--use-allow-list` exactly the listed devices pass; without it exactly the others do.
pub is_allowed-mem :
    (devices : List UsbDeviceIdentifier) (d : UsbDeviceIdentifier)
    → ((is_allowed (policy_of_cli true devices) d ≡ true) ↔ Mem d devices)
      × ((is_allowed (policy_of_cli false devices) d ≡ true) ↔ (¬ Mem d devices))
unfolding is_allowed policy_of_cli
is_allowed-mem devices d = elim (Bool-cases (contains devices d)) [
  | inl yes' ↦ (
    (λ h. mem_of_contains devices d yes', λ m. yes'),
    (λ h. absurd (ground arith), λ n. absurd (n (mem_of_contains devices d yes'))),
  )
  | inr no' ↦ (
    (λ h. absurd (ground arith), λ m. absurd (contains_of_not devices d no' m)),
    (λ h. contains_of_not devices d no', λ n. rw no'),
  )
]
