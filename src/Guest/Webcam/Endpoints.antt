-- ===== src/Guest/Webcam/Endpoints.antt =====
-- Which endpoint the camera streams from.
use mathlib.Core.List.{Mem, mem-cons_self, mem-cons_of_mem}
use masters_sibren_wieme.Prelude.{
  ◌≡◌, ◌≤◌, ◌⊎◌, ltb, Bool, true, false, Option, none, some, List, [], ◌∷◌, ◌++◌, refl, arith, All,
  Bool-cases, inl, inr, if◌then◌else◌, ◌∙◌, ap, sym, subst,
}
use masters_sibren_wieme.Host.Backend.Descriptors.{EndpointDescriptor, InterfaceDescriptor}
use masters_sibren_wieme.Guest.Webcam.{
  Candidate, candidate, is_iso_in, is_better, effective_size, best_endpoint, is_streaming,
  best_candidate,
}

-- The isochronous IN endpoints of one interface, and of all streaming interfaces.
abbrev pub endpoint_candidates : InterfaceDescriptor → List EndpointDescriptor → List Candidate
endpoint_candidates iface [] = []
endpoint_candidates iface (ep ∷ eps) =
    if is_iso_in ep
    then candidate iface ep ∷ endpoint_candidates iface eps
    else endpoint_candidates iface eps

abbrev pub candidates : List InterfaceDescriptor → List Candidate
candidates [] = []
candidates (iface ∷ ifaces) =
    if is_streaming iface
    then endpoint_candidates iface iface.endpoints ++ candidates ifaces
    else candidates ifaces

abbrev pub pick : List Candidate → Option Candidate → Option Candidate
pick [] best = best
pick (c ∷ cs) best = pick cs (if is_better best c.effective then some c else best)

pick-append :
    (cs ds : List Candidate) (best : Option Candidate)
    → pick (cs ++ ds) best ≡ pick ds (pick cs best)
pick-append [] ds best = refl
pick-append (c ∷ cs) ds best =
    pick-append cs ds (if is_better best c.effective then some c else best)

pick-better :
    (c : Candidate) (cs : List Candidate) (best : Option Candidate)
    → is_better best c.effective ≡ true
    → pick (c ∷ cs) best ≡ pick cs (some c)
pick-better c cs best h = ap (λ b. pick cs (if b then some c else best)) h

pick-worse :
    (c : Candidate) (cs : List Candidate) (best : Option Candidate)
    → is_better best c.effective ≡ false
    → pick (c ∷ cs) best ≡ pick cs best
pick-worse c cs best h = ap (λ b. pick cs (if b then some c else best)) h

endpoint_candidates-iso :
    (iface : InterfaceDescriptor) (ep : EndpointDescriptor) (eps : List EndpointDescriptor)
    → is_iso_in ep ≡ true
    → endpoint_candidates iface (ep ∷ eps) ≡ candidate iface ep ∷ endpoint_candidates iface eps
endpoint_candidates-iso iface ep eps h = rw h

best_endpoint-step :
    (iface : InterfaceDescriptor) (ep : EndpointDescriptor) (eps : List EndpointDescriptor)
    (best : Option Candidate) (b : Bool)
    → is_iso_in ep ≡ true
    → is_better best (effective_size ep) ≡ b
    → best_endpoint iface (ep ∷ eps) best
      ≡ best_endpoint iface eps (if b then some (candidate iface ep) else best)
unfolding best_endpoint
best_endpoint-step iface ep eps best true h k = rw (h, k)
best_endpoint-step iface ep eps best false h k = rw (h, k)

best_endpoint-pick :
    (iface : InterfaceDescriptor) (eps : List EndpointDescriptor) (best : Option Candidate)
    → best_endpoint iface eps best ≡ pick (endpoint_candidates iface eps) best
unfolding best_endpoint
best_endpoint-pick iface [] best = refl
best_endpoint-pick iface (ep ∷ eps) best = elim (Bool-cases (is_iso_in ep)) [
  | inr other ↦ rw other (best_endpoint-pick iface eps best)
  | inl iso ↦
      rw (endpoint_candidates-iso iface ep eps iso)
        (elim (Bool-cases (is_better best (effective_size ep))) [
          | inl better ↦
              best_endpoint-step iface ep eps best true iso better
              ∙ best_endpoint-pick iface eps (some (candidate iface ep))
              ∙ sym (pick-better (candidate iface ep) (endpoint_candidates iface eps) best better)
          | inr worse ↦
              best_endpoint-step iface ep eps best false iso worse
              ∙ best_endpoint-pick iface eps best
              ∙ sym (pick-worse (candidate iface ep) (endpoint_candidates iface eps) best worse)
        ])
]

best_candidate-pick :
    (ifaces : List InterfaceDescriptor) (best : Option Candidate)
    → best_candidate ifaces best ≡ pick (candidates ifaces) best
unfolding best_candidate
best_candidate-pick [] best = refl
best_candidate-pick (iface ∷ ifaces) best = elim (Bool-cases (is_streaming iface)) [
  | inr other ↦ simp other (best_candidate-pick ifaces best)
  | inl streaming ↦ simp streaming (
      ap (best_candidate ifaces) (best_endpoint-pick iface iface.endpoints best)
      ∙ best_candidate-pick ifaces (pick (endpoint_candidates iface iface.endpoints) best)
      ∙ sym (pick-append (endpoint_candidates iface iface.endpoints) (candidates ifaces) best))
]

-- The pick from a list, of which none is larger.
abbrev pub IsLargest : List Candidate → Candidate → Candidate → Type 0
IsLargest cs b c =
    (b.effective ≤ c.effective) × All (λ x. x.effective ≤ c.effective) cs × ((c ≡ b) ⊎ Mem c cs)

IsLargest-replace :
    (cs : List Candidate) (b d c : Candidate)
    → b.effective ≤ d.effective
    → IsLargest cs d c
    → IsLargest (d ∷ cs) b c
IsLargest-replace cs b d c h (k, ks, inl same) =
    (omega (arith, h, k), (k, ks), inr (subst (λ x. Mem x (d ∷ cs)) (sym same) mem-cons_self))
IsLargest-replace cs b d c h (k, ks, inr m) =
    (omega (arith, h, k), (k, ks), inr (mem-cons_of_mem d m))

IsLargest-keep :
    (cs : List Candidate) (b d c : Candidate)
    → d.effective ≤ b.effective
    → IsLargest cs b c
    → IsLargest (d ∷ cs) b c
IsLargest-keep cs b d c h (k, ks, inl same) = (k, (omega (arith, h, k), ks), inl same)
IsLargest-keep cs b d c h (k, ks, inr m) = (k, (omega (arith, h, k), ks), inr (mem-cons_of_mem d m))

pick-IsLargest :
    (cs : List Candidate) (b : Candidate)
    → (c : Candidate) × (pick cs (some b) ≡ some c) × IsLargest cs b c
pick-IsLargest [] b = (b, refl, (omega arith, tt, inl refl))
pick-IsLargest (d ∷ cs) b = elim (Bool-cases (ltb b.effective d.effective)) [
  | inl better ↦
      let m = pick-IsLargest cs d in
      (m.0, pick-better d cs (some b) better ∙ m.1, IsLargest-replace cs b d m.0 (ground arith) m.2)
  | inr worse ↦
      let m = pick-IsLargest cs b in
      (m.0, pick-worse d cs (some b) worse ∙ m.1, IsLargest-keep cs b d m.0 (ground arith) m.2)
]

Mem-first : (cs : List Candidate) (d c : Candidate) → (c ≡ d) ⊎ Mem c cs → Mem c (d ∷ cs)
Mem-first cs d c (inl same) = subst (λ x. Mem x (d ∷ cs)) (sym same) mem-cons_self
Mem-first cs d c (inr m) = mem-cons_of_mem d m

pick-largest :
    (cs : List Candidate)
    → ((cs ≡ []) × (pick cs none ≡ none))
      ⊎ ((c : Candidate) × (pick cs none ≡ some c)
          × Mem c cs
          × All (λ x. x.effective ≤ c.effective) cs)
pick-largest [] = inl (refl, refl)
pick-largest (d ∷ cs) =
    let m = pick-IsLargest cs d in inr (m.0, m.1, Mem-first cs d m.0 m.2.2, (m.2.0, m.2.1))

-- Without an isochronous IN endpoint on a streaming interface no endpoint is chosen; with some, one
-- of them is, and none carries more bytes in a packet.
pub best_candidate-largest :
    (ifaces : List InterfaceDescriptor)
    → ((candidates ifaces ≡ []) × (best_candidate ifaces none ≡ none))
      ⊎ ((c : Candidate) × (best_candidate ifaces none ≡ some c)
          × Mem c (candidates ifaces)
          × All (λ x. x.effective ≤ c.effective) (candidates ifaces))
best_candidate-largest ifaces =
    rw (best_candidate-pick ifaces none) (pick-largest (candidates ifaces))
