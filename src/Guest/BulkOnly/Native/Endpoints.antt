-- ===== src/Guest/BulkOnly/Native/Endpoints.antt =====
-- Which endpoints `new` picks over `rusb`, next to those that it picks over the WIT interface.
use masters_sibren_wieme.Prelude.{
  ℕ, ◌≡◌, ◌==◌, ◌&&◌, Bool, true, false, Option, none, some, List, [], ◌∷◌, refl, if◌then◌else◌,
  has_bit, low_bits, Bool-cases, inl, inr,
}
use masters_sibren_wieme.Host.Backend.Descriptors.{EndpointDescriptor}
use masters_sibren_wieme.Guest.BulkOnly.{◌>>=◌, find_endpoints as wit_endpoints}
use masters_sibren_wieme.Guest.BulkOnly.Native.{Rusb, IsRusb, find_bulk, find_endpoints}

-- The addresses of the bulk endpoints, in the order of the interface.
abbrev pub bulk_of : List EndpointDescriptor → List ℕ
bulk_of [] = []
bulk_of (ep ∷ eps) =
    let rest = bulk_of eps in
    if low_bits ep.attributes 2 == 2 then ep.endpoint_address ∷ rest else rest

abbrev first_out : List ℕ → Option ℕ
first_out [] = none
first_out (x ∷ xs) = let rest = first_out xs in if has_bit 7 x then rest else some x

abbrev with_out_of : ℕ → Option ℕ → Option (ℕ × ℕ)
with_out_of bulk_in none = none
with_out_of bulk_in (some bulk_out) = some (bulk_in, bulk_out)

-- The first inward address, with the first outward one behind it.
abbrev pair_of : List ℕ → Option (ℕ × ℕ)
pair_of [] = none
pair_of (x ∷ xs) =
    let rest = pair_of xs in if has_bit 7 x then with_out_of x (first_out xs) else rest

abbrev last_of : List ℕ → ℕ → ℕ → ℕ × ℕ
last_of [] bulk_in bulk_out = (bulk_in, bulk_out)
last_of (x ∷ xs) bulk_in bulk_out =
    if has_bit 7 x then last_of xs x bulk_out else last_of xs bulk_in x

wit_endpoints-bulk_of :
    (eps : List EndpointDescriptor) (bulk_in bulk_out : ℕ)
    → wit_endpoints eps bulk_in bulk_out ≡ last_of (bulk_of eps) bulk_in bulk_out
unfolding wit_endpoints
wit_endpoints-bulk_of [] bulk_in bulk_out = refl
wit_endpoints-bulk_of (ep ∷ eps) bulk_in bulk_out =
    elim (Bool-cases (low_bits ep.attributes 2 == 2)) [
      | inr other ↦ simp other (wit_endpoints-bulk_of eps bulk_in bulk_out)
      | inl is_bulk ↦ elim (Bool-cases (has_bit 7 ep.endpoint_address)) [
        | inl is_in ↦ simp (is_bulk, is_in) (wit_endpoints-bulk_of eps ep.endpoint_address bulk_out)
        | inr is_out ↦
            simp (is_bulk, is_out) (wit_endpoints-bulk_of eps bulk_in ep.endpoint_address)
      ]
    ]

module _ {S : Type 0} (r : Rusb S) (doc : IsRusb r) where
  find_bulk-skip :
      (inwards : Bool) (ep : EndpointDescriptor) (eps : List EndpointDescriptor)
      → (low_bits ep.attributes 2 == 2) ≡ false
      → find_bulk r inwards (ep ∷ eps) ≡ find_bulk r inwards eps
  unfolding find_bulk
  find_bulk-skip inwards ep eps other = simp (doc.types ep, other, and_false)
    where
      and_false : (c : Bool) → (c && false) ≡ false
      and_false true = refl
      and_false false = refl

  find_bulk-first_out :
      (bulk_in : ℕ) (eps : List EndpointDescriptor)
      → ◌>>=◌ {B = ℕ × ℕ}
          (find_bulk r false eps)
          (λ found. some (bulk_in, found.0.endpoint_address))
        ≡ with_out_of bulk_in (first_out (bulk_of eps))
  unfolding find_bulk
  find_bulk-first_out bulk_in [] = refl
  find_bulk-first_out bulk_in (ep ∷ eps) = elim (Bool-cases (low_bits ep.attributes 2 == 2)) [
    | inr other ↦ simp (find_bulk-skip false ep eps other, other) (find_bulk-first_out bulk_in eps)
    | inl is_bulk ↦ elim (Bool-cases (has_bit 7 ep.endpoint_address)) [
      | inl is_in ↦
          simp (doc.directions ep, doc.types ep, is_bulk, is_in) (find_bulk-first_out bulk_in eps)
      | inr is_out ↦ simp (doc.directions ep, doc.types ep, is_bulk, is_out)
    ]
  ]

  find_endpoints-bulk_of :
      (eps : List EndpointDescriptor) → find_endpoints r eps ≡ pair_of (bulk_of eps)
  unfolding find_endpoints find_bulk
  find_endpoints-bulk_of [] = refl
  find_endpoints-bulk_of (ep ∷ eps) = elim (Bool-cases (low_bits ep.attributes 2 == 2)) [
    | inr other ↦ simp (find_bulk-skip true ep eps other, other) (find_endpoints-bulk_of eps)
    | inl is_bulk ↦ elim (Bool-cases (has_bit 7 ep.endpoint_address)) [
      | inl is_in ↦
          simp (doc.directions ep, doc.types ep, is_bulk, is_in)
            (find_bulk-first_out ep.endpoint_address eps)
      | inr is_out ↦
          simp (doc.directions ep, doc.types ep, is_bulk, is_out) (find_endpoints-bulk_of eps)
    ]
  ]

  -- For an interface with one bulk endpoint in each direction, whatever else it lists, `new` picks
  -- over `rusb` the two that it picks over the WIT interface, if the inward one comes first, and
  -- panics if the outward one does, which the other takes just as well.
  pub find_endpoints-order :
      (eps : List EndpointDescriptor) (bulk_in bulk_out : ℕ)
      → has_bit 7 bulk_in ≡ true
      → has_bit 7 bulk_out ≡ false
      → (bulk_of eps ≡ bulk_in ∷ bulk_out ∷ []
          → (find_endpoints r eps ≡ some (wit_endpoints eps 0 0))
            × (wit_endpoints eps 0 0 ≡ (bulk_in, bulk_out)))
        × (bulk_of eps ≡ bulk_out ∷ bulk_in ∷ []
            → (find_endpoints r eps ≡ none) × (wit_endpoints eps 0 0 ≡ (bulk_in, bulk_out)))
  find_endpoints-order eps bulk_in bulk_out is_in is_out = (
    λ inward_first. (
      rw (find_endpoints-bulk_of eps, wit_endpoints-bulk_of eps 0 0, inward_first, is_in, is_out),
      rw (wit_endpoints-bulk_of eps 0 0, inward_first, is_in, is_out),
    ),
    λ outward_first. (
      rw (find_endpoints-bulk_of eps, outward_first, is_in, is_out),
      rw (wit_endpoints-bulk_of eps 0 0, outward_first, is_in, is_out),
    ),
  )
