-- ===== src/Guest/BulkOnly/Discovery.antt =====
-- Which endpoints `new` picks.
use masters_sibren_wieme.Prelude.{
  ℕ, ◌≡◌, ◌==◌, Bool, true, false, not, ◌&&◌, List, [], ◌∷◌, refl, if◌then◌else◌, has_bit, low_bits,
  Bool-cases, inl, inr,
}
use masters_sibren_wieme.Host.Backend.Descriptors.{EndpointDescriptor}
use masters_sibren_wieme.Guest.BulkOnly.{find_endpoints}

-- The addresses of the bulk endpoints of one direction.
abbrev pub bulk_addresses : Bool → List EndpointDescriptor → List ℕ
bulk_addresses inward [] = []
bulk_addresses true (ep ∷ eps) =
    if low_bits ep.attributes 2 == 2 && has_bit 7 ep.endpoint_address
    then ep.endpoint_address ∷ bulk_addresses true eps
    else bulk_addresses true eps
bulk_addresses false (ep ∷ eps) =
    if low_bits ep.attributes 2 == 2 && not (has_bit 7 ep.endpoint_address)
    then ep.endpoint_address ∷ bulk_addresses false eps
    else bulk_addresses false eps

abbrev pub last_or : ℕ → List ℕ → ℕ
last_or d [] = d
last_or d (x ∷ xs) = last_or x xs

-- The device talks to the last bulk endpoint of each direction that the interface lists, whatever
-- else stands between them, and keeps the value it began with where there is none.
pub find_endpoints-last :
    (eps : List EndpointDescriptor) (bulk_in bulk_out : ℕ)
    → find_endpoints eps bulk_in bulk_out
      ≡ (last_or bulk_in (bulk_addresses true eps), last_or bulk_out (bulk_addresses false eps))
unfolding find_endpoints
find_endpoints-last [] bulk_in bulk_out = refl
find_endpoints-last (ep ∷ eps) bulk_in bulk_out =
    elim (Bool-cases (low_bits ep.attributes 2 == 2)) [
      | inr other ↦ simp other (find_endpoints-last eps bulk_in bulk_out)
      | inl is_bulk ↦ elim (Bool-cases (has_bit 7 ep.endpoint_address)) [
        | inl is_in ↦ simp (is_bulk, is_in) (find_endpoints-last eps ep.endpoint_address bulk_out)
        | inr is_out ↦ simp (is_bulk, is_out) (find_endpoints-last eps bulk_in ep.endpoint_address)
      ]
    ]
