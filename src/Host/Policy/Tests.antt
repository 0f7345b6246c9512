-- ===== src/Host/Policy/Tests.antt =====
-- Concrete runs of the policy, and its theorems at concrete inputs.
use masters_sibren_wieme.Prelude.{◌≡◌, refl, ℕ, List, [], ◌∷◌, arith}
use masters_sibren_wieme.Host.Policy.{
  UsbDeviceIdentifier, ok, err, invalid_format, invalid_product_id, push_front, split, hex_digit,
  digits_u16, from_str_radix, from_parts, from_str,
}
use masters_sibren_wieme.Host.Policy.Parsing.{format_id, from_str-format_id}

program : Unit {0}
unfolding push_front split hex_digit digits_u16 from_str_radix from_parts from_str
program = tt

-- The Logitech Brio of docs/architecture.md.
abbrev brio : UsbDeviceIdentifier
brio = record { vendor_id = 0x046d; product_id = 0x094c }

-- "046d:94C"
abbrev brio_text : List ℕ
brio_text = b'0' ∷ b'4' ∷ b'6' ∷ b'd' ∷ b':' ∷ b'9' ∷ b'4' ∷ b'C' ∷ []

parse_brio : from_str brio_text ≡ ok brio
unfolding program
parse_brio = refl

parse_too_wide :
    from_str (b'1' ∷ b':' ∷ b'1' ∷ b'0' ∷ b'0' ∷ b'0' ∷ b'0' ∷ []) ≡ err invalid_product_id
unfolding program
parse_too_wide = refl

parse_two_colons : from_str (b'1' ∷ b':' ∷ b'2' ∷ b':' ∷ []) ≡ err invalid_format
unfolding program
parse_two_colons = refl

from_str-format_id_example : from_str (format_id brio) ≡ ok brio
from_str-format_id_example = from_str-format_id brio (omega arith) (omega arith)
